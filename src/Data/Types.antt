-- ===== src/Data/Types.antt =====
-- Types of data, locks, subscriptions and new ids.
use exm_turbine.Common.{Bool, true, Option, none, List, [], ◌∷◌, ℤ}
use exm_turbine.Codes.{AdlbCode}
use exm_turbine.Handle.{Bytes, parse_handle}
use exm_turbine.Packing.{DataType}
use exm_turbine.Data.{
  Cmd, ◌>>=◌, pure, lift, demand, condition, asserted, call, is_success, sub_key, DataEnv,
}

-- What the ADLB library does for these commands.
pub record TypesEnv (e : DataEnv) : Type 0 where
  -- ADLB_Typeof, ADLB_Container_typeof (the types of keys and values) and ADLB_Data_type_tostring.
  pub typeof : ℤ → e.State → (AdlbCode × DataType) × e.State
  pub container_typeof : ℤ → e.State → (AdlbCode × DataType × DataType) × e.State
  pub type_name : DataType → Bytes
  -- ADLB_Subscribe(id, sub, work_type), ADLB_Lock, ADLB_Unlock and ADLB_Unique.
  pub subscribe : ℤ → Option Bytes → ℤ → e.State → (AdlbCode × ℤ) × e.State
  pub lock : ℤ → e.State → (AdlbCode × Bool) × e.State
  pub unlock : ℤ → e.State → AdlbCode × e.State
  pub unique : e.State → (AdlbCode × ℤ) × e.State

module _ (e : DataEnv) (t : TypesEnv e) where
  open e use {State, handles, packing, get_int, bool_text}

  pub typeof_cmd : List Bytes → Cmd State Bytes
  typeof_cmd (obj ∷ []) = do
    id ← demand (packing.get_int obj)
    r ← call (t.typeof id)
    _ ← condition (is_success (r.0))
    pure (t.type_name (r.1))
  typeof_cmd _ = demand none

  -- The type of the values is put before that of the keys.
  unfoldable pub container_typeof_cmd : List Bytes → Cmd State Bytes
  container_typeof_cmd (obj ∷ []) = do
    id ← demand (packing.get_int obj)
    r ← call (t.container_typeof id)
    _ ← condition (is_success (r.0))
    pure (packing.list_text (t.type_name (r.2) ∷ t.type_name (r.1) ∷ []))
  container_typeof_cmd _ = demand none

  pub subscribe_cmd : List Bytes → Cmd State Bytes
  subscribe_cmd (obj ∷ work_type ∷ []) = do
    h ← lift (parse_handle handles obj true)
    n ← demand (get_int work_type)
    r ← call (t.subscribe (h.0) (sub_key (h.1)) n)
    _ ← condition (is_success (r.0))
    pure (packing.int_text (r.1))
  subscribe_cmd _ = demand none

  pub lock_cmd : List Bytes → Cmd State Bytes
  lock_cmd (obj ∷ []) = do
    id ← demand (packing.get_int obj)
    r ← call (t.lock id)
    _ ← condition (is_success (r.0))
    pure (bool_text (r.1))
  lock_cmd _ = demand none

  pub unlock_cmd : List Bytes → Cmd State Bytes
  unlock_cmd (obj ∷ []) = do
    id ← demand (packing.get_int obj)
    rc ← call (t.unlock id)
    _ ← condition (is_success rc)
    pure []
  unlock_cmd _ = demand none

  -- Where ADLB gives no id an assertion fails.
  pub unique_cmd : List Bytes → Cmd State Bytes
  unique_cmd [] = do
    r ← call (t.unique)
    _ ← asserted (is_success (r.0))
    pure (packing.int_text (r.1))
  unique_cmd _ = demand none
