-- ===== src/Data/StoreRetrieve.antt =====
-- adlb::store and then adlb::retrieve.
use exm_turbine.Common.{
  ℕ, ◌≤◌, ◌<◌, ◌⊎◌, ◌≡◌, false, Option, none, some, [], ◌∷◌, ◌++◌, ℤ, pos, length, Outcome, done,
  if◌then◌else◌,
}
use exm_turbine.Codes.{AdlbCode, adlb_success}
use exm_turbine.Handle.{Bytes}
use exm_turbine.Packing.{DataType, integer, float, string, blob, ref, no_type, no_extra, PackEnv}
use exm_turbine.Packing.Unpack.{datum2tclobj}
use exm_turbine.Packing.Canonical.{IsSingle, PackLaws}
use exm_turbine.Data.{DataEnv, is_success}
use exm_turbine.Data.Access.{retrieve_impl, read_refc_of}

-- A datum that ADLB has accepted is no larger than ADLB allows. Where it is not a container, a multiset
-- or a struct, which ADLB keeps in a form of its own, the bytes are what the next ADLB_Retrieve gives,
-- if that succeeds.
pub record RetrieveLaws (e : DataEnv) : Type 0 where
  pub stored_fits :
      (id : ℤ) (sub : Option Bytes) (t : DataType) (bytes : Bytes) (s s1 : e.State)
      → e.store id sub t bytes e.write_refc e.read_refc s ≡ (adlb_success, s1)
      → length bytes ≤ e.packing.data_max
  pub stored_retrieved :
      (id : ℤ) (sub : Option Bytes) (t found : DataType) (bytes read : Bytes) (s s1 s2 : e.State)
      → IsSingle t
      → e.store id sub t bytes e.write_refc e.read_refc s ≡ (adlb_success, s1)
      → e.retrieve id sub (read_refc_of e (pos 0)) s1 ≡ ((adlb_success, found, read), s2)
      → (found ≡ t) × (read ≡ bytes)

-- What a command that only waits for ADLB's code returns.
abbrev pub accepted : AdlbCode → Option Bytes
accepted rc = if is_success rc then some [] else none

module _ (p : PackEnv) (l : PackLaws p) (depth : ℕ) where
  -- What append_single makes of a packed datum.
  abbrev appended : Option Bytes → Outcome (Option Bytes)
  appended none = done none
  appended (some b) = done (some ([] ++ p.entry no_type false b))

module _ (e : DataEnv) (l : PackLaws e.packing) (r : RetrieveLaws e) where
  open e use {State, handles, packing, store, retrieve, write_refc, read_refc}

  -- What `retrieve_impl` returns of a value, by ADLB's code.
  abbrev pub answer : Bytes → AdlbCode → Option Bytes
  answer o rc = if is_success rc then some o else none

  -- The handle is retrieved: the value, or nothing where ADLB refuses.
  abbrev pub Read : ℕ → Bytes → Bytes → ℤ → Option Bytes → State → Type 0
  Read d h o id sub s1 =
      let a = retrieve id sub (read_refc_of e (pos 0)) s1 in
      retrieve_impl e d false (h ∷ []) s1 ≡ done (answer o (a.0.0), a.1)

  -- What follows a code of ADLB for the store of a value of a type.
  abbrev pub Retrieved : ℕ → Bytes → Bytes → ℤ → Option Bytes → DataType → AdlbCode → State → Type 0
  Retrieved d h o id sub integer adlb_success s1 = Read d h o id sub s1
  Retrieved d h o id sub float adlb_success s1 = Read d h o id sub s1
  Retrieved d h o id sub string adlb_success s1 = Read d h o id sub s1
  Retrieved d h o id sub blob adlb_success s1 = Read d h o id sub s1
  Retrieved d h o id sub ref adlb_success s1 = Read d h o id sub s1
  Retrieved d h o id sub _ _ s1 = Unit

  -- The bytes are too large for ADLB, or are read back as the value.
  abbrev pub Holds : ℕ → DataType → Bytes → Bytes → Type 0
  Holds d t packed o =
      (packing.data_max < length packed)
      ⊎ (datum2tclobj packing d (t, no_extra) packed ≡ done (some o))
