-- ===== src/Data.antt =====
-- The commands on data of code/src/tcl/adlb/tcl-adlb.c. A command takes the words behind its name and
-- returns the text of its result, `none` for TCL_ERROR. The ADLB library is a parameter: functions
-- over a state of its own, which stays as it is in what a command does before it calls one. Messages
-- and memory that is freed are left out, and so are the copies of data in buffers of a fixed size.
use exm_turbine.Common.{
  ℕ, zero, suc, Bool, true, false, Option, none, some, List, [], ◌∷◌, ℤ, take, Outcome, done, fault,
  starved,
}
use exm_turbine.Codes.{AdlbCode, adlb_success, adlb_nothing}
use exm_turbine.Handle.{
  Bytes, HandleEnv, SubKind, SubParse, Subscript, no_key, text, inside, parse_handle,
  parse_subscript,
}
use exm_turbine.Packing.{DataType, FullType, PackEnv}
pub mod Access
pub mod Create
pub mod Nested
pub mod Counts
pub mod Types
pub mod Enumerate
pub mod Shapes
pub mod StoreRetrieve
pub mod Twice
pub mod Ignored
pub mod Spin
pub mod Tests

-- `adlb_refc`, `adlb_retrieve_refc` and `adlb_create_props`.
pub record Refc : Type 0 where
  pub read : ℤ
  pub write : ℤ

pub record RetrieveRefc : Type 0 where
  pub decr_self : Refc
  pub incr_referand : Refc

pub record CreateProps : Type 0 where
  pub read_refcount : ℤ
  pub write_refcount : ℤ
  pub symbol : ℤ
  pub permanent : Bool
  pub release_write_refs : Bool

-- `ADLB_create_spec`.
pub record CreateSpec : Type 0 where
  pub id : ℤ
  pub type : FullType
  pub props : CreateProps

-- A part of a command: what it leads to from a state, and the state then. `none` is TCL_ERROR.
abbrev pub Cmd : Type 0 → Type 0 → Type 0
Cmd S A = S → Outcome (Option A × S)

abbrev pub and_next :
    {S A B : Type 0} → (A → Cmd S B) → Outcome (Option A × S) → Outcome (Option B × S)
and_next f (done (none, s)) = done (none, s)
and_next f (done (some a, s)) = f a s
and_next f fault = fault
and_next f starved = starved

infixl 5 ◌>>=◌
abbrev pub ◌>>=◌ : {S A B : Type 0} → Cmd S A → (A → Cmd S B) → Cmd S B
(m >>= f) s = and_next f (m s)

abbrev pub pure : {S A : Type 0} → A → Cmd S A
pure a s = done (some a, s)

abbrev pub with_state : {S A : Type 0} → S → Outcome (Option A) → Outcome (Option A × S)
with_state s (done o) = done (o, s)
with_state s fault = fault
with_state s starved = starved

-- A function that does not call ADLB.
abbrev pub lift : {S A : Type 0} → Outcome (Option A) → Cmd S A
lift m s = with_state s m

abbrev pub demand : {S A : Type 0} → Option A → Cmd S A
demand o s = done (o, s)

-- TCL_CONDITION.
abbrev pub condition : {S : Type 0} → Bool → Cmd S Unit
condition true s = done (some tt, s)
condition false s = done (none, s)

-- assert.
abbrev pub asserted : {S : Type 0} → Bool → Cmd S Unit
asserted true s = done (some tt, s)
asserted false s = fault

abbrev pub call : {S A : Type 0} → (S → A × S) → Cmd S A
call f s = let r = f s in done (some (r.0), r.1)

-- `objv[argpos++]`, which is read where there is no argument left as well.
abbrev pub next : {S : Type 0} → List Bytes → Cmd S (Bytes × List Bytes)
next [] s = fault
next (w ∷ ws) s = done (some (w, ws), s)

abbrev pub is_success : AdlbCode → Bool
is_success adlb_success = true
is_success _ = false

abbrev pub is_nothing : AdlbCode → Bool
is_nothing adlb_nothing = true
is_nothing _ = false

abbrev pub is_end : List Bytes → Bool
is_end [] = true
is_end (w ∷ ws) = false

-- What ADLB reads of a subscript. A key inside a buffer lies in the buffer it comes with.
abbrev pub sub_key : SubParse → Option Bytes
sub_key p = elim (p.val.key) [
  | no_key ↦ none
  | text t ↦ some (take p.val.length t)
  | inside q ↦ some (take p.val.length p.buf.bytes)
]

pub record DataEnv : Type 1 where
  pub State : Type 0
  pub handles : HandleEnv
  pub packing : PackEnv
  -- Tcl_GetIntFromObj, Tcl_GetBooleanFromObj, Tcl_NewBooleanObj.
  pub get_int : Bytes → Option ℤ
  pub get_boolean : Bytes → Option Bool
  pub bool_text : Bool → Bytes
  -- ADLB's inline functions and constants.
  pub has_sub : Subscript → Bool
  pub is_compound : DataType → Bool
  pub no_refc : Refc
  pub read_refc : Refc
  pub write_refc : Refc
  pub retrieve_no_refc : RetrieveRefc
  pub default_props : CreateProps
  pub null_id : ℤ
  -- ADLB_Store(id, sub, type, data, decr, store_refcounts), ADLB_Retrieve, ADLB_Exists,
  -- ADLB_Refcount_get, and ADLB_Insert_atomic: whether it was created, and the value where there is
  -- one.
  pub store : ℤ → Option Bytes → DataType → Bytes → Refc → Refc → State → AdlbCode × State
  pub retrieve : ℤ → Option Bytes → RetrieveRefc → State → (AdlbCode × DataType × Bytes) × State
  pub exists : ℤ → Option Bytes → Refc → State → (AdlbCode × Bool) × State
  pub refcount_get : ℤ → Refc → State → (AdlbCode × Refc) × State
  pub insert_atomic :
      ℤ
      → Option Bytes
      → RetrieveRefc
      → State
      → (AdlbCode × Bool × Option (DataType × Bytes)) × State
  -- ADLB_Create and the functions for one type each, ADLB_Multicreate, ADLB_Alloc_global and
  -- whether ADLB_Locate gives the caller's rank.
  pub create : CreateSpec → State → (AdlbCode × ℤ) × State
  pub multicreate : List CreateSpec → State → (AdlbCode × List ℤ) × State
  pub alloc_global : ℕ → State → (AdlbCode × ℤ) × State
  pub is_local : ℤ → Bool
  -- ADLB_Pack_ref of a reference to an id.
  pub pack_ref : ℤ → Option Bytes

module _ (e : DataEnv) where
  open e use {State, handles, get_int}

  abbrev pub parsed_handle : Bytes → Cmd State (ℤ × SubParse)
  parsed_handle obj = lift (parse_handle handles obj true)

  -- The subscript that a word adds to a handle.
  abbrev pub with_subscript : SubKind → Bytes → SubParse → Cmd State SubParse
  with_subscript kind obj p = lift (parse_subscript handles kind obj p true true)

  abbrev pub int_arg : List Bytes → Cmd State (ℤ × List Bytes)
  int_arg ws = next ws >>= λ w. demand (get_int (w.0)) >>= λ n. pure (n, w.1)

  -- An argument that may be left out.
  abbrev pub optional_int : ℤ → List Bytes → Cmd State (ℤ × List Bytes)
  optional_int n [] = pure (n, [])
  optional_int n (w ∷ ws) = demand (get_int w) >>= λ m. pure (m, ws)
