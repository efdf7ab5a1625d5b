-- ===== src/Data/Nested.antt =====
-- adlb::create_nested and its variants: the datum at a subscript, made where there is none.
use exm_turbine.Common.{
  ℕ, zero, suc, ◌+◌, ◌*◌, ◌^◌, ◌-◌, Option, none, some, List, [], ◌∷◌, ℤ, pos, negsuc, leb, length,
  Outcome, done, fault, starved, if◌then◌else◌,
}
use exm_turbine.Handle.{Bytes, SubKind, SubParse}
use exm_turbine.Packing.{DataType, no_type, ref, no_extra, FullType}
use exm_turbine.Packing.Unpack.{type_eq, datum2tclobj}
use exm_turbine.Data.{
  Refc, RetrieveRefc, CreateSpec, Cmd, ◌>>=◌, pure, lift, demand, condition, call, is_success,
  is_nothing, sub_key, DataEnv,
}
use exm_turbine.Data.Access.{subscripted, nested_refcounts}
use exm_turbine.Data.Create.{type_extra_from_array, type_from_array}

-- `2 << 24`.
abbrev pub init_count : ℕ
init_count = 2 * 2 ^ 24

-- An int plus `init_count`, which the code does not guard against overflow.
abbrev pub add_init : ℤ → ℤ
add_init (pos n) = pos (init_count + n)
add_init (negsuc n) =
    if leb (suc n) init_count then pos (init_count - suc n) else negsuc (n - init_count)

-- The return code is not looked at: what failed is a result that is NULL.
abbrev pub or_null : Outcome (Option Bytes) → Outcome (Option Bytes)
or_null (done none) = fault
or_null o = o

module _ (e : DataEnv) where
  open e use {
    State, packing, has_sub, is_compound, default_props, null_id, retrieve_no_refc, store, retrieve,
    insert_atomic, create, pack_ref,
  }

  -- The full type: of a type that is given, or of the one that the next word names.
  abbrev pub nested_type : DataType → List Bytes → Cmd State (FullType × List Bytes)
  nested_type no_type [] s = fault
  nested_type no_type (name ∷ words) s = elim (type_from_array e name words) [
    | none ↦ done (none, s)
    | some (t, none) ↦ done (none, s)
    | some (t, some (x, rest)) ↦ done (some ((t, x), rest), s)
  ]
  nested_type t words s = elim (type_extra_from_array e t words) [
    | none ↦ done (none, s)
    | some (x, rest) ↦ done (some ((t, x), rest), s)
  ]

  abbrev pub init_refs : Refc
  init_refs = record { read = pos init_count; write = pos init_count }

  abbrev pub nested_spec : FullType → RetrieveRefc → CreateSpec
  nested_spec type refcounts = record {
    id = null_id;
    type = type;
    props = record default_props {
      release_write_refs = is_compound (type.0);
      read_refcount = add_init refcounts.incr_referand.read;
      write_refcount = add_init refcounts.incr_referand.write;
    };
  }

  -- The branch where the entry was made by this call: the datum is created and a reference to it stored.
  unfoldable pub fill_nested : ℤ → SubParse → FullType → RetrieveRefc → Cmd State Bytes
  fill_nested id sub type refcounts = do
    r ← call (create (nested_spec type refcounts))
    _ ← condition (is_success (r.0))
    packed ← demand (pack_ref (r.1))
    rc ← call (store id (sub_key sub) ref packed refcounts.decr_self init_refs)
    _ ← condition (is_success rc)
    pure (packing.int_text (r.1))

  -- The loop that waits for the value that another call is storing, for some rounds.
  unfoldable pub await_value : ℕ → ℤ → SubParse → RetrieveRefc → Cmd State (DataType × Bytes)
  await_value zero id sub refcounts = λ s. starved
  await_value (suc rounds) id sub refcounts = do
    r ← call (retrieve id (sub_key sub) refcounts)
    if is_nothing (r.0)
        then await_value rounds id sub refcounts
        else (condition (is_success (r.0)) >>= λ u. pure (r.1, r.2))

  abbrev pub found_value :
      ℕ → ℤ → SubParse → RetrieveRefc → Option (DataType × Bytes) → Cmd State (DataType × Bytes)
  found_value rounds id sub refcounts (some v) = pure v
  found_value rounds id sub refcounts none = await_value rounds id sub refcounts

  unfoldable pub read_nested :
      ℕ → ℤ → SubParse → RetrieveRefc → Option (DataType × Bytes) → Cmd State Bytes
  unfolding await_value
  read_nested rounds id sub refcounts value = do
    v ← found_value rounds id sub refcounts value
    _ ← condition (type_eq (v.0) ref)
    lift (or_null (datum2tclobj packing 1 (ref, no_extra) (v.1)))

  -- Where ADLB_Insert_atomic fails the entry is read without counts, for the message only.
  abbrev pub explain_failure : ℤ → SubParse → Cmd State Bytes
  explain_failure id sub = do _ ← call (retrieve id (sub_key sub) retrieve_no_refc); demand none

  unfoldable pub nested_at : ℕ → ℤ → SubParse → FullType → RetrieveRefc → Cmd State Bytes
  unfolding fill_nested read_nested
  nested_at rounds id sub type refcounts = do
    r ← call (insert_atomic id (sub_key sub) refcounts)
    if is_success (r.0)
        then (if r.1
            then fill_nested id sub type refcounts
            else read_nested rounds id sub refcounts (r.2))
        else explain_failure id sub

  pub create_nested_impl : ℕ → DataType → SubKind → List Bytes → Cmd State Bytes
  unfolding nested_at
  create_nested_impl rounds type kind words = do
    _ ← condition (leb 3 (length words))
    h ← subscripted e kind words
    _ ← condition (has_sub h.1.val)
    t ← nested_type type (h.2)
    refcounts ← nested_refcounts e (t.1)
    nested_at rounds (h.0) (h.1) (t.0) refcounts
