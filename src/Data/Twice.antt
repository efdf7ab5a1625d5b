-- ===== src/Data/Twice.antt =====
-- Two calls of adlb::create_nested at one subscript.
use exm_turbine.Common.{
  ℕ, ◌≤◌, ◌≡◌, ◌≢◌, ◌⊎◌, Bool, false, Option, none, some, ℤ, length, Outcome, done, fault, starved,
}
use exm_turbine.Codes.{adlb_success}
use exm_turbine.Handle.{Bytes, SubParse}
use exm_turbine.Packing.{DataType, ref, FullType, ref_datum}
use exm_turbine.Data.{Refc, RetrieveRefc, DataEnv, sub_key}
use exm_turbine.Data.Nested.{init_refs, nested_at}

-- A reference that is packed is small and is read back. ADLB_Insert_atomic may be refused, as where
-- the reference at the subscript lacks the counts that are asked for or the container is closed; where
-- it succeeds after ADLB has accepted a reference at the subscript, it makes no entry and gives that
-- reference.
pub record NestedLaws (e : DataEnv) : Type 0 where
  pub ref_fits : (n : ℤ) (b : Bytes) → e.pack_ref n ≡ some b → length b ≤ e.packing.data_max
  pub ref_read :
      (n : ℤ) (b : Bytes) → e.pack_ref n ≡ some b → e.packing.unpack ref b ≡ some (ref_datum n)
  pub stored_found :
      (id : ℤ) (sub : Option Bytes) (b : Bytes) (decr : Refc) (refcounts : RetrieveRefc)
      (created : Bool) (v : Option (DataType × Bytes)) (s s1 s2 : e.State)
      → e.store id sub ref b decr (init_refs e) s ≡ (adlb_success, s1)
      → e.insert_atomic id sub refcounts s1 ≡ ((adlb_success, created, v), s2)
      → (created ≡ false) × (v ≡ some (ref, b))

module _ (e : DataEnv) (l : NestedLaws e) (id : ℤ) (sub : SubParse) where
  open e use {State, packing, store, retrieve, insert_atomic, create, pack_ref, retrieve_no_refc}

  -- A call returns the text after one call of ADLB_Insert_atomic, or that is refused, and the call
  -- fails when it has looked at the entry.
  abbrev pub Same : ℕ → FullType → RetrieveRefc → Bytes → State → Type 0
  Same rounds type refcounts text s =
      let a = insert_atomic id (sub_key sub) refcounts s in
      let again = nested_at e rounds id sub type refcounts s in
      ((a.0.0 ≡ adlb_success) × (again ≡ done (some text, a.1)))
      ⊎ ((a.0.0 ≢ adlb_success)
          × (again ≡ done (none, (retrieve id (sub_key sub) retrieve_no_refc (a.1)).1)))

  -- A call that fails, or that returns a text and leaves a state where a later call gives no other.
  abbrev pub Again : ℕ → FullType → RetrieveRefc → Outcome (Option Bytes × State) → Type 0
  Again rounds type refcounts (done (none, s)) = Unit
  Again rounds type refcounts (done (some text, s)) = Same rounds type refcounts text s
  Again rounds type refcounts fault = ⊥
  Again rounds type refcounts starved = ⊥
