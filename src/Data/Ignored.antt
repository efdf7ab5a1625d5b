-- ===== src/Data/Ignored.antt =====
-- What adlb::create does where its arguments are refused.
use exm_turbine.Common.{
  ◌≡◌, refl, ap, true, false, Option, none, some, List, [], ◌∷◌, ℤ, Outcome, done, fault,
  if◌then◌else◌,
}
use exm_turbine.Codes.{AdlbCode, adlb_success}
use exm_turbine.Handle.{Bytes}
use exm_turbine.Packing.{DataType, no_type, struct, container, multiset, no_extra, TypeExtra}
use exm_turbine.Packing.Canonical.{IsSingle}
use exm_turbine.Data.{DataEnv, and_next, pure, condition, is_success}
use exm_turbine.Data.Access.{is_nested}
use exm_turbine.Data.Create.{
  create_spec, create_cmd, extract_create_props, type_and_props, type_from_array,
  type_extra_from_array, read_refcount_arg, int_eq, props_for,
}

module _ (e : DataEnv) where
  open e use {State, packing, get_int, create, null_id}

  -- The end of the command, after what ADLB_Create returned.
  abbrev pub created : ℤ → (AdlbCode × ℤ) × State → Outcome (Option (Option ℤ) × State)
  created id ((rc, new), s) =
      done (if is_success rc then some (if int_eq id null_id then some new else none) else none, s)

  -- A single type takes no more words.
  type_from_array-single :
      (name : Bytes) (words : List Bytes) (t : DataType) (x : TypeExtra)
      → packing.type_of_name name ≡ some (t, x)
      → IsSingle t
      → type_from_array e name words ≡ some (t, some (x, words))
  unfolding type_from_array type_extra_from_array
  type_from_array-single name words no_type x h s = absurd s
  type_from_array-single name words container x h s = absurd s
  type_from_array-single name words multiset x h s = absurd s
  type_from_array-single name words struct x h s = absurd s
  type_from_array-single name words t no_extra h s = rw (type_from_array, h) refl
  type_from_array-single name words t (TypeExtra.struct_type st) h s = rw (type_from_array, h) refl
  type_from_array-single name words t (TypeExtra.container_types k v) h s =
      rw (type_from_array, h) refl
  type_from_array-single name words t (TypeExtra.multiset_type v) h s = rw (type_from_array, h) refl

  code-created :
      (id : ℤ) (a : (AdlbCode × ℤ) × State)
      → and_next
          (λ (u : Unit). pure (if int_eq id null_id then some (a.0.1) else none))
          (condition (is_success (a.0.0)) (a.1))
        ≡ created id a
  code-created id ((adlb_success, n), s) = refl
  code-created id ((AdlbCode.adlb_error, n), s) = refl
  code-created id ((AdlbCode.adlb_nothing, n), s) = refl
  code-created id ((AdlbCode.adlb_shutdown, n), s) = refl
  code-created id ((AdlbCode.other_code, n), s) = refl

  create_spec-single :
      (id : ℤ) (t : DataType) (x : TypeExtra) (s : State)
      → IsSingle t
      → create_spec e (record { id = id; type = (t, x); props = props_for e t }) s
        ≡ created id (create (record { id = id; type = (t, x); props = props_for e t }) s)
  unfolding create_spec
  create_spec-single id no_type x s st = absurd st
  create_spec-single id container x s st = absurd st
  create_spec-single id multiset x s st = absurd st
  create_spec-single id struct x s st = absurd st
  create_spec-single id _ x s st = code-created id _

  extracted_bad :
      (w name bad : Bytes) (more : List Bytes) (id : ℤ) (t : DataType) (x : TypeExtra)
      → packing.get_int w ≡ some id
      → packing.type_of_name name ≡ some (t, x)
      → IsSingle t
      → get_int bad ≡ none
      → extract_create_props e true (w ∷ name ∷ bad ∷ more)
        ≡ (false, record { id = id; type = (t, x); props = props_for e t })
  unfolding extract_create_props type_and_props read_refcount_arg
  extracted_bad w name bad more id t x hw hn st hb =
      rw
        (
          extract_create_props,
          hw,
          type_and_props,
          type_from_array-single name (bad ∷ more) t x hn st,
          read_refcount_arg,
          hb,
        )
        refl

  no_types-fault :
      (w nested : Bytes) (id : ℤ) (u : DataType) (s : State)
      → packing.get_int w ≡ some id
      → packing.type_of_name nested ≡ some (u, no_extra)
      → is_nested u ≡ true
      → create_cmd e (w ∷ nested ∷ []) s ≡ fault
  unfolding create_cmd extract_create_props type_and_props type_from_array type_extra_from_array
      create_spec
  no_types-fault w nested id container s hw hu c =
      rw (extract_create_props, hw, type_and_props, type_from_array, hu) refl
  no_types-fault w nested id multiset s hw hu c =
      rw (extract_create_props, hw, type_and_props, type_from_array, hu) refl
  no_types-fault w nested id _ s hw hu c = cc

  -- Behind an id and a single type, a read count that is no number is an error of
  -- `extract_create_props`, which `create_cmd` does not look at: the datum is created with the default
  -- counts, whatever the other words are, and the command succeeds just where ADLB accepts that. A
  -- container or multiset that is given without its types fails an assertion.
  pub create_cmd-ignored :
      (w name nested bad : Bytes) (more : List Bytes) (id : ℤ) (t : DataType) (x : TypeExtra)
      (u : DataType) (s : State)
      → packing.get_int w ≡ some id
      → packing.type_of_name name ≡ some (t, x)
      → IsSingle t
      → get_int bad ≡ none
      → packing.type_of_name nested ≡ some (u, no_extra)
      → is_nested u ≡ true
      → (extract_create_props e true (w ∷ name ∷ bad ∷ more)).0 ≡ false
        × (create_cmd e (w ∷ name ∷ bad ∷ more) s
            ≡ created id (create (record { id = id; type = (t, x); props = props_for e t }) s))
        × (create_cmd e (w ∷ nested ∷ []) s ≡ fault)
  unfolding create_cmd
  create_cmd-ignored w name nested bad more id t x u s hw hn st hb hu c =
      let q = extracted_bad w name bad more id t x hw hn st hb in
      (
        ap (λ r. r.0) q,
        rw q (create_spec-single id t x s st),
        no_types-fault w nested id u s hw hu c,
      )
