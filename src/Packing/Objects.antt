-- ===== src/Packing/Objects.antt =====
-- Single data from Tcl objects: adlb_tclobj2datum, with the dictionaries of structs and blobs.
use exm_turbine.Common.{
  ℕ, zero, suc, ◌+◌, Bool, true, false, Option, none, some, List, [], ◌∷◌, ◌++◌, ℤ, pos, ◌==◌, leb,
  length, Outcome, assert, done, starved, ◌>>=◌, if◌then◌else◌, ◌&&◌,
}
use exm_turbine.Handle.{Bytes}
use exm_turbine.Packing.{
  no_type, integer, float, string, blob, ref, struct, container, multiset, struct_type, FullType,
  FieldType, Datum, Fields, int_datum, ref_datum, float_datum, string_datum, blob_datum,
  struct_datum, no_fields, field_here, field_missing, PackEnv,
}

abbrev pub map_some {ℓ κ} : {A : Type ℓ} {B : Type κ} → (A → B) → Option A → Option B
map_some f none = none
map_some f (some a) = some (f a)

unfoldable pub bytes_eq : Bytes → Bytes → Bool
bytes_eq [] [] = true
bytes_eq (a ∷ s) (b ∷ t) = (a == b) && bytes_eq s t
bytes_eq _ _ = false

-- Tcl_DictObjGet on the pairs of a dictionary.
unfoldable pub dict_get : Bytes → List (Bytes × Bytes) → Option Bytes
unfolding bytes_eq
dict_get k [] = none
dict_get k ((j, v) ∷ d) = if bytes_eq j k then some v else dict_get k d

module _ (e : PackEnv) where
  open e use {
    Float, Pointer, lookup_struct, has_names, get_int, get_double, get_pointer, list_elements,
    dict_pairs, pointer_text, int_text, list_text, load, data_max,
  }

  -- The address and the length in the list that is a blob, of two elements or three.
  unfoldable pub extract_tcl_blob : Bytes → Option (Pointer × ℤ)
  extract_tcl_blob obj =
      let read : Bytes → Bytes → Option (Pointer × ℤ) = λ p n. elim (get_pointer p) [
        | none ↦ none
        | some value ↦ elim (get_int n) [ none ↦ none | some length ↦ some (value, length) ]
      ] in
      elim (list_elements obj) [
        | none ↦ none
        | some (p ∷ n ∷ []) ↦ read p n
        | some (p ∷ n ∷ h ∷ []) ↦ read p n
        | some _ ↦ none
      ]

  unfoldable pub build_tcl_blob : Pointer → ℕ → Option Bytes → Bytes
  build_tcl_blob value length none = list_text (pointer_text value ∷ int_text (pos length) ∷ [])
  build_tcl_blob value length (some handle) =
      list_text (pointer_text value ∷ int_text (pos length) ∷ handle ∷ [])

  -- The loop over the fields of a struct. A text that is no dictionary is an error at its first field.
  pub struct_fields :
      (FullType → Bytes → Outcome (Option (Datum Float)))
      → Option (List (Bytes × Bytes))
      → List FieldType
      → Outcome (Option (Fields Float))
  unfolding dict_get
  struct_fields convert dict [] = done (some no_fields)
  struct_fields convert none (f ∷ fields) = done none
  struct_fields convert (some d) ((name, type) ∷ fields) = elim (dict_get name d) [
    | none ↦ struct_fields convert (some d) fields >>= λ r. done (map_some field_missing r)
    | some val ↦ convert type val >>= λ o. elim o [
      | none ↦ done none
      | some datum ↦
          struct_fields convert (some d) fields >>= λ r. done (map_some (field_here datum) r)
    ]
  ]

  -- `depth` is how deep structs may lie in structs.
  unfoldable pub tclobj2datum : ℕ → FullType → Bytes → Outcome (Option (Datum Float))
  unfolding extract_tcl_blob struct_fields
  tclobj2datum depth (integer, x) obj = done (map_some int_datum (get_int obj))
  tclobj2datum depth (ref, x) obj = done (map_some ref_datum (get_int obj))
  tclobj2datum depth (float, x) obj = done (map_some float_datum (get_double obj))
  tclobj2datum depth (string, x) obj =
      done (if leb (length obj + 1) data_max then some (string_datum (obj ++ (0 ∷ []))) else none)
  tclobj2datum depth (blob, x) obj =
      done (map_some (λ p. blob_datum (load p.0 p.1)) (extract_tcl_blob obj))
  tclobj2datum zero (struct, struct_type st) obj = starved
  tclobj2datum (suc depth) (struct, struct_type st) obj = elim (lookup_struct st) [
    | none ↦ done none
    | some fields ↦ assert (has_names st) (
        struct_fields (tclobj2datum depth) (dict_pairs obj) fields >>= λ r.
        done (map_some (struct_datum st) r))
  ]
  tclobj2datum depth (struct, x) obj = done none
  tclobj2datum depth (container, x) obj = done none
  tclobj2datum depth (multiset, x) obj = done none
  tclobj2datum depth (no_type, x) obj = done none
