-- ===== src/Packing/Unpack.antt =====
-- Tcl objects from packed data: adlb_datum2tclobj. What an entry loop has read so far is the bytes
-- that are left, so that `pos == length` is that none are.
use exm_turbine.Common.{
  ℕ, zero, suc, ◌+◌, ◌-◌, ◌*◌, ◌%◌, ◌^◌, Bool, true, false, ◌&&◌, Option, none, some, List, [], ◌∷◌,
  ltb, leb, ◌==◌, length, take, drop, get_elem?, Outcome, assert, done, fault, starved,
  if◌then◌else◌,
}
use exm_turbine.Handle.{Bytes}
use exm_turbine.Packing.{
  DataType, no_type, integer, float, string, blob, ref, struct, container, multiset, TypeExtra,
  no_extra, struct_type, container_types, multiset_type, FullType, FieldType, Datum, int_datum,
  ref_datum, float_datum, string_datum, blob_datum, struct_datum, PackEnv,
}
use exm_turbine.Packing.Objects.{bytes_eq, build_tcl_blob}
use exm_turbine.Packing.Append.{then_some}

abbrev pub type_eq : DataType → DataType → Bool
type_eq no_type no_type = true
type_eq integer integer = true
type_eq float float = true
type_eq string string = true
type_eq blob blob = true
type_eq ref ref = true
type_eq struct struct = true
type_eq container container = true
type_eq multiset multiset = true
type_eq _ _ = false

-- Tcl_DictObjPut.
unfoldable pub dict_put : Bytes → Bytes → List (Bytes × Bytes) → List (Bytes × Bytes)
dict_put k v [] = (k, v) ∷ []
dict_put k v ((j, w) ∷ d) = if bytes_eq j k then (j, v) ∷ d else (j, w) ∷ dict_put k v d

-- How a part is read: its type and its bytes.
abbrev pub Reader : Type 0
Reader = FullType → Bytes → Outcome (Option Bytes)

-- Whether the types in a container or a multiset are those that are expected, where they are. The
-- extra is that of the kind of its type, or none.
unfoldable pub container_expected : TypeExtra → DataType → DataType → Bool
container_expected (container_types k v) key_type val_type =
    type_eq val_type v && type_eq key_type k
container_expected x key_type val_type = true

unfoldable pub multiset_expected : TypeExtra → DataType → Bool
multiset_expected (multiset_type v) elem_type = type_eq elem_type v
multiset_expected x elem_type = true

abbrev pub size_mod : ℕ
size_mod = 2 ^ 64

module _ (e : PackEnv) where
  open e use {
    Float, lookup_struct, has_names, int_text, double_text, list_text, dict_text, copy, data_max,
    unpack, unpack_container_hdr, unpack_container_entry, unpack_multiset_hdr,
    unpack_multiset_entry, struct_hdr_size, offset_size, struct_hdr_type, field_offset,
  }

  -- The object of a datum. A string's terminator is left out; a blob is copied.
  unfoldable pub datum_object : Datum Float → Option Bytes
  unfolding build_tcl_blob
  datum_object (int_datum n) = some (int_text n)
  datum_object (ref_datum n) = some (int_text n)
  datum_object (float_datum x) = some (double_text x)
  datum_object (string_datum s) = some (take (length s - 1) s)
  datum_object (blob_datum b) = some (build_tcl_blob e (copy b) (length b) none)
  datum_object (struct_datum _ _) = none

  -- The loop over the entries: `none` where a value cannot be converted. An entry that cannot be parsed
  -- jumps to the end of the function with rc == TCL_OK, and so do bytes that are left: the result is
  -- what was read until then. A key without its terminator is read on until Tcl finds one.
  unfoldable pub read_entries :
      Reader
      → DataType
      → DataType
      → ℕ
      → Bytes
      → List (Bytes × Bytes)
      → Outcome (Option (List (Bytes × Bytes)))
  unfolding dict_put
  read_entries reader key_type val_type zero rest dict = done (some dict)
  read_entries reader key_type val_type (suc n) rest dict =
      elim (unpack_container_entry key_type val_type rest) [
        | none ↦ done (some dict)
        | some (key, val, rest') ↦ then_some (reader (val_type, no_extra) val) λ obj.
            assert (ltb 0 (length key)) (
              read_entries reader key_type val_type n rest'
                (dict_put (take (length key - 1) key) obj dict))
      ]

  unfoldable pub packed_container_to_dict : Reader → TypeExtra → Bytes → Outcome (Option Bytes)
  unfolding read_entries container_expected
  packed_container_to_dict reader extra packed = elim (unpack_container_hdr packed) [
    | none ↦ done none
    | some ((entries, key_type, val_type), rest) ↦
        if container_expected extra key_type val_type
        then then_some (read_entries reader key_type val_type entries rest [])
            (λ d. done (some (dict_text d)))
        else done none
  ]

  -- Where an element cannot be parsed, Tcl_NewListObj is called for all of the array, of which the
  -- rest is not initialized.
  unfoldable pub read_elements : Reader → DataType → ℕ → Bytes → Outcome (Option (List Bytes))
  read_elements reader elem_type zero rest = done (some [])
  read_elements reader elem_type (suc n) rest = elim (unpack_multiset_entry elem_type rest) [
    | none ↦ fault
    | some (elem, rest') ↦
        then_some (reader (elem_type, no_extra) elem) λ obj.
          then_some (read_elements reader elem_type n rest') (λ objs. done (some (obj ∷ objs)))
  ]

  unfoldable pub packed_multiset_to_list : Reader → TypeExtra → Bytes → Outcome (Option Bytes)
  unfolding read_elements multiset_expected
  packed_multiset_to_list reader extra packed = elim (unpack_multiset_hdr packed) [
    | none ↦ done none
    | some ((entries, elem_type), rest) ↦
        if multiset_expected extra elem_type
        then then_some (read_elements reader elem_type entries rest)
            (λ l. done (some (list_text l)))
        else done none
  ]

  -- The length of field `i` whose data start at `data_offset`, in a size_t.
  pub field_length : Bytes → ℕ → ℕ → ℕ → ℕ
  field_length packed count i data_offset =
      let end = if i + 1 == count then length packed else field_offset packed (i + 1) in
      (end + size_mod - data_offset) % size_mod

  -- The loop over the fields of a struct, from field `i` on. A length that has wrapped around is more
  -- than a datum may have.
  unfoldable pub read_fields :
      Reader
      → Bytes
      → ℕ
      → ℕ
      → List FieldType
      → List (Bytes × Bytes)
      → Outcome (Option (List (Bytes × Bytes)))
  unfolding dict_put field_length
  read_fields reader packed count i [] dict = done (some dict)
  read_fields reader packed count i ((name, type) ∷ fields) dict =
      let offset = field_offset packed i in
      let n = field_length packed count i (offset + 1) in
      let next = read_fields reader packed count (i + 1) fields in
      elim (get_elem? packed offset) [
        | none ↦ fault
        | some zero ↦ next dict
        | some (suc b) ↦
            if leb ((offset + 1 + n) % size_mod) (length packed)
            then assert (leb (offset + 1 + n) (length packed)) (
                then_some (reader type (take n (drop (offset + 1) packed)))
                  (λ obj. next (dict_put name obj dict)))
            else done none
      ]

  unfoldable pub packed_struct_to_tcl_dict : Reader → TypeExtra → Bytes → Outcome (Option Bytes)
  unfolding read_fields
  packed_struct_to_tcl_dict reader extra packed =
      let st = struct_hdr_type packed in
      let expected = elim extra as (λ _. Bool) [ struct_type t ↦ st == t | _ ↦ true ] in
      let converted = elim (lookup_struct st) as (λ _. Outcome (Option Bytes)) [
        | none ↦ done none
        | some fields ↦
            if leb (struct_hdr_size + offset_size * length fields) (length packed)
            then assert (has_names st) (
                then_some (read_fields reader packed (length fields) 0 fields [])
                  (λ d. done (some (dict_text d))))
            else done none
      ] in
      if leb struct_hdr_size (length packed) && expected then converted else done none

  -- `depth` is how deep data may lie in data.
  unfoldable pub datum2tclobj : ℕ → Reader
  unfolding datum_object packed_container_to_dict packed_multiset_to_list packed_struct_to_tcl_dict
  datum2tclobj zero type packed = starved
  datum2tclobj (suc depth) (t, extra) packed =
      let single : Outcome (Option Bytes) = elim (unpack t packed) [
        | none ↦ done none
        | some d ↦ done (datum_object d)
      ] in
      assert (leb (length packed) data_max) (elim t [
        | no_type ↦ done none
        | struct ↦ packed_struct_to_tcl_dict (datum2tclobj depth) extra packed
        | container ↦ packed_container_to_dict (datum2tclobj depth) extra packed
        | multiset ↦ packed_multiset_to_list (datum2tclobj depth) extra packed
        | _ ↦ single
      ])
