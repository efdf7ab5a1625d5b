-- ===== src/Packing.antt =====
-- The conversion of Tcl objects into ADLB's packed data and back, in code/src/tcl/adlb/tcl-adlb.c. A
-- Tcl object is the text it stands for, as bytes. ADLB's packing of single data, its headers and
-- entries, and Tcl's readings of texts are parameters. An ADLB buffer is the bytes put into it so
-- far; memory is not short. Messages and memory that is freed are left out.
use exm_turbine.Common.{
  ℕ, zero, suc, Bool, true, false, ◌&&◌, Option, none, some, List, [], ◌∷◌, ℤ, ◌==◌, Outcome, done,
  fault, starved, ◌>>=◌, if◌then◌else◌,
}
use exm_turbine.Handle.{Bytes}
pub mod Objects
pub mod Append
pub mod Unpack
pub mod Grammar
pub mod Canonical
pub mod Entries
pub mod Elements
pub mod Singles
pub mod Levels
pub mod RoundTrip
pub mod Scenario
mod Tests

-- `adlb_data_type`.
pub data DataType : Type 0 where
  no_type integer float string blob ref struct container multiset : DataType

-- `adlb_type_extra`: not valid, or the union's part for the type.
pub data TypeExtra : Type 0 where
  no_extra : TypeExtra
  struct_type : ℕ → TypeExtra
  container_types : DataType → DataType → TypeExtra
  multiset_type : DataType → TypeExtra

abbrev pub FullType : Type 0
FullType = DataType × TypeExtra

abbrev pub CompoundType : Type 0
CompoundType = List FullType

-- `adlb_datum_storage`, for the types that are not packed directly. The fields of a struct are there
-- or not.
mutual
  pub data Datum (F : Type 0) : Type 0 where
    int_datum : ℤ → Datum F
    ref_datum : ℤ → Datum F
    float_datum : F → Datum F
    string_datum : Bytes → Datum F
    blob_datum : Bytes → Datum F
    struct_datum : ℕ → Fields F → Datum F

  pub data Fields (F : Type 0) : Type 0 where
    no_fields : Fields F
    field_here : Datum F → Fields F → Fields F
    field_missing : Fields F → Fields F

-- A field of a struct: its name and its type.
abbrev pub FieldType : Type 0
FieldType = Bytes × FullType

pub record PackEnv : Type 1 where
  pub Float : Type 0
  -- Addresses.
  pub Pointer : Type 0
  -- ADLB_Data_string_totype, ADLB_Lookup_struct_type.
  pub type_of_name : Bytes → Option FullType
  pub lookup_struct : ℕ → Option (List FieldType)
  -- Whether field_name_objs has an array of names for a type.
  pub has_names : ℕ → Bool
  -- Tcl: numbers, lists and dictionaries in their texts, and the texts of new objects.
  pub get_int : Bytes → Option ℤ
  pub get_double : Bytes → Option Float
  pub get_pointer : Bytes → Option Pointer
  pub list_elements : Bytes → Option (List Bytes)
  pub dict_pairs : Bytes → Option (List (Bytes × Bytes))
  pub lsort : List Bytes → List Bytes
  pub int_text : ℤ → Bytes
  pub double_text : Float → Bytes
  pub pointer_text : Pointer → Bytes
  pub list_text : List Bytes → Bytes
  pub dict_text : List (Bytes × Bytes) → Bytes
  -- The bytes that lie at an address, and the address of a new copy of some bytes.
  pub load : Pointer → ℤ → Bytes
  pub copy : Bytes → Pointer
  -- ADLB_DATA_MAX, VINT_MAX_BYTES and vint_encode.
  pub data_max : ℕ
  pub vint_max : ℕ
  pub vint_encode : ℕ → Bytes
  -- ADLB_Pack, and ADLB_Unpack_integer to ADLB_Unpack_blob.
  pub pack : Datum Float → Option Bytes
  pub unpack : DataType → Bytes → Option (Datum Float)
  -- ADLB_pack_pad_size, and what ADLB_Append_buffer(type, data, prefix_len) appends.
  pub pad_size : DataType → Bool
  pub entry : DataType → Bool → Bytes → Bytes
  pub container_hdr : ℕ → DataType → DataType → Option Bytes
  pub multiset_hdr : ℕ → DataType → Option Bytes
  -- The readers take the bytes from the position on, and return those behind what they read.
  pub unpack_container_hdr : Bytes → Option ((ℕ × DataType × DataType) × Bytes)
  pub unpack_container_entry : DataType → DataType → Bytes → Option (Bytes × Bytes × Bytes)
  pub unpack_multiset_hdr : Bytes → Option ((ℕ × DataType) × Bytes)
  pub unpack_multiset_entry : DataType → Bytes → Option (Bytes × Bytes)
  -- `none` at the end of the buffer and on an error.
  pub unpack_buffer : DataType → Bytes → Option (Bytes × Bytes)
  -- The header of a packed struct: sizeof, `type` and `field_offsets[i]`.
  pub struct_hdr_size : ℕ
  pub offset_size : ℕ
  pub struct_hdr_type : Bytes → ℕ
  pub field_offset : Bytes → ℕ → ℕ

abbrev pub with_type :
    FullType
    → Outcome (Option (CompoundType × List Bytes))
    → Outcome (Option (CompoundType × List Bytes))
with_type t (done none) = done none
with_type t (done (some (ts, rest))) = done (some (t ∷ ts, rest))
with_type t fault = fault
with_type t starved = starved

module _ (e : PackEnv) where
  open e use {type_of_name}

  -- The loop of get_compound_type, with `to_consume` types still to be read: the types and the words
  -- behind them. `none` is TCL_ERROR.
  pub types_loop : ℕ → List Bytes → Outcome (Option (CompoundType × List Bytes))
  types_loop zero words = done (some ([], words))
  types_loop (suc k) [] = done none
  types_loop (suc k) (w ∷ words) = elim (type_of_name w) [
    | none ↦ done none
    | some (container, x) ↦ if k == 0 then with_type (container, x) (types_loop 2 words) else fault
    | some (multiset, x) ↦ if k == 0 then with_type (multiset, x) (types_loop 1 words) else fault
    | some t ↦ with_type t (types_loop k words)
  ]

  pub get_compound_type : List Bytes → Outcome (Option (CompoundType × List Bytes))
  unfolding types_loop
  get_compound_type words = types_loop 1 words
