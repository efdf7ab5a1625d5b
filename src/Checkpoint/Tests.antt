-- ===== src/Checkpoint/Tests.antt =====
-- A checkpoint of an integer and a dictionary, with lists of two elements at most.
use exm_turbine.Common.{
  ℕ, ◌≤◌, ◌≡◌, refl, true, Option, none, some, List, [], ◌∷◌, ◌++◌, arith, pos, leb, length, take,
  drop, done,
}
use exm_turbine.Handle.{Bytes}
use exm_turbine.Handle.Memory.{take-append, drop-append}
use exm_turbine.Packing.{DataType, integer, string, container, multiset, no_extra, PackEnv}
use exm_turbine.Packing.Objects.{bytes_eq, dict_get, tclobj2datum, extract_tcl_blob, build_tcl_blob}
use exm_turbine.Packing.Unpack.{dict_put, datum_object}
use exm_turbine.Packing.Canonical.{canonical, framed}
use exm_turbine.Packing.Grammar.{plain, container_of}
use exm_turbine.Packing.Scenario.{env_with, env_with-PackLaws, value-framed}
use exm_turbine.Checkpoint.{xpt_pack_cmd}
use exm_turbine.Checkpoint.RoundTrip.{
  Field, words_of, IsField, BlobLaws, Unpacked, xpt_pack_cmd-xpt_unpack_cmd,
}

-- A list of two elements is each of them behind its length.
abbrev pair_text : List Bytes → Bytes
pair_text (x ∷ y ∷ []) = length x ∷ (x ++ (length y ∷ y))
pair_text _ = []

abbrev second : Bytes → Option Bytes
second [] = none
second (n ∷ rest) = some (take n rest)

abbrev two : Bytes → Option Bytes → Option (List Bytes)
two x none = none
two x (some y) = some (x ∷ y ∷ [])

abbrev pair_elements : Bytes → Option (List Bytes)
pair_elements [] = none
pair_elements (n ∷ rest) = two (take n rest) (second (drop n rest))

abbrev blobs : PackEnv
blobs = env_with pair_elements pair_text

pair_elements-text :
    (p : Bytes) (n : ℕ) → pair_elements (pair_text (p ∷ (n ∷ []) ∷ [])) ≡ some (p ∷ (n ∷ []) ∷ [])
pair_elements-text p n =
    rw (take-append p (1 ∷ n ∷ []) (length p) refl, drop-append p (1 ∷ n ∷ []) (length p) refl) refl

blobs_read :
    (p : Bytes) (n : ℕ) → extract_tcl_blob blobs (build_tcl_blob blobs p n none) ≡ some (p, pos n)
unfolding extract_tcl_blob build_tcl_blob
blobs_read p n = rw (extract_tcl_blob, pair_elements-text p n) refl

framed_length : (t : DataType) (b : Bytes) → length b ≤ length (framed blobs t true b)
framed_length container b = omega arith
framed_length multiset b = omega arith
framed_length _ b = omega arith

blobs-BlobLaws : BlobLaws blobs
blobs-BlobLaws = record {
  blob_read = blobs_read;
  copy_load = λ b. refl;
  buffer_read = value-framed;
  framed_length = framed_length;
}

abbrev Vars : Type 0
Vars = List (Bytes × Bytes)

abbrev set_var : Bytes → Bytes → Vars → Option Vars
set_var name v s = some ((name, v) ∷ s)

abbrev number : Field
number = record {
  name = 1 ∷ [];
  names = [];
  type = integer;
  types = [];
  obj = 4 ∷ [];
  back = 4 ∷ [];
  var = 20 ∷ [];
}

abbrev dict : Field
dict = record {
  name = 7 ∷ [];
  names = (3 ∷ []) ∷ (1 ∷ []) ∷ [];
  type = container;
  types = (string, no_extra) ∷ (integer, no_extra) ∷ [];
  obj = 9 ∷ 5 ∷ 2 ∷ 6 ∷ [];
  back = 2 ∷ 6 ∷ 9 ∷ 5 ∷ [];
  var = 21 ∷ [];
}

number-IsField : IsField blobs 3 number
unfolding canonical tclobj2datum datum_object
number-IsField = record {
  spelled = (refl, tt);
  compound = plain (integer, no_extra) tt;
  comes_back = refl;
  shallow = omega arith;
}

dict-IsField : IsField blobs 3 dict
unfolding canonical tclobj2datum dict_get bytes_eq dict_put datum_object
dict-IsField = record {
  spelled = (refl, (refl, (refl, tt)));
  compound =
      container_of no_extra (string, no_extra) ((integer, no_extra) ∷ []) tt
        (plain (integer, no_extra) tt);
  comes_back = refl;
  shallow = omega arith;
}

xpt_pack_cmd-xpt_unpack_cmd_example :
    (bytes : Bytes) × (xpt_pack_cmd blobs 0 (words_of (number ∷ dict ∷ []))
      ≡ done (some (build_tcl_blob blobs bytes (length bytes) none)))
    × Unpacked blobs set_var
        (env_with-PackLaws pair_elements pair_text)
        blobs-BlobLaws
        0
        3
        (leb (length bytes) 100)
        (number ∷ dict ∷ [])
        bytes
        []
        ((21 ∷ [], dict.back) ∷ (20 ∷ [], number.back) ∷ [])
xpt_pack_cmd-xpt_unpack_cmd_example =
    xpt_pack_cmd-xpt_unpack_cmd blobs set_var (env_with-PackLaws pair_elements pair_text)
      blobs-BlobLaws 0 3 (number ∷ dict ∷ []) []
      ((21 ∷ [], dict.back) ∷ (20 ∷ [], number.back) ∷ []) (number-IsField, (dict-IsField, tt)) refl
