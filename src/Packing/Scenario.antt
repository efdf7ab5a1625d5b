-- ===== src/Packing/Scenario.antt =====
-- Packing with texts of one byte for each number, key and element, and lengths of one byte.
use exm_turbine.Common.{
  ℕ, zero, suc, ◌≡◌, refl, ap, ◌∙◌, Bool, true, false, Option, none, some, List, [], ◌∷◌, ◌++◌, ℤ,
  pos, negsuc, arith, leb, length, take, drop, if◌then◌else◌,
}
use exm_turbine.Handle.{Bytes}
use exm_turbine.Handle.Memory.{take-append, drop-append}
use exm_turbine.Packing.{
  DataType, no_type, integer, float, string, blob, ref, struct, container, multiset, no_extra,
  FullType, Datum, int_datum, ref_datum, float_datum, string_datum, blob_datum, struct_datum,
  PackEnv,
}
use exm_turbine.Packing.Canonical.{IsSingle, IsOf, framed, PackLaws}

abbrev code : DataType → ℕ
code no_type = 0
code integer = 1
code float = 2
code string = 3
code blob = 4
code ref = 5
code struct = 6
code container = 7
code multiset = 8

abbrev type_of_code : ℕ → DataType
type_of_code zero = no_type
type_of_code (suc zero) = integer
type_of_code (suc (suc zero)) = float
type_of_code (suc (suc (suc zero))) = string
type_of_code (suc (suc (suc (suc zero)))) = blob
type_of_code (suc (suc (suc (suc (suc zero))))) = ref
type_of_code (suc (suc (suc (suc (suc (suc zero)))))) = struct
type_of_code (suc (suc (suc (suc (suc (suc (suc zero))))))) = container
type_of_code (suc (suc (suc (suc (suc (suc (suc (suc n)))))))) = multiset

type_of_code-code : (t : DataType) → type_of_code (code t) ≡ t
type_of_code-code no_type = refl
type_of_code-code integer = refl
type_of_code-code float = refl
type_of_code-code string = refl
type_of_code-code blob = refl
type_of_code-code ref = refl
type_of_code-code struct = refl
type_of_code-code container = refl
type_of_code-code multiset = refl

abbrev is_padded : DataType → Bool
is_padded container = true
is_padded multiset = true
is_padded _ = false

abbrev pub int_bytes : ℤ → Bytes
int_bytes (pos n) = n ∷ []
int_bytes (negsuc n) = n ∷ 0 ∷ []

abbrev read_int : Bytes → Option ℤ
read_int (n ∷ []) = some (pos n)
read_int (n ∷ b ∷ []) = some (negsuc n)
read_int _ = none

abbrev packed : Datum ℕ → Option Bytes
packed (int_datum n) = some (int_bytes n)
packed (ref_datum n) = some (int_bytes n)
packed (float_datum x) = some (x ∷ [])
packed (string_datum s) = some s
packed (blob_datum b) = some b
packed (struct_datum _ _) = none

abbrev map_int : (ℤ → Datum ℕ) → Option ℤ → Option (Datum ℕ)
map_int f none = none
map_int f (some n) = some (f n)

abbrev unpacked : DataType → Bytes → Option (Datum ℕ)
unpacked integer bs = map_int int_datum (read_int bs)
unpacked ref bs = map_int ref_datum (read_int bs)
unpacked float (x ∷ []) = some (float_datum x)
unpacked string bs = some (string_datum bs)
unpacked blob bs = some (blob_datum bs)
unpacked _ bs = none

unpacked-packed :
    (t : DataType) (d : Datum ℕ)
    → IsSingle t
    → IsOf t d
    → (bs : Bytes) × (packed d ≡ some bs) × (unpacked t bs ≡ some d)
unpacked-packed integer (int_datum (pos n)) s o = (_, refl, refl)
unpacked-packed integer (int_datum (negsuc n)) s o = (_, refl, refl)
unpacked-packed ref (ref_datum (pos n)) s o = (_, refl, refl)
unpacked-packed ref (ref_datum (negsuc n)) s o = (_, refl, refl)
unpacked-packed float (float_datum x) s o = (_, refl, refl)
unpacked-packed string (string_datum b) s o = (_, refl, refl)
unpacked-packed blob (blob_datum b) s o = (_, refl, refl)
unpacked-packed _ _ s o = absurd o

abbrev singles : Bytes → List Bytes
singles [] = []
singles (b ∷ bs) = (b ∷ []) ∷ singles bs

abbrev pairs : Bytes → Option (List (Bytes × Bytes))
pairs [] = some []
pairs (k ∷ []) = none
pairs (k ∷ v ∷ bs) = elim (pairs bs) [ none ↦ none | some ps ↦ some ((k ∷ [], v ∷ []) ∷ ps) ]

single_plain : (t : DataType) → IsSingle t → is_padded t ≡ false
single_plain container s = absurd s
single_plain multiset s = absurd s
single_plain _ s = refl

abbrev concat : List Bytes → Bytes
concat [] = []
concat (x ∷ xs) = x ++ concat xs

abbrev concat_pairs : List (Bytes × Bytes) → Bytes
concat_pairs [] = []
concat_pairs ((k, v) ∷ ps) = k ++ (v ++ concat_pairs ps)

abbrev before : Bytes → Bytes → Bool
before (a ∷ s) (b ∷ t) = leb a b
before _ _ = true

abbrev insert : Bytes → List Bytes → List Bytes
insert x [] = x ∷ []
insert x (y ∷ ys) = if before x y then x ∷ y ∷ ys else y ∷ insert x ys

abbrev sort : List Bytes → List Bytes
sort [] = []
sort (x ∷ xs) = insert x (sort xs)

length-insert : (x : Bytes) (ys : List Bytes) → length (insert x ys) ≡ suc (length ys)
length-insert x [] = refl
length-insert x (y ∷ ys) = by_test (before x y) (length-insert x ys)
  where
    by_test :
        (b : Bool)
        → length (insert x ys) ≡ suc (length ys)
        → length (if b then x ∷ y ∷ ys else y ∷ insert x ys) ≡ suc (suc (length ys))
    by_test true h = refl
    by_test false h = ap suc h

length-sort : (xs : List Bytes) → length (sort xs) ≡ length xs
length-sort [] = refl
length-sort (x ∷ xs) = length-insert x (sort xs) ∙ ap suc (length-sort xs)

-- The name of a type is one byte.
abbrev named : Bytes → Option FullType
named (c ∷ []) = some (type_of_code c, no_extra)
named _ = none

abbrev after_length : Bytes → Option (Bytes × Bytes)
after_length [] = none
after_length (n ∷ rest) = some (take n rest, drop n rest)

abbrev pub value : DataType → Bytes → Option (Bytes × Bytes)
value t bs =
    if is_padded t
    then elim bs [
      | [] ↦ none
      | n ∷ rest ↦ elim rest [ [] ↦ none | z ∷ rest' ↦ some (take n rest', drop n rest') ]
    ]
    else after_length bs

abbrev with_key : DataType → Option (Bytes × Bytes) → Option (Bytes × Bytes × Bytes)
with_key t none = none
with_key t (some (k, rest)) = elim (value t rest) [
  | none ↦ none
  | some (v, rest') ↦ some (k, v, rest')
]

abbrev container_header : Bytes → Option ((ℕ × DataType × DataType) × Bytes)
container_header (n ∷ k ∷ v ∷ rest) = some ((n, type_of_code k, type_of_code v), rest)
container_header _ = none

abbrev multiset_header : Bytes → Option ((ℕ × DataType) × Bytes)
multiset_header (n ∷ t ∷ rest) = some ((n, type_of_code t), rest)
multiset_header _ = none

-- The lists of Tcl are given.
abbrev pub env_with : (Bytes → Option (List Bytes)) → (List Bytes → Bytes) → PackEnv
env_with elements text = record {
  Float = ℕ;
  Pointer = Bytes;
  type_of_name = named;
  lookup_struct = λ st. none;
  has_names = λ st. true;
  get_int = read_int;
  get_double = λ s. elim s [ [] ↦ none | x ∷ r ↦ some x ];
  get_pointer = λ s. some s;
  list_elements = elements;
  dict_pairs = pairs;
  lsort = sort;
  int_text = int_bytes;
  double_text = λ x. x ∷ [];
  pointer_text = λ p. p;
  list_text = text;
  dict_text = concat_pairs;
  load = λ p n. p;
  copy = λ b. b;
  data_max = 100;
  vint_max = 2;
  vint_encode = λ n. n ∷ [];
  pack = packed;
  unpack = unpacked;
  pad_size = is_padded;
  entry = λ t p bs. if p then length bs ∷ bs else bs;
  container_hdr = λ n k v. some (n ∷ code k ∷ code v ∷ []);
  multiset_hdr = λ n t. some (n ∷ code t ∷ []);
  unpack_container_hdr = container_header;
  unpack_container_entry = λ k v bs. with_key v (after_length bs);
  unpack_multiset_hdr = multiset_header;
  unpack_multiset_entry = value;
  unpack_buffer = value;
  struct_hdr_size = 4;
  offset_size = 4;
  struct_hdr_type = λ bs. 0;
  field_offset = λ bs i. 0;
}

abbrev pub env : PackEnv
env = env_with (λ s. some (singles s)) concat

after_length-entry : (bs rest : Bytes) → after_length (length bs ∷ (bs ++ rest)) ≡ some (bs, rest)
after_length-entry bs rest =
    rw (take-append bs rest (length bs) refl, drop-append bs rest (length bs) refl) refl

pub value-framed :
    (t : DataType) (bs rest : Bytes) → value t (framed env t true bs ++ rest) ≡ some (bs, rest)
value-framed container bs rest = after_length-entry bs rest
value-framed multiset bs rest = after_length-entry bs rest
value-framed no_type bs rest = after_length-entry bs rest
value-framed integer bs rest = after_length-entry bs rest
value-framed float bs rest = after_length-entry bs rest
value-framed string bs rest = after_length-entry bs rest
value-framed blob bs rest = after_length-entry bs rest
value-framed ref bs rest = after_length-entry bs rest
value-framed struct bs rest = after_length-entry bs rest

pub env_with-PackLaws :
    (elements : Bytes → Option (List Bytes)) (text : List Bytes → Bytes)
    → PackLaws (env_with elements text)
env_with-PackLaws elements text = record {
  pad_container = refl;
  pad_multiset = refl;
  pad_single = single_plain;
  pack_single = unpacked-packed;
  entry_plain = λ bs. refl;
  entry_length = λ bs. omega arith;
  vint_fits = λ n. omega arith;
  container_hdr_read =
      λ n k v. (_, refl, λ rest. rw (type_of_code-code k, type_of_code-code v) refl);
  container_entry_read = λ k v key val rest.
      rw (after_length-entry key (framed env v true val ++ rest))
        (rw (value-framed v val rest, with_key) refl);
  multiset_hdr_read = λ n t. (_, refl, λ rest. rw (type_of_code-code t) refl);
  multiset_entry_read = value-framed;
  lsort_length = length-sort;
}

pub env-PackLaws : PackLaws env
env-PackLaws = env_with-PackLaws (λ s. some (singles s)) concat
