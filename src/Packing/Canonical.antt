-- ===== src/Packing/Canonical.antt =====
-- What an object is after it was packed and unpacked, said without the packed form: numbers, strings
-- and the values of dictionaries and lists in the texts of new objects, sorted where that is asked.
use exm_turbine.Common.{
  ℕ, ◌-◌, ◌≤◌, ◌≡◌, Bool, true, false, Option, none, some, List, [], ◌∷◌, ◌++◌, length, map,
  replicate, Outcome, done, fault, starved, if◌then◌else◌,
}
use exm_turbine.Handle.{Bytes}
use exm_turbine.Packing.{
  DataType, no_type, integer, float, string, blob, ref, container, multiset, FullType, CompoundType,
  Datum, int_datum, ref_datum, float_datum, string_datum, blob_datum, PackEnv,
}
use exm_turbine.Packing.Objects.{map_some, dict_get, tclobj2datum}
use exm_turbine.Packing.Unpack.{dict_put, datum_object}

-- A type that is packed at once.
abbrev pub IsSingle : DataType → Type 0
IsSingle integer = Unit
IsSingle float = Unit
IsSingle string = Unit
IsSingle blob = Unit
IsSingle ref = Unit
IsSingle _ = ⊥

-- The datum is of the type.
abbrev pub IsOf : {F : Type 0} → DataType → Datum F → Type 0
IsOf integer (int_datum n) = Unit
IsOf ref (ref_datum n) = Unit
IsOf float (float_datum x) = Unit
IsOf string (string_datum s) = Unit
IsOf blob (blob_datum b) = Unit
IsOf _ _ = ⊥

-- Each pair put into a dictionary.
abbrev pub put_all : List (Bytes × Bytes) → List (Bytes × Bytes) → List (Bytes × Bytes)
put_all [] d = d
put_all ((k, v) ∷ ps) d = put_all ps (dict_put k v d)

abbrev pub cons_some {ℓ} : {A : Type ℓ} → Option A → Option (List A) → Option (List A)
cons_some none r = none
cons_some (some a) none = none
cons_some (some a) (some as') = some (a ∷ as')

abbrev pub all_values :
    (Bytes → Option Bytes) → List (Bytes × Bytes) → Option (List (Bytes × Bytes))
all_values f [] = some []
all_values f ((k, v) ∷ ps) = cons_some (map_some (λ o. (k, o)) (f v)) (all_values f ps)

abbrev pub all_elements : (Bytes → Option Bytes) → List Bytes → Option (List Bytes)
all_elements f [] = some []
all_elements f (x ∷ xs) = cons_some (f x) (all_elements f xs)

-- The pairs in the order of some keys.
abbrev pub look_up_all : List (Bytes × Bytes) → List Bytes → Option (List (Bytes × Bytes))
look_up_all d [] = some []
look_up_all d (k ∷ ks) = cons_some (map_some (λ v. (k, v)) (dict_get k d)) (look_up_all d ks)

abbrev pub and_then {ℓ κ} : {A : Type ℓ} {B : Type κ} → Option A → (A → Option B) → Option B
and_then none f = none
and_then (some a) f = f a

module _ (e : PackEnv) where
  open e use {
    dict_pairs, list_elements, lsort, list_text, dict_text, pack, unpack, pad_size, entry, vint_max,
    vint_encode, container_hdr, multiset_hdr, unpack_container_hdr, unpack_container_entry,
    unpack_multiset_hdr, unpack_multiset_entry,
  }

  abbrev pub returned {ℓ} : {A : Type ℓ} → Outcome (Option A) → Option A
  returned (done o) = o
  returned fault = none
  returned starved = none

  -- `sorted` is `canonicalize`.
  abbrev pub canonical_pairs : Bool → Bytes → Option (List (Bytes × Bytes))
  canonical_pairs sorted obj =
      and_then (dict_pairs obj)
        λ ps. if sorted then look_up_all ps (lsort (map (λ p. p.0) ps)) else some ps

  abbrev pub canonical_elements : Bool → Bytes → Option (List Bytes)
  canonical_elements sorted obj =
      and_then (list_elements obj) λ xs. some (if sorted then lsort xs else xs)

  -- The values of pairs and the elements are made canonical by the functions that are given.
  abbrev pub canonical_type :
      Bool
      → FullType
      → Option (Bytes → Option Bytes)
      → Option (Bytes → Option Bytes)
      → Bytes
      → Option Bytes
  canonical_type sorted (container, x) elem val obj = and_then val λ f.
      and_then (canonical_pairs sorted obj)
        λ ps. and_then (all_values f ps) λ qs. some (dict_text (put_all qs []))
  canonical_type sorted (multiset, x) elem val obj = and_then elem λ f.
      and_then (canonical_elements sorted obj)
        λ xs. and_then (all_elements f xs) λ ys. some (list_text ys)
  canonical_type sorted t elem val obj =
      and_then (returned (tclobj2datum e 0 t obj)) λ d. datum_object e d

  unfoldable pub canonical : Bool → CompoundType → Bytes → Option Bytes
  canonical sorted [] obj = none
  canonical sorted (t ∷ []) obj = canonical_type sorted t none none obj
  canonical sorted (t ∷ k ∷ []) obj =
      canonical_type sorted t (some (canonical sorted (k ∷ []))) none obj
  canonical sorted (t ∷ k ∷ v ∷ ts) obj =
      canonical_type sorted t (some (canonical sorted (k ∷ v ∷ ts)))
        (some (canonical sorted (v ∷ ts))) obj

  -- The length before data that are padded, and what stands for data of a type in an entry.
  abbrev pub padded : Bytes → Bytes
  padded bs =
      (vint_encode (length bs) ++ replicate (vint_max - length (vint_encode (length bs))) 0) ++ bs

  abbrev pub framed : DataType → Bool → Bytes → Bytes
  framed t prefix_len bs =
      if pad_size t then (if prefix_len then padded bs else bs) else entry no_type prefix_len bs

  -- What the code relies on. Single data are packed and read back, and with no length they stand as
  -- they are; a length fits the room for it and an entry is no shorter than its data; headers and
  -- entries are read back in front of anything; sorting keeps the number of elements.
  pub record PackLaws : Type 0 where
    pub pad_container : pad_size container ≡ true
    pub pad_multiset : pad_size multiset ≡ true
    pub pad_single : (t : DataType) → IsSingle t → pad_size t ≡ false
    pub pack_single :
        (t : DataType) (d : Datum e.Float)
        → IsSingle t
        → IsOf t d
        → (bs : Bytes) × (pack d ≡ some bs) × (unpack t bs ≡ some d)
    pub entry_plain : (bs : Bytes) → entry no_type false bs ≡ bs
    pub entry_length : (bs : Bytes) → length bs ≤ length (entry no_type true bs)
    pub vint_fits : (n : ℕ) → length (vint_encode n) ≤ vint_max
    pub container_hdr_read :
        (n : ℕ) (k v : DataType)
        → (hdr : Bytes) × (container_hdr n k v ≡ some hdr)
          × ((rest : Bytes) → unpack_container_hdr (hdr ++ rest) ≡ some ((n, k, v), rest))
    pub container_entry_read :
        (k v : DataType) (key val rest : Bytes)
        → unpack_container_entry k v (entry k true key ++ (framed v true val ++ rest))
          ≡ some (key, val, rest)
    pub multiset_hdr_read :
        (n : ℕ) (t : DataType)
        → (hdr : Bytes) × (multiset_hdr n t ≡ some hdr)
          × ((rest : Bytes) → unpack_multiset_hdr (hdr ++ rest) ≡ some ((n, t), rest))
    pub multiset_entry_read :
        (t : DataType) (elem rest : Bytes)
        → unpack_multiset_entry t (framed t true elem ++ rest) ≡ some (elem, rest)
    pub lsort_length : (xs : List Bytes) → length (lsort xs) ≡ length xs
