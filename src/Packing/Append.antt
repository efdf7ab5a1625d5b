-- ===== src/Packing/Append.antt =====
-- The packing of data, compound or single, behind what a buffer holds: adlb_tclobj_bin_append.
use exm_turbine.Common.{
  ℕ, ◌-◌, Bool, true, false, Option, none, some, List, [], ◌∷◌, ◌++◌, length, map, replicate,
  Outcome, done, fault, starved, ◌>>=◌, if◌then◌else◌,
}
use exm_turbine.Handle.{Bytes, memcpy}
use exm_turbine.Packing.{DataType, no_type, container, multiset, FullType, CompoundType, PackEnv}
use exm_turbine.Packing.Objects.{dict_get, tclobj2datum}

-- How an object is packed: prefix_len, canonicalize, and the buffer before and after.
abbrev pub Packer : Type 0
Packer = Bytes → Bool → Bool → Bytes → Outcome (Option Bytes)

abbrev pub then_some {ℓ κ} :
    {A : Type ℓ} {B : Type κ} → Outcome (Option A) → (A → Outcome (Option B)) → Outcome (Option B)
then_some (done none) k = done none
then_some (done (some a)) k = k a
then_some fault k = fault
then_some starved k = starved

module _ (e : PackEnv) where
  open e use {
    Float, dict_pairs, list_elements, lsort, pack, pad_size, entry, vint_max, vint_encode,
    container_hdr, multiset_hdr,
  }

  unfoldable pub append_key_val :
      DataType → Packer → Bool → Bytes → Bytes → Bytes → Outcome (Option Bytes)
  append_key_val key_type packer canonicalize key val output =
      packer val true canonicalize (output ++ entry key_type true (key ++ (0 ∷ [])))

  -- The loop over the entries, and the one over the sorted keys, which looks each up: a missing value
  -- is a NULL pointer.
  unfoldable pub append_entries :
      DataType → Packer → Bool → List (Bytes × Bytes) → Bytes → Outcome (Option Bytes)
  unfolding append_key_val
  append_entries key_type packer canonicalize [] output = done (some output)
  append_entries key_type packer canonicalize ((key, val) ∷ pairs) output =
      then_some (append_key_val key_type packer canonicalize key val output)
        (append_entries key_type packer canonicalize pairs)

  unfoldable pub append_keys :
      DataType → Packer → Bool → List (Bytes × Bytes) → List Bytes → Bytes → Outcome (Option Bytes)
  unfolding append_key_val
  append_keys key_type packer canonicalize dict [] output = done (some output)
  append_keys key_type packer canonicalize dict (key ∷ keys) output = elim (dict_get key dict) [
    | none ↦ fault
    | some val ↦
        then_some (append_key_val key_type packer canonicalize key val output)
          (append_keys key_type packer canonicalize dict keys)
  ]

  unfoldable pub append_elements : Packer → Bool → List Bytes → Bytes → Outcome (Option Bytes)
  append_elements packer canonicalize [] output = done (some output)
  append_elements packer canonicalize (x ∷ xs) output =
      then_some (packer x true canonicalize output) (append_elements packer canonicalize xs)

  -- The types of key and value are `none` where the compound type ends before.
  unfoldable pub dict_to_packed_container :
      Option (DataType × DataType × Packer) → Bytes → Bool → Bytes → Outcome (Option Bytes)
  unfolding append_entries append_keys
  dict_to_packed_container types dict canonicalize output = elim (dict_pairs dict) [
    | none ↦ done none
    | some pairs ↦ elim types [
      | none ↦ done none
      | some (key_type, val_type, packer) ↦ elim (container_hdr (length pairs) key_type val_type) [
        | none ↦ done none
        | some hdr ↦
            if canonicalize
            then append_keys key_type packer true pairs (lsort (map (λ p. p.0) pairs))
                (output ++ hdr)
            else append_entries key_type packer false pairs (output ++ hdr)
      ]
    ]
  ]

  -- A text that is no list is an error in `lsort` already.
  unfoldable pub list_to_packed_multiset :
      Option (DataType × Packer) → Bytes → Bool → Bytes → Outcome (Option Bytes)
  unfolding append_elements
  list_to_packed_multiset types list canonicalize output = elim (list_elements list) [
    | none ↦ done none
    | some unsorted ↦ elim types [
      | none ↦ done none
      | some (elem_type, packer) ↦
          let elems = if canonicalize then lsort unsorted else unsorted in
          elim (multiset_hdr (length elems) elem_type) [
            | none ↦ done none
            | some hdr ↦ append_elements packer canonicalize elems (output ++ hdr)
          ]
    ]
  ]

  -- A type that is padded: room for its length, the data, and then the length.
  unfoldable pub append_padded :
      Bool → (Bytes → Outcome (Option Bytes)) → Bytes → Outcome (Option Bytes)
  unfolding memcpy
  append_padded false inner output = inner output
  append_padded true inner output =
      let start_pos = length output in
      then_some (inner (output ++ replicate vint_max 0)) λ r.
        memcpy r start_pos (vint_encode (length r - start_pos - vint_max)) >>= λ b. done (some b)

  unfoldable pub append_single : ℕ → FullType → Bytes → Bool → Bytes → Outcome (Option Bytes)
  unfolding tclobj2datum
  append_single depth type obj prefix_len output =
      then_some (tclobj2datum e depth type obj) λ datum. elim (pack datum) [
        | none ↦ done none
        | some packed ↦ done (some (output ++ entry no_type prefix_len packed))
      ]

  -- One type, with the types that follow it read as those of key and value and as that of elements.
  unfoldable pub append_type :
      ℕ → FullType → Option (DataType × Packer) → Option (DataType × DataType × Packer) → Packer
  unfolding append_padded append_single dict_to_packed_container list_to_packed_multiset
  append_type depth (t, x) elems pairs obj prefix_len canonicalize output =
      if pad_size t
      then (elim t [
        | container ↦
            append_padded prefix_len (dict_to_packed_container pairs obj canonicalize) output
        | multiset ↦
            append_padded prefix_len (list_to_packed_multiset elems obj canonicalize) output
        | _ ↦ done none
      ])
      else append_single depth (t, x) obj prefix_len output

  -- The list is what the compound type has from the position on.
  unfoldable pub tclobj_bin_append : ℕ → CompoundType → Packer
  unfolding append_type
  tclobj_bin_append depth [] obj prefix_len canonicalize output = done none
  tclobj_bin_append depth (t ∷ []) obj prefix_len canonicalize output =
      append_type depth t none none obj prefix_len canonicalize output
  tclobj_bin_append depth (t ∷ k ∷ []) obj prefix_len canonicalize output =
      append_type depth t (some (k.0, tclobj_bin_append depth (k ∷ []))) none obj prefix_len
        canonicalize output
  tclobj_bin_append depth (t ∷ k ∷ v ∷ types) obj prefix_len canonicalize output =
      append_type depth t (some (k.0, tclobj_bin_append depth (k ∷ v ∷ types)))
        (some (k.0, v.0, tclobj_bin_append depth (v ∷ types))) obj prefix_len canonicalize output

  -- adlb_tclobj2bin_compound and adlb_tclobj2bin: the packed data alone. A container or multiset that
  -- is given with one type only has no types for what is in it.
  unfoldable pub tclobj2bin_compound : ℕ → CompoundType → Bytes → Bool → Outcome (Option Bytes)
  tclobj2bin_compound depth types obj canonicalize =
      tclobj_bin_append depth types obj false canonicalize []

  unfoldable pub tclobj2bin : ℕ → FullType → Bytes → Bool → Outcome (Option Bytes)
  tclobj2bin depth (container, x) obj canonicalize =
      tclobj_bin_append depth ((container, x) ∷ []) obj false canonicalize []
  tclobj2bin depth (multiset, x) obj canonicalize =
      tclobj_bin_append depth ((multiset, x) ∷ []) obj false canonicalize []
  tclobj2bin depth type obj canonicalize =
      then_some (tclobj2datum e depth type obj) λ datum. done (pack datum)
