-- ===== src/Packing/Elements.antt =====
-- The elements of a multiset, written and read back, and the order in which a dictionary is packed.
use exm_turbine.Common.{
  ℕ, suc, ◌≤◌, ◌≡◌, refl, ap, sym, ◌∙◌, Bool, true, false, Option, none, some, List, [], ◌∷◌, ◌++◌,
  append_assoc, append-nil, length, map, Outcome, done, fault, starved,
}
use exm_turbine.Handle.{Bytes}
use exm_turbine.Packing.{DataType, no_extra, PackEnv}
use exm_turbine.Packing.Objects.{map_some, dict_get}
use exm_turbine.Packing.Append.{
  Packer, then_some, append_key_val, append_entries, append_keys, append_elements,
  dict_to_packed_container,
}
use exm_turbine.Packing.Unpack.{Reader, read_elements, datum2tclobj}
use exm_turbine.Packing.Canonical.{all_elements, look_up_all, canonical_pairs, framed, PackLaws}
use exm_turbine.Packing.Entries.{cons_some-inv, map_some-inv, and_then-inv, Returning, entry_fits}

module _ (e : PackEnv) (l : PackLaws e) where
  open e use {
    Float, dict_pairs, list_elements, lsort, entry, pad_size, vint_max, vint_encode, data_max,
    list_text, dict_text,
  }

  append_elements_step :
      (p : Packer) (sorted : Bool) (x : Bytes) (xs : List Bytes) (out b1 b2 : Bytes)
      → p x true sorted out ≡ done (some b1)
      → append_elements e p sorted xs b1 ≡ done (some b2)
      → append_elements e p sorted (x ∷ xs) out ≡ done (some b2)
  unfolding append_elements
  append_elements_step p sorted x xs out b1 b2 h m = rw h m

  read_elements_step :
      (reader : Reader) (t : DataType) (n : ℕ) (packed body o : Bytes) (os : List Bytes)
      → reader (t, no_extra) packed ≡ done (some o)
      → read_elements e reader t n body ≡ done (some os)
      → read_elements e reader t (suc n) (framed e t true packed ++ body) ≡ done (some (o ∷ os))
  unfolding read_elements
  read_elements_step reader t n packed body o os h m =
      rw (l.multiset_entry_read t packed body, read_elements) (rw (h, m) refl)

  elements_nil :
      (p : Packer) (sorted : Bool) (reader : Reader) (t : DataType) (out : Bytes)
      → (append_elements e p sorted [] out ≡ done (some (out ++ [])))
        × (read_elements e reader t 0 [] ≡ done (some []))
  unfolding append_elements read_elements
  elements_nil p sorted reader t out = (ap (λ bs. done (some bs)) (sym (append-nil out)), refl)

  -- The elements of a multiset.
  pub append_elements-read :
      (t : DataType) (p : Packer) (sorted : Bool) (n : ℕ) (f : Bytes → Option Bytes)
      → Returning e l p sorted t n f
      → (xs ys : List Bytes) → all_elements f xs ≡ some ys
      → (body : Bytes) × ((out : Bytes)
          → append_elements e p sorted xs out ≡ done (some (out ++ body)))
        × ((d : ℕ)
            → n ≤ d
            → length body ≤ data_max
            → read_elements e (datum2tclobj e d) t (length xs) body ≡ done (some ys))
  append_elements-read t p sorted n f g [] ys q =
      let nothing : [] ≡ ys = cc in
      (
        [],
        λ out. (elements_nil p sorted (datum2tclobj e 0) t out).0,
        λ d m h.
            (elements_nil p sorted (datum2tclobj e d) t []).1 ∙ ap (λ ys. done (some ys)) nothing,
      )
  append_elements-read t p sorted n f g (x ∷ xs) ys q =
      let (o, os, h1, h2, h3) = cons_some-inv (f x) (all_elements f xs) q in
      let (packed, written, read) = g x o h1 in
      let (body, written', read') = append_elements-read t p sorted n f g xs os h2 in
      (
        framed e t true packed ++ body,
        λ out.
            append_elements_step p sorted x xs out _ _ (written true out) (written' _)
            ∙ ap (λ bs. done (some bs)) (append_assoc out (framed e t true packed) body),
        λ d m h.
            let shorter : (length body ≤ data_max) × (length packed ≤ data_max) =
              entry_fits e l t [] packed body h in
            read_elements_step (datum2tclobj e d) t (length xs) packed body o os
              (read d m shorter.1) (read' d m shorter.0)
            ∙ ap (λ ys. done (some ys)) h3,
      )

  then_some-cong :
      (m : Outcome (Option Bytes)) (f g : Bytes → Outcome (Option Bytes))
      → ((bs : Bytes) → f bs ≡ g bs)
      → then_some m f ≡ then_some m g
  then_some-cong (done none) f g h = refl
  then_some-cong (done (some a)) f g h = h a
  then_some-cong fault f g h = refl
  then_some-cong starved f g h = refl

  key_step :
      (kt : DataType) (p : Packer) (d ps : List (Bytes × Bytes)) (k v : Bytes) (ks : List Bytes)
      (out : Bytes)
      → dict_get k d ≡ some v
      → ((out : Bytes) → append_keys e kt p true d ks out ≡ append_entries e kt p true ps out)
      → append_keys e kt p true d (k ∷ ks) out ≡ append_entries e kt p true ((k, v) ∷ ps) out
  unfolding append_keys append_entries append_key_val
  key_step kt p d ps k v ks out h m =
      rw (h, append_keys)
        (then_some-cong (p v true true (out ++ entry kt true (k ++ (0 ∷ [])))) _ _ m)

  no_keys :
      (kt : DataType) (p : Packer) (d : List (Bytes × Bytes)) (out : Bytes)
      → append_keys e kt p true d [] out ≡ append_entries e kt p true [] out
  unfolding append_keys append_entries
  no_keys kt p d out = refl

  -- Sorted keys are looked up one by one.
  append_keys-entries :
      (kt : DataType) (p : Packer) (d : List (Bytes × Bytes)) (keys : List Bytes)
      (ps : List (Bytes × Bytes))
      → look_up_all d keys ≡ some ps
      → (length ps ≡ length keys)
        × ((out : Bytes) → append_keys e kt p true d keys out ≡ append_entries e kt p true ps out)
  append_keys-entries kt p d [] ps q =
      let nothing : [] ≡ ps = cc in
      (
        ap (λ ps. length ps) (sym nothing),
        λ out. no_keys kt p d out ∙ ap (λ ps. append_entries e kt p true ps out) nothing,
      )
  append_keys-entries kt p d (k ∷ ks) ps q =
      let (kv, ps', h1, h2, h3) =
        cons_some-inv (map_some (λ v. (k, v)) (dict_get k d)) (look_up_all d ks) q in
      let (v, h4, h5) = map_some-inv (λ v. (k, v)) (dict_get k d) h1 in
      let (counted, same) = append_keys-entries kt p d ks ps' h2 in
      let whole : ((k, v) ∷ ps') ≡ ps = ap (λ p. p ∷ ps') h5 ∙ h3 in
      (
        ap (λ ps. length ps) (sym whole) ∙ ap suc counted,
        λ out.
            key_step kt p d ps' k v ks out h4 same
            ∙ ap (λ ps. append_entries e kt p true ps out) whole,
      )

  length-map : (ps : List (Bytes × Bytes)) → length (map (λ p. p.0) ps) ≡ length ps
  length-map [] = refl
  length-map (p ∷ ps) = ap suc (length-map ps)

  -- The pairs of a dictionary in the order in which they are packed.
  pub pairs_written :
      (kt vt : DataType) (p : Packer) (sorted : Bool) (obj : Bytes) (ps : List (Bytes × Bytes))
      (hdr : Bytes)
      → canonical_pairs e sorted obj ≡ some ps
      → e.container_hdr (length ps) kt vt ≡ some hdr
      → (out : Bytes)
      → dict_to_packed_container e (some (kt, vt, p)) obj sorted out
        ≡ append_entries e kt p sorted ps (out ++ hdr)
  unfolding dict_to_packed_container
  pairs_written kt vt p false obj ps hdr q h out =
      let (raw, h1, h2) = and_then-inv (dict_pairs obj) (λ ps. some ps) q in
      let same : raw ≡ ps = cc in
      rw (h1 ∙ ap some same, dict_to_packed_container) (rw (h, dict_to_packed_container) refl)
  pairs_written kt vt p true obj ps hdr q h out =
      let (raw, h1, h2) =
        and_then-inv (dict_pairs obj) (λ ps. look_up_all ps (lsort (map (λ p. p.0) ps))) q in
      let (counted, same) = append_keys-entries kt p raw (lsort (map (λ p. p.0) raw)) ps h2 in
      let n : length raw ≡ length ps =
        sym (counted ∙ l.lsort_length (map (λ p. p.0) raw) ∙ length-map raw) in
      rw (h1, dict_to_packed_container)
        (rw (ap (λ n. e.container_hdr n kt vt) n ∙ h, dict_to_packed_container) (same (out ++ hdr)))
