-- ===== src/Packing/Levels.antt =====
-- Data of one type that are packed and read back, compound ones from their parts.
use exm_turbine.Common.{
  ℕ, suc, ◌≤◌, ◌≡◌, refl, ap, ◌∙◌, Bool, true, Option, none, some, List, [], ◌++◌, append_assoc,
  arith, le→leb, length, length-append, if◌then◌else◌, done,
}
use exm_turbine.Handle.{Bytes}
use exm_turbine.Packing.{
  DataType, no_type, integer, float, string, blob, ref, struct, container, multiset, TypeExtra,
  no_extra, FullType, PackEnv,
}
use exm_turbine.Packing.Objects.{tclobj2datum}
use exm_turbine.Packing.Append.{
  Packer, append_elements, append_type, dict_to_packed_container, list_to_packed_multiset,
}
use exm_turbine.Packing.Unpack.{
  Reader, read_entries, read_elements, container_expected, multiset_expected, datum2tclobj,
  datum_object, packed_container_to_dict, packed_multiset_to_list,
}
use exm_turbine.Packing.Canonical.{
  IsSingle, put_all, all_values, all_elements, and_then, canonical_pairs, canonical_elements,
  canonical_type, returned, PackLaws,
}
use exm_turbine.Packing.Entries.{
  and_then-inv, Packs, Reads, Returning, append_padded-framed, append_entries-read,
}
use exm_turbine.Packing.Elements.{append_elements-read, pairs_written}
use exm_turbine.Packing.Singles.{one_level, single_returning, no_struct}

module _ (e : PackEnv) (l : PackLaws e) where
  open e use {
    Float, dict_pairs, list_elements, get_int, get_double, load, pack, unpack, entry, pad_size,
    data_max, list_text, dict_text,
  }

  dict_read :
      (reader : Reader) (extra : TypeExtra) (kt vt : DataType) (n : ℕ) (packed body : Bytes)
      (qs : List (Bytes × Bytes)) (o : Bytes)
      → e.unpack_container_hdr packed ≡ some ((n, kt, vt), body)
      → container_expected extra kt vt ≡ true
      → read_entries e reader kt vt n body [] ≡ done (some (put_all qs []))
      → some (dict_text (put_all qs [])) ≡ some o
      → packed_container_to_dict e reader extra packed ≡ done (some o)
  unfolding packed_container_to_dict
  dict_read reader extra kt vt n packed body qs o h x r q =
      rw (h, packed_container_to_dict) (rw (x, r) (ap done q))

  list_read :
      (reader : Reader) (extra : TypeExtra) (t : DataType) (n : ℕ) (packed body : Bytes)
      (ys : List Bytes) (o : Bytes)
      → e.unpack_multiset_hdr packed ≡ some ((n, t), body)
      → multiset_expected extra t ≡ true
      → read_elements e reader t n body ≡ done (some ys)
      → some (list_text ys) ≡ some o
      → packed_multiset_to_list e reader extra packed ≡ done (some o)
  unfolding packed_multiset_to_list
  list_read reader extra t n packed body ys o h x r q =
      rw (h, packed_multiset_to_list) (rw (x, r) (ap done q))

  container_read :
      (kt vt : DataType) (p : Packer) (sorted : Bool) (n : ℕ) (f : Bytes → Option Bytes)
      → Returning e l p sorted vt n f
      → (obj o : Bytes)
      → and_then
          (canonical_pairs e sorted obj)
          (λ ps. and_then (all_values f ps) λ qs. some (dict_text (put_all qs [])))
        ≡ some o
      → (packed : Bytes) × ((out : Bytes)
          → dict_to_packed_container e (some (kt, vt, p)) obj sorted out
            ≡ done (some (out ++ packed)))
        × ((d : ℕ) (extra : TypeExtra)
            → container_expected extra kt vt ≡ true
            → n ≤ d
            → length packed ≤ data_max
            → packed_container_to_dict e (datum2tclobj e d) extra packed ≡ done (some o))
  container_read kt vt p sorted n f g obj o q =
      let (ps, h1, h2) = and_then-inv (canonical_pairs e sorted obj) _ q in
      let (qs, h3, h4) = and_then-inv (all_values f ps) _ h2 in
      let (hdr, h5, h6) = l.container_hdr_read (length ps) kt vt in
      let (body, written, read) = append_entries-read e l kt vt p sorted n f g ps qs h3 in
      (
        hdr ++ body,
        λ out.
            pairs_written e l kt vt p sorted obj ps hdr h1 h5 out
            ∙ written (out ++ hdr)
            ∙ ap (λ bs. done (some bs)) (append_assoc out hdr body),
        λ d extra x m n.
            dict_read (datum2tclobj e d) extra kt vt (length ps) (hdr ++ body) body qs o (h6 body) x
              (read d [] m (omega (arith, n, length-append hdr body))) h4,
      )

  elements_written :
      (t : DataType) (p : Packer) (sorted : Bool) (obj : Bytes) (xs : List Bytes) (hdr : Bytes)
      → canonical_elements e sorted obj ≡ some xs
      → e.multiset_hdr (length xs) t ≡ some hdr
      → (out : Bytes)
      → list_to_packed_multiset e (some (t, p)) obj sorted out
        ≡ append_elements e p sorted xs (out ++ hdr)
  unfolding list_to_packed_multiset
  elements_written t p sorted obj xs hdr q h out =
      let (raw, h1, h2) =
        and_then-inv (list_elements obj) (λ xs. some (if sorted then e.lsort xs else xs)) q in
      let same : (if sorted then e.lsort raw else raw) ≡ xs = cc in
      rw (h1, list_to_packed_multiset)
        (rw (ap (λ xs. e.multiset_hdr (length xs) t) same ∙ h, list_to_packed_multiset)
          (ap (λ xs. append_elements e p sorted xs (out ++ hdr)) same))

  multiset_read :
      (t : DataType) (p : Packer) (sorted : Bool) (n : ℕ) (f : Bytes → Option Bytes)
      → Returning e l p sorted t n f
      → (obj o : Bytes)
      → and_then
          (canonical_elements e sorted obj)
          (λ xs. and_then (all_elements f xs) λ ys. some (list_text ys))
        ≡ some o
      → (packed : Bytes) × ((out : Bytes)
          → list_to_packed_multiset e (some (t, p)) obj sorted out ≡ done (some (out ++ packed)))
        × ((d : ℕ) (extra : TypeExtra)
            → multiset_expected extra t ≡ true
            → n ≤ d
            → length packed ≤ data_max
            → packed_multiset_to_list e (datum2tclobj e d) extra packed ≡ done (some o))
  multiset_read t p sorted n f g obj o q =
      let (xs, h1, h2) = and_then-inv (canonical_elements e sorted obj) _ q in
      let (ys, h3, h4) = and_then-inv (all_elements f xs) _ h2 in
      let (hdr, h5, h6) = l.multiset_hdr_read (length xs) t in
      let (body, written, read) = append_elements-read e l t p sorted n f g xs ys h3 in
      (
        hdr ++ body,
        λ out.
            elements_written t p sorted obj xs hdr h1 h5 out
            ∙ written (out ++ hdr)
            ∙ ap (λ bs. done (some bs)) (append_assoc out hdr body),
        λ d extra x m n.
            list_read (datum2tclobj e d) extra t (length xs) (hdr ++ body) body ys o (h6 body) x
              (read d m (omega (arith, n, length-append hdr body))) h4,
      )

  -- Compound data one level up.
  compound_read :
      (d : ℕ) (packed o : Bytes)
      → length packed ≤ data_max
      → (packed_container_to_dict e (datum2tclobj e d) no_extra packed ≡ done (some o)
          → datum2tclobj e (suc d) (container, no_extra) packed ≡ done (some o))
        × (packed_multiset_to_list e (datum2tclobj e d) no_extra packed ≡ done (some o)
            → datum2tclobj e (suc d) (multiset, no_extra) packed ≡ done (some o))
  unfolding datum2tclobj
  compound_read d packed o m = (λ h. rw (le→leb _ _ m) h, λ h. rw (le→leb _ _ m) h)

  any_extra :
      (kt vt : DataType)
      → (container_expected no_extra kt vt ≡ true) × (multiset_expected no_extra vt ≡ true)
  unfolding container_expected multiset_expected
  any_extra kt vt = (refl, refl)

  abbrev pub Elems : Bool → ℕ → Option (DataType × Packer) → Option (Bytes → Option Bytes) → Type 0
  Elems sorted n none none = Unit
  Elems sorted n (some (t, p)) (some f) = Returning e l p sorted t n f
  Elems sorted n _ _ = ⊥

  abbrev pub Pairs :
      Bool → ℕ → Option (DataType × DataType × Packer) → Option (Bytes → Option Bytes) → Type 0
  Pairs sorted n none none = Unit
  Pairs sorted n (some (kt, vt, p)) (some f) = Returning e l p sorted vt n f
  Pairs sorted n _ _ = ⊥

  -- A packer of one type, from what packs its parts.
  module _ (depth : ℕ) (sorted : Bool) (n : ℕ) where
    as_single :
        (t : FullType) (elems : Option (DataType × Packer))
        (pairs : Option (DataType × DataType × Packer)) (obj o : Bytes)
        → IsSingle (t.0)
        → and_then (returned e (tclobj2datum e 0 t obj)) (λ d. datum_object e d) ≡ some o
        → (packed : Bytes) × Packs e l (append_type e depth t elems pairs) sorted (t.0) obj packed
          × Reads e l (suc n) (t.0) packed o
    unfolding append_type
    as_single t elems pairs obj o s q =
        let (packed, written, read) = single_returning e l depth n t obj o s q in
        (packed, λ prefix_len out. rw (l.pad_single (t.0) s) (written prefix_len out), read)

    pub type-Returning :
        (t : FullType) (elems : Option (DataType × Packer))
        (pairs : Option (DataType × DataType × Packer)) (fe fv : Option (Bytes → Option Bytes))
        → Elems sorted n elems fe
        → Pairs sorted n pairs fv
        → Returning e l
            (append_type e depth t elems pairs)
            sorted
            (t.0)
            (suc n)
            (canonical_type e sorted t fe fv)
    unfolding append_type
    type-Returning (container, x) elems none fe none h k obj o q = cc
    type-Returning (container, x) elems none fe (some f) h k obj o q = absurd k
    type-Returning (container, x) elems (some p) fe none h k obj o q = absurd k
    type-Returning (container, x) elems (some (kt, vt, p)) fe (some f) h k obj o q =
        let (packed, written, read) = container_read kt vt p sorted n f k obj o q in
        (
          packed,
          λ prefix_len out. rw (l.pad_container) (
              append_padded-framed e l (dict_to_packed_container e (some (kt, vt, p)) obj sorted)
                packed written prefix_len out),
          one_level e l _ n
              λ d m z. (compound_read d packed o z).0 (read d no_extra (any_extra kt vt).0 m z),
        )
    type-Returning (multiset, x) none pairs none fv h k obj o q = cc
    type-Returning (multiset, x) none pairs (some f) fv h k obj o q = absurd h
    type-Returning (multiset, x) (some p) pairs none fv h k obj o q = absurd h
    type-Returning (multiset, x) (some (t, p)) pairs (some f) fv h k obj o q =
        let (packed, written, read) = multiset_read t p sorted n f h obj o q in
        (
          packed,
          λ prefix_len out. rw (l.pad_multiset) (
              append_padded-framed e l (list_to_packed_multiset e (some (t, p)) obj sorted) packed
                written prefix_len out),
          one_level e l _ n
              λ d m z. (compound_read d packed o z).1 (read d no_extra (any_extra t t).1 m z),
        )
    type-Returning (no_type, x) elems pairs fe fv h k obj o q = cc
    type-Returning (struct, x) elems pairs fe fv h k obj o q = absurd (no_struct e l x obj o q)
    type-Returning (integer, x) elems pairs fe fv h k obj o q =
        as_single (integer, x) elems pairs obj o tt q
    type-Returning (ref, x) elems pairs fe fv h k obj o q =
        as_single (ref, x) elems pairs obj o tt q
    type-Returning (float, x) elems pairs fe fv h k obj o q =
        as_single (float, x) elems pairs obj o tt q
    type-Returning (string, x) elems pairs fe fv h k obj o q =
        as_single (string, x) elems pairs obj o tt q
    type-Returning (blob, x) elems pairs fe fv h k obj o q =
        as_single (blob, x) elems pairs obj o tt q
