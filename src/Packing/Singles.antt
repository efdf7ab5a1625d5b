-- ===== src/Packing/Singles.antt =====
-- Single data that are packed and read back.
use exm_turbine.Common.{
  ℕ, zero, suc, ◌+◌, ◌≤◌, ◌≡◌, refl, ap, Bool, true, false, none, some, [], ◌∷◌, ◌++◌, arith,
  le→leb, length, if◌then◌else◌, done, leb,
}
use exm_turbine.Handle.{Bytes}
use exm_turbine.Packing.{
  DataType, no_type, integer, float, string, blob, ref, struct, container, multiset, TypeExtra,
  no_extra, FullType, Datum, int_datum, ref_datum, float_datum, string_datum, blob_datum, PackEnv,
}
use exm_turbine.Packing.Objects.{extract_tcl_blob, tclobj2datum}
use exm_turbine.Packing.Append.{append_single}
use exm_turbine.Packing.Unpack.{datum2tclobj, datum_object}
use exm_turbine.Packing.Canonical.{IsSingle, IsOf, and_then, returned, PackLaws}
use exm_turbine.Packing.Entries.{map_some-inv, and_then-inv, Reads}
use mathlib.Core.Path.{subst}

module _ (e : PackEnv) (l : PackLaws e) where
  open e use {
    Float, dict_pairs, list_elements, get_int, get_double, load, pack, unpack, entry, pad_size,
    data_max, list_text, dict_text,
  }

  abbrev Single : FullType → Bytes → Datum Float → Type 0
  Single t obj d = ((depth : ℕ) → tclobj2datum e depth t obj ≡ done (some d)) × IsOf (t.0) d

  -- A single datum, whatever depth is given.
  Single-datum :
      (t : FullType) (obj : Bytes) (d : Datum Float)
      → IsSingle (t.0)
      → returned e (tclobj2datum e 0 t obj) ≡ some d
      → Single t obj d
  unfolding tclobj2datum
  Single-datum (integer, x) obj d s q =
      (λ depth. ap done q, subst (IsOf integer) (map_some-inv int_datum (get_int obj) q).2 tt)
  Single-datum (ref, x) obj d s q =
      (λ depth. ap done q, subst (IsOf ref) (map_some-inv ref_datum (get_int obj) q).2 tt)
  Single-datum (float, x) obj d s q =
      (λ depth. ap done q, subst (IsOf float) (map_some-inv float_datum (get_double obj) q).2 tt)
  Single-datum (blob, x) obj d s q = (
    λ depth. ap done q,
    subst (IsOf blob) (map_some-inv (λ p. blob_datum (load p.0 p.1)) (extract_tcl_blob e obj) q).2
        tt,
  )
  Single-datum (string, x) obj d s q =
      (λ depth. ap done q, by_length (leb (length obj + 1) data_max) q)
    where
      by_length :
          (b : Bool)
          → (if b then some (string_datum (obj ++ (0 ∷ []))) else none) ≡ some d
          → IsOf string d
      by_length true q =
          let same : string_datum (obj ++ (0 ∷ [])) ≡ d = cc in subst (IsOf string) same tt
      by_length false q = cc
  Single-datum (no_type, x) obj d s q = absurd s
  Single-datum (struct, x) obj d s q = absurd s
  Single-datum (container, x) obj d s q = absurd s
  Single-datum (multiset, x) obj d s q = absurd s

  -- What a packed datum of one type gives back.
  single_read :
      (t : DataType) (extra : TypeExtra) (depth : ℕ) (packed : Bytes) (d : Datum Float) (o : Bytes)
      → IsSingle t
      → unpack t packed ≡ some d
      → datum_object e d ≡ some o
      → length packed ≤ data_max
      → datum2tclobj e (suc depth) (t, extra) packed ≡ done (some o)
  unfolding datum2tclobj
  single_read integer extra depth packed d o s h q m = rw (le→leb _ _ m, h, q) refl
  single_read ref extra depth packed d o s h q m = rw (le→leb _ _ m, h, q) refl
  single_read float extra depth packed d o s h q m = rw (le→leb _ _ m, h, q) refl
  single_read string extra depth packed d o s h q m = rw (le→leb _ _ m, h, q) refl
  single_read blob extra depth packed d o s h q m = rw (le→leb _ _ m, h, q) refl
  single_read no_type extra depth packed d o s h q m = absurd s
  single_read struct extra depth packed d o s h q m = absurd s
  single_read container extra depth packed d o s h q m = absurd s
  single_read multiset extra depth packed d o s h q m = absurd s

  pub one_level :
      (P : ℕ → Type 0) (n : ℕ) → ((d : ℕ) → n ≤ d → P (suc d)) → (d : ℕ) → suc n ≤ d → P d
  one_level P n h zero m = absurd (omega arith)
  one_level P n h (suc d) m = h d (omega arith)

  single_written :
      (depth : ℕ) (t : FullType) (obj : Bytes) (d : Datum Float) (packed : Bytes)
      (prefix_len : Bool) (out : Bytes)
      → tclobj2datum e depth t obj ≡ done (some d)
      → pack d ≡ some packed
      → append_single e depth t obj prefix_len out
        ≡ done (some (out ++ entry no_type prefix_len packed))
  unfolding append_single
  single_written depth t obj d packed prefix_len out h q = rw h (rw (q, append_single) refl)

  pub single_returning :
      (depth n : ℕ) (t : FullType) (obj o : Bytes)
      → IsSingle (t.0)
      → and_then (returned e (tclobj2datum e 0 t obj)) (λ d. datum_object e d) ≡ some o
      → (packed : Bytes) × ((prefix_len : Bool) (out : Bytes)
          → append_single e depth t obj prefix_len out
            ≡ done (some (out ++ entry no_type prefix_len packed)))
        × Reads e l (suc n) (t.0) packed o
  single_returning depth n t obj o s q =
      let (d, h1, h2) = and_then-inv (returned e (tclobj2datum e 0 t obj)) _ q in
      let (h3, h4) = Single-datum t obj d s h1 in
      let (packed, h5, h6) = l.pack_single (t.0) d s h4 in
      (
        packed,
        λ prefix_len out. single_written depth t obj d packed prefix_len out (h3 depth) h5,
        one_level _ n λ k m z. single_read (t.0) no_extra k packed d o s h6 h2 z,
      )

  pub no_struct :
      (x : TypeExtra) (obj o : Bytes)
      → and_then (returned e (tclobj2datum e 0 (struct, x) obj)) (λ d. datum_object e d) ≡ some o
      → ⊥
  unfolding tclobj2datum
  no_struct no_extra obj o q = cc
  no_struct (TypeExtra.struct_type st) obj o q = cc
  no_struct (TypeExtra.container_types k v) obj o q = cc
  no_struct (TypeExtra.multiset_type t) obj o q = cc
