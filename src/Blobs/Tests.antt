-- ===== src/Blobs/Tests.antt =====
-- A blob of two bytes, with lists of three elements, addresses that are numbered and a table of pairs.
use mathlib.Core.Path.{subst}
use exm_turbine.Common.{
  ℕ, ◌+◌, ◌≡◌, refl, true, false, ==_iff, Option, none, some, List, [], ◌∷◌, ◌++◌, pos, negsuc,
  length, take, drop, if◌then◌else◌, done,
}
use exm_turbine.Handle.{Bytes}
use exm_turbine.Handle.Memory.{take-append, drop-append}
use exm_turbine.Packing.{blob, PackEnv}
use exm_turbine.Packing.Objects.{bytes_eq, extract_tcl_blob, build_tcl_blob}
use exm_turbine.Packing.Scenario.{env_with}
use exm_turbine.Data.{DataEnv}
use exm_turbine.Data.Tests.{one_place, here, parsed_test}
use exm_turbine.Blobs.{
  BlobEnv, blob_cache_key, retrieve_blob_impl, local_blob_free_cmd, blob_free_cmd,
}
use exm_turbine.Blobs.Freed.{FreeLaws, state, retrieve_blob_impl-freed}

-- A list of three elements, in which the second is one byte.
abbrev triple_text : List Bytes → Bytes
triple_text (x ∷ (n ∷ []) ∷ h ∷ []) = length x ∷ (x ++ (n ∷ h))
triple_text _ = []

abbrev behind : Bytes → Bytes → Option (List Bytes)
behind x [] = none
behind x (n ∷ h) = some (x ∷ (n ∷ []) ∷ h ∷ [])

abbrev triple_elements : Bytes → Option (List Bytes)
triple_elements [] = none
triple_elements (n ∷ rest) = behind (take n rest) (drop n rest)

abbrev triples : PackEnv
triples = env_with triple_elements triple_text

abbrev place : DataEnv
place = record one_place { packing = triples; has_sub = λ s. false }

abbrev Pairs : Type 0
Pairs = List (Bytes × Bytes)

abbrev take_out : Bytes → Pairs → Option Bytes × Pairs
take_out k [] = (none, [])
take_out k ((j, p) ∷ t) =
    if bytes_eq j k then (some p, t) else (let r = take_out k t in (r.0, (j, p) ∷ r.1))

abbrev numbered : BlobEnv place
numbered = record {
  Table = Pairs;
  add = λ k p t. (true, (k, p) ∷ t);
  remove = take_out;
  id_bytes = λ i. elim i [ pos n ↦ n ∷ [] | negsuc n ↦ n ∷ 0 ∷ [] ];
  malloc = λ n live. some ((length live + 1) ∷ []);
  same = bytes_eq;
  is_null = λ p. false;
}

bytes_eq_refl : (b : Bytes) → bytes_eq b b ≡ true
unfolding bytes_eq
bytes_eq_refl [] = refl
bytes_eq_refl (x ∷ b) = rw ((==_iff x x).1 refl, bytes_eq_refl b) refl

triple_elements-text :
    (p : Bytes) (n : ℕ) (h : Bytes)
    → triple_elements (triple_text (p ∷ (n ∷ []) ∷ h ∷ [])) ≡ some (p ∷ (n ∷ []) ∷ h ∷ [])
triple_elements-text p n h =
    rw (take-append p (n ∷ h) (length p) refl, drop-append p (n ∷ h) (length p) refl) refl

numbered-FreeLaws : FreeLaws place numbered
unfolding extract_tcl_blob build_tcl_blob
numbered-FreeLaws = record {
  same_refl = bytes_eq_refl;
  list_read = λ p n h. (
    rw (extract_tcl_blob, triple_elements-text p n h) refl,
    rw (triple_elements-text p n h) refl,
  );
  add_remove = λ k p t t' absent added.
      let e : (k, p) ∷ t ≡ t' = cc in
      subst (λ (u : Pairs). take_out k u ≡ (some p, t)) e (rw (bytes_eq_refl k) refl);
}

retrieve_blob_impl-freed_example :
    (obj : Bytes) × (retrieve_blob_impl place numbered false
        ((5 ∷ []) ∷ [])
        (state place numbered numbered-FreeLaws (some (blob, 1 ∷ 2 ∷ [])) [] [])
      ≡ done (
        some obj,
        state place numbered numbered-FreeLaws
            (some (blob, 1 ∷ 2 ∷ []))
            ((1 ∷ []) ∷ [])
            ((5 ∷ [], 1 ∷ []) ∷ []),
      ))
    × (local_blob_free_cmd place numbered (obj ∷ []) (
          state place numbered numbered-FreeLaws
            (some (blob, 1 ∷ 2 ∷ []))
            ((1 ∷ []) ∷ [])
            ((5 ∷ [], 1 ∷ []) ∷ []))
        ≡ done (some [], state place numbered numbered-FreeLaws (some (blob, 1 ∷ 2 ∷ [])) [] []))
    × (blob_free_cmd place numbered ((5 ∷ []) ∷ []) (
          state place numbered numbered-FreeLaws
            (some (blob, 1 ∷ 2 ∷ []))
            ((1 ∷ []) ∷ [])
            ((5 ∷ [], 1 ∷ []) ∷ []))
        ≡ done (some [], state place numbered numbered-FreeLaws (some (blob, 1 ∷ 2 ∷ [])) [] []))
unfolding blob_cache_key
retrieve_blob_impl-freed_example =
    retrieve_blob_impl-freed place numbered numbered-FreeLaws (5 ∷ []) (1 ∷ 2 ∷ []) (pos 5) here
      (some (blob, 1 ∷ 2 ∷ [])) (some (blob, 1 ∷ 2 ∷ [])) [] [] ((5 ∷ [], 1 ∷ []) ∷ []) (1 ∷ [])
      parsed_test refl refl refl refl
