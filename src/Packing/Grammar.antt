-- ===== src/Packing/Grammar.antt =====
-- The words that name a compound type.
use exm_turbine.Common.{
  ℕ, zero, suc, ◌≡◌, ◌↔◌, refl, ap, sym, ◌∙◌, ◌==◌, false, Option, none, some, Option-cases, inl,
  inr, List, [], ◌∷◌, ◌++◌, arith, Outcome, done, fault, starved, if◌then◌else◌,
}
use mathlib.Core.Path.{subst}
use exm_turbine.Handle.{Bytes}
use exm_turbine.Packing.{
  DataType, no_type, integer, float, string, blob, ref, struct, container, multiset, TypeExtra,
  FullType, CompoundType, PackEnv, with_type, types_loop, get_compound_type,
}

-- A type with no types in it.
abbrev pub IsPlain : DataType → Type 0
IsPlain container = ⊥
IsPlain multiset = ⊥
IsPlain _ = Unit

-- A full type: a container has the types of its keys, which are plain, and of its values; a multiset
-- has that of its elements.
pub data Compound : CompoundType → Type 0 where
  plain : (t : FullType) → IsPlain (t.0) → Compound (t ∷ [])
  container_of :
      (x : TypeExtra) (key : FullType) (val : CompoundType)
      → IsPlain (key.0)
      → Compound val
      → Compound ((container, x) ∷ key ∷ val)
  multiset_of :
      (x : TypeExtra) (elem : CompoundType) → Compound elem → Compound ((multiset, x) ∷ elem)

-- The same by the number of types that are still to be read.
abbrev Shape : ℕ → CompoundType → Type 0
Shape zero [] = Unit
Shape zero (t ∷ ts) = ⊥
Shape (suc k) [] = ⊥
Shape (suc k) ((container, x) ∷ ts) = (k ≡ 0) × Shape 2 ts
Shape (suc k) ((multiset, x) ∷ ts) = (k ≡ 0) × Shape 1 ts
Shape (suc k) (t ∷ ts) = Shape k ts

key_plain : (k : FullType) (val : CompoundType) → Shape 2 (k ∷ val) → IsPlain (k.0) × Shape 1 val
key_plain (container, x) val s = absurd (omega (arith, s.0))
key_plain (multiset, x) val s = absurd (omega (arith, s.0))
key_plain (_, x) val s = (tt, s)

plain_key : (k : FullType) (val : CompoundType) → IsPlain (k.0) → Shape 1 val → Shape 2 (k ∷ val)
plain_key (container, x) val p s = absurd p
plain_key (multiset, x) val p s = absurd p
plain_key (_, x) val p s = s

Shape-Compound : (ts : CompoundType) → Shape 1 ts → Compound ts
Shape-Compound [] s = absurd s
Shape-Compound ((container, x) ∷ []) s = absurd (s.1)
Shape-Compound ((container, x) ∷ k ∷ val) s =
    let (p, r) = key_plain k val (s.1) in container_of x k val p (Shape-Compound val r)
Shape-Compound ((multiset, x) ∷ ts) s = multiset_of x ts (Shape-Compound ts (s.1))
Shape-Compound ((no_type, x) ∷ []) s = plain (no_type, x) tt
Shape-Compound ((integer, x) ∷ []) s = plain (integer, x) tt
Shape-Compound ((float, x) ∷ []) s = plain (float, x) tt
Shape-Compound ((string, x) ∷ []) s = plain (string, x) tt
Shape-Compound ((blob, x) ∷ []) s = plain (blob, x) tt
Shape-Compound ((ref, x) ∷ []) s = plain (ref, x) tt
Shape-Compound ((struct, x) ∷ []) s = plain (struct, x) tt
Shape-Compound ((_, x) ∷ t ∷ ts) s = absurd s

Compound-Shape : {ts : CompoundType} → Compound ts → Shape 1 ts
Compound-Shape (plain (container, x) p) = absurd p
Compound-Shape (plain (multiset, x) p) = absurd p
Compound-Shape (plain (_, x) p) = tt
Compound-Shape (container_of x k val p c) = (refl, plain_key k val p (Compound-Shape c))
Compound-Shape (multiset_of x elem c) = (refl, Compound-Shape c)

with_type-inv :
    (t : FullType) (m : Outcome (Option (CompoundType × List Bytes))) {ts : CompoundType}
    {rest : List Bytes}
    → with_type t m ≡ done (some (ts, rest))
    → (ts' : CompoundType) × (m ≡ done (some (ts', rest))) × (t ∷ ts' ≡ ts)
with_type-inv t (done none) q = cc
with_type-inv t (done (some (ts', rest'))) q = (ts', cc, cc)
with_type-inv t fault q = cc
with_type-inv t starved q = cc

results_eq :
    (ts us : CompoundType) (ws vs : List Bytes)
    → ◌≡◌ {A = Outcome (Option (CompoundType × List Bytes))}
        (done (some (ts, ws)))
        (done (some (us, vs)))
    → (ts ≡ us) × (ws ≡ vs)
results_eq ts us ws vs q = (cc, cc)

nonzero : (k : ℕ) → (suc k == 0) ≡ false
nonzero k = ground arith

module _ (e : PackEnv) where
  open e use {type_of_name}

  -- Each word is the name of a type.
  abbrev pub Spells : List Bytes → CompoundType → Type 0
  Spells [] [] = Unit
  Spells (w ∷ ws) (t ∷ ts) = (type_of_name w ≡ some t) × Spells ws ts
  Spells _ _ = ⊥

  -- One round of the loop.
  abbrev Round : ℕ → Bytes → List Bytes → FullType → Type 0
  Round k w ws (container, x) =
      types_loop e (suc k) (w ∷ ws)
      ≡ (if k == 0 then with_type (container, x) (types_loop e 2 ws) else fault)
  Round k w ws (multiset, x) =
      types_loop e (suc k) (w ∷ ws)
      ≡ (if k == 0 then with_type (multiset, x) (types_loop e 1 ws) else fault)
  Round k w ws t = types_loop e (suc k) (w ∷ ws) ≡ with_type t (types_loop e k ws)

  types_loop-Round :
      (k : ℕ) (w : Bytes) (ws : List Bytes) (t : FullType)
      → type_of_name w ≡ some t
      → Round k w ws t
  unfolding types_loop
  types_loop-Round k w ws (container, x) h = rw (h, types_loop) refl
  types_loop-Round k w ws (multiset, x) h = rw (h, types_loop) refl
  types_loop-Round k w ws (no_type, x) h = rw (h, types_loop) refl
  types_loop-Round k w ws (integer, x) h = rw (h, types_loop) refl
  types_loop-Round k w ws (float, x) h = rw (h, types_loop) refl
  types_loop-Round k w ws (string, x) h = rw (h, types_loop) refl
  types_loop-Round k w ws (blob, x) h = rw (h, types_loop) refl
  types_loop-Round k w ws (ref, x) h = rw (h, types_loop) refl
  types_loop-Round k w ws (struct, x) h = rw (h, types_loop) refl

  abbrev Read : ℕ → List Bytes → CompoundType → List Bytes → Type 0
  Read n words ts rest = (used : List Bytes) × (words ≡ used ++ rest) × Spells used ts × Shape n ts

  -- A word that was read, before what the loop reads after it.
  extend :
      (k n : ℕ) (w : Bytes) (ws : List Bytes) (t : FullType) (ts : CompoundType) (rest : List Bytes)
      → type_of_name w ≡ some t
      → ((ts : CompoundType) → Shape n ts → Shape (suc k) (t ∷ ts))
      → ((ts : CompoundType) → types_loop e n ws ≡ done (some (ts, rest)) → Read n ws ts rest)
      → with_type t (types_loop e n ws) ≡ done (some (ts, rest))
      → Read (suc k) (w ∷ ws) ts rest
  extend k n w ws t ts rest h s ih q =
      let (ts', m, same) = with_type-inv t (types_loop e n ws) q in
      let (used, u, sp, sh) = ih ts' m in
      subst (λ ts. Read (suc k) (w ∷ ws) ts rest) same
        (w ∷ used, ap (λ l. w ∷ l) u, (h, sp), s ts' sh)

  round_sound :
      (k : ℕ) (w : Bytes) (ws : List Bytes) (t : FullType) (ts : CompoundType) (rest : List Bytes)
      → type_of_name w ≡ some t
      → ((n : ℕ) (ts : CompoundType)
          → types_loop e n ws ≡ done (some (ts, rest))
          → Read n ws ts rest)
      → types_loop e (suc k) (w ∷ ws) ≡ done (some (ts, rest))
      → Read (suc k) (w ∷ ws) ts rest
  round_sound zero w ws (container, x) ts rest h ih q =
      extend 0 2 w ws (container, x) ts rest h (λ ts s. (refl, s)) (ih 2)
        (sym (types_loop-Round 0 w ws (container, x) h) ∙ q)
  round_sound (suc k) w ws (container, x) ts rest h ih q =
      cc (rw (nonzero k) at (sym (types_loop-Round (suc k) w ws (container, x) h) ∙ q))
  round_sound zero w ws (multiset, x) ts rest h ih q =
      extend 0 1 w ws (multiset, x) ts rest h (λ ts s. (refl, s)) (ih 1)
        (sym (types_loop-Round 0 w ws (multiset, x) h) ∙ q)
  round_sound (suc k) w ws (multiset, x) ts rest h ih q =
      cc (rw (nonzero k) at (sym (types_loop-Round (suc k) w ws (multiset, x) h) ∙ q))
  round_sound k w ws (t, x) ts rest h ih q =
      extend k k w ws (t, x) ts rest h (λ ts s. s) (ih k)
        (sym (types_loop-Round k w ws (t, x) h) ∙ q)

  types_loop-none :
      (k : ℕ) (w : Bytes) (ws : List Bytes)
      → type_of_name w ≡ none
      → types_loop e (suc k) (w ∷ ws) ≡ done none
  unfolding types_loop
  types_loop-none k w ws h = rw (h, types_loop) refl

  types_loop-end :
      (k : ℕ) (words : List Bytes)
      → (types_loop e 0 words ≡ done (some ([], words))) × (types_loop e (suc k) [] ≡ done none)
  unfolding types_loop
  types_loop-end k [] = (refl, refl)
  types_loop-end k (w ∷ ws) = (refl, refl)

  types_loop-Read :
      (words : List Bytes) (n : ℕ) (ts : CompoundType) (rest : List Bytes)
      → types_loop e n words ≡ done (some (ts, rest))
      → Read n words ts rest
  types_loop-Read words zero ts rest q =
      let (nil, all) = results_eq [] ts words rest (sym (types_loop-end 0 words).0 ∙ q) in
      subst (λ ts. Read 0 words ts rest) nil ([], all, tt, tt)
  types_loop-Read [] (suc k) ts rest q = cc ((types_loop-end k []).1, q)
  types_loop-Read (w ∷ ws) (suc k) ts rest q = elim (Option-cases (type_of_name w)) [
    | inl h ↦ cc (types_loop-none k w ws h, q)
    | inr (t, h) ↦ round_sound k w ws t ts rest h (λ n ts. types_loop-Read ws n ts rest) q
  ]

  round_complete :
      (k : ℕ) (w : Bytes) (ws rest : List Bytes) (t : FullType) (ts : CompoundType)
      → type_of_name w ≡ some t
      → ((n : ℕ) → Shape n ts → types_loop e n ws ≡ done (some (ts, rest)))
      → Shape (suc k) (t ∷ ts)
      → types_loop e (suc k) (w ∷ ws) ≡ done (some (t ∷ ts, rest))
  round_complete zero w ws rest (container, x) ts h ih s =
      types_loop-Round 0 w ws (container, x) h ∙ rw (ih 2 (s.1)) refl
  round_complete (suc k) w ws rest (container, x) ts h ih s = absurd (omega (arith, s.0))
  round_complete zero w ws rest (multiset, x) ts h ih s =
      types_loop-Round 0 w ws (multiset, x) h ∙ rw (ih 1 (s.1)) refl
  round_complete (suc k) w ws rest (multiset, x) ts h ih s = absurd (omega (arith, s.0))
  round_complete k w ws rest (t, x) ts h ih s = types_loop-Round k w ws (t, x) h ∙ rw (ih k s) refl

  types_loop_complete :
      (used rest : List Bytes) (n : ℕ) (ts : CompoundType)
      → Spells used ts
      → Shape n ts
      → types_loop e n (used ++ rest) ≡ done (some (ts, rest))
  types_loop_complete [] rest zero [] sp sh = (types_loop-end 0 rest).0
  types_loop_complete [] rest (suc n) [] sp sh = absurd sh
  types_loop_complete [] rest n (t ∷ ts) sp sh = absurd sp
  types_loop_complete (w ∷ ws) rest n [] sp sh = absurd sp
  types_loop_complete (w ∷ ws) rest zero (t ∷ ts) sp sh = absurd sh
  types_loop_complete (w ∷ ws) rest (suc n) (t ∷ ts) sp sh =
      round_complete n w (ws ++ rest) rest t ts (sp.0)
        (λ m. types_loop_complete ws rest m ts (sp.1)) sh

  -- `get_compound_type` returns types exactly when the words begin with the names of one full type, in
  -- which the keys of containers are plain, and it returns that type with the words behind it: it
  -- never stops before a container or multiset is complete, and never takes a word too many.
  pub get_compound_type-Compound :
      (words : List Bytes) (ts : CompoundType) (rest : List Bytes)
      → (get_compound_type e words ≡ done (some (ts, rest)))
        ↔ (Compound ts × (used : List Bytes) × (words ≡ used ++ rest) × Spells used ts)
  unfolding get_compound_type
  get_compound_type-Compound words ts rest = (
    λ q.
        let (used, u, sp, sh) = types_loop-Read words 1 ts rest q in
        (Shape-Compound ts sh, used, u, sp),
    λ (c, used, u, sp). rw u (types_loop_complete used rest 1 ts sp (Compound-Shape c)),
  )
