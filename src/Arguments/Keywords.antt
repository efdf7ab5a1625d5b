-- ===== src/Arguments/Keywords.antt =====
-- The keyword arguments of the worker loops.
use Prim.Native.String.{String}
use exm_turbine.Common.{
  ℕ, ◌≡◌, ◌⊎◌, inl, inr, pos, refl, Bool, true, false, Option, none, some, List, [], ◌∷◌, str_eq,
  str_eq_iff, if◌then◌else◌,
}
use exm_turbine.Arguments.{TclValues, get_count, keyword_loop, worker_keyword_args}

module _ (v : TclValues) where
  open v use {dict_pairs, get_int}

  -- The last value that a dictionary gives for a key, or the one that stands already.
  unfoldable pub last_count : String → List (String × String) → ℕ → ℕ
  last_count key [] n = n
  last_count key ((k, s) ∷ rest) n =
      last_count key rest
        (if str_eq k key then (elim (get_count v s) [ none ↦ n | some m ↦ m ]) else n)

  abbrev pub LastOf : List (String × String) → ℕ × ℕ → ℕ × ℕ → Type 0
  LastOf pairs b r =
      (r.0 ≡ last_count "buffer_count" pairs b.0) × (r.1 ≡ last_count "buffer_size" pairs b.1)

  -- Every key is one of the two, and every value is an integer that is not negative.
  abbrev pub AreCounts : List (String × String) → Type 0
  AreCounts [] = Unit
  AreCounts ((k, s) ∷ rest) =
      ((k ≡ "buffer_count") ⊎ (k ≡ "buffer_size"))
      × ((n : ℕ) × (get_int s ≡ some (pos n)))
      × AreCounts rest

  get_count-pos : (s : String) (n : ℕ) → get_int s ≡ some (pos n) → get_count v s ≡ some n
  unfolding get_count
  get_count-pos s n g = rw (g, get_count) refl

  -- Such a dictionary is accepted.
  pub keyword_loop-accepted :
      (pairs : List (String × String)) (count size : ℕ)
      → AreCounts pairs
      → keyword_loop v (count, size) pairs
        ≡ some (last_count "buffer_count" pairs count, last_count "buffer_size" pairs size)
  unfolding keyword_loop last_count
  keyword_loop-accepted [] count size h = refl
  keyword_loop-accepted ((k, s) ∷ rest) count size (inl e, (n, g), h) =
      rw (e, get_count-pos s n g) (keyword_loop-accepted rest n size h)
  keyword_loop-accepted ((k, s) ∷ rest) count size (inr e, (n, g), h) =
      rw (e, get_count-pos s n g) (keyword_loop-accepted rest count n h)

  -- One entry of the dictionary.
  step-LastOf :
      (k s : String) (rest : List (String × String)) (count size : ℕ) (r : ℕ × ℕ)
      → ((count size : ℕ)
          → keyword_loop v (count, size) rest ≡ some r
          → LastOf rest (count, size) r)
      → (isc iss : Bool) → str_eq k "buffer_count" ≡ isc
      → str_eq k "buffer_size" ≡ iss
      → (found : Option ℕ) → get_count v s ≡ found
      → (if isc
          then (elim found [ none ↦ none | some n ↦ keyword_loop v (n, size) rest ])
          else if iss
          then (elim found [ none ↦ none | some n ↦ keyword_loop v (count, n) rest ])
          else none)
        ≡ some r
      → LastOf ((k, s) ∷ rest) (count, size) r
  unfolding last_count
  step-LastOf k s rest count size r ih true true a b found c e =
      cc (rw ((str_eq_iff k "buffer_count").0 a) at b)
  step-LastOf k s rest count size r ih true false a b none c e = cc
  step-LastOf k s rest count size r ih true false a b (some n) c e = rw (a, b, c) (ih n size e)
  step-LastOf k s rest count size r ih false true a b none c e = cc
  step-LastOf k s rest count size r ih false true a b (some n) c e = rw (a, b, c) (ih count n e)
  step-LastOf k s rest count size r ih false false a b found c e = cc

  keyword_loop-LastOf :
      (pairs : List (String × String)) (count size : ℕ) (r : ℕ × ℕ)
      → keyword_loop v (count, size) pairs ≡ some r
      → LastOf pairs (count, size) r
  unfolding keyword_loop last_count
  keyword_loop-LastOf [] count size r e = (cc, cc)
  keyword_loop-LastOf ((k, s) ∷ rest) count size r e =
      step-LastOf k s rest count size r (λ a b. keyword_loop-LastOf rest a b r) _ _ refl refl _ refl
        e

  -- Where the keyword arguments of a worker loop are accepted, the count and the size of its buffers
  -- are the last that the dictionary gives for each, or the defaults where it gives none.
  pub worker_keyword_args-LastOf :
      (dict : String) (b : ℕ × ℕ) (pairs : List (String × String)) (r : ℕ × ℕ)
      → dict_pairs dict ≡ some pairs
      → worker_keyword_args v dict b ≡ some r
      → LastOf pairs b r
  unfolding worker_keyword_args
  worker_keyword_args-LastOf dict b pairs r d e =
      keyword_loop-LastOf pairs b.0 b.1 r (rw (d, worker_keyword_args) at e)
