-- ===== src/Cache/Concrete.antt =====
-- Association lists as the containers of the cache: they satisfy what it relies on.
use exm_turbine.Common.{
  ℕ, ◌+◌, ◌≤◌, ◌<◌, ◌≡◌, ◌≢◌, inl, inr, refl, Bool, true, false, Bool-cases, Option-cases, Option,
  none, some, List, [], ◌∷◌, ◌==◌, ==_iff, leb, arith, if◌then◌else◌,
}
use exm_turbine.Cache.{Containers}
use exm_turbine.Cache.Inv.{ContainerLaws}

abbrev Pairs : Type 0
Pairs = List (ℕ × ℕ)

abbrev search : Pairs → ℕ → Option ℕ
search [] k = none
search ((j, p) ∷ t) k = if k == j then some p else search t k

abbrev found : Option ℕ → Bool
found none = false
found (some p) = true

-- The number of different keys.
abbrev size : Pairs → ℕ
size [] = 0
size ((j, p) ∷ t) = if found (search t j) then size t else size t + 1

abbrev remove : Pairs → ℕ → Pairs
remove [] k = []
remove ((j, p) ∷ t) k = let rest = remove t k in if j == k then rest else (j, p) ∷ rest

abbrev smaller : ℕ × ℕ → Option (ℕ × ℕ) → ℕ × ℕ
smaller n none = n
smaller (k, p) (some (j, q)) = if leb k j then (k, p) else (j, q)

abbrev leftmost : Pairs → Option (ℕ × ℕ)
leftmost [] = none
leftmost (n ∷ t) = some (smaller n (leftmost t))

abbrev move_found : Pairs → ℕ → ℕ → Option ℕ → Bool × Pairs
move_found t old fresh none = (false, t)
move_found t old fresh (some p) = (true, (fresh, p) ∷ remove t old)

abbrev pub pairs : Containers
pairs = record {
  Table = Pairs;
  table_init = λ n. [];
  table_search = search;
  table_add = λ t k p. (k, p) ∷ t;
  table_remove = λ t k. (search t k, remove t k);
  table_size = size;
  table_delete = λ t. [];
  Tree = Pairs;
  tree_init = [];
  tree_clear = λ t. [];
  tree_search = search;
  tree_add = λ t k p. (k, p) ∷ t;
  tree_leftmost = leftmost;
  tree_remove_node = remove;
  tree_move = λ t old fresh. move_found t old fresh (search t old);
}

search-remove_self : (t : Pairs) (k : ℕ) → search (remove t k) k ≡ none
search-remove_self [] k = refl
search-remove_self ((j, p) ∷ t) k = ground (arith, search-remove_self t k)

search-remove_ne : (t : Pairs) (k o : ℕ) → o ≢ k → search (remove t k) o ≡ search t o
search-remove_ne [] k o n = refl
search-remove_ne ((j, p) ∷ t) k o n = ground (arith, search-remove_ne t k o n)

size-remove_absent : (t : Pairs) (k : ℕ) → search t k ≡ none → size (remove t k) ≡ size t
size-remove_absent [] k h = refl
size-remove_absent ((j, p) ∷ t) k h = ground (arith, size-remove_absent t k, search-remove_ne t k j)

size-remove : (t : Pairs) (k p : ℕ) → search t k ≡ some p → size (remove t k) + 1 ≡ size t
size-remove [] k p h = cc
size-remove ((j, q) ∷ t) k p h = elim (Bool-cases (j == k)) [
  | inl y ↦ elim (Option-cases (search t k)) [
    | inl n ↦ ground (arith, size-remove_absent t k n)
    | inr (o, m) ↦ ground (arith, size-remove t k o m)
  ]
  | inr y ↦
      ground (arith, size-remove t k p (ground arith), search-remove_ne t k j (λ z. ground arith))
]

size-search : (t : Pairs) → 0 < size t → (k : ℕ) × (p : ℕ) × (search t k ≡ some p)
size-search [] h = absurd (omega arith)
size-search ((j, p) ∷ t) h = (j, p, rw ((==_iff j j).1 refl) refl)

leftmost_found : (t : Pairs) (k p : ℕ) → leftmost t ≡ some (k, p) → search t k ≡ some p
leftmost_found [] k p h = cc
leftmost_found ((j, q) ∷ t) k p h = elim (Option-cases (leftmost t)) [
  | inl e ↦ ground arith
  | inr (n, e) ↦ ground (arith, leftmost_found t n.0 n.1 e)
]

leftmost-none : (t : Pairs) (k : ℕ) → leftmost t ≡ none → search t k ≡ none
leftmost-none [] k h = refl
leftmost-none (n ∷ t) k h = cc

leftmost_least : (t : Pairs) (k p o q : ℕ) → leftmost t ≡ some (k, p) → search t o ≡ some q → k ≤ o
leftmost_least [] k p o q h m = cc
leftmost_least ((j, r) ∷ t) k p o q h m = elim (Option-cases (leftmost t)) [
  | inl e ↦ ground (arith, leftmost-none t o e)
  | inr (n, e) ↦ ground (arith, leftmost_least t n.0 n.1 o q e)
]

move_self_lem :
    (t : Pairs) (old fresh p : ℕ) (o : Option ℕ)
    → o ≡ some p
    → search (move_found t old fresh o).1 fresh ≡ some p
move_self_lem t old fresh p o e = rw e (rw ((==_iff fresh fresh).1 refl) refl)

move-gone :
    (t : Pairs) (old fresh : ℕ) (o : Option ℕ)
    → search t old ≡ o
    → old ≢ fresh
    → search (move_found t old fresh o).1 old ≡ none
move-gone t old fresh none e n = e
move-gone t old fresh (some p) e n = ground (arith, search-remove_self t old)

move-ne :
    (t : Pairs) (old fresh other : ℕ) (o : Option ℕ)
    → other ≢ old
    → other ≢ fresh
    → search (move_found t old fresh o).1 other ≡ search t other
move-ne t old fresh other none n m = refl
move-ne t old fresh other (some p) n m = ground (arith, search-remove_ne t old other n)

pub pairs-ContainerLaws : ContainerLaws pairs
pairs-ContainerLaws = record {
  init_search = λ n td. refl;
  init_size = λ n. refl;
  add_search_self = λ t td p e. rw ((==_iff td td).1 refl) refl;
  add_search_ne = λ t td p o n. ground arith;
  add_size = λ t td p e. rw e refl;
  remove_found = λ t td. refl;
  remove_search_self = search-remove_self;
  remove_search_ne = search-remove_ne;
  remove_size = size-remove;
  size_search = size-search;
  tree_init_search = λ k. refl;
  tree_add_self = λ t k p e. rw ((==_iff k k).1 refl) refl;
  tree_add_ne = λ t k p o n. ground arith;
  leftmost_found = leftmost_found;
  leftmost_least = leftmost_least;
  leftmost_none = leftmost-none;
  remove_node_self = search-remove_self;
  remove_node_ne = search-remove_ne;
  move_self = λ t old fresh p m n. move_self_lem t old fresh p (search t old) m;
  move_gone = λ t old fresh n. move-gone t old fresh (search t old) refl n;
  move_ne = λ t old fresh other n m. move-ne t old fresh other (search t old) n m;
}
