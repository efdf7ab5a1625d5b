-- ===== src/Cache/Inv.antt =====
-- What the cache relies on of its containers, and the invariant of code/src/turbine/cache.c.
use exm_turbine.Common.{ℕ, ◌+◌, ◌≤◌, ◌<◌, ◌≡◌, ◌≢◌, Option, none, some, ap, refl}
use exm_turbine.Cache.{Containers, CacheState, Entry}
use exm_turbine.Cache.Linked.{IsLinked}

-- The behaviour of the containers of c-utils on keys that are absent when they are added and present
-- when they are removed.
pub record ContainerLaws (c : Containers) : Type 0 where
  pub init_search : (n td : ℕ) → c.table_search (c.table_init n) td ≡ none
  pub init_size : (n : ℕ) → c.table_size (c.table_init n) ≡ 0
  pub add_search_self :
      (t : c.Table) (td p : ℕ)
      → c.table_search t td ≡ none
      → c.table_search (c.table_add t td p) td ≡ some p
  pub add_search_ne :
      (t : c.Table) (td p other : ℕ)
      → other ≢ td
      → c.table_search (c.table_add t td p) other ≡ c.table_search t other
  pub add_size :
      (t : c.Table) (td p : ℕ)
      → c.table_search t td ≡ none
      → c.table_size (c.table_add t td p) ≡ c.table_size t + 1
  pub remove_found : (t : c.Table) (td : ℕ) → (c.table_remove t td).0 ≡ c.table_search t td
  pub remove_search_self : (t : c.Table) (td : ℕ) → c.table_search (c.table_remove t td).1 td ≡ none
  pub remove_search_ne :
      (t : c.Table) (td other : ℕ)
      → other ≢ td
      → c.table_search (c.table_remove t td).1 other ≡ c.table_search t other
  pub remove_size :
      (t : c.Table) (td p : ℕ)
      → c.table_search t td ≡ some p
      → c.table_size (c.table_remove t td).1 + 1 ≡ c.table_size t
  pub size_search :
      (t : c.Table) → 0 < c.table_size t → (td : ℕ) × (p : ℕ) × (c.table_search t td ≡ some p)
  pub tree_init_search : (k : ℕ) → c.tree_search c.tree_init k ≡ none
  pub tree_add_self :
      (t : c.Tree) (k p : ℕ)
      → c.tree_search t k ≡ none
      → c.tree_search (c.tree_add t k p) k ≡ some p
  pub tree_add_ne :
      (t : c.Tree) (k p other : ℕ)
      → other ≢ k
      → c.tree_search (c.tree_add t k p) other ≡ c.tree_search t other
  pub leftmost_found :
      (t : c.Tree) (k p : ℕ) → c.tree_leftmost t ≡ some (k, p) → c.tree_search t k ≡ some p
  pub leftmost_least :
      (t : c.Tree) (k p other q : ℕ)
      → c.tree_leftmost t ≡ some (k, p)
      → c.tree_search t other ≡ some q
      → k ≤ other
  pub leftmost_none : (t : c.Tree) (k : ℕ) → c.tree_leftmost t ≡ none → c.tree_search t k ≡ none
  pub remove_node_self : (t : c.Tree) (k : ℕ) → c.tree_search (c.tree_remove_node t k) k ≡ none
  pub remove_node_ne :
      (t : c.Tree) (k other : ℕ)
      → other ≢ k
      → c.tree_search (c.tree_remove_node t k) other ≡ c.tree_search t other
  pub move_self :
      (t : c.Tree) (old fresh p : ℕ)
      → c.tree_search t old ≡ some p
      → c.tree_search t fresh ≡ none
      → c.tree_search (c.tree_move t old fresh).1 fresh ≡ some p
  pub move_gone :
      (t : c.Tree) (old fresh : ℕ)
      → old ≢ fresh
      → c.tree_search (c.tree_move t old fresh).1 old ≡ none
  pub move_ne :
      (t : c.Tree) (old fresh other : ℕ)
      → other ≢ old
      → other ≢ fresh
      → c.tree_search (c.tree_move t old fresh).1 other ≡ c.tree_search t other

-- The invariant of an enabled cache. One slot more than is used is always free, which is when the
-- next store evicts.
pub record IsCache {c : Containers} (s : CacheState c) : Type 0 where
  pub linked : IsLinked (c.table_search s.entries) (c.tree_search s.lru) s.heap s.next s.counter
  pub room : c.table_size s.entries < s.max_entries

-- What a pointer that was found points to.
abbrev pub deref : (ℕ → Entry) → Option ℕ → Option Entry
deref heap none = none
deref heap (some p) = some (heap p)

pub deref-same :
    (h h' : ℕ → Entry) (o o' : Option ℕ)
    → o' ≡ o
    → ((p : ℕ) → o ≡ some p → h' p ≡ h p)
    → deref h' o' ≡ deref h o
deref-same h h' none o' e k = rw e refl
deref-same h h' (some p) o' e k = rw e (ap some (k p refl))

pub deref-some :
    (h : ℕ → Entry) (o : Option ℕ) (e : Entry)
    → deref h o ≡ some e
    → (p : ℕ) × (o ≡ some p) × (h p ≡ e)
deref-some h none e m = cc
deref-some h (some p) e m = (p, refl, cc)

pub deref-none : (h : ℕ → Entry) (o : Option ℕ) → deref h o ≡ none → o ≡ none
deref-none h none m = refl
deref-none h (some p) m = cc

-- The entry of a datum that is cached.
abbrev pub cached : {c : Containers} → CacheState c → ℕ → Option Entry
cached {c} s td = deref s.heap (c.table_search s.entries td)
