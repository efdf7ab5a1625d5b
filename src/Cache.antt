-- ===== src/Cache.antt =====
-- code/src/turbine/cache.c: the cache of data with least-recently-used eviction. The hash table and
-- the red-black tree are those of the ExM c-utils library, which this repository does not hold: they
-- are a parameter. Entries stand in a heap, since table and tree share them by pointer and
-- `turbine_cache_retrieve` writes the stamp through that pointer. `malloc` gives a fresh pointer.
-- Pointers to data are numbers, `free` of them and debug output are left out. `memory` is an
-- `unsigned long` of 64 bits; the `long` counter is a number.
use exm_turbine.Common.{
  ℕ, ◌+◌, ◌-◌, ◌%◌, ◌^◌, Bool, true, false, Option, none, some, List, leb, ◌==◌, if◌then◌else◌,
  Outcome, done, fault, ◌>>=◌, assert,
}
use exm_turbine.Codes.{TurbineCode, success, error_not_found}
pub mod Inv
mod Concrete
mod Tests
pub mod Linked
pub mod Store
pub mod Retrieve
pub mod Life

-- `struct table_lp` (keys to pointers) and `struct rbtree` (stamps to pointers).
pub record Containers : Type 1 where
  pub Table : Type 0
  pub table_init : ℕ → Table
  pub table_search : Table → ℕ → Option ℕ
  pub table_add : Table → ℕ → ℕ → Table
  pub table_remove : Table → ℕ → Option ℕ × Table
  pub table_size : Table → ℕ
  pub table_delete : Table → Table
  pub Tree : Type 0
  pub tree_init : Tree
  pub tree_clear : Tree → Tree
  pub tree_search : Tree → ℕ → Option ℕ
  pub tree_add : Tree → ℕ → ℕ → Tree
  -- rbtree_leftmost: the node with the least key, as key and data.
  pub tree_leftmost : Tree → Option (ℕ × ℕ)
  pub tree_remove_node : Tree → ℕ → Tree
  -- rbtree_move: whether the old key was there, and the tree with the new one.
  pub tree_move : Tree → ℕ → ℕ → Bool × Tree

pub record Entry : Type 0 where
  pub td : ℕ
  pub kind : ℕ
  pub data_at : ℕ
  pub length : ℕ
  pub stamp : ℕ

-- The static variables. `heap` is what the pointers below `next` point to.
pub record CacheState (c : Containers) : Type 0 where
  pub max_entries : ℕ
  pub initialized : Bool
  pub counter : ℕ
  pub memory : ℕ
  pub entries : c.Table
  pub lru : c.Tree
  pub heap : ℕ → Entry
  pub next : ℕ

abbrev pub write : (ℕ → Entry) → ℕ → Entry → ℕ → Entry
write h p e q = if q == p then e else h q

-- Arithmetic on `unsigned long`; the lengths are below 2 ^ 64.
abbrev pub add_ulong : ℕ → ℕ → ℕ
add_ulong a b = (a + b) % 2 ^ 64

abbrev pub sub_ulong : ℕ → ℕ → ℕ
sub_ulong a b = (a + (2 ^ 64 - b % 2 ^ 64)) % 2 ^ 64

abbrev pub entry_init : ℕ → ℕ → ℕ → ℕ → ℕ → Entry
entry_init td kind data_at length counter = record {
  td = td;
  kind = kind;
  data_at = data_at;
  length = length;
  stamp = counter;
}

module _ (c : Containers) where
  pub turbine_cache_init : ℕ → ℕ → CacheState c → Outcome (CacheState c)
  turbine_cache_init size max_memory s = elim s.initialized [
    | true ↦ fault
    | false ↦
        let s' = record s { initialized = true; max_entries = size; memory = max_memory } in
        if size == 0
        then done s'
        else done (record s' { entries = c.table_init size; lru = c.tree_init })
  ]

  pub turbine_cache_check : CacheState c → ℕ → Bool
  turbine_cache_check s td =
      if s.max_entries == 0
      then false
      else (elim (c.table_search s.entries td) [ none ↦ false | some p ↦ true ])

  -- `cache_shrink` of a state is that state: it loops while `memory < 0`, which no `unsigned long`
  -- satisfies.
  pub cache_shrink : CacheState c → CacheState c
  cache_shrink s = s

  pub cache_add : ℕ → ℕ → ℕ → ℕ → CacheState c → CacheState c
  unfolding cache_shrink
  cache_add td kind data_at length s = cache_shrink (record s {
    entries = c.table_add s.entries td s.next;
    lru = c.tree_add s.lru s.counter s.next;
    heap = write s.heap s.next (entry_init td kind data_at length s.counter);
    next = s.next + 1;
    counter = s.counter + 1;
    memory = sub_ulong s.memory length;
  })

  -- The eviction of the entry `p` with the key `key` in the tree, which then holds the new data.
  pub replace_victim : ℕ → ℕ → ℕ → ℕ → CacheState c → ℕ × ℕ → Outcome (CacheState c)
  unfolding cache_shrink
  replace_victim td kind data_at length s (key, p) =
      let victim = s.heap p in
      let (tmp, entries) = c.table_remove s.entries victim.td in
      assert (elim tmp [ none ↦ false | some q ↦ q == p ])
        (done (
          cache_shrink (record s {
            entries = c.table_add entries td p;
            lru = c.tree_add (c.tree_remove_node s.lru key) s.counter p;
            heap = write s.heap p (entry_init td kind data_at length s.counter);
            counter = s.counter + 1;
            memory = sub_ulong (add_ulong s.memory victim.length) length;
          })))

  -- On an empty tree `rbtree_leftmost` gives no node, and the source reads through NULL.
  pub cache_replace : ℕ → ℕ → ℕ → ℕ → CacheState c → Outcome (CacheState c)
  unfolding replace_victim
  cache_replace td kind data_at length s = elim (c.tree_leftmost s.lru) [
    | none ↦ fault
    | some node ↦ replace_victim td kind data_at length s node
  ]

  pub turbine_cache_store : ℕ → ℕ → ℕ → ℕ → CacheState c → Outcome (TurbineCode × CacheState c)
  unfolding cache_add cache_replace
  turbine_cache_store td kind data_at size s =
      if s.max_entries == 0
      then done (success, s)
      else assert (leb (c.table_size s.entries) s.max_entries) (
          if (s.max_entries - c.table_size s.entries) == 1
          then (cache_replace td kind data_at size s >>= λ s'. done (success, s'))
          else done (success, cache_add td kind data_at size s))

  -- `none` where the datum is not found; else what is written to `*type`, `*result` and `*length`.
  -- The assertion on `rbtree_move` is compiled in for valgrind builds only.
  pub turbine_cache_retrieve : ℕ → CacheState c → Option (ℕ × ℕ × ℕ) × CacheState c
  turbine_cache_retrieve td s = elim (c.table_search s.entries td) [
    | none ↦ (none, s)
    | some p ↦
        let e = s.heap p in
        (
          some (e.kind, e.data_at, e.length),
          record s {
            lru = (c.tree_move s.lru e.stamp s.counter).1;
            heap = write s.heap p (record e { stamp = s.counter });
            counter = s.counter + 1;
          },
        )
  ]

  -- `table_lp_delete` with `table_lp_release`, and `rbtree_clear`; the entries themselves are not freed.
  pub turbine_cache_finalize : CacheState c → CacheState c
  turbine_cache_finalize s =
      if s.initialized
      then record s {
        entries = c.table_delete s.entries;
        lru = c.tree_clear s.lru;
        initialized = false;
      }
      else s
