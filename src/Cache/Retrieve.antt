-- ===== src/Cache/Retrieve.antt =====
-- Retrieving from the cache of code/src/turbine/cache.c, and its two ends.
use exm_turbine.Common.{
  ℕ, ◌≤◌, ◌<◌, ◌≡◌, ◌≢◌, inl, inr, refl, sym, ap, ◌∙◌, true, false, Option, none, some, ◌==◌, arith,
  Ensures,
}
use mathlib.Core.Path.{subst}
use exm_turbine.Cache.{
  Containers, CacheState, Entry, turbine_cache_init, turbine_cache_check, turbine_cache_retrieve,
}
use exm_turbine.Cache.Linked.{
  Added, write_self, write-ne, same?, without, without_self, without-ne, without-Removed,
  without-Added, Added-IsLinked, Removed-IsLinked,
}
use exm_turbine.Cache.Inv.{
  ContainerLaws, IsCache, cached, deref, deref-same, deref-some, deref-none,
}
use exm_turbine.Cache.Store.{fresh_stamp}

-- What a hit returns and leaves: the entry's content, and the cache with that entry, and no other,
-- as the newest one.
pub record Touched {c : Containers} (td : ℕ) (e : Entry) (s : CacheState c)
    (r : Option (ℕ × ℕ × ℕ) × CacheState c) : Type 0 where
  pub content : r.0 ≡ some (e.kind, e.data_at, e.length)
  pub valid : IsCache r.1
  pub same_max : r.1.max_entries ≡ s.max_entries
  pub newest : cached r.1 td ≡ some (record e { stamp = s.counter })
  pub others : (other : ℕ) → other ≢ td → cached r.1 other ≡ cached s other

module _ (c : Containers) (l : ContainerLaws c) where
  move-Added :
      (t : c.Tree) (old fresh p : ℕ)
      → old < fresh
      → c.tree_search t old ≡ some p
      → c.tree_search t fresh ≡ none
      → Added (without (c.tree_search t) old) (c.tree_search (c.tree_move t old fresh).1) fresh p
  move-Added t old fresh p h m n = record {
    absent = without-ne (c.tree_search t) old fresh (λ e. omega arith) ∙ n;
    here = l.move_self t old fresh p m n;
    elsewhere = λ o k. elim (same? o old) [
      | inl e ↦
          rw e
            (l.move_gone t old fresh (λ z. omega arith) ∙ sym (without_self (c.tree_search t) old))
      | inr e ↦ l.move_ne t old fresh o e k ∙ sym (without-ne (c.tree_search t) old o e)
    ];
  }

  retrieve-Touched :
      (td p : ℕ) (s : CacheState c)
      → IsCache s
      → c.table_search s.entries td ≡ some p
      → Touched td (s.heap p) s (turbine_cache_retrieve c td s)
  unfolding turbine_cache_retrieve
  retrieve-Touched td p s v m =
      let k = v.linked.by_td td p m in
      let stamped = v.linked.by_stamp (s.heap p).stamp p k.2 in
      let e : Entry = record (s.heap p) { stamp = s.counter } in
      let cut =
        Removed-IsLinked _ _ _ _ _ v.linked (without (c.table_search s.entries) td)
          (without (c.tree_search s.lru) (s.heap p).stamp) td p m
          (without-Removed (c.table_search s.entries) td)
          (without-Removed (c.tree_search s.lru) (s.heap p).stamp) in
      rw (m, turbine_cache_retrieve)
        (record {
          content = refl;
          valid = record {
            linked =
                Added-IsLinked _ _ _ _ _ cut.0 (c.table_search s.entries)
                  (c.tree_search (c.tree_move s.lru (s.heap p).stamp s.counter).1) td p e s.next
                  (without-Added (c.table_search s.entries) td p m)
                  (move-Added s.lru (s.heap p).stamp s.counter p stamped.0 k.2
                    (fresh_stamp c l s v))
                  cut.1 k.1 refl (omega arith) k.0;
            room = v.room;
          };
          same_max = refl;
          newest = ap (deref _) m ∙ ap some (write_self s.heap p e);
          others = λ o n. deref-same s.heap _ (c.table_search s.entries o) _ refl λ q i.
              write-ne s.heap p q e λ z. n (sym (v.linked.by_td o p (i ∙ ap some z)).1 ∙ k.1);
        })

  -- A datum that is cached is found, and retrieved with its kind, data and length; the invariant is
  -- kept, its entry becomes the most recent one, and no other entry changes.
  pub turbine_cache_retrieve-Touched :
      (td : ℕ) (s : CacheState c) (e : Entry)
      → IsCache s
      → cached s td ≡ some e
      → (turbine_cache_check c s td ≡ true) × Touched td e s (turbine_cache_retrieve c td s)
  unfolding turbine_cache_check
  turbine_cache_retrieve-Touched td s e v h =
      let on : (s.max_entries == 0) ≡ false = ground (arith, v.room) in
      let (p, m, k) = deref-some s.heap _ e h in
      (
        rw (on, m) refl,
        subst (λ (f : Entry). Touched td f s (turbine_cache_retrieve c td s)) k
            (retrieve-Touched td p s v m),
      )

  -- A datum that is not cached is not found, and asking for it changes nothing.
  pub turbine_cache_retrieve-absent :
      (td : ℕ) (s : CacheState c)
      → IsCache s
      → cached s td ≡ none
      → (turbine_cache_check c s td ≡ false) × (turbine_cache_retrieve c td s ≡ (none, s))
  unfolding turbine_cache_check turbine_cache_retrieve
  turbine_cache_retrieve-absent td s v h =
      let on : (s.max_entries == 0) ≡ false = ground (arith, v.room) in
      let m = deref-none s.heap _ h in (rw (on, m) refl, rw (m, turbine_cache_retrieve) refl)

  -- A cache that is not initialized becomes, with room for at least one entry, a well-formed empty
  -- cache, in which nothing is found.
  pub turbine_cache_init-IsCache :
      (size max_memory : ℕ) (s : CacheState c)
      → s.initialized ≡ false
      → 1 ≤ size
      → Ensures
          (λ s'.
            IsCache s'
            × (s'.max_entries ≡ size)
            × (s'.memory ≡ max_memory)
            × ((td : ℕ) → turbine_cache_check c s' td ≡ false))
          (turbine_cache_init c size max_memory s)
  unfolding turbine_cache_init turbine_cache_check
  turbine_cache_init-IsCache size max_memory s h k =
      let on : (size == 0) ≡ false = ground arith in
      rw (h, on)
        (
          record {
            linked = record {
              by_td = λ td p m. cc (m, l.init_search size td);
              by_stamp = λ k p m. cc (m, l.tree_init_search k);
            };
            room = omega (arith, l.init_size size);
          },
          refl,
          refl,
          λ td. rw (l.init_search size td) (ground arith),
        )
