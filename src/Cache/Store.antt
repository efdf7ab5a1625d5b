-- ===== src/Cache/Store.antt =====
-- Storing into the cache of code/src/turbine/cache.c.
use exm_turbine.Common.{
  ℕ, ◌+◌, ◌-◌, ◌≤◌, ◌<◌, ◌≡◌, ◌≢◌, inl, inr, refl, sym, ap, ◌∙◌, Option-cases, Option, none, some,
  le→leb, ◌==◌, ==_iff, arith, fault, Ensures, Ensures->>=, Ensures-mono, Ensures-if,
}
use exm_turbine.Codes.{success}
use exm_turbine.Cache.{
  Containers, CacheState, Entry, entry_init, cache_shrink, cache_add, replace_victim, cache_replace,
  turbine_cache_store,
}
use exm_turbine.Cache.Linked.{
  Added, Removed, write_self, write-ne, Added-IsLinked, Removed-IsLinked,
}
use exm_turbine.Cache.Inv.{ContainerLaws, IsCache, cached, deref, deref-same, deref-some}

-- What putting an entry into the cache leaves: it is cached with what was stored, under the newest
-- stamp, and the others are those of before but for the one given up, if any.
pub record Stored {c : Containers} (td : ℕ) (e : Entry) (gone : Option ℕ) (s s' : CacheState c)
    : Type 0 where
  pub valid : IsCache s'
  pub same_max : s'.max_entries ≡ s.max_entries
  pub stored : cached s' td ≡ some e
  pub others : (other : ℕ) → other ≢ td → some other ≢ gone → cached s' other ≡ cached s other
  pub evicted : (other : ℕ) → other ≢ td → some other ≡ gone → cached s' other ≡ none

-- The datum given up: none as long as a second slot is free, else the least recently used one.
abbrev pub Oldest : {c : Containers} → CacheState c → Option ℕ → Type 0
Oldest {c} s none = c.table_size s.entries + 1 < s.max_entries
Oldest {c} s (some td) =
    (v : Entry) × (cached s td ≡ some v)
    × ((other : ℕ) (e : Entry) → cached s other ≡ some e → v.stamp ≤ e.stamp)

module _ (c : Containers) (l : ContainerLaws c) where
  -- The stamp that is given out next is not in the tree, and the next pointer not in the table.
  pub fresh_stamp : (s : CacheState c) → IsCache s → c.tree_search s.lru s.counter ≡ none
  fresh_stamp s v = elim (Option-cases (c.tree_search s.lru s.counter)) [
    | inl e ↦ e
    | inr (p, e) ↦ absurd (omega (arith, (v.linked.by_stamp s.counter p e).0))
  ]

  fresh_pointer :
      (s : CacheState c) → IsCache s → (o : ℕ) → c.table_search s.entries o ≢ some s.next
  fresh_pointer s v o e = omega (arith, (v.linked.by_td o s.next e).0)

  add-Added :
      (t : c.Table) (td p : ℕ)
      → c.table_search t td ≡ none
      → Added (c.table_search t) (c.table_search (c.table_add t td p)) td p
  add-Added t td p a = record {
    absent = a;
    here = l.add_search_self t td p a;
    elsewhere = λ o n. l.add_search_ne t td p o n;
  }

  tree_add-Added :
      (t : c.Tree) (k p : ℕ)
      → c.tree_search t k ≡ none
      → Added (c.tree_search t) (c.tree_search (c.tree_add t k p)) k p
  tree_add-Added t k p a = record {
    absent = a;
    here = l.tree_add_self t k p a;
    elsewhere = λ o n. l.tree_add_ne t k p o n;
  }

  remove-Removed :
      (t : c.Table) (td : ℕ)
      → Removed (c.table_search t) (c.table_search (c.table_remove t td).1) td
  remove-Removed t td = record {
    gone = l.remove_search_self t td;
    elsewhere = λ o n. l.remove_search_ne t td o n;
  }

  remove_node-Removed :
      (t : c.Tree) (k : ℕ) → Removed (c.tree_search t) (c.tree_search (c.tree_remove_node t k)) k
  remove_node-Removed t k = record {
    gone = l.remove_node_self t k;
    elsewhere = λ o n. l.remove_node_ne t k o n;
  }

  cache_add-Stored :
      (td kind data_at length : ℕ) (s : CacheState c)
      → IsCache s
      → c.table_search s.entries td ≡ none
      → c.table_size s.entries + 1 < s.max_entries
      → Stored td
          (entry_init td kind data_at length s.counter)
          none
          s
          (cache_add c td kind data_at length s)
  unfolding cache_add cache_shrink
  cache_add-Stored td kind data_at length s v a h =
      let e = entry_init td kind data_at length s.counter in
      record {
        valid = record {
          linked =
              Added-IsLinked _ _ _ _ _ v.linked _ _ td s.next e (s.next + 1) (add-Added _ td _ a)
                (tree_add-Added _ _ _ (fresh_stamp s v)) (fresh_pointer s v) refl refl (omega arith)
                (omega arith);
          room = omega (arith, l.add_size s.entries td s.next a);
        };
        same_max = refl;
        stored =
            ap (deref _) (l.add_search_self s.entries td s.next a)
            ∙ ap some (write_self s.heap s.next e);
        others = λ o n _.
            deref-same s.heap _ (c.table_search s.entries o) _
              (l.add_search_ne s.entries td s.next o n)
              λ p m. write-ne s.heap s.next p e (λ z. fresh_pointer s v o (m ∙ ap some z));
        evicted = λ o n g. cc;
      }

  -- Evicting the entry that the leftmost node of the tree names.
  replace_victim-Stored :
      (td kind data_at length : ℕ) (s : CacheState c) (key p : ℕ)
      → IsCache s
      → c.table_search s.entries td ≡ none
      → c.tree_leftmost s.lru ≡ some (key, p)
      → Ensures
          (λ s'. Stored td (entry_init td kind data_at length s.counter) (some (s.heap p).td) s s')
          (replace_victim c td kind data_at length s (key, p))
  unfolding replace_victim cache_shrink
  replace_victim-Stored td kind data_at length s key p v a m =
      let e = entry_init td kind data_at length s.counter in
      let me = v.linked.by_stamp key p (l.leftmost_found _ _ _ m) in
      let at : c.table_search s.entries (s.heap p).td ≡ some p = me.2 in
      rw (l.remove_found s.entries (s.heap p).td, at, (==_iff p p).1 refl)
        (let gone = s.heap p in
          let other : td ≢ gone.td = λ z. cc (z, a, at) in
          let absent = l.remove_search_ne s.entries gone.td td other ∙ a in
          let taken =
            Removed-IsLinked _ _ _ _ _ v.linked
              (c.table_search (c.table_remove s.entries gone.td).1)
              (c.tree_search (c.tree_remove_node s.lru key)) gone.td p at
              (remove-Removed s.entries gone.td) (rw me.1 (remove_node-Removed s.lru key)) in
          let unused =
            l.remove_node_ne s.lru key s.counter (λ z. omega (arith, me.0)) ∙ fresh_stamp s v in
          let shrunk = l.remove_size s.entries gone.td p at in
          record {
            valid = record {
              linked =
                  Added-IsLinked _ _ _ _ _ taken.0 _ _ td p e s.next (add-Added _ td p absent)
                    (tree_add-Added _ _ p unused) taken.1 refl refl (omega arith)
                    (v.linked.by_td gone.td p at).0;
              room = omega (
                arith,
                l.add_size (c.table_remove s.entries gone.td).1 td p absent,
                shrunk,
                v.room,
              );
            };
            same_max = refl;
            stored =
                ap (deref _) (l.add_search_self _ td p absent) ∙ ap some (write_self s.heap p e);
            others = λ o n g.
                let o≢ : o ≢ gone.td = λ z. g (ap some z) in
                deref-same s.heap _ (c.table_search s.entries o) _
                  (l.add_search_ne _ td p o n ∙ l.remove_search_ne s.entries gone.td o o≢)
                  λ q k.
                    write-ne s.heap p q e (λ z. o≢ (sym (v.linked.by_td o p (k ∙ ap some z)).1));
            evicted = λ o n g.
                let z : o ≡ gone.td = cc g in
                let last : c.table_search (c.table_remove s.entries gone.td).1 o ≡ none =
                  rw z (l.remove_search_self s.entries gone.td) in
                ap (deref _) (l.add_search_ne _ td p o n ∙ last);
          })

  victim-Oldest :
      (s : CacheState c) (key p : ℕ)
      → IsCache s
      → c.tree_leftmost s.lru ≡ some (key, p)
      → Oldest s (some (s.heap p).td)
  victim-Oldest s key p v m =
      let me = v.linked.by_stamp key p (l.leftmost_found _ _ _ m) in
      (
        s.heap p,
        ap (deref s.heap) me.2,
        λ other e h.
            let (q, n, k) = deref-some s.heap _ e h in
            let stamped = (v.linked.by_td other q n).2 in
            rw (me.1, sym k) (l.leftmost_least s.lru key p (s.heap q).stamp q m stamped),
      )

  cache_replace-Stored :
      (td kind data_at length : ℕ) (s : CacheState c)
      → IsCache s
      → c.table_search s.entries td ≡ none
      → 0 < c.table_size s.entries
      → Ensures
          (λ s'.
            (gone : Option ℕ) × Oldest s gone
            × Stored td (entry_init td kind data_at length s.counter) gone s s')
          (cache_replace c td kind data_at length s)
  unfolding cache_replace
  cache_replace-Stored td kind data_at length s v a h = by_node (c.tree_leftmost s.lru) refl
    where
      by_node :
          (node : Option (ℕ × ℕ))
          → c.tree_leftmost s.lru ≡ node
          → Ensures
              (λ s'.
                (gone : Option ℕ) × Oldest s gone
                × Stored td (entry_init td kind data_at length s.counter) gone s s')
              (elim node [ none ↦ fault | some n ↦ replace_victim c td kind data_at length s n ])
      by_node none e =
          let (o, p, m) = l.size_search s.entries h in
          let k = (v.linked.by_td o p m).2 in cc (k, l.leftmost_none s.lru (s.heap p).stamp e)
      by_node (some (key, p)) e =
          Ensures-mono _ _ (replace_victim c td kind data_at length s (key, p))
            (λ s' k. (some (s.heap p).td, victim-Oldest s key p v e, k))
            (replace_victim-Stored td kind data_at length s key p v a e)

  -- A store of a datum that is not cached, into a well-formed cache for other than one entry: no
  -- assertion fails, the call succeeds and keeps the invariant, the datum is cached with what was
  -- stored under the newest stamp, and all others stay as they are but for one. None is given up as
  -- long as a second slot is free, and else it is the one used least recently.
  pub turbine_cache_store-Stored :
      (td kind data_at length : ℕ) (s : CacheState c)
      → IsCache s
      → c.table_search s.entries td ≡ none
      → s.max_entries ≢ 1
      → Ensures
          (λ r.
            (r.0 ≡ success)
            × (gone : Option ℕ) × Oldest s gone
            × Stored td (entry_init td kind data_at length s.counter) gone s r.1)
          (turbine_cache_store c td kind data_at length s)
  unfolding turbine_cache_store
  turbine_cache_store-Stored td kind data_at length s v a m =
      Ensures-if _ (s.max_entries == 0) _ _ (λ z. absurd (ground (arith, v.room)))
        λ _. rw (le→leb (c.table_size s.entries) s.max_entries (omega (arith, v.room))) (
          Ensures-if _ ((s.max_entries - c.table_size s.entries) == 1) _ _
            (λ z.
              Ensures->>= _ _ (cache_replace c td kind data_at length s) _
                (cache_replace-Stored td kind data_at length s v a (ground arith))
                λ s' k. (refl, k.0, k.1, k.2))
            (λ z. (
              refl,
              none,
              ground (arith, v.room),
              cache_add-Stored td kind data_at length s v a (ground (arith, v.room)),
            )))
