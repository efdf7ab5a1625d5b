-- ===== src/Cache/Life.antt =====
-- The cache over its whole life, and the cache for one entry.
use mathlib.Core.Path.{subst}
use exm_turbine.Common.{
  ℕ, ◌≤◌, ◌≡◌, refl, ◌∙◌, false, Option, none, some, arith, done, fault, Ensures, Ensures-done,
  Ensures-mono,
}
use exm_turbine.Codes.{TurbineCode, success}
use exm_turbine.Cache.{
  Containers, CacheState, Entry, turbine_cache_init, turbine_cache_store, turbine_cache_retrieve,
  cache_replace,
}
use exm_turbine.Cache.Inv.{ContainerLaws, IsCache, cached}
use exm_turbine.Cache.Store.{turbine_cache_store-Stored}
use exm_turbine.Cache.Retrieve.{
  turbine_cache_retrieve-Touched, turbine_cache_retrieve-absent, turbine_cache_init-IsCache,
}

-- The states that follow an initialization for `size` entries: data are stored only where
-- `turbine_cache_check` does not find them, and retrieved at any time.
pub data Reach (c : Containers) (size : ℕ) : CacheState c → Type 0 where
  initialized :
      (max_memory : ℕ) (s s' : CacheState c)
      → s.initialized ≡ false
      → turbine_cache_init c size max_memory s ≡ done s'
      → Reach c size s'
  stored :
      {s : CacheState c} (td kind data_at length : ℕ) (r : TurbineCode × CacheState c)
      → Reach c size s
      → c.table_search s.entries td ≡ none
      → turbine_cache_store c td kind data_at length s ≡ done r
      → Reach c size r.1
  retrieved :
      {s : CacheState c} (td : ℕ) → Reach c size s → Reach c size (turbine_cache_retrieve c td s).1

module _ (c : Containers) (l : ContainerLaws c) (size : ℕ) (big : 2 ≤ size) where
  -- The invariant, and a size that does not change.
  abbrev Sound : CacheState c → Type 0
  Sound s = IsCache s × (s.max_entries ≡ size)

  present :
      (s : CacheState c) (td : ℕ) → IsCache s → Sound s → Sound (turbine_cache_retrieve c td s).1
  present s td v d = by_cached (cached s td) refl
    where
      by_cached : (o : Option Entry) → cached s td ≡ o → Sound (turbine_cache_retrieve c td s).1
      by_cached none e = rw (turbine_cache_retrieve-absent c l td s v e).1 d
      by_cached (some f) e =
          let t = (turbine_cache_retrieve-Touched c l td s f v e).1 in (t.valid, t.same_max ∙ d.1)

  Reach-Sound : {s : CacheState c} → Reach c size s → Sound s
  Reach-Sound (initialized m s s' h e) =
      let k =
        Ensures-done _ (turbine_cache_init c size m s)
          (turbine_cache_init-IsCache c l size m s h (omega arith)) e in
      (k.0, k.1)
  Reach-Sound (stored {s} td kind data_at length r p a e) =
      let d = Reach-Sound p in
      let k =
        Ensures-done _ (turbine_cache_store c td kind data_at length s)
          (turbine_cache_store-Stored c l td kind data_at length s d.0 a (λ z. omega (arith, d.1)))
          e in
      (k.3.valid, k.3.same_max ∙ d.1)
  Reach-Sound (retrieved {s} td p) = let d = Reach-Sound p in present s td d.0 d

  -- In a cache for two entries or more, after any sequence of stores of data that are not cached and
  -- of retrievals, table and tree hold the same entries, and a further store of such a datum fails no
  -- assertion and succeeds.
  pub turbine_cache_store-Reach :
      {s : CacheState c} (td kind data_at length : ℕ)
      → Reach c size s
      → c.table_search s.entries td ≡ none
      → IsCache s × Ensures (λ r. r.0 ≡ success) (turbine_cache_store c td kind data_at length s)
  turbine_cache_store-Reach {s} td kind data_at length p a =
      let d = Reach-Sound p in
      (
        d.0,
        Ensures-mono _ _ (turbine_cache_store c td kind data_at length s) (λ r k. k.0)
            (turbine_cache_store-Stored c l td kind data_at length s d.0 a
              (λ z. omega (arith, d.1))),
      )

-- A cache for one entry holds nothing.
record Hollow {c : Containers} (s : CacheState c) : Type 0 where
  one_slot : s.max_entries ≡ 1
  no_entries : c.table_size s.entries ≡ 0
  no_node : c.tree_leftmost s.lru ≡ none
  nothing : (td : ℕ) → c.table_search s.entries td ≡ none

module _ (c : Containers) (l : ContainerLaws c) where
  leftmost-init : c.tree_leftmost c.tree_init ≡ none
  leftmost-init = by_node _ refl
    where
      by_node : (o : Option (ℕ × ℕ)) → c.tree_leftmost c.tree_init ≡ o → o ≡ none
      by_node none e = refl
      by_node (some (k, p)) e = cc (l.leftmost_found c.tree_init k p e, l.tree_init_search k)

  init-Hollow :
      (max_memory : ℕ) (s s' : CacheState c)
      → s.initialized ≡ false
      → turbine_cache_init c 1 max_memory s ≡ done s'
      → Hollow s'
  unfolding turbine_cache_init
  init-Hollow m s s' h e =
      Ensures-done Hollow (turbine_cache_init c 1 m s)
        (rw (h, turbine_cache_init)
          (record {
            one_slot = refl;
            no_entries = l.init_size 1;
            no_node = leftmost-init;
            nothing = l.init_search 1;
          }))
        e

  store-Hollow :
      (s : CacheState c) (td kind data_at length : ℕ)
      → Hollow s
      → turbine_cache_store c td kind data_at length s ≡ fault
  unfolding turbine_cache_store cache_replace
  store-Hollow s td kind data_at length h =
      rw (h.one_slot, h.no_entries, h.no_node, turbine_cache_store, cache_replace) refl

  Reach-Hollow : {s : CacheState c} → Reach c 1 s → Hollow s
  unfolding turbine_cache_retrieve
  Reach-Hollow (initialized m s s' h e) = init-Hollow m s s' h e
  Reach-Hollow (stored {s} td kind data_at length r p a e) =
      cc (store-Hollow s td kind data_at length (Reach-Hollow p), e)
  Reach-Hollow (retrieved {s} td p) =
      let h = Reach-Hollow p in subst (λ (o : CacheState c). Hollow o) (same s td (h.nothing td)) h
    where
      same :
          (s : CacheState c) (td : ℕ)
          → c.table_search s.entries td ≡ none
          → s ≡ (turbine_cache_retrieve c td s).1
      same s td n = rw (n, turbine_cache_retrieve) refl

  -- After `turbine_cache_init` for one entry and any retrievals, a store of any datum reads through a
  -- null pointer: no store ever returns.
  pub turbine_cache_store-one :
      {s : CacheState c} (td kind data_at length : ℕ)
      → Reach c 1 s
      → turbine_cache_store c td kind data_at length s ≡ fault
  turbine_cache_store-one {s} td kind data_at length p =
      store-Hollow s td kind data_at length (Reach-Hollow p)
