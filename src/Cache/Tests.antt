-- ===== src/Cache/Tests.antt =====
-- A cache for two entries on association lists: it is filled, read, and made to evict.
use exm_turbine.Common.{
  ℕ, ◌≡◌, refl, true, false, Option, [], ◌∷◌, arith, ◌==◌, if◌then◌else◌, Outcome, done, Ensures,
}
use exm_turbine.Codes.{TurbineCode, success}
use exm_turbine.Cache.{
  CacheState, Entry, entry_init, turbine_cache_init, turbine_cache_check, turbine_cache_store,
  turbine_cache_retrieve, cache_add, cache_replace, replace_victim, cache_shrink,
}
use exm_turbine.Cache.Inv.{IsCache}
use exm_turbine.Cache.Store.{Stored, Oldest, turbine_cache_store-Stored}
use exm_turbine.Cache.Retrieve.{Touched, turbine_cache_retrieve-Touched, turbine_cache_init-IsCache}
use exm_turbine.Cache.Life.{Reach, turbine_cache_store-Reach, turbine_cache_store-one}
use exm_turbine.Common.{fault}
use exm_turbine.Cache.Concrete.{pairs, pairs-ContainerLaws}

abbrev no_entry : Entry
no_entry = record { td = 0; kind = 0; data_at = 0; length = 0; stamp = 0 }

abbrev raw : CacheState pairs
raw = record {
  max_entries = 0;
  initialized = false;
  counter = 0;
  memory = 0;
  entries = [];
  lru = [];
  heap = λ p. no_entry;
  next = 0;
}

-- After turbine_cache_init(2, 100), and then with the datum 7.
abbrev empty : CacheState pairs
empty = record raw { max_entries = 2; initialized = true; memory = 100 }

abbrev one : CacheState pairs
one = record empty {
  counter = 1;
  memory = 95;
  entries = (7, 0) ∷ [];
  lru = (0, 0) ∷ [];
  heap = λ p. if p == 0 then entry_init 7 1 50 5 0 else no_entry;
  next = 1;
}

abbrev after : Outcome (TurbineCode × CacheState pairs) → CacheState pairs
after (done (tc, s)) = s
after _ = raw

init_run : turbine_cache_init pairs 2 100 raw ≡ done empty
unfolding turbine_cache_init
init_run = refl

empty-IsCache : IsCache empty
unfolding turbine_cache_init
empty-IsCache =
    (turbine_cache_init-IsCache pairs pairs-ContainerLaws 2 100 raw refl (omega arith)).0

store_run : turbine_cache_store pairs 7 1 50 5 empty ≡ done (success, one)
unfolding turbine_cache_store cache_add cache_shrink
store_run = refl

one-IsCache : IsCache one
unfolding turbine_cache_store cache_add cache_shrink
one-IsCache =
    (turbine_cache_store-Stored pairs pairs-ContainerLaws 7 1 50 5 empty empty-IsCache refl
      (λ e. omega arith)).3.valid

-- A second datum takes the place of the first: the cache never holds as many entries as it is for.
turbine_cache_store-Stored_example :
    Ensures
      (λ r.
        (r.0 ≡ success)
        × (gone : Option ℕ) × Oldest one gone
        × Stored 8 (entry_init 8 1 60 9 1) gone one r.1)
      (turbine_cache_store pairs 8 1 60 9 one)
turbine_cache_store-Stored_example =
    turbine_cache_store-Stored pairs pairs-ContainerLaws 8 1 60 9 one one-IsCache refl
      (λ e. omega arith)

turbine_cache_retrieve-Touched_example :
    (turbine_cache_check pairs one 7 ≡ true)
    × Touched 7 (entry_init 7 1 50 5 0) one (turbine_cache_retrieve pairs 7 one)
turbine_cache_retrieve-Touched_example =
    turbine_cache_retrieve-Touched pairs pairs-ContainerLaws 7 one (entry_init 7 1 50 5 0)
      one-IsCache refl

-- The second store evicts the datum 7.
evict_run : turbine_cache_check pairs (after (turbine_cache_store pairs 8 1 60 9 one)) 7 ≡ false
unfolding turbine_cache_store cache_replace replace_victim cache_shrink turbine_cache_check
evict_run = refl

one-Reach : Reach pairs 2 one
unfolding turbine_cache_init turbine_cache_store cache_add cache_shrink
one-Reach =
    Reach.stored 7 1 50 5 (success, one) (Reach.initialized 100 raw empty refl refl) refl refl

turbine_cache_store-Reach_example :
    IsCache one × Ensures (λ r. r.0 ≡ success) (turbine_cache_store pairs 8 1 60 9 one)
turbine_cache_store-Reach_example =
    turbine_cache_store-Reach pairs pairs-ContainerLaws 2 (omega arith) 8 1 60 9 one-Reach refl

abbrev single : CacheState pairs
single = record raw { max_entries = 1; initialized = true; memory = 100 }

turbine_cache_store-one_example : turbine_cache_store pairs 7 1 50 5 single ≡ fault
unfolding turbine_cache_init turbine_cache_retrieve
turbine_cache_store-one_example =
    turbine_cache_store-one pairs pairs-ContainerLaws 7 1 50 5
      (Reach.retrieved 9 (Reach.initialized 100 raw single refl refl))
