-- ===== src/Async/Registry/Tests.antt =====
-- The registry over association lists: a second executor is registered beside a first.
use Prim.Native.String.{String}
use exm_turbine.Common.{
  ℕ, ◌<◌, ◌≤◌, ◌≡◌, ◌≢◌, refl, Bool, true, false, Option, none, some, List, [], ◌∷◌, arith, length,
  if◌then◌else◌, str_eq, str_eq_iff, Ensures,
}
use mathlib.Core.Path.{subst}
use exm_turbine.Async.Registry.{
  StringTable, ExecDesc, Registry, turbine_add_async_exec, turbine_get_async_exec,
}
use exm_turbine.Async.Registry.Laws.{
  TableLaws, IsRegistry, Registered, some-eq, turbine_add_async_exec-Registered,
}

abbrev find : List (String × ℕ) → String → Option ℕ
find [] k = none
find ((j, p) ∷ t) k = if str_eq k j then some p else find t k

abbrev listed : StringTable
listed = record {
  Table = List (String × ℕ);
  table_init = λ n. some [];
  table_add = λ t k p. (k, p) ∷ t;
  table_search = find;
  table_size = length;
  entries = λ t. t;
}

str_eq-ne : (s t : String) → s ≢ t → str_eq s t ≡ false
str_eq-ne s t n = by_test (str_eq s t) refl
  where
    by_test : (b : Bool) → str_eq s t ≡ b → b ≡ false
    by_test true e = absurd (n ((str_eq_iff s t).0 e))
    by_test false e = refl

listed-TableLaws : TableLaws listed
listed-TableLaws = record {
  init_search = λ n table name e. find-empty table name e;
  init_size = λ n table e. length-empty table e;
  add_search_self = λ table name p e. rw ((str_eq_iff name name).1 refl) refl;
  add_search_ne = λ table name other p n. rw (str_eq-ne other name n) refl;
  add_size = λ table name p e. omega arith;
}
  where
    find-empty : (t : List (String × ℕ)) (k : String) → some [] ≡ some t → find t k ≡ none
    find-empty [] k e = refl
    find-empty (x ∷ t) k e = cc

    length-empty : (t : List (String × ℕ)) → some [] ≡ some t → length t ≡ 0
    length-empty [] e = refl
    length-empty (x ∷ t) e = cc

abbrev noop : ExecDesc
noop = record {
  name = some "NOOP";
  has_configure = true;
  has_start = true;
  has_stop = true;
  has_free = true;
  has_wait = true;
  has_poll = true;
  has_slots = true;
  has_max_slots = true;
  started = false;
}

abbrev registry : Registry listed
registry = record {
  executors_init = true;
  executors = some (("COASTER", 0) ∷ []);
  heap = λ p. noop;
  next = 1;
}

coaster-found : (k : String) (p : ℕ) → find (("COASTER", 0) ∷ []) k ≡ some p → p < 1
coaster-found k p = by_test (str_eq k "COASTER")
  where
    by_test : (b : Bool) → (if b then some 0 else none) ≡ some p → p < 1
    by_test true e = omega (arith, some-eq e)
    by_test false e = cc

registry-IsRegistry : IsRegistry registry
registry-IsRegistry = record {
  allocated = λ table name p e.
      subst (λ (t : List (String × ℕ)). find t name ≡ some p → p < 1) (some-eq e)
        (coaster-found name p);
  limited = λ table e. subst (λ (t : List (String × ℕ)). length t ≤ 64) (some-eq e) (omega arith);
}

turbine_add_async_exec-Registered_example :
    Ensures (Registered noop "NOOP" registry) (turbine_add_async_exec listed noop true registry)
unfolding turbine_get_async_exec
turbine_add_async_exec-Registered_example =
    turbine_add_async_exec-Registered listed listed-TableLaws noop "NOOP" true registry
      registry-IsRegistry refl refl refl
