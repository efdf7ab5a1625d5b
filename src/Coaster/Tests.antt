-- ===== src/Coaster/Tests.antt =====
-- The Coaster executor over a table that is a list, and a client that completes one job at a time.
use exm_turbine.Common.{
  ℕ, ◌+◌, ◌≡◌, ◌≢◌, ◌⊎◌, refl, ap, Bool, true, false, Option, none, some, List, [], ◌∷◌, arith, ltb,
  ◌==◌, if◌then◌else◌,
}
use mathlib.Core.Path.{subst}
use exm_turbine.Async.Registry.Laws.{some-eq}
use exm_turbine.Exec.{exec_success, Callbacks, Refs, incr_callbacks}
use exm_turbine.Coaster.{
  ActiveTask, JobStatus, CoasterClient, CoasterState, result_dict, coaster_execute, coaster_wait,
  coaster_poll, coaster_stop,
}
use exm_turbine.Coaster.Yields.{Yields}
use exm_turbine.Coaster.Held.{total, ClientLaws}
use exm_turbine.Coaster.Launch.{
  LaunchedOrLeaked, coaster_execute-LaunchedOrLeaked, coaster_stop-Released,
}
use exm_turbine.Coaster.Check.{Succeeds, Batch, coaster_poll-Batch}
use exm_turbine.Coaster.Dict.{dict_get, result_dict-entries}

abbrev pub Listed : Type 0
Listed = List (ℕ × ActiveTask)

abbrev remove : Listed → ℕ → Option ActiveTask × Listed
remove [] id = (none, [])
remove ((j, t) ∷ rest) id =
    let (o, r) = remove rest id in if j == id then (some t, rest) else (o, (j, t) ∷ r)

abbrev failed : JobStatus
failed = record {
  completed = false;
  code = "5";
  timestamp = "77";
  message = some "done";
  exception = some "lost";
}

-- Whenever it is asked, the job with the number of the clock is done.
abbrev pub client : CoasterClient
client = record {
  World = ℕ;
  submit = λ job w. (true, w);
  check_jobs = λ wait max w. (true, (if ltb 0 max then w ∷ [] else []), w + 1);
  job_id = λ job. job + 100;
  get_status = λ job w. some failed;
  job_free = λ job w. (true, w);
  client_stop = λ w. (true, w);
  config_free = λ w. (true, w);
  dict_text = λ d. "dict";
  Table = Listed;
  table_add = λ t id task. some ((id, task) ∷ t);
  table_remove = remove;
  entries = λ t. t;
}

remove-total :
    (t : Listed) (id : ℕ) (task : ActiveTask) (f : ActiveTask → ℕ)
    → (remove t id).0 ≡ some task
    → total f t ≡ total f (remove t id).1 + f task
remove-total [] id task f e = cc
remove-total ((j, u) ∷ rest) id task f e = by_test (j == id) (remove-total rest id task f) e
  where
    by_test :
        (b : Bool)
        → ((remove rest id).0 ≡ some task → total f rest ≡ total f (remove rest id).1 + f task)
        → let q : Option ActiveTask × Listed =
            if b then (some u, rest) else ((remove rest id).0, (j, u) ∷ (remove rest id).1) in
          q.0 ≡ some task → f u + total f rest ≡ total f q.1 + f task
    by_test true k m = omega (arith, ap f (some-eq m))
    by_test false k m = omega (arith, k m)

pub client-ClientLaws : ClientLaws client
client-ClientLaws = record {
  add_total = λ t t' id task f a e.
      subst (λ (u : Listed). total f u ≡ total f t + f task) (some-eq e) (omega arith);
  remove_total = remove-total;
  few = λ wait max w. ground arith;
}

abbrev cbs : Callbacks
cbs = record { success = some 1; failure = some 2 }

abbrev pub idle : CoasterState client
idle = record { slots = record { used = 0; total = 2 }; active_tasks = [] }

abbrev one : CoasterState client
one = record {
  slots = record { used = 1; total = 2 };
  active_tasks = (107, record { callbacks = cbs; job = 7 }) ∷ [];
}

abbrev pub base : Refs
base = λ j. 3

coaster_execute-LaunchedOrLeaked_example :
    Yields (LaunchedOrLeaked idle cbs base) (coaster_execute client true 7 cbs (some idle) base 7)
coaster_execute-LaunchedOrLeaked_example =
    coaster_execute-LaunchedOrLeaked client client-ClientLaws true 7 cbs idle base 7 (omega arith)
      tt

coaster_poll-Batch_example :
    Yields
      (Succeeds client client-ClientLaws (Batch client client-ClientLaws one 16))
      (coaster_poll client 16 one 7)
    × Yields
        (Succeeds client client-ClientLaws (Batch client client-ClientLaws one 16))
        (coaster_wait client 16 one 7)
coaster_poll-Batch_example = coaster_poll-Batch client client-ClientLaws 16 one 7 (omega arith) refl

coaster_stop-Released_example :
    ((coaster_stop client one (incr_callbacks cbs base) 7).0 ≢ exec_success)
    ⊎ ((j : ℕ) → (coaster_stop client one (incr_callbacks cbs base) 7).1 j ≡ base j)
coaster_stop-Released_example =
    coaster_stop-Released client client-ClientLaws one (incr_callbacks cbs base) base 7
      λ j. ground arith

result_dict-entries_example :
    (dict_get "timestamp" (result_dict failed) ≡ some "77")
    × (dict_get "message" (result_dict failed) ≡ some "lost")
    × (dict_get "status_code" (result_dict failed) ≡ some "5")
result_dict-entries_example = result_dict-entries failed
