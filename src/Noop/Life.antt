-- ===== src/Noop/Life.antt =====
-- The noop executor over its whole life: tasks are launched, completed by `noop_wait` and
-- `noop_poll`, and the caller gives back the references of completed tasks, as `check_tasks` of
-- code/src/turbine/async_exec.c does.
use exm_turbine.Common.{
  ℕ, ◌+◌, ◌-◌, ◌≤◌, ◌<◌, ◌≡◌, refl, true, Option, none, some, List, [], ◌∷◌, arith, done, Ensures,
  Ensures-done,
}
use exm_turbine.Exec.{ExecCode, exec_success, Callbacks, CompletedTask, Refs, decr_callbacks}
use exm_turbine.Noop.{NoopState, noop_start, noop_execute, noop_wait, noop_poll, noop_stop}
use exm_turbine.Noop.Held.{
  held, IsConsistent, Launched, noop_execute-Launched, noop_stop-held, decr_callbacks_lem,
}
use exm_turbine.Noop.Complete.{Completed, Batch, mentions_all, noop_wait-Batch, noop_poll-Completed}
use exm_turbine.Async.Check.Release.{decr_all}

-- The states and counts that follow a start with the counts `base`.
pub data Reach (base : Refs) : NoopState → Refs → Type 0 where
  started :
      (s : NoopState) → noop_start true true true ≡ done (exec_success, some s) → Reach base s base
  launched :
      {s : NoopState} {refs : Refs} (c : Callbacks) (s' : NoopState) (refs' : Refs)
      → Reach base s refs
      → s.slots.used < s.slots.total
      → noop_execute (some s) c refs ≡ done (s', refs')
      → Reach base s' refs'
  waited :
      {s : NoopState} {refs : Refs} (size : ℕ) (rands : List ℕ)
      (r : List CompletedTask × NoopState × List ℕ)
      → Reach base s refs
      → 0 < s.slots.used
      → 1 ≤ size
      → noop_wait s size rands ≡ done r
      → Reach base r.1 (decr_all r.0 refs)
  polled :
      {s : NoopState} {refs : Refs} (size : ℕ) (rands : List ℕ)
      (r : List CompletedTask × NoopState × List ℕ)
      → Reach base s refs
      → 1 ≤ size
      → noop_poll s size rands ≡ done r
      → Reach base r.1 (decr_all r.0 refs)

-- The counts are those of the start and what active tasks hold.
pub record Accounted (base : Refs) (s : NoopState) (refs : Refs) : Type 0 where
  pub consistent : IsConsistent s
  pub counts : (j : ℕ) → refs j ≡ base j + held s.tasks j

-- The same of what `noop_start` leaves in `*state`.
abbrev Started : Refs → ExecCode × Option NoopState → Type 0
Started base (ec, none) = Unit
Started base (ec, some s) = Accounted base s base

noop_start-Started : (base : Refs) → Ensures (Started base) (noop_start true true true)
unfolding noop_start
noop_start-Started base = record {
  consistent = record { fixed = refl; sized = refl; counted = refl };
  counts = λ j. omega arith;
}

decr_all_lem :
    (ts : List CompletedTask) (refs : Refs) (j : ℕ)
    → decr_all ts refs j ≡ refs j - mentions_all ts j
decr_all_lem [] refs j = omega arith
decr_all_lem (t ∷ ts) refs j = omega (
  arith,
  decr_all_lem ts (decr_callbacks t.callbacks refs) j,
  decr_callbacks_lem t.callbacks refs j,
)

launch-Accounted :
    (base : Refs) (s s' : NoopState) (c : Callbacks) (refs refs' : Refs)
    → Accounted base s refs
    → Launched s s' c refs refs'
    → Accounted base s' refs'
launch-Accounted base s s' c refs refs' a l = record {
  consistent = l.consistent;
  counts = λ j. omega (arith, a.counts j, l.holds j, l.counted j);
}

launch-Ensures :
    (base : Refs) (s : NoopState) (c : Callbacks) (refs : Refs)
    → Accounted base s refs
    → s.slots.used < s.slots.total
    → Ensures (λ r. Accounted base r.0 r.1) (noop_execute (some s) c refs)
launch-Ensures base s c refs a h =
    let (s', refs', e, l) = noop_execute-Launched s c refs a.consistent h in
    rw e (launch-Accounted base s s' c refs refs' a l)

batch-Accounted :
    (base : Refs) (s s' : NoopState) (cs : List CompletedTask) (refs : Refs)
    → Accounted base s refs
    → Completed s s' cs
    → Accounted base s' (decr_all cs refs)
batch-Accounted base s s' cs refs a k = record {
  consistent = k.consistent;
  counts = λ j. omega (arith, a.counts j, k.handed_over j, decr_all_lem cs refs j);
}

Reach-Accounted :
    {base : Refs} {s : NoopState} {refs : Refs} → Reach base s refs → Accounted base s refs
Reach-Accounted {base} (started s e) =
    Ensures-done (Started base) (noop_start true true true) (noop_start-Started base) e
Reach-Accounted {base} (launched {s} {refs} c s' refs' r h e) =
    let a = Reach-Accounted r in
    Ensures-done _ (noop_execute (some s) c refs) (launch-Ensures base s c refs a h) e
Reach-Accounted {base} (waited {s} {refs} size rands r k h z e) =
    let a = Reach-Accounted k in
    batch-Accounted base s r.1 r.0 refs a
      (Ensures-done (Batch s size) (noop_wait s size rands)
        (noop_wait-Batch s size rands a.consistent h z) e).completed
Reach-Accounted {base} (polled {s} {refs} size rands r k z e) =
    let a = Reach-Accounted k in
    batch-Accounted base s r.1 r.0 refs a
      (Ensures-done _ (noop_poll s size rands) (noop_poll-Completed s size rands a.consistent z)
        e).0

-- In every state that launches, waits and polls lead to from a start, with the references of
-- completed tasks given back by the caller, the executor is consistent, and `noop_stop` leaves the
-- count of every object as it was at the start.
pub noop_stop-Reach :
    {base : Refs} {s : NoopState} {refs : Refs}
    → Reach base s refs
    → IsConsistent s × ((j : ℕ) → noop_stop s.tasks refs j ≡ base j)
noop_stop-Reach {base} {s} {refs} r =
    let a = Reach-Accounted r in (a.consistent, noop_stop-held s.tasks refs base a.counts)
