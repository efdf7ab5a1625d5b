-- ===== src/Coaster/Launch.antt =====
-- Launching tasks on the Coaster executor, and stopping it.
use exm_turbine.Common.{
  ℕ, ◌+◌, ◌<◌, ◌≡◌, ◌≢◌, ◌⊎◌, inl, inr, refl, Bool, true, false, Option, none, some, List, [], ◌∷◌,
  arith, lt→ltb, if◌then◌else◌,
}
use exm_turbine.Exec.{
  ExecCode, exec_success, exec_other, Callbacks, Refs, incr_callbacks, decr_callbacks, mentions,
}
use exm_turbine.Codes.{TurbineCode, success, error_oom}
use exm_turbine.Noop.Held.{incr_callbacks_lem, decr_callbacks_lem}
use exm_turbine.Coaster.{
  ActiveTask, CoasterClient, CoasterState, with_used, add_task, coaster_execute,
  coaster_cleanup_active, coaster_stop,
}
use exm_turbine.Coaster.Yields.{Yields, Yields-if}
use exm_turbine.Coaster.Held.{total, Absent, ClientLaws, active, held}

-- What a launch and a launch that fails do.
pub record Launched {c : CoasterClient} (s s' : CoasterState c) (cbs : Callbacks)
    (refs refs' : Refs) : Type 0 where
  pub uses : s'.slots.used ≡ s.slots.used + 1
  pub one_more : active s' ≡ active s + 1
  pub holds : (j : ℕ) → held s' j ≡ held s j + mentions cbs j
  pub counted : (j : ℕ) → refs' j ≡ refs j + mentions cbs j

pub record Leaked {c : CoasterClient} (s s' : CoasterState c) (refs refs' : Refs) : Type 0 where
  pub uses : s'.slots.used ≡ s.slots.used + 1
  pub no_more : s'.active_tasks ≡ s.active_tasks
  pub unchanged : refs' ≡ refs

abbrev pub LaunchedOrLeaked :
    {c : CoasterClient}
    → CoasterState c
    → Callbacks
    → Refs
    → TurbineCode × Option (CoasterState c) × Refs × c.World
    → Type 0
LaunchedOrLeaked s cbs refs (tc, none, refs', w) = ⊥
LaunchedOrLeaked s cbs refs (tc, some s', refs', w) =
    ((tc ≡ success) × Launched s s' cbs refs refs') ⊎ ((tc ≢ success) × Leaked s s' refs refs')

module _ (c : CoasterClient) (l : ClientLaws c) where
  open c use {World, job_id, table_add, entries}

  add_task-LaunchedOrLeaked :
      (memory : Bool) (job : ℕ) (cbs : Callbacks) (s : CoasterState c) (refs : Refs) (w : World)
      → Absent (job_id job) (entries s.active_tasks)
      → let r = add_task c memory job cbs (with_used s (s.slots.used + 1)) refs w in
        LaunchedOrLeaked s cbs refs (r.0, some r.1, r.2, r.3)
  unfolding add_task
  add_task-LaunchedOrLeaked false job cbs s refs w a =
      inr ((λ e. cc), record { uses = refl; no_more = refl; unchanged = refl })
  add_task-LaunchedOrLeaked true job cbs s refs w a =
      by_table (table_add s.active_tasks (job_id job) task) refl
    where
      task : ActiveTask
      task = record { callbacks = cbs; job = job }

      by_table :
          (o : Option c.Table)
          → table_add s.active_tasks (job_id job) (record { callbacks = cbs; job = job }) ≡ o
          → let r : TurbineCode × CoasterState c × Refs × World = elim o [
            | none ↦ (error_oom, with_used s (s.slots.used + 1), refs, w)
            | some t ↦ (
              success,
              record (with_used s (s.slots.used + 1)) { active_tasks = t },
              incr_callbacks cbs refs,
              w,
            )
          ] in
            LaunchedOrLeaked s cbs refs (r.0, some r.1, r.2, r.3)
      by_table none e = inr ((λ z. cc), record { uses = refl; no_more = refl; unchanged = refl })
      by_table (some t) e = inl (
        refl,
        record {
          uses = refl;
          one_more = l.add_total s.active_tasks t (job_id job) _ (λ t. 1) a e;
          holds =
              λ j. l.add_total s.active_tasks t (job_id job) _ (λ t. mentions t.callbacks j) a e;
          counted = incr_callbacks_lem cbs refs;
        },
      )

  -- With a slot free and a job whose id is not in use, `coaster_execute` fails no assertion. Either
  -- it succeeds, with one slot, one active task and the references of its callbacks more; or it
  -- fails with no task and no reference more, and the slot stays counted as used all the same.
  pub coaster_execute-LaunchedOrLeaked :
      (memory : Bool) (job : ℕ) (cbs : Callbacks) (s : CoasterState c) (refs : Refs) (w : World)
      → s.slots.used < s.slots.total
      → Absent (job_id job) (entries s.active_tasks)
      → Yields (LaunchedOrLeaked s cbs refs) (coaster_execute c memory job cbs (some s) refs w)
  unfolding coaster_execute
  coaster_execute-LaunchedOrLeaked memory job cbs s refs w h a = rw (lt→ltb _ _ h) (
      Yields-if (LaunchedOrLeaked s cbs refs) (c.submit job w).0 _ _
        (λ _. add_task-LaunchedOrLeaked memory job cbs s refs (c.submit job w).1 a)
        (λ _. inr ((λ e. cc), record { uses = refl; no_more = refl; unchanged = refl })))

  Released : (Refs) → ExecCode × Refs × World → Type 0
  Released base r = (r.0 ≢ exec_success) ⊎ ((j : ℕ) → r.1 j ≡ base j)

  cleanup-Released :
      (ts : List (ℕ × ActiveTask)) (refs base : Refs) (w : World)
      → ((j : ℕ) → refs j ≡ base j + total (λ t. mentions t.callbacks j) ts)
      → Released base (coaster_cleanup_active c ts refs w)
  unfolding coaster_cleanup_active Released
  cleanup-Released [] refs base w h = inr λ j. omega (arith, h j)
  cleanup-Released ((id, t) ∷ rest) refs base w h = by_free (c.job_free t.job w).0 _ (
      cleanup-Released rest (decr_callbacks t.callbacks refs) base (c.job_free t.job w).1
        λ j. omega (arith, h j, decr_callbacks_lem t.callbacks refs j))
    where
      by_free :
          (ok : Bool) (r : ExecCode × Refs × World)
          → (r.0 ≢ exec_success) ⊎ ((j : ℕ) → r.1 j ≡ base j)
          → let q = if ok then r else (exec_other, refs, (c.job_free t.job w).1) in
            (q.0 ≢ exec_success) ⊎ ((j : ℕ) → q.1 j ≡ base j)
      by_free true r k = k
      by_free false r k = inl λ e. cc

  -- Where `coaster_stop` succeeds, every reference that active tasks still held is given back.
  pub coaster_stop-Released :
      (s : CoasterState c) (refs base : Refs) (w : World)
      → ((j : ℕ) → refs j ≡ base j + held s j)
      → ((coaster_stop c s refs w).0 ≢ exec_success)
        ⊎ ((j : ℕ) → (coaster_stop c s refs w).1 j ≡ base j)
  unfolding coaster_stop Released
  coaster_stop-Released s refs base w h =
      by_client (c.client_stop w).0 (c.config_free (c.client_stop w).1).0 _
        (cleanup-Released (entries s.active_tasks) refs base _ h)
    where
      by_client :
          (ok ok' : Bool) (r : ExecCode × Refs × World)
          → (r.0 ≢ exec_success) ⊎ ((j : ℕ) → r.1 j ≡ base j)
          → let q =
              if ok
              then (if ok' then r else (exec_other, refs, (c.config_free (c.client_stop w).1).1))
              else (exec_other, refs, (c.client_stop w).1) in
            (q.0 ≢ exec_success) ⊎ ((j : ℕ) → q.1 j ≡ base j)
      by_client true true r k = k
      by_client true false r k = inl λ e. cc
      by_client false ok' r k = inl λ e. cc
