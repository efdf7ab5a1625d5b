-- ===== src/Jobs/Command.antt =====
-- The command that runs a Coaster job.
use Prim.Native.String.{String}
use exm_turbine.Common.{
  ℕ, ◌<◌, ◌≡◌, ◌⊎◌, inl, inr, refl, Bool, true, false, Option, none, some, List, [], ◌∷◌, arith,
}
use exm_turbine.Codes.{TurbineCode, success}
use exm_turbine.Exec.{Callbacks, Refs}
use exm_turbine.Async.Check.{succeeds}
use exm_turbine.Coaster.{CoasterClient, CoasterState, coaster_execute}
use exm_turbine.Coaster.Yields.{Yields, Yields->>=}
use exm_turbine.Coaster.Held.{Absent, ClientLaws}
use exm_turbine.Coaster.Launch.{
  Launched, Leaked, LaunchedOrLeaked, coaster_execute-LaunchedOrLeaked,
}
use exm_turbine.Jobs.{JobEnv, JobSpec, make_job, run_job, run_spec, parse_job, coaster_run_cmd}

-- TCL_OK is a launch; with TCL_ERROR nothing is launched.
abbrev pub Ran :
    {c : CoasterClient}
    → CoasterState c
    → Callbacks
    → Refs
    → Bool × Option (CoasterState c) × Refs × c.World
    → Type 0
Ran s cbs refs (ok, none, refs', w) = ⊥
Ran s cbs refs (true, some s', refs', w) = Launched s s' cbs refs refs'
Ran s cbs refs (false, some s', refs', w) = ((s' ≡ s) × (refs' ≡ refs)) ⊎ Leaked s s' refs refs'

-- A job that is created is no active task yet.
abbrev pub Fresh : {c : CoasterClient} → JobEnv c → CoasterState c → Type 0
Fresh {c} e s =
    (executable : String) (args : List String) (manager : String) (w : c.World) (n : ℕ)
    → (e.job_create executable args manager w).0 ≡ some n
    → Absent (c.job_id n) (c.entries s.active_tasks)

succeeds_iff : (tc : TurbineCode) → succeeds tc ≡ true → tc ≡ success
unfolding succeeds
succeeds_iff tc e = ground arith

LaunchedOrLeaked-Ran :
    {c : CoasterClient} (s : CoasterState c) (cbs : Callbacks) (refs : Refs)
    (r : TurbineCode × Option (CoasterState c) × Refs × c.World)
    → LaunchedOrLeaked s cbs refs r
    → Ran s cbs refs (succeeds r.0, r.1, r.2, r.3)
unfolding succeeds
LaunchedOrLeaked-Ran s cbs refs (tc, none, refs', w) k = absurd k
LaunchedOrLeaked-Ran s cbs refs (tc, some s', refs', w) (inl (e, k)) = rw e k
LaunchedOrLeaked-Ran s cbs refs (tc, some s', refs', w) (inr (n, k)) = by_test (succeeds tc) refl
  where
    by_test : (b : Bool) → succeeds tc ≡ b → Ran s cbs refs (b, some s', refs', w)
    by_test true e = absurd (n (succeeds_iff tc e))
    by_test false e = inr k

module _ (c : CoasterClient) (l : ClientLaws c) (e : JobEnv c) where
  open c use {World, job_id, entries}

  make_job-created :
      (j : JobSpec) (w : World) (n : ℕ)
      → (make_job c e j w).0 ≡ some n
      → (e.job_create j.executable j.args (j.options).job_manager w).0 ≡ some n
  unfolding make_job
  make_job-created j w n q = ground arith

  run_spec-Ran :
      (s : CoasterState c) (cbs : Callbacks) (refs : Refs) (o : Option JobSpec) (w : World)
      → s.slots.used < s.slots.total
      → Fresh e s
      → Yields (Ran s cbs refs) (run_spec c e cbs s refs o w)
  unfolding run_spec run_job
  run_spec-Ran s cbs refs none w h f = inl (refl, refl)
  run_spec-Ran s cbs refs (some j) w h f =
      by_job (make_job c e j w) (λ n q. f _ _ _ w n (make_job-created j w n q))
    where
      by_job :
          (r : Option ℕ × World)
          → ((n : ℕ) → r.0 ≡ some n → Absent (job_id n) (entries s.active_tasks))
          → Yields (Ran s cbs refs) (run_job c e cbs s refs r)
      by_job (none, w) f = inl (refl, refl)
      by_job (some n, w) f =
          Yields->>= (LaunchedOrLeaked s cbs refs) (Ran s cbs refs)
            (coaster_execute c true n cbs (some s) refs w) _
            (coaster_execute-LaunchedOrLeaked c l true n cbs s refs w h (f n refl))
            (LaunchedOrLeaked-Ran s cbs refs)

  -- Where a slot is free and a new job is no active task yet, `coaster_run_cmd` with seven arguments
  -- returns. With TCL_OK it has launched one task that holds the two callbacks. With TCL_ERROR, for an
  -- executor that is not there or not started, in parsing, in making the job or in starting it, there
  -- is no new task and no new reference, though a slot may stay in use.
  pub coaster_run_cmd-Ran :
      (exec : Option Bool) (s : CoasterState c) (manager exe args ins outs opts ok bad : String)
      (refs : Refs) (w : World)
      → s.slots.used < s.slots.total
      → Fresh e s
      → Yields
          (Ran s (record { success = some (e.object ok); failure = some (e.object bad) }) refs)
          (coaster_run_cmd c e exec manager s
            (exe ∷ args ∷ ins ∷ outs ∷ opts ∷ ok ∷ bad ∷ [])
            refs
            w)
  unfolding coaster_run_cmd
  coaster_run_cmd-Ran none s manager exe args ins outs opts ok bad refs w h f = inl (refl, refl)
  coaster_run_cmd-Ran (some false) s manager exe args ins outs opts ok bad refs w h f =
      inl (refl, refl)
  coaster_run_cmd-Ran (some true) s manager exe args ins outs opts ok bad refs w h f =
      run_spec-Ran s _ refs (parse_job c e manager exe args ins outs opts) w h f
