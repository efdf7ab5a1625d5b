-- ===== src/Async/Check/Safe.antt =====
-- No assertion of `check_tasks` fails.
use Prim.Native.String.{String}
use exm_turbine.Common.{
  ℕ, ◌≢◌, refl, Bool, true, false, Option, none, some, List, [], ◌∷◌, Outcome, fault, Ensures,
  Ensures->>=, Ensures-if,
}
use exm_turbine.Exec.{ExecCode, exec_success, CallbackVar, CompletedTask, Refs}
use exm_turbine.Externals.{Externals}
use exm_turbine.Async.Check.{
  Executor, set_vars, run_callback, finish_tasks, check_completed, check_tasks, succeeds, chosen,
}

-- Every variable of a completed task has a value, and so for all tasks of a batch.
abbrev pub AllSet : List CallbackVar → Type 0
AllSet [] = Unit
AllSet (v ∷ vs) = (v.val ≢ none) × AllSet vs

abbrev pub TasksSet : List CompletedTask → Type 0
TasksSet [] = Unit
TasksSet (t ∷ ts) = AllSet t.vars × TasksSet ts

-- What exec_interface.h asks of the executor's functions: completed tasks come with the values of
-- their variables.
pub record ExecutorContract {W : Type 0} (e : Executor W) : Type 0 where
  pub poll_sets : (n : ℕ) (w : W) → TasksSet (e.poll n w).1
  pub wait_sets : (n : ℕ) (w : W) → TasksSet (e.wait n w).1

abbrev pub Fine {ℓ} : {A : Type ℓ} → A → Type 0
Fine a = Unit

Ensures-val {ℓ} :
    {A : Type ℓ} (o : Option String) (f : String → Outcome A)
    → o ≢ none
    → ((val : String) → Ensures Fine (f val))
    → Ensures {A = A} Fine (elim o [ none ↦ fault | some val ↦ f val ])
Ensures-val none f h k = absurd (h refl)
Ensures-val (some val) f h k = k val

module _ (x : Externals) where
  open x use {World}

  set_vars-Fine : (vs : List CallbackVar) (w : World) → AllSet vs → Ensures Fine (set_vars x vs w)
  unfolding set_vars
  set_vars-Fine [] w h = tt
  set_vars-Fine (v ∷ vs) w h =
      Ensures-val v.val _ h.0 λ val.
        Ensures-if Fine (x.set_var v.name val w).0 _ _ (λ _. set_vars-Fine vs _ h.1) (λ _. tt)

  run_callback-Fine :
      (vs : List CallbackVar) (cb : Option ℕ) (w : World)
      → AllSet vs
      → Ensures Fine (run_callback x vs cb w)
  unfolding run_callback
  run_callback-Fine vs none w h = tt
  run_callback-Fine vs (some cb) w h =
      Ensures->>= Fine Fine (set_vars x vs w) _ (set_vars-Fine vs w h) λ r _. tt

  finish_tasks-Fine :
      (ts : List CompletedTask) (refs : Refs) (w : World)
      → TasksSet ts
      → Ensures Fine (finish_tasks x ts refs w)
  unfolding finish_tasks
  finish_tasks-Fine [] refs w h = tt
  finish_tasks-Fine (t ∷ ts) refs w h =
      Ensures->>= Fine Fine (run_callback x t.vars (chosen t) w) _
        (run_callback-Fine t.vars (chosen t) w h.0)
        λ r _. Ensures-if Fine (succeeds r.0) _ _ (λ _. finish_tasks-Fine ts _ r.1 h.1) (λ _. tt)

  check_completed-Fine :
      (refs : Refs) (r : ExecCode × List CompletedTask × World)
      → TasksSet r.1
      → Ensures Fine (check_completed x refs r)
  unfolding check_completed
  check_completed-Fine refs (exec_success, ts, w) h = finish_tasks-Fine ts refs w h
  check_completed-Fine refs (_, ts, w) h = tt

  pub check_tasks-Fine :
      (e : Executor World) (poll : Bool) (refs : Refs) (w : World)
      → ExecutorContract e
      → Ensures Fine (check_tasks x e poll refs w)
  unfolding check_tasks
  check_tasks-Fine e true refs w c = check_completed-Fine refs _ (c.poll_sets _ w)
  check_tasks-Fine e false refs w c = check_completed-Fine refs _ (c.wait_sets _ w)
