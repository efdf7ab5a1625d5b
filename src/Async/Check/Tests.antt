-- ===== src/Async/Check/Tests.antt =====
-- `finish_tasks` and `run_callback` in a scripted world.
use exm_turbine.Common.{ℕ, ◌≡◌, ◌↔◌, done, refl, [], ◌∷◌}
use exm_turbine.Exec.{exec_success, Refs}
use exm_turbine.Codes.{success}
use exm_turbine.Scenario.{scripted, scripted-TclVars, task, result}
use exm_turbine.Async.Check.{
  CheckCode, exec_code, finish_tasks, run_callback, set_vars, unset_vars, eval_callback, succeeds,
}
use exm_turbine.Async.Check.Release.{Finished, decr_all, finish_tasks-Finished}
use exm_turbine.Async.Check.Vars.{AllUnset, run_callback-AllUnset}

abbrev one_each : Refs
one_each = λ j. 2

abbrev both_done : CheckCode × Refs × ℕ
both_done = (exec_code exec_success, decr_all (task ∷ task ∷ []) one_each, 6)

finish_tasks-Finished_example :
    (finish_tasks scripted (task ∷ task ∷ []) one_each 0 ≡ done both_done)
    ↔ Finished scripted (task ∷ task ∷ []) one_each 0 both_done
finish_tasks-Finished_example =
    finish_tasks-Finished scripted (task ∷ task ∷ []) one_each 0 both_done

-- Both callbacks run and succeed.
finish_tasks_run : finish_tasks scripted (task ∷ task ∷ []) one_each 0 ≡ done both_done
unfolding finish_tasks run_callback set_vars unset_vars eval_callback succeeds
finish_tasks_run = refl

run_callback-AllUnset_example : AllUnset scripted scripted-TclVars (result ∷ []) 3
unfolding run_callback set_vars unset_vars eval_callback
run_callback-AllUnset_example =
    run_callback-AllUnset scripted scripted-TclVars 5 (result ∷ []) 0 (success, 3) refl (λ e. cc)
