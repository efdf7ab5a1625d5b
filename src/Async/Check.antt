-- ===== src/Async/Check.antt =====
-- `check_tasks` and `run_callback` of code/src/turbine/async_exec.c, and the executor's functions
-- that the module calls through pointers. `free` of names and of the variables' array is left out;
-- `Refs` counts the references to callback objects that executors hold for their tasks.
use Prim.Native.String.{String}
use exm_turbine.Common.{
  ℕ, Bool, true, false, Option, none, some, List, [], ◌∷◌, if◌then◌else◌, Outcome, done, fault,
  ◌>>=◌,
}
use exm_turbine.Exec.{
  ExecCode, exec_success, exec_shutdown, exec_oom, exec_task, exec_invalid, exec_other, Callbacks,
  CallbackVar, CompletedTask, Slots, Refs, decr_callbacks,
}
use exm_turbine.Codes.{
  TurbineCode, success, error_external, error_unknown, TclCode, tcl_ok, tcl_error, other_tcl,
}
use exm_turbine.Externals.{Externals}
pub mod Release
pub mod Safe
pub mod Vars
mod Tests

-- The functions of `struct turbine_executor` that run while the executor is started. Its private
-- state is part of the world. `wait` and `poll` are given the size of the array to fill.
pub record Executor (W : Type 0) : Type 0 where
  pub start : W → ExecCode × W
  pub stop : W → ExecCode × W
  pub wait : ℕ → W → ExecCode × List CompletedTask × W
  pub poll : ℕ → W → ExecCode × List CompletedTask × W
  pub slots : W → ExecCode × Slots × W

abbrev pub completed_buffer_size : ℕ
completed_buffer_size = 16

-- `check_tasks` is declared to return an executor's code, and also returns the code of
-- `run_callback` through that type.
pub data CheckCode : Type 0 where
  exec_code : ExecCode → CheckCode
  turbine_code : TurbineCode → CheckCode

-- The callback that a completed task calls for.
abbrev pub chosen : CompletedTask → Option ℕ
chosen t = if t.success then t.callbacks.success else t.callbacks.failure

unfoldable pub succeeds : TurbineCode → Bool
succeeds success = true
succeeds _ = false

module _ (x : Externals) where
  open x use {World, eval_obj, add_error_info, set_var, unset_var}

  -- The loop that sets the variables: `false` where Tcl refused one. Every value is asserted.
  pub set_vars : List CallbackVar → World → Outcome (Bool × World)
  set_vars [] w = done (true, w)
  set_vars (v ∷ vs) w = elim v.val [
    | none ↦ fault
    | some val ↦
        let (ok, w') = set_var v.name val w in if ok then set_vars vs w' else done (false, w')
  ]

  -- The loop at `cleanup`, which ends with the code `tc` unless a variable cannot be unset.
  pub unset_vars : TurbineCode → List CallbackVar → World → TurbineCode × World
  unset_vars tc [] w = (tc, w)
  unset_vars tc (v ∷ vs) w =
      let (rc, w') = unset_var v.name w in
      elim rc [
        | tcl_ok ↦ unset_vars tc vs w'
        | tcl_error ↦ (error_unknown, w')
        | other_tcl ↦ (error_unknown, w')
      ]

  pub eval_callback : ℕ → List CallbackVar → World → TurbineCode × World
  eval_callback cb vs w =
      let (rc, w') = eval_obj cb w in
      elim rc [
        | tcl_ok ↦ unset_vars success vs w'
        | tcl_error ↦ unset_vars error_external vs (add_error_info w')
        | other_tcl ↦ unset_vars error_external vs (add_error_info w')
      ]

  pub run_callback : List CallbackVar → Option ℕ → World → Outcome (TurbineCode × World)
  unfolding eval_callback
  run_callback vs none w = done (success, w)
  run_callback vs (some cb) w =
      set_vars vs w >>= λ r. done (if r.0 then eval_callback cb vs r.1 else (error_unknown, r.1))

  -- The loop over the completed tasks: a callback that fails ends it at once.
  pub finish_tasks : List CompletedTask → Refs → World → Outcome (CheckCode × Refs × World)
  finish_tasks [] refs w = done (exec_code exec_success, refs, w)
  finish_tasks (t ∷ ts) refs w = run_callback t.vars (chosen t) w >>= λ r.
      if succeeds r.0
      then finish_tasks ts (decr_callbacks t.callbacks refs) r.1
      else done (turbine_code r.0, refs, r.1)

  pub check_completed :
      Refs → ExecCode × List CompletedTask × World → Outcome (CheckCode × Refs × World)
  check_completed refs (ec, ts, w) = elim ec [
    | exec_success ↦ finish_tasks ts refs w
    | failed ↦ done (exec_code failed, refs, w)
  ]

  pub check_tasks : Executor World → Bool → Refs → World → Outcome (CheckCode × Refs × World)
  unfolding check_completed
  check_tasks e poll refs w =
      check_completed refs
        (if poll then e.poll completed_buffer_size w else e.wait completed_buffer_size w)
