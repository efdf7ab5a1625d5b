-- ===== src/Worker.antt =====
-- `turbine_worker_loop` and `task_error` of code/src/turbine/worker.c: the synchronous worker. The
-- loop ends only on a shutdown or an error, so it takes a number of rounds as fuel. Messages that
-- are printed are left out. `turbine_task_comm` is a number that the loop hands on.
use Prim.Native.String.{String}
use exm_turbine.Common.{
  ℕ, zero, suc, Bool, true, false, leb, ◌==◌, if◌then◌else◌, Outcome, done, fault, starved, ◌>>=◌,
  assert,
}
use exm_turbine.Codes.{
  TurbineCode, success, error_adlb, error_external, AdlbCode, adlb_success, adlb_error,
  adlb_nothing, adlb_shutdown, other_code, TclCode, tcl_ok, tcl_error, other_tcl,
}
use exm_turbine.Externals.{Externals, cmd_len}
use exm_turbine.Service.{
  ServiceState, InitResult, returned, replaced_by, turbine_service_init, turbine_service_finalize,
}
pub mod Session
mod Tests

-- Where the loop stops: its code, `turbine_task_comm` and the world.
abbrev pub Stopped : Type 0 → Type 0
Stopped W = TurbineCode × ℕ × W

-- What the function leaves. In the child of a `fork` it does not return.
pub data WorkerResult (W : Type 0) : Type 0 where
  finished : TurbineCode → ServiceState → ℕ → W → WorkerResult W
  child : String → WorkerResult W

module _ (x : Externals) where
  open x use {World, get, eval_ex, add_error_info}

  -- `while (true)`: what ADLB_Get answers decides whether a command is evaluated.
  pub loop : ℕ → ℕ → ℕ → ℕ → ℕ → World → Outcome (Stopped World)
  loop zero buffer size work_type comm w = starved
  loop (suc fuel) buffer size work_type comm w =
      let (code, len, kind, task_comm, w') = get work_type buffer w in
      let (rc, w'') = eval_ex buffer (cmd_len len) w' in
      let next = loop fuel buffer size work_type task_comm w'' in
      elim code [
        | adlb_shutdown ↦ done (success, comm, w')
        | adlb_success ↦ assert (leb len size) (
            assert (kind == work_type) (elim rc [
              | tcl_ok ↦ next
              | tcl_error ↦ done (error_external, task_comm, add_error_info w'')
              | other_tcl ↦ done (error_external, task_comm, add_error_info w'')
            ]))
        | adlb_error ↦ done (error_adlb, comm, w')
        | adlb_nothing ↦ done (error_adlb, comm, w')
        | other_code ↦ done (error_adlb, comm, w')
      ]

  -- The service is finalized only after a shutdown.
  pub close_loop : ServiceState → Stopped World → Outcome (WorkerResult World)
  close_loop service (success, comm, w) =
      turbine_service_finalize x service w >>= λ w'. done (finished success service comm w')
  close_loop service (tc, comm, w) = done (finished tc service comm w)

  pub after_init : ℕ → ℕ → ℕ → ℕ → ℕ → InitResult World → Outcome (WorkerResult World)
  unfolding close_loop
  after_init fuel buffer size work_type comm (replaced_by cmd) = done (child cmd)
  after_init fuel buffer size work_type comm (returned success service w) =
      loop fuel buffer size work_type comm w >>= close_loop service
  after_init fuel buffer size work_type comm (returned tc service w) =
      done (finished tc service comm w)

  pub turbine_worker_loop : ℕ → ℕ → ℕ → ℕ → ServiceState → ℕ → World → Outcome (WorkerResult World)
  unfolding after_init
  turbine_worker_loop fuel buffer size work_type service comm w =
      after_init fuel buffer size work_type comm (turbine_service_init x service w)
