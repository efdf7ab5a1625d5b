-- ===== src/Service.antt =====
-- code/src/turbine/services.c: the service process that runs beside a worker. Log messages are left
-- out. Delays are in hundredths of a second (the source counts in seconds, from 0.01).
use Prim.Native.String.{String}
use exm_turbine.Common.{
  ℕ, zero, suc, ◌+◌, ◌*◌, Bool, true, false, Option, none, some, ltb, if◌then◌else◌, Outcome, done,
  fault, starved, ◌>>=◌,
}
use exm_turbine.Codes.{TurbineCode, success}
use exm_turbine.Externals.{
  Externals, WaitResult, running, ended, wait_failed, ForkResult, parent_of, in_child, no_child,
}
pub mod Backoff
pub mod Launch
mod Tests

-- `service_launched` and `service_pid`. A failed `fork` leaves the pid -1, here `none`.
pub record ServiceState : Type 0 where
  pub launched : Bool
  pub pid : Option ℕ

-- What `turbine_service_init` makes of the process: it returns a code, or, in the child, it is
-- replaced by the command (`service_launch`, which otherwise exits and never returns either).
pub data InitResult (W : Type 0) : Type 0 where
  returned : TurbineCode → ServiceState → W → InitResult W
  replaced_by : String → InitResult W

module _ (x : Externals) where
  open x use {World, getenv_service, fork, waitpid, kill_term, time_delay}

  service_fork : String → ForkResult × World → InitResult World
  service_fork cmd (parent_of p, w) = returned success (record { launched = true; pid = some p }) w
  service_fork cmd (in_child, w) = replaced_by cmd
  service_fork cmd (no_child, w) = returned success (record { launched = true; pid = none }) w

  pub turbine_service_init : ServiceState → World → InitResult World
  unfolding service_fork
  turbine_service_init s w = elim (getenv_service w) [
    | none ↦ returned success s w
    | some cmd ↦ service_fork cmd (fork w)
  ]

  -- The loop of `service_shutdown`: `none` where the process did not exit in time. A failed
  -- `waitpid` ends it like an exit, with whatever stands in `s`.
  pub await_exit : ℕ → ℕ → ℕ → World → Outcome (Option WaitResult × World)
  await_exit zero pid delay w = starved
  await_exit (suc fuel) pid delay w =
      let (r, w') = waitpid pid w in
      let again = await_exit fuel pid (delay * 2) (time_delay delay w') in
      if ltb delay 400
      then (elim r [
        | running ↦ again
        | ended status ↦ done (some (ended status), w')
        | wait_failed ↦ done (some wait_failed, w')
      ])
      else done (none, w)

  -- Ten rounds of fuel: the delays are 1, 2, 4, …, 256, and 512 ends the loop.
  pub service_shutdown : ℕ → World → Outcome (Option WaitResult × World)
  service_shutdown pid w = let (_, w') = kill_term pid w in await_exit 10 pid 1 w'

  service_finalize_pid : ℕ → World → Outcome World
  service_finalize_pid pid w =
      let (r, w') = waitpid pid w in
      elim r [
        | running ↦ service_shutdown pid w' >>= λ q. done q.1
        | ended status ↦ done w'
        | wait_failed ↦ done w'
      ]

  -- Where `fork` failed the calls would go to the pid -1, every process: `fault`.
  pub turbine_service_finalize : ServiceState → World → Outcome World
  unfolding service_finalize_pid
  turbine_service_finalize s w =
      if s.launched
      then (elim s.pid [ none ↦ fault | some pid ↦ service_finalize_pid pid w ])
      else done w
