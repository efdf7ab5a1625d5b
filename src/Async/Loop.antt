-- ===== src/Async/Loop.antt =====
-- `turbine_async_worker_loop` and `stop_executors` of code/src/turbine/async_exec.c. The loop ends
-- only when the program tells it to shut down or on an error, so it takes a number of rounds as fuel.
use Prim.Native.String.{String}
use exm_turbine.Common.{
  ℕ, zero, suc, ◌+◌, ◌-◌, Bool, true, false, not, List, [], ◌∷◌, ltb, leb, ◌==◌, if◌then◌else◌,
  replicate, take, Outcome, done, fault, starved, ◌>>=◌, assert,
}
use exm_turbine.Exec.{
  ExecCode, exec_success, exec_shutdown, exec_oom, exec_task, exec_invalid, exec_other, Slots, Refs,
}
use exm_turbine.Codes.{TurbineCode, success, error_external}
use exm_turbine.Externals.{Externals}
use exm_turbine.Service.{
  ServiceState, InitResult, returned, replaced_by, turbine_service_init, turbine_service_finalize,
}
use exm_turbine.Async.Get.{GetReqState, Got, get_tasks}
use exm_turbine.Async.Check.{Executor, CheckCode, exec_code, turbine_code, succeeds, check_tasks}
pub mod Safe

-- TURBINE_ASYNC_EXEC_MAX_REQS.
abbrev pub async_exec_max_reqs : ℕ
async_exec_max_reqs = 256

-- How a round, or the loop, ends.
pub data Ending : Type 0 where
  shut_down failed : Ending

pub data Round (W : Type 0) : Type 0 where
  again : GetReqState → Refs → W → Round W
  ends : Ending → Refs → W → Round W

pub is_success : ExecCode → Bool
is_success exec_success = true
is_success _ = false

-- TURBINE_EXEC_CHECK compares with 0, which is both kinds of success.
pub check_passes : CheckCode → Bool
unfolding is_success
check_passes (exec_code ec) = is_success ec
check_passes (turbine_code success) = true
check_passes (turbine_code _) = false

abbrev pub clamp_buffers : ℕ → ℕ
clamp_buffers n = if ltb async_exec_max_reqs n then async_exec_max_reqs else n

abbrev pub init_reqs : List ℕ → ℕ → GetReqState
init_reqs buffers n = record {
  buffers = take n buffers;
  requests = replicate n 0;
  max_reqs = n;
  nreqs = 0;
  head = 0;
  tail = 0;
}

-- What the function leaves: its code, `exec->started`, the service and the world. In the child of
-- a `fork` it does not return.
pub data LoopResult (W : Type 0) : Type 0 where
  finished : TurbineCode → Bool → ServiceState → Refs → W → LoopResult W
  child : String → LoopResult W

module _ (x : Externals) (e : Executor x.World) (work_type : ℕ) where
  open x use {World, sched_yield}

  -- `check_tasks` never sets `something_happened`, which therefore comes from `get_tasks` alone.
  pub check_phase : Bool → GetReqState → Refs → World → Outcome (Round World)
  unfolding check_passes
  check_phase happened s refs w =
      let (ec, slots, w') = e.slots w in
      let yield = λ (w : World). (if happened then w else sched_yield w) in
      if is_success ec
      then (if ltb 0 slots.used
          then (check_tasks x e (ltb slots.used slots.total) refs w' >>= λ r.
              if check_passes r.0
              then done (again s r.1 (yield r.2))
              else done (ends failed r.1 r.2))
          else done (again s refs (yield w')))
      else done (ends failed refs w')

  pub after_get : Refs → Got World → Outcome (Round World)
  after_get refs (exec_success, happened, s, w) = check_phase happened s refs w
  after_get refs (exec_shutdown, happened, s, w) = done (ends shut_down refs w)
  after_get refs (_, happened, s, w) = done (ends failed refs w)

  pub round : GetReqState → Refs → World → Outcome (Round World)
  unfolding after_get
  round s refs w =
      let (ec, slots, w') = e.slots w in
      if is_success ec
      then (if ltb slots.used slots.total
          then (get_tasks x work_type s (not (slots.used == 0)) (slots.total - slots.used) false w'
              >>= after_get refs)
          else check_phase false s refs w')
      else done (ends failed refs w')

  pub loop : ℕ → GetReqState → Refs → World → Outcome (Ending × Refs × World)
  loop zero s refs w = starved
  loop (suc fuel) s refs w = round s refs w >>= λ r. elim r [
    | again s' refs' w' ↦ loop fuel s' refs' w'
    | ends how refs' w' ↦ done (how, refs', w')
  ]

  -- On an error the function returns at once: it neither stops the executor nor the service.
  pub close_loop : Bool → ServiceState → Ending × Refs × World → Outcome (LoopResult World)
  close_loop was_started service (failed, refs, w) =
      done (finished error_external true service refs w)
  close_loop was_started service (shut_down, refs, w) =
      turbine_service_finalize x service (if was_started then w else (e.stop w).1) >>= λ w'.
      done (finished success was_started service refs w')

  pub run_started : ℕ → Bool → ServiceState → List ℕ → ℕ → Refs → World → Outcome (LoopResult World)
  unfolding close_loop
  run_started fuel was_started service buffers n refs w =
      loop fuel (init_reqs buffers n) refs w >>= close_loop was_started service

  start_then : ℕ → ServiceState → List ℕ → ℕ → Refs → ExecCode × World → Outcome (LoopResult World)
  unfolding run_started
  start_then fuel service buffers n refs (ec, w) =
      if is_success ec
      then run_started fuel false service buffers n refs w
      else done (finished error_external false service refs w)

  after_service : ℕ → Bool → List ℕ → ℕ → Refs → InitResult World → Outcome (LoopResult World)
  unfolding start_then
  after_service fuel started buffers n refs (replaced_by cmd) = done (child cmd)
  after_service fuel started buffers n refs (returned tc service w) =
      if not (succeeds tc)
      then done (finished tc started service refs w)
      else if started
      then run_started fuel true service buffers n refs w
      else start_then fuel service buffers n refs (e.start w)

  pub turbine_async_worker_loop :
      ℕ → Bool → ServiceState → List ℕ → ℕ → Refs → World → Outcome (LoopResult World)
  unfolding after_service
  turbine_async_worker_loop fuel started service buffers nbuffers refs w = assert (leb 1 nbuffers) (
      after_service fuel started buffers (clamp_buffers nbuffers) refs
        (turbine_service_init x service w))
