-- ===== src/Async/Tests.antt =====
-- The async module in a scripted world.
use exm_turbine.Common.{◌≡◌, refl, true, false, none, [], ◌∷◌, arith, Ensures}
use exm_turbine.Exec.{Refs}
use exm_turbine.Service.{ServiceState}
use exm_turbine.Scenario.{scripted, scripted-AdlbContract, executor, executor-ExecutorContract}
use exm_turbine.Async.Get.{GetReqState, get_tasks, tmp_bufs}
use exm_turbine.Async.Get.Ring.{IsRing, Bounded, get_tasks-Bounded}
use exm_turbine.Async.Get.Queue.{as_queue, pending, serve_tasks}
use exm_turbine.Async.Get.Refine.{get_tasks-serve_tasks}
use exm_turbine.Async.Loop.{turbine_async_worker_loop}
use exm_turbine.Async.Loop.Safe.{Restored, turbine_async_worker_loop-Restored}

-- A ring of four with two requests outstanding that go round the end.
abbrev ring : GetReqState
ring = record {
  buffers = 100 ∷ 101 ∷ 102 ∷ 103 ∷ [];
  requests = 7 ∷ 0 ∷ 0 ∷ 6 ∷ [];
  max_reqs = 4;
  nreqs = 2;
  head = 1;
  tail = 3;
}

ring-IsRing : IsRing ring
ring-IsRing = record {
  buffers_fit = refl;
  requests_fit = refl;
  bounded = omega arith;
  tail_in = omega arith;
  head_at = refl;
}

no_refs : Refs
no_refs = λ j. 1

get_tasks-Bounded_example :
    Ensures
      (Bounded scripted scripted-AdlbContract ring 3)
      (get_tasks scripted 1 ring true 3 false 0)
get_tasks-Bounded_example =
    get_tasks-Bounded scripted scripted-AdlbContract 1 ring true 3 false 0 ring-IsRing

get_tasks-serve_tasks_example :
    as_queue scripted (get_tasks scripted 1 ring true 3 false 0)
    ≡ serve_tasks scripted 1 4 (pending ring) (tmp_bufs ring) true 3 false 0
get_tasks-serve_tasks_example = get_tasks-serve_tasks scripted 1 ring true 3 false 0 ring-IsRing

abbrev no_service : ServiceState
no_service = record { launched = false; pid = none }

turbine_async_worker_loop-Restored_example :
    Ensures (Restored false) (
      turbine_async_worker_loop scripted executor 1 20 false no_service
        (100 ∷ 101 ∷ [])
        2
        no_refs
        0)
turbine_async_worker_loop-Restored_example =
    turbine_async_worker_loop-Restored scripted executor 1 scripted-AdlbContract
      executor-ExecutorContract 20 false no_service (100 ∷ 101 ∷ []) 2 no_refs 0 (λ w e. cc)
      (λ e. cc) (omega arith) (omega arith)
