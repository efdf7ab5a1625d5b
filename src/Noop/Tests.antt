-- ===== src/Noop/Tests.antt =====
-- The noop executor: launches and completions of two tasks.
use exm_turbine.Common.{done, ◌↔◌, ℕ, ◌≡◌, refl, true, false, some, List, [], ◌∷◌, arith, Ensures}
use exm_turbine.Exec.{Callbacks, CompletedTask, Refs, incr_callbacks}
use exm_turbine.Noop.{
  NoopTask, NoopState, idle_task, completion, noop_start, noop_execute, noop_wait, noop_stop,
  take_slot, draw, choose_completed, fill_one, fill_some, fill_completed,
}
use exm_turbine.Noop.Held.{IsConsistent}
use exm_turbine.Noop.Complete.{Batch, noop_wait-Batch}
use exm_turbine.Noop.Draw.{Chosen, choose_completed-Chosen}
use exm_turbine.Noop.Life.{Reach, noop_stop-Reach}
use exm_turbine.Async.Check.Release.{decr_all}

abbrev cbs : Callbacks
cbs = record { success = some 1; failure = some 2 }

abbrev busy : NoopTask
busy = record { callbacks = cbs; active = true }

abbrev idled : NoopTask
idled = record busy { active = false }

abbrev with_tasks : ℕ → List NoopTask → NoopState
with_tasks n ts = record { slots = record { used = n; total = 4 }; tasks = ts }

abbrev fresh : NoopState
fresh = with_tasks 0 (idle_task ∷ idle_task ∷ idle_task ∷ idle_task ∷ [])

abbrev loaded : NoopState
loaded = with_tasks 2 (busy ∷ idle_task ∷ busy ∷ idle_task ∷ [])

abbrev base : Refs
base = λ j. 5

loaded-IsConsistent : IsConsistent loaded
loaded-IsConsistent = record { fixed = refl; sized = refl; counted = refl }

-- The first number asks for one or two tasks; then slot 3 is idle, and 2 and 0 are drawn.
noop_wait-Batch_example :
    Ensures (Batch loaded 16) (noop_wait loaded 16 (2000000000 ∷ 3 ∷ 2 ∷ 0 ∷ []))
noop_wait-Batch_example =
    noop_wait-Batch loaded 16 (2000000000 ∷ 3 ∷ 2 ∷ 0 ∷ []) loaded-IsConsistent (omega arith)
      (omega arith)

-- Slots 1 and 3 are idle; then 2 is taken.
abbrev taken_two : CompletedTask × NoopState × List ℕ
taken_two = (completion busy, with_tasks 2 (busy ∷ idle_task ∷ idled ∷ idle_task ∷ []), 0 ∷ [])

choose_completed-Chosen_example :
    (choose_completed loaded (1 ∷ 3 ∷ 6 ∷ 0 ∷ []) ≡ done taken_two)
    ↔ Chosen loaded (1 ∷ 3 ∷ 6 ∷ 0 ∷ []) taken_two
choose_completed-Chosen_example =
    choose_completed-Chosen loaded (1 ∷ 3 ∷ 6 ∷ 0 ∷ []) taken_two loaded-IsConsistent (omega arith)

choose_completed_run : choose_completed loaded (1 ∷ 3 ∷ 6 ∷ 0 ∷ []) ≡ done taken_two
unfolding choose_completed draw
choose_completed_run = refl

-- One task is launched, and is found by `noop_wait` in the slot 0.
abbrev launched_one : NoopState
launched_one = with_tasks 1 (busy ∷ idle_task ∷ idle_task ∷ idle_task ∷ [])

abbrev ended_one : NoopState
ended_one = with_tasks 0 (record busy { active = false } ∷ idle_task ∷ idle_task ∷ idle_task ∷ [])

launched_one-Reach : Reach base launched_one (incr_callbacks cbs base)
unfolding noop_start noop_execute take_slot
launched_one-Reach =
    Reach.launched cbs launched_one (incr_callbacks cbs base) (Reach.started fresh refl)
      (omega arith) refl

ended_one-Reach : Reach base ended_one (decr_all (completion busy ∷ []) (incr_callbacks cbs base))
unfolding noop_wait fill_completed fill_some fill_one choose_completed draw
ended_one-Reach =
    Reach.waited 16 (5 ∷ 8 ∷ []) (completion busy ∷ [], ended_one, []) launched_one-Reach
      (omega arith) (omega arith) refl

noop_stop-Reach_example :
    IsConsistent launched_one
    × ((j : ℕ) → noop_stop launched_one.tasks (incr_callbacks cbs base) j ≡ base j)
noop_stop-Reach_example = noop_stop-Reach launched_one-Reach
