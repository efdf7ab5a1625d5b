-- ===== src/Noop.antt =====
-- code/src/turbine/executors/noop_executor.c: an executor with a fixed number of slots whose tasks
-- complete in random order. `rand()` takes the next number of a list; an empty list starves.
-- Log output and the sleep of `noop_wait` are left out.
use Prim.Native.String.{String}
use exm_turbine.Common.{
  ℕ, ◌+◌, ◌-◌, ◌%◌, ◌/◌, Bool, true, false, Option, none, some, List, [], ◌∷◌, ◌==◌, ltb, leb,
  if◌then◌else◌, length, get_elem?, set, replicate, Outcome, done, fault, starved, ◌>>=◌, assert,
}
use exm_turbine.Exec.{
  ExecCode, exec_success, exec_oom, Callbacks, CallbackVar, CompletedTask, Slots, Refs,
  incr_callbacks, decr_callbacks,
}
pub mod Held
pub mod Complete
pub mod Draw
pub mod Life
mod Tests

-- NOOP_EXEC_SLOTS, and the largest value of `rand()`.
abbrev pub noop_exec_slots : ℕ
noop_exec_slots = 4

abbrev pub rand_max : ℕ
rand_max = 2147483647

pub record NoopTask : Type 0 where
  pub callbacks : Callbacks
  pub active : Bool

pub record NoopState : Type 0 where
  pub slots : Slots
  pub tasks : List NoopTask

abbrev idle_task : NoopTask
idle_task = record { callbacks = record { success = none; failure = none }; active = false }

-- `configured` says that the context is NOOP_CONTEXT; the two others are the outcomes of `malloc`.
pub noop_start : Bool → Bool → Bool → Outcome (ExecCode × Option NoopState)
noop_start configured state_memory tasks_memory = assert configured (
    assert state_memory
      (if tasks_memory then done (exec_success, some fresh) else done (exec_oom, none)))
  where
    fresh : NoopState
    fresh = record {
      slots = record { used = 0; total = noop_exec_slots };
      tasks = replicate noop_exec_slots idle_task;
    }

-- The callbacks of tasks that are still active lose their references.
pub noop_stop : List NoopTask → Refs → Refs
noop_stop [] refs = refs
noop_stop (t ∷ ts) refs = noop_stop ts (if t.active then decr_callbacks t.callbacks refs else refs)

-- The first slot that is not active takes the task; `none` when every slot is active.
pub take_slot : Callbacks → List NoopTask → Option (List NoopTask)
take_slot c [] = none
take_slot c (t ∷ ts) =
    if t.active
    then (elim (take_slot c ts) [ none ↦ none | some r ↦ some (t ∷ r) ])
    else some (record { callbacks = c; active = true } ∷ ts)

-- `none` is a NULL `exec->state`, which is read before anything is tested.
pub noop_execute : Option NoopState → Callbacks → Refs → Outcome (NoopState × Refs)
unfolding take_slot
noop_execute none c refs = fault
noop_execute (some s) c refs = assert (ltb s.slots.used s.slots.total) (elim (take_slot c s.tasks) [
  | none ↦ fault
  | some ts ↦ done (
    record s { slots = record (s.slots) { used = s.slots.used + 1 }; tasks = ts },
    incr_callbacks c refs,
  )
])

abbrev pub result_var : CallbackVar
result_var = record { name = "noop_task_result"; free_name = true; val = some "noop_task_result" }

abbrev pub completion : NoopTask → CompletedTask
completion t = record { success = true; callbacks = t.callbacks; vars = result_var ∷ [] }

-- `while (true)`: slots are drawn until one is active.
pub draw : NoopState → List ℕ → Outcome (CompletedTask × NoopState × List ℕ)
draw s [] = starved
draw s (r ∷ rs) = elim (get_elem? s.tasks (r % s.slots.total)) [
  | none ↦ fault
  | some t ↦
      let other = draw s rs in
      if t.active
      then done (
        completion t,
        record s { tasks = set s.tasks (r % s.slots.total) (record t { active = false }) },
        rs,
      )
      else other
]

pub choose_completed : NoopState → List ℕ → Outcome (CompletedTask × NoopState × List ℕ)
choose_completed s rands = assert (ltb 0 s.slots.used) (draw s rands)

abbrev with_used : NoopState → ℕ → NoopState
with_used s n = record s { slots = record (s.slots) { used = n } }

pub fill_one : NoopState → List ℕ → Outcome (List CompletedTask × NoopState × List ℕ)
fill_one s rands = do
  (t, s', rands') ← choose_completed s rands
  done (t ∷ [], with_used s' (s'.slots.used - 1), rands')

pub fill_two : NoopState → List ℕ → Outcome (List CompletedTask × NoopState × List ℕ)
fill_two s rands = do
  (t, s', rands') ← choose_completed s rands
  (u, s'', rands'') ← choose_completed s' rands'
  done (t ∷ u ∷ [], with_used s'' (s''.slots.used - 2), rands'')

-- `rand()` is called for the choice between one and two only where more than one slot is used.
fill_some : NoopState → ℕ → List ℕ → Outcome (List CompletedTask × NoopState × List ℕ)
unfolding fill_one fill_two
fill_some s size [] = starved
fill_some s size (r ∷ rs) =
    if ltb (rand_max / 2) r
    then (if leb 2 size then fill_two s rs else fill_one s rs)
    else fill_one s rs

pub fill_completed : NoopState → ℕ → List ℕ → Outcome (List CompletedTask × NoopState × List ℕ)
unfolding fill_some
fill_completed s size rands =
    assert (leb 1 size) (if ltb 1 s.slots.used then fill_some s size rands else fill_one s rands)

pub noop_wait : NoopState → ℕ → List ℕ → Outcome (List CompletedTask × NoopState × List ℕ)
noop_wait s size rands =
    if ltb 0 s.slots.used then fill_completed s size rands else done ([], s, rands)

poll_some : NoopState → ℕ → List ℕ → Outcome (List CompletedTask × NoopState × List ℕ)
poll_some s size [] = starved
poll_some s size (r ∷ rs) =
    if ltb (rand_max / 5) r then fill_completed s size rs else done ([], s, rs)

pub noop_poll : NoopState → ℕ → List ℕ → Outcome (List CompletedTask × NoopState × List ℕ)
unfolding poll_some
noop_poll s size rands = if ltb 0 s.slots.used then poll_some s size rands else done ([], s, rands)

pub noop_slots : NoopState → Slots
noop_slots s = s.slots

pub noop_max_slots : Bool → Outcome ℕ
noop_max_slots configured = assert configured (done noop_exec_slots)
