-- ===== src/Noop/Held.antt =====
-- The invariant of the noop executor, the references that its active tasks hold, and `noop_execute`
-- and `noop_stop` against them.
use exm_turbine.Common.{
  ℕ, ◌+◌, ◌-◌, ◌<◌, ◌≡◌, refl, inl, inr, Bool-cases, lt→ltb, true, some, List, [], ◌∷◌, arith,
  length, if◌then◌else◌, done,
}
use exm_turbine.Exec.{Callbacks, Refs, incr_callbacks, decr_callbacks, mentions}
use exm_turbine.Noop.{NoopTask, NoopState, noop_exec_slots, take_slot, noop_execute, noop_stop}

abbrev pub active_count : List NoopTask → ℕ
active_count [] = 0
active_count (t ∷ ts) = (if t.active then 1 else 0) + active_count ts

-- How many references to an object the active tasks hold.
abbrev pub held : List NoopTask → ℕ → ℕ
held [] j = 0
held (t ∷ ts) j = (if t.active then mentions t.callbacks j else 0) + held ts j

pub record IsConsistent (s : NoopState) : Type 0 where
  pub fixed : s.slots.total ≡ noop_exec_slots
  pub sized : length s.tasks ≡ s.slots.total
  pub counted : active_count s.tasks ≡ s.slots.used

record Taken (c : Callbacks) (ts r : List NoopTask) : Type 0 where
  same_length : length r ≡ length ts
  one_more : active_count r ≡ active_count ts + 1
  holds : (j : ℕ) → held r j ≡ held ts j + mentions c j

take_slot-Taken :
    (c : Callbacks) (ts : List NoopTask)
    → active_count ts < length ts
    → (r : List NoopTask) × (take_slot c ts ≡ some r) × Taken c ts r
unfolding take_slot
take_slot-Taken c [] h = absurd (omega arith)
take_slot-Taken c (t ∷ ts) h = elim (Bool-cases t.active) [
  | inl busy ↦
      let (r, e, k) = take_slot-Taken c ts (ground arith) in
      (
        t ∷ r,
        ground arith,
        record {
          same_length = ground arith;
          one_more = ground arith;
          holds = λ j. ground (arith, k.holds j);
        },
      )
  | inr free ↦ (
    record { callbacks = c; active = true } ∷ ts,
    ground arith,
    record { same_length = refl; one_more = ground arith; holds = λ j. ground arith },
  )
]

pub incr_callbacks_lem :
    (c : Callbacks) (refs : Refs) (j : ℕ) → incr_callbacks c refs j ≡ refs j + mentions c j
incr_callbacks_lem c refs j = ground arith

pub decr_callbacks_lem :
    (c : Callbacks) (refs : Refs) (j : ℕ) → decr_callbacks c refs j ≡ refs j - mentions c j
decr_callbacks_lem c refs j = ground arith

-- What a launch does: a free slot is filled, and the executor takes one reference to each callback.
pub record Launched (s s' : NoopState) (c : Callbacks) (refs refs' : Refs) : Type 0 where
  pub consistent : IsConsistent s'
  pub one_more : s'.slots.used ≡ s.slots.used + 1
  pub holds : (j : ℕ) → held s'.tasks j ≡ held s.tasks j + mentions c j
  pub counted : (j : ℕ) → refs' j ≡ refs j + mentions c j

-- With a slot free, `noop_execute` succeeds: it keeps the invariant, uses one slot more, and both
-- the references held by active tasks and the counts grow by exactly those of the two callbacks.
pub noop_execute-Launched :
    (s : NoopState) (c : Callbacks) (refs : Refs)
    → IsConsistent s
    → s.slots.used < s.slots.total
    → (s' : NoopState) × (refs' : Refs) × (noop_execute (some s) c refs ≡ done (s', refs'))
      × Launched s s' c refs refs'
unfolding noop_execute
noop_execute-Launched s c refs v h =
    let (ts, e, k) = take_slot-Taken c s.tasks (omega arith) in
    (
      record s { slots = record (s.slots) { used = s.slots.used + 1 }; tasks = ts },
      incr_callbacks c refs,
      rw (lt→ltb _ _ h, e),
      record {
        consistent = ground (arith, k.same_length, k.one_more);
        one_more = refl;
        holds = k.holds;
        counted = incr_callbacks_lem c refs;
      },
    )

-- `noop_stop` gives back every reference that an active task still holds.
pub noop_stop-held :
    (ts : List NoopTask) (refs base : Refs)
    → ((j : ℕ) → refs j ≡ base j + held ts j)
    → (j : ℕ) → noop_stop ts refs j ≡ base j
unfolding noop_stop
noop_stop-held [] refs base h j = omega (arith, h j)
noop_stop-held (t ∷ ts) refs base h j =
    noop_stop-held ts (if t.active then decr_callbacks t.callbacks refs else refs) base
      (λ i. ground (arith, h i, decr_callbacks_lem t.callbacks refs i)) j
