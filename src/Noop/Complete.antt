-- ===== src/Noop/Complete.antt =====
-- Completion of tasks in the noop executor: which tasks are returned, and what stays.
use exm_turbine.Common.{
  ℕ, zero, suc, ◌+◌, ◌-◌, ◌%◌, ◌<◌, ◌≡◌, refl, true, false, lt→ltb, some, List, [], ◌∷◌, arith,
  length, length-set, get_elem?, set, Ensures, Ensures->>=, Ensures-if, Ensures-mono, leb→le,
  le→leb, ltb→lt, ◌/◌, ◌≤◌, ltb, leb,
}
use exm_turbine.Exec.{CompletedTask, mentions}
use exm_turbine.Noop.{
  NoopTask, NoopState, draw, choose_completed, fill_one, fill_two, fill_some, fill_completed,
  noop_wait, noop_poll, poll_some, with_used, rand_max,
}
use exm_turbine.Noop.Held.{active_count, held, IsConsistent}

-- Clearing the flag of an active task.
record Cleared (t : NoopTask) (ts : List NoopTask) (i : ℕ) : Type 0 where
  one_less : active_count (set ts i (record t { active = false })) + 1 ≡ active_count ts
  releases :
      (j : ℕ) → held ts j ≡ held (set ts i (record t { active = false })) j + mentions t.callbacks j

set-Cleared :
    (ts : List NoopTask) (i : ℕ) (t : NoopTask)
    → get_elem? ts i ≡ some t
    → t.active ≡ true
    → Cleared t ts i
set-Cleared [] i t e h = cc
set-Cleared (x ∷ xs) zero t e h = record { one_less = ground arith; releases = λ j. ground arith }
set-Cleared (x ∷ xs) (suc i) t e h =
    let k = set-Cleared xs i t e h in
    record { one_less = ground arith; releases = λ j. ground (arith, k.releases j) }

pub get_elem?-some {ℓ} :
    {A : Type ℓ} (xs : List A) (i : ℕ) → i < length xs → (a : A) × (get_elem? xs i ≡ some a)
get_elem?-some [] i h = absurd (omega arith)
get_elem?-some (x ∷ xs) zero h = (x, refl)
get_elem?-some (x ∷ xs) (suc i) h = get_elem?-some xs i (omega arith)

abbrev pub mentions_all : List CompletedTask → ℕ → ℕ
mentions_all [] j = 0
mentions_all (c ∷ cs) j = mentions c.callbacks j + mentions_all cs j

-- What one draw does: one active task less, with its callbacks handed over.
pub record Drawn (s s' : NoopState) (c : CompletedTask) : Type 0 where
  pub same_slots : s'.slots ≡ s.slots
  pub same_length : length s'.tasks ≡ length s.tasks
  pub one_less : active_count s'.tasks + 1 ≡ active_count s.tasks
  pub releases : (j : ℕ) → held s.tasks j ≡ held s'.tasks j + mentions c.callbacks j

draw-Drawn :
    (s : NoopState) (rands : List ℕ)
    → 0 < s.slots.total
    → length s.tasks ≡ s.slots.total
    → Ensures (λ r. Drawn s r.1 r.0) (draw s rands)
unfolding draw
draw-Drawn s [] h e = tt
draw-Drawn s (r ∷ rs) h e =
    let (t, at) = get_elem?-some s.tasks (r % s.slots.total) (omega arith) in
    rw (at, draw)
      (Ensures-if (λ q. Drawn s q.1 q.0) t.active _ _
        (λ hit.
          let k = set-Cleared s.tasks (r % s.slots.total) t at hit in
          record {
            same_slots = refl;
            same_length = length-set s.tasks _ _;
            one_less = k.one_less;
            releases = k.releases;
          })
        (λ _. draw-Drawn s rs h e))

-- What a batch of completions does: the invariant is kept, each returned task freed a slot, and its
-- callbacks carry the references that the executor held for it.
pub record Completed (s s' : NoopState) (cs : List CompletedTask) : Type 0 where
  pub consistent : IsConsistent s'
  pub freed : length cs + s'.slots.used ≡ s.slots.used
  pub handed_over : (j : ℕ) → held s.tasks j ≡ held s'.tasks j + mentions_all cs j

choose_completed-Drawn :
    (s : NoopState) (rands : List ℕ)
    → 0 < s.slots.used
    → 0 < s.slots.total
    → length s.tasks ≡ s.slots.total
    → Ensures (λ r. Drawn s r.1 r.0) (choose_completed s rands)
unfolding choose_completed
choose_completed-Drawn s rands h k e = rw (lt→ltb _ _ h) (draw-Drawn s rands k e)

Drawn-one :
    (s s' : NoopState) (c : CompletedTask)
    → IsConsistent s
    → Drawn s s' c
    → Completed s (with_used s' (s'.slots.used - 1)) (c ∷ [])
Drawn-one s s' c v d = record {
  consistent = record { fixed = ground arith; sized = ground arith; counted = ground arith };
  freed = ground arith;
  handed_over = λ j. ground (arith, d.releases j);
}

Drawn-two :
    (s s' s'' : NoopState) (c c' : CompletedTask)
    → IsConsistent s
    → Drawn s s' c
    → Drawn s' s'' c'
    → Completed s (with_used s'' (s''.slots.used - 2)) (c ∷ c' ∷ [])
Drawn-two s s' s'' c c' v d k = record {
  consistent = record { fixed = ground arith; sized = ground arith; counted = ground arith };
  freed = ground arith;
  handed_over = λ j. ground (arith, d.releases j, k.releases j);
}

fill_one-Completed :
    (s : NoopState) (rands : List ℕ)
    → IsConsistent s
    → 0 < s.slots.used
    → Ensures (λ r. Completed s r.1 r.0 × (length r.0 ≡ 1)) (fill_one s rands)
unfolding fill_one
fill_one-Completed s rands v h =
    Ensures->>= _ _ (choose_completed s rands) _
      (choose_completed-Drawn s rands h (omega arith) v.sized)
      λ a d. (Drawn-one s a.1 a.0 v d, refl)

fill_two-Completed :
    (s : NoopState) (rands : List ℕ)
    → IsConsistent s
    → 1 < s.slots.used
    → Ensures (λ r. Completed s r.1 r.0 × (length r.0 ≡ 2)) (fill_two s rands)
unfolding fill_two
fill_two-Completed s rands v h =
    Ensures->>= _ _ (choose_completed s rands) _
      (choose_completed-Drawn s rands (omega arith) (omega arith) v.sized)
      λ a d.
        Ensures->>= _ _ (choose_completed a.1 a.2) _
          (choose_completed-Drawn a.1 a.2 (ground (arith, d.same_slots))
            (ground (arith, d.same_slots)) (ground (arith, d.same_slots)))
          λ b k. (Drawn-two s a.1 b.1 a.0 b.0 v d k, refl)

-- A batch has one task, or two where the caller has room for two.
pub record Batch (s : NoopState) (size : ℕ) (r : List CompletedTask × NoopState × List ℕ)
    : Type 0 where
  pub completed : Completed s r.1 r.0
  pub some_task : 1 ≤ length r.0
  pub fits : length r.0 ≤ size

fill_one-Batch :
    (s : NoopState) (size : ℕ) (rands : List ℕ)
    → IsConsistent s
    → 0 < s.slots.used
    → 1 ≤ size
    → Ensures (Batch s size) (fill_one s rands)
fill_one-Batch s size rands v h k =
    Ensures-mono _ _ (fill_one s rands)
      (λ r c. record { completed = c.0; some_task = omega arith; fits = omega arith })
      (fill_one-Completed s rands v h)

fill_two-Batch :
    (s : NoopState) (size : ℕ) (rands : List ℕ)
    → IsConsistent s
    → 1 < s.slots.used
    → 2 ≤ size
    → Ensures (Batch s size) (fill_two s rands)
fill_two-Batch s size rands v h k =
    Ensures-mono _ _ (fill_two s rands)
      (λ r c. record { completed = c.0; some_task = omega arith; fits = omega arith })
      (fill_two-Completed s rands v h)

fill_some-Batch :
    (s : NoopState) (size : ℕ) (rands : List ℕ)
    → IsConsistent s
    → 1 < s.slots.used
    → 1 ≤ size
    → Ensures (Batch s size) (fill_some s size rands)
unfolding fill_some
fill_some-Batch s size [] v h k = tt
fill_some-Batch s size (r ∷ rs) v h k =
    Ensures-if _ (ltb (rand_max / 2) r) _ _
      (λ _.
        Ensures-if _ (leb 2 size) _ _ (λ e. fill_two-Batch s size rs v h (leb→le _ _ e))
          (λ _. fill_one-Batch s size rs v (omega arith) k))
      (λ _. fill_one-Batch s size rs v (omega arith) k)

fill_completed-Batch :
    (s : NoopState) (size : ℕ) (rands : List ℕ)
    → IsConsistent s
    → 0 < s.slots.used
    → 1 ≤ size
    → Ensures (Batch s size) (fill_completed s size rands)
unfolding fill_completed
fill_completed-Batch s size rands v h k = rw (le→leb _ _ k) (
    Ensures-if _ (ltb 1 s.slots.used) _ _ (λ e. fill_some-Batch s size rands v (ltb→lt _ _ e) k)
      (λ _. fill_one-Batch s size rands v h k))

-- `noop_wait` with at least one task active and room for one: no assertion fails, at least one task
-- is returned and no more than fit, the invariant is kept, as many slots become free, and what the
-- executor held for those tasks is what their callbacks name.
pub noop_wait-Batch :
    (s : NoopState) (size : ℕ) (rands : List ℕ)
    → IsConsistent s
    → 0 < s.slots.used
    → 1 ≤ size
    → Ensures (Batch s size) (noop_wait s size rands)
unfolding noop_wait
noop_wait-Batch s size rands v h k = rw (lt→ltb _ _ h) (fill_completed-Batch s size rands v h k)

idle-Completed : (s : NoopState) → IsConsistent s → Completed s s []
idle-Completed s v = record { consistent = v; freed = omega arith; handed_over = λ j. omega arith }

-- `noop_poll` in any consistent state, used or not: no assertion fails, what it returns fits, and
-- the invariant and the references are kept as for `noop_wait`; it may return nothing.
pub noop_poll-Completed :
    (s : NoopState) (size : ℕ) (rands : List ℕ)
    → IsConsistent s
    → 1 ≤ size
    → Ensures (λ r. Completed s r.1 r.0 × (length r.0 ≤ size)) (noop_poll s size rands)
unfolding noop_poll
noop_poll-Completed s size rands v k =
    Ensures-if _ (ltb 0 s.slots.used) _ _ (λ e. polled rands (ltb→lt _ _ e))
      (λ _. (idle-Completed s v, omega arith))
  where
    polled :
        (rands : List ℕ)
        → 0 < s.slots.used
        → Ensures (λ r. Completed s r.1 r.0 × (length r.0 ≤ size)) (poll_some s size rands)
    polled [] h = tt
    polled (r ∷ rs) h =
        Ensures-if _ (ltb (rand_max / 5) r) _ _
          (λ _.
            Ensures-mono _ _ (fill_completed s size rs) (λ q b. (b.completed, b.fits))
              (fill_completed-Batch s size rs v h k))
          (λ _. (idle-Completed s v, omega arith))
