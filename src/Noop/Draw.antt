-- ===== src/Noop/Draw.antt =====
-- Which task the `while (true)` of `choose_completed` in
-- code/src/turbine/executors/noop_executor.c takes.
use exm_turbine.Common.{
  ℕ, zero, suc, ◌%◌, ◌<◌, ◌≡◌, ◌≢◌, ◌↔◌, refl, ap, true, false, lt→ltb, some, List, [], ◌∷◌, ◌++◌,
  arith, length, get_elem?, set, done, WhenDone, WhenDone-if, WhenDone-done, WhenDone-mono,
}
use exm_turbine.Exec.{CompletedTask}
use exm_turbine.Noop.{NoopTask, NoopState, completion, draw, choose_completed}
use exm_turbine.Noop.Held.{IsConsistent}
use exm_turbine.Noop.Complete.{get_elem?-some}

module _ {ℓ} {A : Type ℓ} where
  get_elem?-set_self :
      (xs : List A) (i : ℕ) (a v : A) → get_elem? xs i ≡ some a → get_elem? (set xs i v) i ≡ some v
  get_elem?-set_self [] i a v h = cc
  get_elem?-set_self (x ∷ xs) zero a v h = refl
  get_elem?-set_self (x ∷ xs) (suc i) a v h = get_elem?-set_self xs i a v h

  get_elem?-set_ne :
      (xs : List A) (i j : ℕ) (v : A) → j ≢ i → get_elem? (set xs i v) j ≡ get_elem? xs j
  get_elem?-set_ne [] i j v h = refl
  get_elem?-set_ne (x ∷ xs) zero zero v h = absurd (h refl)
  get_elem?-set_ne (x ∷ xs) zero (suc j) v h = refl
  get_elem?-set_ne (x ∷ xs) (suc i) zero v h = refl
  get_elem?-set_ne (x ∷ xs) (suc i) (suc j) v h = get_elem?-set_ne xs i j v (λ e. h (ap suc e))

  get_elem?-ext : (xs ys : List A) → ((j : ℕ) → get_elem? xs j ≡ get_elem? ys j) → xs ≡ ys
  get_elem?-ext [] [] f = refl
  get_elem?-ext [] (y ∷ ys) f = let e = f zero in cc
  get_elem?-ext (x ∷ xs) [] f = let e = f zero in cc
  get_elem?-ext (x ∷ xs) (y ∷ ys) f =
      let e = f zero in
      let rest = get_elem?-ext xs ys (λ j. f (suc j)) in let first : x ≡ y = cc in cc

  -- A list that differs from another at one index only.
  set_unique :
      (xs ys : List A) (i : ℕ) (a v : A)
      → get_elem? xs i ≡ some a
      → get_elem? ys i ≡ some v
      → ((j : ℕ) → j ≢ i → get_elem? ys j ≡ get_elem? xs j)
      → ys ≡ set xs i v
  set_unique [] ys i a v h k f = cc
  set_unique (x ∷ xs) [] i a v h k f = cc
  set_unique (x ∷ xs) (y ∷ ys) zero a v h k f =
      let same : ys ≡ xs = get_elem?-ext ys xs (λ j. f (suc j) (λ e. omega (arith, e))) in
      let first : y ≡ v = cc in cc
  set_unique (x ∷ xs) (y ∷ ys) (suc i) a v h k f =
      let rest = set_unique xs ys i a v h k (λ j n. f (suc j) (λ e. n (omega (arith, e)))) in
      let same = f zero (λ e. omega (arith, e)) in let first : y ≡ x = cc in cc

-- The slot that a number stands for holds the task.
abbrev pub Slot : NoopState → ℕ → NoopTask → Type 0
Slot s r t = get_elem? s.tasks (r % s.slots.total) ≡ some t

-- None of the numbers stands for the slot of an active task.
abbrev pub Misses : NoopState → List ℕ → Type 0
Misses s [] = Unit
Misses s (r ∷ rs) = ((t : NoopTask) × Slot s r t × (t.active ≡ false)) × Misses s rs

-- The slot of the task becomes inactive, and nothing else changes.
pub record Idled (s s' : NoopState) (r : ℕ) (t : NoopTask) : Type 0 where
  pub same_slots : s'.slots ≡ s.slots
  pub idle : Slot s' r (record t { active = false })
  pub same_others : (j : ℕ) → j ≢ r % s.slots.total → get_elem? s'.tasks j ≡ get_elem? s.tasks j

-- The first number that stands for the slot of an active task decides.
abbrev pub Chosen : NoopState → List ℕ → CompletedTask × NoopState × List ℕ → Type 0
Chosen s rands q =
    (misses : List ℕ) × (r : ℕ) × (t : NoopTask) × (rands ≡ misses ++ r ∷ q.2)
    × Misses s misses
    × Slot s r t
    × (t.active ≡ true)
    × (q.0 ≡ completion t)
    × Idled s q.1 r t

abbrev with_idle : NoopState → ℕ → NoopTask → NoopState
with_idle s r t = record s { tasks = set s.tasks (r % s.slots.total) (record t { active = false }) }

with_idle-Idled :
    (s : NoopState) (r : ℕ) (t : NoopTask) → Slot s r t → Idled s (with_idle s r t) r t
with_idle-Idled s r t at = record {
  same_slots = refl;
  idle = get_elem?-set_self s.tasks _ t _ at;
  same_others = λ j n. get_elem?-set_ne s.tasks _ j _ n;
}

Idled-with_idle :
    (s s' : NoopState) (r : ℕ) (t : NoopTask) → Slot s r t → Idled s s' r t → s' ≡ with_idle s r t
Idled-with_idle s s' r t at d =
    let slots = d.same_slots in
    let tasks =
      set_unique s.tasks s'.tasks (r % s.slots.total) t (record t { active = false }) at
        (rw slots at d.idle) d.same_others in
    cc

Chosen-miss :
    (s : NoopState) (r : ℕ) (rs : List ℕ) (t : NoopTask) (q : CompletedTask × NoopState × List ℕ)
    → Slot s r t
    → t.active ≡ false
    → Chosen s rs q
    → Chosen s (r ∷ rs) q
Chosen-miss s r rs t q at off (misses, n, u, e, m, a, on, c, d) =
    (r ∷ misses, n, u, ap (λ l. r ∷ l) e, ((t, at, off), m), a, on, c, d)

draw-WhenDone :
    (s : NoopState) (rands : List ℕ)
    → 0 < s.slots.total
    → length s.tasks ≡ s.slots.total
    → WhenDone (Chosen s rands) (draw s rands)
unfolding draw
draw-WhenDone s [] h e = tt
draw-WhenDone s (r ∷ rs) h e =
    let (t, at) = get_elem?-some s.tasks (r % s.slots.total) (omega arith) in
    rw (at, draw)
      (WhenDone-if (Chosen s (r ∷ rs)) t.active _ _
        (λ on. ([], r, t, refl, tt, at, on, refl, with_idle-Idled s r t at))
        (λ off.
          WhenDone-mono _ _ (draw s rs) (λ q k. Chosen-miss s r rs t q at off k)
            (draw-WhenDone s rs h e)))

draw-missed :
    (s : NoopState) (misses rands : List ℕ)
    → Misses s misses
    → draw s (misses ++ rands) ≡ draw s rands
unfolding draw
draw-missed s [] rands m = refl
draw-missed s (r ∷ rs) rands ((t, at, off), m) = rw (at, draw, off) (draw-missed s rs rands m)

draw-hit :
    (s : NoopState) (r : ℕ) (rest : List ℕ) (t : NoopTask)
    → Slot s r t
    → t.active ≡ true
    → draw s (r ∷ rest) ≡ done (completion t, with_idle s r t, rest)
unfolding draw
draw-hit s r rest t at on = rw (at, draw, on) refl

Chosen-draw :
    (s : NoopState) (rands : List ℕ) (q : CompletedTask × NoopState × List ℕ)
    → Chosen s rands q
    → draw s rands ≡ done q
Chosen-draw s rands q (misses, r, t, e, m, at, on, c, d) =
    let go = draw-missed s misses (r ∷ q.2) m in
    let hit = draw-hit s r (q.2) t at on in let same = Idled-with_idle s (q.1) r t at d in cc

-- In a consistent state with a task active, `choose_completed` returns exactly in this case: some of
-- the numbers from `rand()` stand, modulo the number of slots, for inactive slots, and the next one
-- for the slot of an active task. It returns that task as completed, with the numbers that are left,
-- and in the state that it leaves that slot is inactive, and the other slots are what they were.
pub choose_completed-Chosen :
    (s : NoopState) (rands : List ℕ) (q : CompletedTask × NoopState × List ℕ)
    → IsConsistent s
    → 0 < s.slots.used
    → (choose_completed s rands ≡ done q) ↔ Chosen s rands q
unfolding choose_completed
choose_completed-Chosen s rands q v h =
    let some_slot : 0 < s.slots.total = omega (arith, v.fixed) in
    rw (lt→ltb _ _ h, choose_completed)
      (
        WhenDone-done (Chosen s rands) (draw s rands) (draw-WhenDone s rands some_slot v.sized),
        Chosen-draw s rands q,
      )
