-- ===== src/Coaster/Check.antt =====
-- Completed tasks of the Coaster executor.
use exm_turbine.Common.{
  ℕ, zero, suc, ◌+◌, ◌-◌, ◌≤◌, ◌<◌, ◌≡◌, ◌≢◌, ◌⊎◌, inl, inr, refl, ap, ◌∙◌, Bool, true, false,
  Option, none, some, List, [], ◌∷◌, ◌++◌, length, length-append, arith, ltb, ltb→lt, ltb→ge,
  le→leb, ◌==◌, if◌then◌else◌, Outcome, done, fault, starved,
}
use exm_turbine.Exec.{ExecCode, exec_success, exec_other, CompletedTask, Slots, mentions}
use exm_turbine.Noop.Complete.{mentions_all}
use exm_turbine.Async.Check.Safe.{TasksSet}
use exm_turbine.Coaster.{
  ActiveTask, JobStatus, CoasterClient, CoasterState, tmp_jobs_size, completion, Checked,
  free_slots, take_jobs, check_loop, check_completed, coaster_wait, coaster_poll,
}
use exm_turbine.Coaster.Yields.{Yields, Yields->>=, Yields-if}
use exm_turbine.Coaster.Held.{ClientLaws, active, held}

mentions_all-append :
    (ts us : List CompletedTask) (j : ℕ)
    → mentions_all (ts ++ us) j ≡ mentions_all ts j + mentions_all us j
mentions_all-append [] us j = omega arith
mentions_all-append (t ∷ ts) us j = omega (arith, mentions_all-append ts us j)

TasksSet-append : (ts us : List CompletedTask) → TasksSet ts → TasksSet us → TasksSet (ts ++ us)
TasksSet-append [] us h k = k
TasksSet-append (t ∷ ts) us h k = (h.0, TasksSet-append ts us h.1 k)

Yields-mono :
    {A : Type 0} (P Q : A → Type 0) (m : Outcome A)
    → ((a : A) → P a → Q a)
    → Yields P m
    → Yields Q m
Yields-mono P Q (done a) k h = k a h
Yields-mono P Q fault k h = h
Yields-mono P Q starved k h = h

module _ (c : CoasterClient) (l : ClientLaws c) where
  open c use {World, check_jobs, job_id, get_status, job_free, table_remove, entries}

  -- Tasks that move from the table to the results, `n` of them.
  pub record Moved (s : CoasterState c) (acc : List CompletedTask) (r : Checked c) : Type 0 where
    pub same_slots : r.2.slots ≡ s.slots
    pub conserved : active s + length acc ≡ active r.2 + length r.1
    pub carried : (j : ℕ) → held s j + mentions_all acc j ≡ held r.2 j + mentions_all r.1 j
    pub set : TasksSet r.1

  abbrev pub Succeeds : (Checked c → Type 0) → Checked c → Type 0
  Succeeds P r = (r.0 ≢ exec_success) ⊎ P r

  abbrev TakenAll : List ℕ → CoasterState c → List CompletedTask → Checked c → Type 0
  TakenAll jobs s acc r = Moved s acc r × (length r.1 ≡ length acc + length jobs)

  completion-set :
      (acc : List CompletedTask) (t : ActiveTask) (st : JobStatus)
      → TasksSet acc
      → TasksSet (acc ++ completion c t st ∷ [])
  completion-set acc t st h = TasksSet-append acc _ h (((λ e. cc), tt), tt)

  taken_one :
      (job : ℕ) (jobs : List ℕ) (acc : List CompletedTask) (s : CoasterState c) (t : ActiveTask)
      (st : JobStatus) (q : Checked c)
      → (table_remove s.active_tasks (job_id job)).0 ≡ some t
      → Succeeds
          (TakenAll jobs
            (record s { active_tasks = (table_remove s.active_tasks (job_id job)).1 })
            (acc ++ completion c t st ∷ []))
          q
      → Succeeds (TakenAll (job ∷ jobs) s acc) q
  taken_one job jobs acc s t st q e (inl n) = inl n
  taken_one job jobs acc s t st q e (inr (m, k)) =
      let one = length-append acc (completion c t st ∷ []) in
      inr (
        record {
          same_slots = m.same_slots;
          conserved =
              omega
                (arith, m.conserved, one, l.remove_total s.active_tasks (job_id job) t (λ t. 1) e);
          carried = λ j. omega (
            arith,
            m.carried j,
            mentions_all-append acc (completion c t st ∷ []) j,
            l.remove_total s.active_tasks (job_id job) t (λ t. mentions t.callbacks j) e,
          );
          set = m.set;
        },
        omega (arith, one, k),
      )

  Succeeds-map :
      (P Q : Checked c → Type 0) (r : Checked c) → (P r → Q r) → Succeeds P r → Succeeds Q r
  Succeeds-map P Q r f (inl n) = inl n
  Succeeds-map P Q r f (inr h) = inr (f h)

  Succeeds-if :
      (P : Checked c → Type 0) (ok : Bool) (q r : Checked c)
      → Succeeds P q
      → r.0 ≢ exec_success
      → Succeeds P (if ok then q else r)
  Succeeds-if P true q r h n = h
  Succeeds-if P false q r h n = inl n

  take_jobs-TakenAll :
      (jobs : List ℕ) (acc : List CompletedTask) (s : CoasterState c) (w : World)
      → TasksSet acc
      → Succeeds (TakenAll jobs s acc) (take_jobs c jobs acc s w)
  unfolding take_jobs
  take_jobs-TakenAll [] acc s w h =
      inr
        (record { same_slots = refl; conserved = refl; carried = λ j. refl; set = h }, omega arith)
  take_jobs-TakenAll (job ∷ jobs) acc s w h =
      by_task (table_remove s.active_tasks (job_id job)).0 refl (λ t st.
        take_jobs-TakenAll jobs (acc ++ completion c t st ∷ []) rest (job_free job w).1
          (completion-set acc t st h))
    where
      rest : CoasterState c
      rest = record s { active_tasks = (table_remove s.active_tasks (job_id job)).1 }

      by_task :
          (o : Option ActiveTask)
          → (table_remove s.active_tasks (job_id job)).0 ≡ o
          → ((t : ActiveTask) (st : JobStatus)
              → Succeeds
                  (TakenAll jobs rest (acc ++ completion c t st ∷ []))
                  (take_jobs c jobs (acc ++ completion c t st ∷ []) rest (job_free job w).1))
          → Succeeds (TakenAll (job ∷ jobs) s acc) (elim o [
            | none ↦ (exec_other, acc, rest, w)
            | some task ↦ elim (get_status job w) [
              | none ↦ (exec_other, acc, rest, w)
              | some status ↦
                  let acc' = acc ++ completion c task status ∷ [] in
                  let (ok, w') = job_free job w in
                  let q = take_jobs c jobs acc' rest w' in
                  if ok then q else (exec_other, acc', rest, w')
            ]
          ])
      by_task none e k = inl λ z. cc
      by_task (some t) e k = by_status (get_status job w)
        where
          by_status :
              (o : Option JobStatus)
              → Succeeds (TakenAll (job ∷ jobs) s acc) (elim o [
                | none ↦ (exec_other, acc, rest, w)
                | some status ↦
                    let acc' = acc ++ completion c t status ∷ [] in
                    let (ok, w') = job_free job w in
                    let q = take_jobs c jobs acc' rest w' in
                    if ok then q else (exec_other, acc', rest, w')
              ])
          by_status none = inl λ z. cc
          by_status (some st) =
              Succeeds-if (TakenAll (job ∷ jobs) s acc) (job_free job w).0 _ _
                (taken_one job jobs acc s t st _ e (k t st)) (λ z. cc)

  -- All that the loop moves, no more than there is room for.
  Fitting : ℕ → CoasterState c → List CompletedTask → Checked c → Type 0
  Fitting left s acc r = Moved s acc r × (length r.1 ≤ length acc + left)

  Moved-trans :
      (s s' : CoasterState c) (acc acc' : List CompletedTask) (ec : ExecCode) (w : World)
      (r : Checked c)
      → Moved s acc (ec, acc', s', w)
      → Moved s' acc' r
      → Moved s acc r
  Moved-trans s s' acc acc' ec w r m n = record {
    same_slots = n.same_slots ∙ m.same_slots;
    conserved = m.conserved ∙ n.conserved;
    carried = λ j. m.carried j ∙ n.carried j;
    set = n.set;
  }

  round-Fitting :
      (left : ℕ) (jobs : List ℕ) (max : ℕ) (s : CoasterState c) (acc : List CompletedTask)
      (q : Checked c) (again : Outcome (Checked c))
      → length jobs ≤ max
      → max ≤ left
      → Succeeds (TakenAll jobs s acc) q
      → (max ≤ length jobs
          → TasksSet q.1
          → Yields (Succeeds (Fitting (left - length jobs) q.2 q.1)) again)
      → Yields (Succeeds (Fitting left s acc)) (elim q.0 [
        | exec_success ↦ if ltb (length jobs) max then done (exec_success, q.1, q.2, q.3) else again
        | failed ↦ done (failed, q.1, q.2, q.3)
      ])
  unfolding Fitting
  round-Fitting left jobs max s acc (exec_success, acc', s', w) again f b (inl n) k =
      absurd (n refl)
  round-Fitting left jobs max s acc (exec_success, acc', s', w) again f b (inr (m, e)) k =
      Yields-if _ (ltb (length jobs) max) _ _ (λ _. inr (m, omega arith))
        (λ y.
          Yields-mono _ _ again
            (λ r h.
              Succeeds-map (Fitting (left - length jobs) s' acc') (Fitting left s acc) r
                (λ z. (Moved-trans s s' acc acc' exec_success w r m z.0, omega arith)) h)
            (k (ltb→ge _ _ y) m.set))
  round-Fitting left jobs max s acc (_, acc', s', w) again f b h k = inl λ z. cc

  check_loop-Fitting :
      (fuel : ℕ) (wait : Bool) (left : ℕ) (acc : List CompletedTask) (s : CoasterState c)
      (w : World)
      → left < fuel
      → TasksSet acc
      → Yields (Succeeds (Fitting left s acc)) (check_loop c fuel wait left acc s w)
  unfolding check_loop Fitting
  check_loop-Fitting zero wait left acc s w h t = absurd (omega arith)
  check_loop-Fitting (suc fuel) wait left acc s w h t =
      let max = if ltb left tmp_jobs_size then left else tmp_jobs_size in
      let jobs = (check_jobs wait max w).1 in
      let q = take_jobs c jobs acc s (check_jobs wait max w).2 in
      Yields-if _ (ltb 0 left) _ _
        (λ e.
          Yields-if _ (check_jobs wait max w).0 _ _
            (λ _.
              round-Fitting left jobs max s acc q _ (l.few wait max w) (ground arith)
                (take_jobs-TakenAll jobs acc s _ t)
                λ y z.
                  check_loop-Fitting fuel _ (left - length jobs) q.1 q.2 q.3
                    (ground (arith, ltb→lt 0 left e)) z)
            (λ _. inl λ z. cc))
        (λ e. inr (
          record { same_slots = refl; conserved = refl; carried = λ j. refl; set = t },
          omega arith,
        ))

  -- What a batch of completions does: the number of active tasks stays that of the slots in use, as
  -- many slots become free as tasks are returned, no more than fit, and their callbacks carry the
  -- references that the executor held for them; each comes with the value of its variable.
  pub record Batch (s : CoasterState c) (size : ℕ) (r : Checked c) : Type 0 where
    pub balanced : active r.2 ≡ r.2.slots.used
    pub freed : length r.1 + r.2.slots.used ≡ s.slots.used
    pub handed_over : (j : ℕ) → held s j ≡ held r.2 j + mentions_all r.1 j
    pub fits : length r.1 ≤ size
    pub set : TasksSet r.1

  freed-Batch :
      (s : CoasterState c) (size : ℕ) (r : Checked c)
      → active s ≡ s.slots.used
      → Succeeds (Fitting size s []) r
      → Succeeds (Batch s size) (free_slots c r)
  unfolding Fitting
  freed-Batch s size (exec_success, ts, s', w) b (inl n) = absurd (n refl)
  freed-Batch s size (exec_success, ts, s', w) b (inr (m, f)) =
      let same : s'.slots.used ≡ s.slots.used = ap (λ (x : Slots). x.used) m.same_slots in
      inr (record {
        balanced = omega (arith, m.conserved, same, b);
        freed = omega (arith, m.conserved, same, b);
        handed_over = λ j. omega (arith, m.carried j);
        fits = omega (arith, f);
        set = m.set;
      })
  freed-Batch s size (_, ts, s', w) b h = inl λ z. cc

  check_completed-Batch :
      (size : ℕ) (wait : Bool) (s : CoasterState c) (w : World)
      → 1 ≤ size
      → active s ≡ s.slots.used
      → Yields (Succeeds (Batch s size)) (check_completed c size wait s w)
  unfolding check_completed
  check_completed-Batch size wait s w h b = rw (le→leb _ _ h) (
      Yields->>= (Succeeds (Fitting size s [])) (Succeeds (Batch s size))
        (check_loop c (suc size) wait size [] s w) _
        (check_loop-Fitting (suc size) wait size [] s w (omega arith) tt)
        λ r k. freed-Batch s size r b k)

  -- `coaster_poll` and `coaster_wait`, with as many tasks active as slots in use, room for one, and a
  -- client that returns no more jobs than it is asked for: no assertion fails and they return. Where
  -- the code is success, the number of active tasks is again that of the slots in use, each task
  -- returned freed one slot, they fit into the array, their callbacks carry the references that were
  -- held for them, and their variables have values.
  pub coaster_poll-Batch :
      (size : ℕ) (s : CoasterState c) (w : World)
      → 1 ≤ size
      → active s ≡ s.slots.used
      → Yields (Succeeds (Batch s size)) (coaster_poll c size s w)
        × Yields (Succeeds (Batch s size)) (coaster_wait c size s w)
  unfolding coaster_poll coaster_wait
  coaster_poll-Batch size s w h b = (
    Yields-if _ (ltb 0 s.slots.used) _ _ (λ _. check_completed-Batch size false s w h b)
        (λ _. inr (record {
          balanced = b;
          freed = omega arith;
          handed_over = λ j. omega arith;
          fits = omega arith;
          set = tt;
        })),
    Yields-if _ (s.slots.used == 0) _ _ (λ _. inl λ z. cc)
        (λ _. check_completed-Batch size true s w h b),
  )
