-- ===== src/Async/Loop/Safe.antt =====
-- No assertion of the worker loop fails, and how it leaves the executor.
use exm_turbine.Common.{
  ℕ, zero, suc, ◌≤◌, ◌≡◌, ◌≢◌, refl, ◌∙◌, ◌⊎◌, inl, inr, Bool, true, false, not, List, [], ◌∷◌, ltb,
  le→leb, arith, length, length-replicate, take, Returns, Outcome, done, fault, starved, Ensures,
  Ensures->>=, Ensures-if,
}
use exm_turbine.Exec.{exec_success, Refs}
use exm_turbine.Codes.{success}
use exm_turbine.Externals.{Externals, no_child, AdlbContract}
use exm_turbine.Async.Get.{GetReqState, Got, get_tasks}
use exm_turbine.Async.Get.Ring.{IsRing, Bounded, get_tasks-Bounded}
use exm_turbine.Async.Check.{Executor, check_tasks, succeeds}
use exm_turbine.Async.Loop.{
  Round, again, ends, Ending, shut_down, failed, is_success, check_passes, check_phase, after_get,
  round, loop, init_reqs, clamp_buffers, LoopResult, finished, child, close_loop, run_started,
  start_then, after_service, turbine_async_worker_loop,
}
use exm_turbine.Service.{ServiceState, InitResult, returned, replaced_by, turbine_service_finalize}
use exm_turbine.Service.Backoff.{turbine_service_finalize-Returns}
use exm_turbine.Service.Launch.{PidKnown, Launched, turbine_service_init-Launched}
use exm_turbine.Async.Check.Safe.{ExecutorContract, Fine, check_tasks-Fine}

-- A round that goes on hands on a well-formed ring of the same size.
abbrev RoundOk : {W : Type 0} → ℕ → Round W → Type 0
RoundOk n (again s refs w) = IsRing s × (s.max_reqs ≡ n)
RoundOk n (ends how refs w) = Unit

Returns-Ensures {ℓ} : {A : Type ℓ} (m : Outcome A) → Returns m → Ensures Fine m
Returns-Ensures (done a) r = tt
Returns-Ensures fault r = cc (r.1)
Returns-Ensures starved r = tt

take-length {ℓ} : {A : Type ℓ} (n : ℕ) (xs : List A) → n ≤ length xs → length (take n xs) ≡ n
take-length zero xs h = refl
take-length (suc n) [] h = absurd (omega arith)
take-length (suc n) (x ∷ xs) h = omega (arith, take-length n xs (omega arith))

-- On a return of TURBINE_SUCCESS the executor is marked as it was before.
abbrev pub Restored : {W : Type 0} → Bool → LoopResult W → Type 0
Restored started (finished tc st service refs w) = (tc ≢ success) ⊎ (st ≡ started)
Restored started (child cmd) = Unit

module _ (x : Externals) (e : Executor x.World) (work_type : ℕ) (c : AdlbContract x)
    (d : ExecutorContract e) where
  open x use {World}

  check_phase-RoundOk :
      (n : ℕ) (happened : Bool) (s : GetReqState) (refs : Refs) (w : World)
      → IsRing s
      → s.max_reqs ≡ n
      → Ensures (RoundOk n) (check_phase x e work_type happened s refs w)
  unfolding check_phase
  check_phase-RoundOk n happened s refs w v m =
      Ensures-if (RoundOk n) (is_success (e.slots w).0) _ _
        (λ _.
          Ensures-if (RoundOk n) (ltb 0 (e.slots w).1.used) _ _
            (λ _.
              Ensures->>= Fine (RoundOk n) (check_tasks x e _ refs _) _
                (check_tasks-Fine x e _ refs _ d)
                λ r _. Ensures-if (RoundOk n) (check_passes r.0) _ _ (λ _. (v, m)) (λ _. tt))
            (λ _. (v, m)))
        (λ _. tt)

  after_get-RoundOk :
      (n max_tasks : ℕ) (s : GetReqState) (refs : Refs) (g : Got World)
      → s.max_reqs ≡ n
      → Bounded x c s max_tasks g
      → Ensures (RoundOk n) (after_get x e work_type refs g)
  unfolding after_get
  after_get-RoundOk n k s refs (exec_success, happened, s', w) m b =
      check_phase-RoundOk n happened s' refs w b.ring (b.same_max ∙ m)
  after_get-RoundOk n k s refs (_, happened, s', w) m b = tt

  round-RoundOk :
      (n : ℕ) (s : GetReqState) (refs : Refs) (w : World)
      → IsRing s
      → s.max_reqs ≡ n
      → Ensures (RoundOk n) (round x e work_type s refs w)
  unfolding round
  round-RoundOk n s refs w v m =
      Ensures-if (RoundOk n) (is_success (e.slots w).0) _ _
        (λ _.
          Ensures-if (RoundOk n) (ltb (e.slots w).1.used (e.slots w).1.total) _ _
            (λ _.
              Ensures->>= (Bounded x c s _) (RoundOk n) (get_tasks x work_type s _ _ false _) _
                (get_tasks-Bounded x c work_type s _ _ false _ v)
                λ g b. after_get-RoundOk n _ s refs g m b)
            (λ _. check_phase-RoundOk n false s refs _ v m))
        (λ _. tt)

  Round-Fine {ℓ} :
      {A : Type ℓ} (n : ℕ) (r : Round World) (go : GetReqState → Refs → World → Outcome A)
      (stop : Ending → Refs → World → A)
      → RoundOk n r
      → ((s : GetReqState) (refs : Refs) (w : World)
          → IsRing s
          → s.max_reqs ≡ n
          → Ensures Fine (go s refs w))
      → Ensures {A = A} Fine (elim r [
        | again s' refs' w' ↦ go s' refs' w'
        | ends how refs' w' ↦ done (stop how refs' w')
      ])
  Round-Fine n (again s refs w) go stop k f = f s refs w k.0 k.1
  Round-Fine n (ends how refs w) go stop k f = tt

  loop-Fine :
      (fuel n : ℕ) (s : GetReqState) (refs : Refs) (w : World)
      → IsRing s
      → s.max_reqs ≡ n
      → Ensures Fine (loop x e work_type fuel s refs w)
  unfolding loop
  loop-Fine zero n s refs w v m = tt
  loop-Fine (suc fuel) n s refs w v m =
      Ensures->>= (RoundOk n) Fine (round x e work_type s refs w) _ (round-RoundOk n s refs w v m)
        λ r k. Round-Fine n r _ _ k (loop-Fine fuel n)

  init_reqs-IsRing :
      (buffers : List ℕ) (n : ℕ) → 1 ≤ n → n ≤ length buffers → IsRing (init_reqs buffers n)
  init_reqs-IsRing buffers n h k = record {
    buffers_fit = take-length n buffers k;
    requests_fit = length-replicate n 0;
    bounded = omega arith;
    tail_in = h;
    head_at = omega arith;
  }

  close_loop-Restored :
      (started : Bool) (service : ServiceState) (r : Ending × Refs × World)
      → PidKnown service
      → Ensures (Restored started) (close_loop x e work_type started service r)
  unfolding close_loop
  close_loop-Restored started service (failed, refs, w) k = inl λ h. cc
  close_loop-Restored started service (shut_down, refs, w) k =
      Ensures->>= Fine (Restored started) (turbine_service_finalize x service _) _
        (Returns-Ensures _ (turbine_service_finalize-Returns x service _ k)) λ w' _. inr refl

  run_started-Restored :
      (fuel : ℕ) (started : Bool) (service : ServiceState) (buffers : List ℕ) (n : ℕ) (refs : Refs)
      (w : World)
      → PidKnown service
      → 1 ≤ n
      → n ≤ length buffers
      → Ensures (Restored started) (run_started x e work_type fuel started service buffers n refs w)
  unfolding run_started
  run_started-Restored fuel started service buffers n refs w k h l =
      Ensures->>= Fine (Restored started) (loop x e work_type fuel (init_reqs buffers n) refs w) _
        (loop-Fine fuel n (init_reqs buffers n) refs w (init_reqs-IsRing buffers n h l) refl)
        λ r _. close_loop-Restored started service r k

  after_service-Restored :
      (fuel : ℕ) (started : Bool) (buffers : List ℕ) (n : ℕ) (refs : Refs) (r : InitResult World)
      → Launched r
      → 1 ≤ n
      → n ≤ length buffers
      → Ensures (Restored started) (after_service x e work_type fuel started buffers n refs r)
  unfolding after_service start_then
  after_service-Restored fuel started buffers n refs (replaced_by cmd) k h l = tt
  after_service-Restored fuel true buffers n refs (returned tc service w) k h l =
      Ensures-if (Restored true) (not (succeeds tc)) _ _ (λ _. inr refl)
        (λ _. run_started-Restored fuel true service buffers n refs w k h l)
  after_service-Restored fuel false buffers n refs (returned tc service w) k h l =
      Ensures-if (Restored false) (not (succeeds tc)) _ _ (λ _. inr refl)
        (λ _.
          Ensures-if (Restored false) (is_success (e.start w).0) _ _
            (λ _. run_started-Restored fuel false service buffers n refs _ k h l) (λ _. inr refl))

  -- `turbine_async_worker_loop`, for however many rounds, with at least one buffer and as many as it
  -- was told (or 256), codes as ADLB documents them, an executor whose completed tasks carry their
  -- values, and forks that do not fail: no assertion fails, and where
  -- it returns TURBINE_SUCCESS `exec->started` is what it was before the call.
  pub turbine_async_worker_loop-Restored :
      (fuel : ℕ) (started : Bool) (service : ServiceState) (buffers : List ℕ) (nbuffers : ℕ)
      (refs : Refs) (w : World)
      → ((w : World) → (x.fork w).0 ≢ no_child)
      → PidKnown service
      → 1 ≤ nbuffers
      → clamp_buffers nbuffers ≤ length buffers
      → Ensures
          (Restored started)
          (turbine_async_worker_loop x e work_type fuel started service buffers nbuffers refs w)
  unfolding turbine_async_worker_loop
  turbine_async_worker_loop-Restored fuel started service buffers n refs w f k h l =
      rw (le→leb _ _ h) (
        after_service-Restored fuel started buffers (clamp_buffers n) refs _
          (turbine_service_init-Launched x service w f k) (ground arith) l)

  -- The same call without buffers fails its first assertion.
  pub turbine_async_worker_loop-zero :
      (fuel : ℕ) (started : Bool) (service : ServiceState) (buffers : List ℕ) (refs : Refs)
      (w : World)
      → turbine_async_worker_loop x e work_type fuel started service buffers 0 refs w ≡ fault
  unfolding turbine_async_worker_loop
  turbine_async_worker_loop-zero fuel started service buffers refs w = refl
