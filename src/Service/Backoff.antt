-- ===== src/Service/Backoff.antt =====
-- The exponential backoff of `service_shutdown` ends, and so does `turbine_service_finalize`.
use exm_turbine.Common.{
  ℕ, zero, suc, ◌*◌, ◌≤◌, ◌≡◌, ◌≢◌, refl, true, ltb, ltb→lt, arith, Option, none, some, Outcome,
  done, fault, Returns, Returns-if, Returns->>=,
}
use exm_turbine.Externals.{Externals, WaitResult, running, ended, wait_failed}
use exm_turbine.Service.{
  ServiceState, await_exit, service_shutdown, service_finalize_pid, turbine_service_finalize,
}

-- The delay after a number of doublings.
abbrev doubled : ℕ → ℕ → ℕ
doubled zero d = d
doubled (suc n) d = doubled n (d * 2)

module _ (x : Externals) where
  open x use {World, waitpid}

  WaitResult-Returns {ℓ} :
      {A : Type ℓ} (again : Outcome A) (f : Option ℕ → A) (a : A) (r : WaitResult)
      → Returns again
      → Returns {A = A} (elim r [ running ↦ again | ended s ↦ done (f s) | wait_failed ↦ done a ])
  WaitResult-Returns again f a running h = h
  WaitResult-Returns again f a (ended s) h = (f s, refl)
  WaitResult-Returns again f a wait_failed h = (a, refl)

  await_exit-Returns :
      (fuel pid delay : ℕ) (w : World)
      → 400 ≤ doubled fuel delay
      → Returns (await_exit x (suc fuel) pid delay w)
  unfolding await_exit
  await_exit-Returns zero pid delay w h =
      Returns-if (ltb delay 400) _ _ (λ e. absurd (omega (arith, ltb→lt delay 400 e)))
        (λ _. (_, refl))
  await_exit-Returns (suc fuel) pid delay w h =
      Returns-if (ltb delay 400) _ _
        (λ _.
          WaitResult-Returns _ _ _ (waitpid pid w).0 (await_exit-Returns fuel pid (delay * 2) _ h))
        (λ _. (_, refl))

  service_shutdown-Returns : (pid : ℕ) (w : World) → Returns (service_shutdown x pid w)
  unfolding service_shutdown
  service_shutdown-Returns pid w = await_exit-Returns 9 pid 1 _ (omega arith)

  finalize_pid-Returns : (pid : ℕ) (w : World) → Returns (service_finalize_pid x pid w)
  unfolding service_finalize_pid
  finalize_pid-Returns pid w =
      WaitResult-Returns _ _ _ (waitpid pid w).0
        (Returns->>= (service_shutdown x pid _) _ (service_shutdown-Returns pid _) λ q _. (_, refl))

  -- `turbine_service_finalize` returns whatever the service process does, unless a failed `fork`
  -- was taken for a launch: where one was launched its pid is known.
  pub turbine_service_finalize-Returns :
      (s : ServiceState) (w : World)
      → (s.launched ≡ true → s.pid ≢ none)
      → Returns (turbine_service_finalize x s w)
  unfolding turbine_service_finalize
  turbine_service_finalize-Returns s w h =
      Returns-if s.launched _ _ (λ e. known s.pid (h e)) (λ _. (w, refl))
    where
      known :
          (p : Option ℕ)
          → p ≢ none
          → Returns (elim p [ none ↦ fault | some pid ↦ service_finalize_pid x pid w ])
      known none k = absurd (k refl)
      known (some pid) k = finalize_pid-Returns pid w
