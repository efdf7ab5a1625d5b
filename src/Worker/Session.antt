-- ===== src/Worker/Session.antt =====
-- The worker loop against the sessions that ADLB and Tcl drive.
use exm_turbine.Common.{
  ℕ, zero, suc, ◌≤◌, ◌≡◌, ◌≢◌, refl, ◌⊎◌, inl, inr, ◌↔◌, Ensures-done, leb, le→leb, ◌==◌, ==_iff,
  Outcome, done, fault, starved, assert, Ensures, Ensures-mono,
}
use exm_turbine.Codes.{
  success, error_adlb, error_external, AdlbCode, adlb_success, adlb_error, adlb_nothing,
  adlb_shutdown, other_code, TclCode, tcl_ok, tcl_error, other_tcl,
}
use exm_turbine.Externals.{Externals, cmd_len}
use exm_turbine.Worker.{loop, Stopped}

lost_cases :
    (c : AdlbCode)
    → c ≢ adlb_shutdown
    → c ≢ adlb_success
    → (c ≡ adlb_error) ⊎ (c ≡ adlb_nothing) ⊎ (c ≡ other_code)
lost_cases adlb_success h k = absurd (k refl)
lost_cases adlb_error h k = inl refl
lost_cases adlb_nothing h k = inr (inl refl)
lost_cases adlb_shutdown h k = absurd (h refl)
lost_cases other_code h k = inr (inr refl)

failed_cases : (c : TclCode) → c ≢ tcl_ok → (c ≡ tcl_error) ⊎ (c ≡ other_tcl)
failed_cases tcl_ok h = absurd (h refl)
failed_cases tcl_error h = inl refl
failed_cases other_tcl h = inr refl

no_fault {ℓ} : {A : Type ℓ} (P : A → Type 0) (m : Outcome A) → Ensures P m → m ≢ fault
no_fault P (done a) h e = cc
no_fault P fault h e = h
no_fault P starved h e = cc

module _ (x : Externals) (buffer size work_type : ℕ) where
  open x use {World, get, eval_ex, add_error_info}

  -- What ADLB promises of a work unit: it fits into the buffer and has the type asked for.
  pub record GetContract : Type 0 where
    pub fits :
        (w : World) → (get work_type buffer w).0 ≡ adlb_success → (get work_type buffer w).1 ≤ size
    pub typed :
        (w : World)
        → (get work_type buffer w).0 ≡ adlb_success
        → (get work_type buffer w).2 ≡ work_type

  abbrev pub evaluated : World → TclCode × World
  evaluated w =
      let (code, len, kind, comm, w') = get work_type buffer w in eval_ex buffer (cmd_len len) w'

  -- A session: any number of commands that Tcl evaluates, each in the communicator of its work
  -- unit, and then a shutdown, another code of ADLB, or a command that fails.
  pub data Session : ℕ → World → Stopped World → Type 0 where
    shut_down :
        (comm : ℕ) (w : World)
        → (get work_type buffer w).0 ≡ adlb_shutdown
        → Session comm w (success, comm, (get work_type buffer w).4)
    lost :
        (comm : ℕ) (w : World)
        → (get work_type buffer w).0 ≢ adlb_shutdown
        → (get work_type buffer w).0 ≢ adlb_success
        → Session comm w (error_adlb, comm, (get work_type buffer w).4)
    failed :
        (comm : ℕ) (w : World)
        → (get work_type buffer w).0 ≡ adlb_success
        → (evaluated w).0 ≢ tcl_ok
        → Session comm w
            (error_external, (get work_type buffer w).3, add_error_info (evaluated w).1)
    served :
        (comm : ℕ) (w : World) {r : Stopped World}
        → (get work_type buffer w).0 ≡ adlb_success
        → (evaluated w).0 ≡ tcl_ok
        → Session (get work_type buffer w).3 (evaluated w).1 r
        → Session comm w r

  after_tcl :
      (fuel comm : ℕ) (w : World) (rc : TclCode)
      → (get work_type buffer w).0 ≡ adlb_success
      → (evaluated w).0 ≡ rc
      → Ensures
          (Session (get work_type buffer w).3 (evaluated w).1)
          (loop x fuel buffer size work_type (get work_type buffer w).3 (evaluated w).1)
      → Ensures (Session comm w) (elim rc [
        | tcl_ok ↦ loop x fuel buffer size work_type (get work_type buffer w).3 (evaluated w).1
        | tcl_error ↦
            done (error_external, (get work_type buffer w).3, add_error_info (evaluated w).1)
        | other_tcl ↦
            done (error_external, (get work_type buffer w).3, add_error_info (evaluated w).1)
      ])
  after_tcl fuel comm w tcl_ok e q k =
      Ensures-mono _ _ (loop x fuel buffer size work_type _ (evaluated w).1)
        (λ r s. served comm w e q s) k
  after_tcl fuel comm w tcl_error e q k = failed comm w e (λ o. cc)
  after_tcl fuel comm w other_tcl e q k = failed comm w e (λ o. cc)

  loop-Ensures :
      (fuel comm : ℕ) (w : World)
      → GetContract
      → Ensures (Session comm w) (loop x fuel buffer size work_type comm w)
  unfolding loop
  loop-Ensures zero comm w c = tt
  loop-Ensures (suc fuel) comm w c =
      by_code (get work_type buffer w).0 refl (loop-Ensures fuel _ _ c)
    where
      by_code :
          (code : AdlbCode)
          → (get work_type buffer w).0 ≡ code
          → Ensures
              (Session (get work_type buffer w).3 (evaluated w).1)
              (loop x fuel buffer size work_type (get work_type buffer w).3 (evaluated w).1)
          → Ensures (Session comm w) (elim code [
            | adlb_shutdown ↦ done (success, comm, (get work_type buffer w).4)
            | adlb_success ↦ assert (leb (get work_type buffer w).1 size) (
                assert ((get work_type buffer w).2 == work_type) (elim (evaluated w).0 [
                  | tcl_ok ↦
                      loop x fuel buffer size work_type (get work_type buffer w).3 (evaluated w).1
                  | tcl_error ↦
                      done
                        (error_external, (get work_type buffer w).3, add_error_info (evaluated w).1)
                  | other_tcl ↦
                      done
                        (error_external, (get work_type buffer w).3, add_error_info (evaluated w).1)
                ]))
            | adlb_error ↦ done (error_adlb, comm, (get work_type buffer w).4)
            | adlb_nothing ↦ done (error_adlb, comm, (get work_type buffer w).4)
            | other_code ↦ done (error_adlb, comm, (get work_type buffer w).4)
          ])
      by_code adlb_shutdown e k = shut_down comm w e
      by_code adlb_success e k =
          rw (le→leb _ _ (c.fits w e), (==_iff _ _).1 (c.typed w e))
            (after_tcl fuel comm w (evaluated w).0 e refl k)
      by_code adlb_error e k = lost comm w (λ o. cc) (λ o. cc)
      by_code adlb_nothing e k = lost comm w (λ o. cc) (λ o. cc)
      by_code other_code e k = lost comm w (λ o. cc) (λ o. cc)

  Session-loop :
      {comm : ℕ} {w : World} {r : Stopped World}
      → GetContract
      → Session comm w r
      → (fuel : ℕ) × (loop x fuel buffer size work_type comm w ≡ done r)
  unfolding loop
  Session-loop c (shut_down comm w e) = (1, rw (loop, e) refl)
  Session-loop c (lost comm w n m) = elim (lost_cases _ n m) [
    | inl e ↦ (1, rw (loop, e) refl)
    | inr (inl e) ↦ (1, rw (loop, e) refl)
    | inr (inr e) ↦ (1, rw (loop, e) refl)
  ]
  Session-loop c (failed comm w e n) = elim (failed_cases _ n) [
    | inl q ↦ (1, rw (loop, e, le→leb _ _ (c.fits w e), (==_iff _ _).1 (c.typed w e), q) refl)
    | inr q ↦ (1, rw (loop, e, le→leb _ _ (c.fits w e), (==_iff _ _).1 (c.typed w e), q) refl)
  ]
  Session-loop c (served comm w e q s) =
      let (fuel, k) = Session-loop c s in
      (suc fuel, rw (loop, e, le→leb _ _ (c.fits w e), (==_iff _ _).1 (c.typed w e), q) k)

  -- Where ADLB's work units fit and have the type asked for, the worker loop fails no assertion, and
  -- it stops with a result exactly where a session with that result exists: enough rounds of fuel
  -- are those of the session, and no command runs outside one.
  pub loop-Session :
      (c : GetContract) (comm : ℕ) (w : World)
      → ((fuel : ℕ) → loop x fuel buffer size work_type comm w ≢ fault)
        × ((r : Stopped World)
            → ((fuel : ℕ) × (loop x fuel buffer size work_type comm w ≡ done r)) ↔ Session comm w r)
  loop-Session c comm w = (
    λ fuel.
        no_fault (Session comm w) (loop x fuel buffer size work_type comm w)
          (loop-Ensures fuel comm w c),
    λ r. (
      λ h.
          Ensures-done (Session comm w) (loop x h.0 buffer size work_type comm w)
            (loop-Ensures h.0 comm w c) h.1,
      Session-loop c,
    ),
  )
