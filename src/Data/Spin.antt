-- ===== src/Data/Spin.antt =====
-- The loop of adlb::lookup_spin and of the other lookups.
use exm_turbine.Common.{
  ℕ, zero, suc, ◌≤◌, ◌≡◌, refl, sym, ◌∙◌, ◌↔◌, Bool-cases, inl, inr, true, false, Option, some, ℤ,
  arith, Outcome, done, starved,
}
use exm_turbine.Codes.{AdlbCode}
use exm_turbine.Handle.{Bytes, SubParse}
use exm_turbine.Packing.{DataType}
use exm_turbine.Data.{RetrieveRefc, DataEnv, is_nothing, sub_key}
use exm_turbine.Data.Access.{lookup_loop}

module _ (e : DataEnv) (id : ℤ) (sub : SubParse) (refcounts : RetrieveRefc) where
  open e use {State, retrieve}

  abbrev pub Answer : Type 0
  Answer = AdlbCode × DataType × Bytes

  -- ADLB answers after it said that there is nothing for a number of times.
  pub data Answers : ℕ → State → Answer → State → Type 0 where
    now :
        (s : State) (r : Answer) (s1 : State)
        → retrieve id (sub_key sub) refcounts s ≡ (r, s1)
        → is_nothing (r.0) ≡ false
        → Answers 0 s r s1
    later :
        (n : ℕ) (s : State) (q : Answer) (s' : State) (r : Answer) (s1 : State)
        → retrieve id (sub_key sub) refcounts s ≡ (q, s')
        → is_nothing (q.0) ≡ true
        → Answers n s' r s1
        → Answers (suc n) s r s1

  -- One round.
  found-lookup_loop :
      (again : ℕ) (s : State) (r : Answer) (s1 : State)
      → retrieve id (sub_key sub) refcounts s ≡ (r, s1)
      → is_nothing (r.0) ≡ false
      → lookup_loop e again true id sub refcounts s ≡ done (some r, s1)
  unfolding lookup_loop
  found-lookup_loop zero s r s1 q h = rw (q, h) refl
  found-lookup_loop (suc again) s r s1 q h = rw (q, h) refl

  nothing-lookup_loop :
      (again : ℕ) (s : State) (r : Answer) (s' : State)
      → retrieve id (sub_key sub) refcounts s ≡ (r, s')
      → is_nothing (r.0) ≡ true
      → (lookup_loop e 0 true id sub refcounts s ≡ starved)
        × (lookup_loop e (suc again) true id sub refcounts s
            ≡ lookup_loop e again true id sub refcounts s')
  unfolding lookup_loop
  nothing-lookup_loop again s r s' q h = (rw (q, h) refl, rw (q, h) refl)

  abbrev Within : ℕ → State → Answer → State → Type 0
  Within again s r s1 = (n : ℕ) × (n ≤ again) × Answers n s r s1

  same_result :
      (m : Outcome (Option Answer × State)) (q r : Answer) (s' s1 : State)
      → m ≡ done (some q, s')
      → m ≡ done (some r, s1)
      → (q ≡ r) × (s' ≡ s1)
  same_result m q r s' s1 h k = (cc, cc)

  -- The answer to the first request, where it is that of the loop.
  first-Within :
      (again : ℕ) (s : State) (r q : Answer) (s1 s' : State)
      → retrieve id (sub_key sub) refcounts s ≡ (q, s')
      → is_nothing (q.0) ≡ false
      → lookup_loop e again true id sub refcounts s ≡ done (some r, s1)
      → Within again s r s1
  first-Within again s r q s1 s' p h k =
      let (left, right) = same_result _ q r s' s1 (found-lookup_loop again s q s' p h) k in
      (0, omega arith, now s r s1 (p ∙ cc) (rw (sym left) h))

  lookup_loop-Within :
      (again : ℕ) (s : State) (r : Answer) (s1 : State)
      → lookup_loop e again true id sub refcounts s ≡ done (some r, s1)
      → Within again s r s1
  lookup_loop-Within zero s r s1 k =
      let a = retrieve id (sub_key sub) refcounts s in
      elim (Bool-cases (is_nothing (a.0.0))) [
        | inl h ↦ absurd (let none_left = (nothing-lookup_loop 0 s (a.0) (a.1) refl h).0 in cc)
        | inr h ↦ first-Within 0 s r (a.0) s1 (a.1) refl h k
      ]
  lookup_loop-Within (suc again) s r s1 k =
      let a = retrieve id (sub_key sub) refcounts s in
      elim (Bool-cases (is_nothing (a.0.0))) [
        | inl h ↦
            let next = (nothing-lookup_loop again s (a.0) (a.1) refl h).1 in
            let (n, m, w) = lookup_loop-Within again (a.1) r s1 (sym next ∙ k) in
            (suc n, omega arith, later n s (a.0) (a.1) r s1 refl h w)
        | inr h ↦ first-Within (suc again) s r (a.0) s1 (a.1) refl h k
      ]

  Within-lookup_loop :
      (again n : ℕ) (s : State) (r : Answer) (s1 : State)
      → n ≤ again
      → Answers n s r s1
      → lookup_loop e again true id sub refcounts s ≡ done (some r, s1)
  Within-lookup_loop again _ s r s1 h (now _ _ _ q k) = found-lookup_loop again s r s1 q k
  Within-lookup_loop zero _ s r s1 h (later n _ q s' _ _ p k w) = absurd (omega arith)
  Within-lookup_loop (suc again) _ s r s1 h (later n _ q s' _ _ p k w) =
      (nothing-lookup_loop again s q s' p k).1 ∙ Within-lookup_loop again n s' r s1 (omega arith) w

  once-lookup_loop :
      (again : ℕ) (s : State)
      → lookup_loop e again false id sub refcounts s
        ≡ (let a = retrieve id (sub_key sub) refcounts s in done (some (a.0), a.1))
  unfolding lookup_loop
  once-lookup_loop zero s = refl
  once-lookup_loop (suc again) s = refl

  -- `lookup_loop` that spins returns an answer within a number of further rounds exactly where ADLB
  -- gives it after so many times of nothing at most; it never takes nothing for an answer, nor waits
  -- once there is another one. Without spinning it returns the first answer, whatever it is.
  pub lookup_loop-Answers :
      (again : ℕ) (s : State) (r : Answer) (s1 : State)
      → ((lookup_loop e again true id sub refcounts s ≡ done (some r, s1))
          ↔ ((n : ℕ) × (n ≤ again) × Answers n s r s1))
        × (lookup_loop e again false id sub refcounts s
            ≡ (let a = retrieve id (sub_key sub) refcounts s in done (some (a.0), a.1)))
  lookup_loop-Answers again s r s1 = (
    (lookup_loop-Within again s r s1, λ (n, h, w). Within-lookup_loop again n s r s1 h w),
    once-lookup_loop again s,
  )
