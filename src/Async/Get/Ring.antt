-- ===== src/Async/Get/Ring.antt =====
-- The ring of requests stays well formed.
use exm_turbine.Common.{
  ℕ, zero, suc, ◌+◌, ◌-◌, ◌%◌, ◌≤◌, ◌<◌, ◌≡◌, refl, inl, inr, ◌⊎◌, sym, ap, ◌∙◌, Bool, true, false,
  ltb, arith, length, length-set, get_or, set, Outcome, done, fault, Ensures, Ensures-if,
  Ensures-mono, ◌≢◌,
}
use native.Mathlib.Nat.{add-zero, mod-add-mod, mod-eq_of_lt, mod-lt}
use exm_turbine.Exec.{ExecCode, exec_task}
use exm_turbine.Codes.{
  AdlbCode, adlb_error, adlb_nothing, other_code, TclCode, tcl_ok, tcl_error, other_tcl,
}
use exm_turbine.Externals.{cmd_len, Externals, AdlbContract}
use exm_turbine.Async.Get.{
  extra_reqs, test_answer, wait_answer, GetReqState, store_reqs, issue_reqs, next_req, Answer, work,
  stop_with, bad_code, Got, ask, receive, after_amget, get_tasks,
}

pub record IsRing (s : GetReqState) : Type 0 where
  pub buffers_fit : length s.buffers ≡ s.max_reqs
  pub requests_fit : length s.requests ≡ s.max_reqs
  pub bounded : s.nreqs ≤ s.max_reqs
  pub tail_in : s.tail < s.max_reqs
  pub head_at : s.head ≡ (s.tail + s.nreqs) % s.max_reqs

-- Going round in one step more.
pub round : (a n m : ℕ) → ((a + 1) % m + n) % m ≡ (a + suc n) % m
round a n m = rw mod-add-mod (ap (λ k. k % m) (omega arith))

-- What storing requests leaves alone, and where the head comes to stand.
pub record Stored (n : ℕ) (s s' : GetReqState) : Type 0 where
  pub same_buffers : s'.buffers ≡ s.buffers
  pub same_length : length s'.requests ≡ length s.requests
  pub same_max : s'.max_reqs ≡ s.max_reqs
  pub same_nreqs : s'.nreqs ≡ s.nreqs
  pub same_tail : s'.tail ≡ s.tail
  pub head_moved : s.head < s.max_reqs → s'.head ≡ (s.head + n) % s.max_reqs

pub store_reqs-Stored :
    (n i : ℕ) (reqs : ℕ → ℕ) (s : GetReqState) → Stored n s (store_reqs n i reqs s)
unfolding store_reqs
store_reqs-Stored zero i reqs s = record {
  same_buffers = refl;
  same_length = refl;
  same_max = refl;
  same_nreqs = refl;
  same_tail = refl;
  head_moved = λ h. rw add-zero (sym (mod-eq_of_lt h));
}
store_reqs-Stored (suc n) i reqs s =
    let k =
      store_reqs-Stored n (i + 1) reqs (record s {
        requests = set s.requests s.head (reqs i);
        head = (s.head + 1) % s.max_reqs;
      }) in
    record {
      same_buffers = k.same_buffers;
      same_length = ground (arith, k.same_length, length-set s.requests s.head (reqs i));
      same_max = k.same_max;
      same_nreqs = k.same_nreqs;
      same_tail = k.same_tail;
      head_moved = λ h. k.head_moved (mod-lt _ (omega arith)) ∙ round s.head n s.max_reqs;
    }

ahead :
    (h t n extra m t' n' m' : ℕ)
    → h ≡ (t + n) % m
    → t' ≡ t
    → n' ≡ n
    → m' ≡ m
    → (h + extra) % m ≡ (t' + (n' + extra)) % m'
ahead h t n extra m t' n' m' e p q r = rw (e, p, q, r, mod-add-mod) (ap (λ k. k % m) (omega arith))

pub issue_reqs-IsRing :
    (extra : ℕ) (reqs : ℕ → ℕ) (s : GetReqState)
    → IsRing s
    → s.nreqs + extra ≤ s.max_reqs
    → IsRing (issue_reqs extra reqs s)
unfolding issue_reqs
issue_reqs-IsRing extra reqs s v h =
    let k = store_reqs-Stored extra 0 reqs s in
    let inside : s.head < s.max_reqs = rw v.head_at (mod-lt _ (omega arith)) in
    record {
      buffers_fit = ground arith;
      requests_fit = ground arith;
      bounded = ground arith;
      tail_in = ground arith;
      head_at =
          k.head_moved inside
          ∙ ahead s.head s.tail s.nreqs extra s.max_reqs _ _ _ v.head_at k.same_tail k.same_nreqs
              k.same_max;
    }

pub next_req-IsRing : (s : GetReqState) → IsRing s → 0 < s.nreqs → IsRing (next_req s)
unfolding next_req
next_req-IsRing s v h = record {
  buffers_fit = v.buffers_fit;
  requests_fit = v.requests_fit;
  bounded = omega arith;
  tail_in = mod-lt _ (omega arith);
  head_at =
      v.head_at
      ∙ (ap (λ k. (s.tail + k) % s.max_reqs) (omega arith)
          ∙ sym (round s.tail (s.nreqs - 1) s.max_reqs));
}

Ensures-Answer {ℓ} :
    {A : Type ℓ} (P : A → Type 0) (a : Answer) (f : ℕ → Outcome A) (g : ExecCode → Outcome A)
    → a ≢ bad_code
    → ((len : ℕ) → Ensures P (f len))
    → ((ec : ExecCode) → Ensures P (g ec))
    → Ensures {A = A} P (elim a [ work len ↦ f len | stop_with ec ↦ g ec | bad_code ↦ fault ])
Ensures-Answer P (work len) f g h k l = k len
Ensures-Answer P (stop_with ec) f g h k l = l ec
Ensures-Answer P bad_code f g h k l = h refl

Ensures-TclCode {ℓ} :
    {A : Type ℓ} (P : A → Type 0) (c : TclCode) (m e : Outcome A)
    → Ensures P m
    → Ensures P e
    → Ensures {A = A} P (elim c [ tcl_ok ↦ m | tcl_error ↦ e | other_tcl ↦ e ])
Ensures-TclCode P tcl_ok m e h k = h
Ensures-TclCode P tcl_error m e h k = k
Ensures-TclCode P other_tcl m e h k = k

pub extra_fits :
    (s : GetReqState) (max_tasks : ℕ)
    → ltb 0 (extra_reqs s max_tasks) ≡ true
    → (s.nreqs + extra_reqs s max_tasks ≤ s.max_reqs)
      × (s.nreqs + extra_reqs s max_tasks ≤ max_tasks)
extra_fits s max_tasks e = ground arith

module _ (x : Externals) (c : AdlbContract x) where
  open x use {World, amget, aget_test, aget_wait}

  test_answer-known : (ac : AdlbCode) (len : ℕ) → ac ≢ other_code → test_answer ac len ≢ bad_code
  unfolding test_answer
  test_answer-known ac len h e = ground arith

  wait_answer-known :
      (ac : AdlbCode) (len : ℕ)
      → ac ≢ other_code
      → ac ≢ adlb_nothing
      → wait_answer ac len ≢ bad_code
  unfolding wait_answer
  wait_answer-known ac len h k e = ground arith

  ask-known : (poll : Bool) (req : ℕ) (w : World) → (ask x poll req w).0 ≢ bad_code
  unfolding ask
  ask-known true req w = test_answer-known _ _ (c.test_known req w)
  ask-known false req w = wait_answer-known _ _ (c.wait_known req w) (c.wait_answers req w)

  -- What holds of the request state after `get_tasks`, whatever it returns.
  abbrev pub Kept : GetReqState → Got World → Type 0
  Kept s r = IsRing r.2 × (r.2.max_reqs ≡ s.max_reqs) × (r.2.nreqs ≤ s.nreqs)

  pub receive-Kept :
      (n : ℕ) (poll got : Bool) (s : GetReqState) (w : World)
      → IsRing s
      → s.nreqs ≡ n
      → Ensures (Kept s) (receive x n poll got s w)
  unfolding receive next_req
  receive-Kept zero poll got s w v e = (v, refl, omega arith)
  receive-Kept (suc n) poll got s w v e =
      let a = ask x poll (get_or s.requests s.tail 0) w in
      Ensures-Answer (Kept s) a.0 _ _ (ask-known poll _ w)
        (λ len.
          let q = x.eval_ex (get_or s.buffers s.tail 0) (cmd_len len) a.1 in
          Ensures-TclCode (Kept s) q.0 (receive x n true true (next_req s) q.1)
            (done (exec_task, got, s, x.add_error_info q.1))
            (Ensures-mono _ _ (receive x n true true (next_req s) q.1)
              (λ r k. (k.0, k.1, omega (arith, k.2)))
              (receive-Kept n true true (next_req s) q.1 (next_req-IsRing s v (omega arith))
                (omega arith)))
            (v, refl, omega arith))
        (λ ec. (v, refl, omega arith))

  -- What is promised of one call: the ring stays well formed, its size does not change, and there
  -- are never more outstanding requests than before or than the call was asked to have.
  pub record Bounded (s : GetReqState) (max_tasks : ℕ) (r : Got World) : Type 0 where
    pub ring : IsRing r.2
    pub same_max : r.2.max_reqs ≡ s.max_reqs
    pub limited : (r.2.nreqs ≤ s.nreqs) ⊎ (r.2.nreqs ≤ max_tasks)

  issued-Bounded :
      (extra max_tasks : ℕ) (reqs : ℕ → ℕ) (s : GetReqState) (r : Got World)
      → s.nreqs + extra ≤ max_tasks
      → Kept (issue_reqs extra reqs s) r
      → Bounded s max_tasks r
  unfolding issue_reqs
  issued-Bounded extra max_tasks reqs s r k q =
      let t = store_reqs-Stored extra 0 reqs s in
      record {
        ring = q.0;
        same_max = q.1 ∙ t.same_max;
        limited = inr (omega (arith, q.2, t.same_nreqs));
      }

  after_amget-Bounded :
      (extra max_tasks : ℕ) (poll got : Bool) (s : GetReqState) (a : AdlbCode × (ℕ → ℕ) × World)
      → IsRing s
      → s.nreqs + extra ≤ s.max_reqs
      → s.nreqs + extra ≤ max_tasks
      → Ensures (Bounded s max_tasks) (after_amget x extra poll got s a)
  unfolding after_amget
  after_amget-Bounded extra max_tasks poll got s (adlb_error, reqs, w) v h k = record {
    ring = v;
    same_max = refl;
    limited = inl (omega arith);
  }
  after_amget-Bounded extra max_tasks poll got s (_, reqs, w) v h k =
      Ensures-mono _ _
        (receive x (issue_reqs extra reqs s).nreqs poll false (issue_reqs extra reqs s) w)
        (λ r q. issued-Bounded extra max_tasks reqs s r k q)
        (receive-Kept _ poll false (issue_reqs extra reqs s) w (issue_reqs-IsRing extra reqs s v h)
          refl)

  -- Under the documented codes of ADLB no assertion of `get_tasks` fails and the ring stays well
  -- formed, whatever it returns; the number of outstanding requests is bounded as in `Bounded`.
  pub get_tasks-Bounded :
      (work_type : ℕ) (s : GetReqState) (poll : Bool) (max_tasks : ℕ) (got : Bool) (w : World)
      → IsRing s
      → Ensures (Bounded s max_tasks) (get_tasks x work_type s poll max_tasks got w)
  unfolding get_tasks
  get_tasks-Bounded work_type s poll max_tasks got w v =
      Ensures-if (Bounded s max_tasks) (ltb 0 (extra_reqs s max_tasks)) _ _
        (λ e.
          after_amget-Bounded (extra_reqs s max_tasks) max_tasks poll got s _ v
            (extra_fits s max_tasks e).0 (extra_fits s max_tasks e).1)
        (λ e.
          Ensures-mono _ _ (receive x s.nreqs poll false s w)
            (λ r k. record { ring = k.0; same_max = k.1; limited = inl k.2 })
            (receive-Kept s.nreqs poll false s w v refl))
