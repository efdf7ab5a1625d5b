-- ===== src/Async/Get/Refine.antt =====
-- The ring of `get_tasks` refines the queue of Get/Queue.
use exm_turbine.Common.{
  ℕ, min, zero, suc, ◌+◌, ◌-◌, ◌%◌, ◌≤◌, ◌≡◌, refl, sym, ap, ◌∙◌, Bool, true, false, not, ◌&&◌,
  List, [], ltb, ◌==◌, arith, length, get_or, if◌then◌else◌, Outcome, done, fault,
}
use exm_turbine.Exec.{ExecCode, exec_task}
use exm_turbine.Codes.{AdlbCode, adlb_error, TclCode, tcl_ok, tcl_error, other_tcl}
use exm_turbine.Externals.{cmd_len, Externals}
use exm_turbine.Async.Get.{
  GetReqState, issue_reqs, next_req, Answer, work, stop_with, bad_code, Got, ask, receive,
  after_amget, get_tasks, tmp_bufs, extra_reqs,
}
use exm_turbine.Async.Get.Ring.{IsRing, extra_fits}
use exm_turbine.Async.Get.Queue.{window, pending, issued, serve, as_queue, serve_amget, serve_tasks}
use exm_turbine.Async.Get.Queue
use exm_turbine.Async.Get.Order.{issue_reqs-pending, pending_cons, less}

length-window : (buffers reqs : List ℕ) (cap h n : ℕ) → length (window buffers cap reqs h n) ≡ n
length-window buffers reqs cap h zero = refl
length-window buffers reqs cap h (suc n) = ap suc (length-window buffers reqs cap ((h + 1) % cap) n)

length-pending : (s : GetReqState) → length (pending s) ≡ s.nreqs
length-pending s = length-window s.buffers s.requests s.max_reqs s.tail s.nreqs

extra_min :
    (s : GetReqState) (max_tasks : ℕ) → extra_reqs s max_tasks ≡ min max_tasks s.max_reqs - s.nreqs
extra_min s max_tasks = ground arith

module _ (x : Externals) where
  open x use {World, amget, eval_ex, add_error_info}

  abbrev Served : Type 0
  Served = Queue.Served x

  as_queue-Answer :
      (a : Answer) (f : ℕ → Outcome (Got World)) (g : ExecCode → Outcome (Got World))
      (f' : ℕ → Outcome Served) (g' : ExecCode → Outcome Served)
      → ((len : ℕ) → as_queue x (f len) ≡ f' len)
      → ((ec : ExecCode) → as_queue x (g ec) ≡ g' ec)
      → as_queue x (elim a [ work len ↦ f len | stop_with ec ↦ g ec | bad_code ↦ fault ])
        ≡ elim a [ work len ↦ f' len | stop_with ec ↦ g' ec | bad_code ↦ fault ]
  as_queue-Answer (work len) f g f' g' h k = h len
  as_queue-Answer (stop_with ec) f g f' g' h k = k ec
  as_queue-Answer bad_code f g f' g' h k = refl

  as_queue-TclCode :
      (c : TclCode) (m e : Outcome (Got World)) (m' e' : Outcome Served)
      → as_queue x m ≡ m'
      → as_queue x e ≡ e'
      → as_queue x (elim c [ tcl_ok ↦ m | tcl_error ↦ e | other_tcl ↦ e ])
        ≡ elim c [ tcl_ok ↦ m' | tcl_error ↦ e' | other_tcl ↦ e' ]
  as_queue-TclCode tcl_ok m e m' e' h k = h
  as_queue-TclCode tcl_error m e m' e' h k = k
  as_queue-TclCode other_tcl m e m' e' h k = k

  receive-serve :
      (n : ℕ) (poll got : Bool) (s : GetReqState) (w : World)
      → s.nreqs ≡ n
      → as_queue x (receive x n poll got s w) ≡ serve x (pending s) poll got w
  unfolding receive serve
  receive-serve zero poll got s w e =
      let none_left : pending s ≡ [] = ap (window s.buffers s.max_reqs s.requests s.tail) e in
      rw none_left
  receive-serve (suc n) poll got s w e =
      let a = ask x poll (get_or s.requests s.tail 0) w in
      let cons = pending_cons n s e in
      as_queue-Answer a.0 _ _ _ _
        (λ len.
          let q = eval_ex (get_or s.buffers s.tail 0) (cmd_len len) a.1 in
          as_queue-TclCode q.0 (receive x n true true (next_req s) q.1)
            (done (exec_task, got, s, add_error_info q.1)) _ _
            (receive-serve n true true (next_req s) q.1 (less n s e))
            (ap (λ l. done (exec_task, got, l, add_error_info q.1)) cons))
        (λ ec. ap (λ l. done (ec, got, l, a.1)) cons)
      ∙ ap (λ l. serve x l poll got w) (sym cons)

  as_queue-if :
      (b : Bool) (m e : Outcome (Got World)) (m' e' : Outcome Served)
      → (b ≡ true → as_queue x m ≡ m')
      → as_queue x e ≡ e'
      → as_queue x (if b then m else e) ≡ (if b then m' else e')
  as_queue-if true m e m' e' h k = h refl
  as_queue-if false m e m' e' h k = k

  after_amget-serve :
      (extra : ℕ) (poll got : Bool) (s : GetReqState) (a : AdlbCode × (ℕ → ℕ) × World)
      → IsRing s
      → s.nreqs + extra ≤ s.max_reqs
      → as_queue x (after_amget x extra poll got s a)
        ≡ serve_amget x extra poll got (pending s) (tmp_bufs s) a
  unfolding after_amget serve_amget
  after_amget-serve extra poll got s (adlb_error, reqs, w) v h = refl
  after_amget-serve extra poll got s (_, reqs, w) v h =
      receive-serve _ poll false (issue_reqs extra reqs s) w refl
      ∙ ap (λ q. serve x q poll false w) (issue_reqs-pending extra reqs s v h)

  -- The ring of `get_tasks` is a queue. On every path it asks for work, evaluates it, and leaves
  -- outstanding just what the queue version does: the oldest request is asked first, its work is
  -- read from the buffer handed over with it, and new requests wait behind the old.
  pub get_tasks-serve_tasks :
      (work_type : ℕ) (s : GetReqState) (poll : Bool) (max_tasks : ℕ) (got : Bool) (w : World)
      → IsRing s
      → as_queue x (get_tasks x work_type s poll max_tasks got w)
        ≡ serve_tasks x work_type s.max_reqs (pending s) (tmp_bufs s) poll max_tasks got w
  unfolding get_tasks serve_tasks
  get_tasks-serve_tasks work_type s poll max_tasks got w v =
      as_queue-if (ltb 0 (extra_reqs s max_tasks)) _ _ _ _
        (λ e.
          after_amget-serve (extra_reqs s max_tasks) poll got s _ v (extra_fits s max_tasks e).0)
        (receive-serve s.nreqs poll false s w refl)
      ∙ measured
    where
      measured :
          (if ltb 0 (extra_reqs s max_tasks)
            then serve_amget x
                (extra_reqs s max_tasks)
                poll
                got
                (pending s)
                (tmp_bufs s)
                (amget work_type (extra_reqs s max_tasks) (not poll && s.nreqs == 0) (tmp_bufs s) w)
            else serve x (pending s) poll false w)
          ≡ serve_tasks x work_type s.max_reqs (pending s) (tmp_bufs s) poll max_tasks got w
      measured = rw (length-pending s, ← extra_min s max_tasks)
