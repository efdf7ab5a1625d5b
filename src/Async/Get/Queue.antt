-- ===== src/Async/Get/Queue.antt =====
-- `get_tasks` over a queue of requests in place of the ring: the specification of the ring.
use exm_turbine.Common.{
  ℕ, min, zero, suc, ◌+◌, ◌-◌, ◌%◌, Bool, true, false, not, ◌&&◌, List, [], ◌∷◌, ◌++◌, ltb, ◌==◌,
  length, get_or, if◌then◌else◌, Outcome, done, fault, ◌>>=◌,
}
use exm_turbine.Exec.{ExecCode, exec_success, exec_task, exec_other}
use exm_turbine.Codes.{AdlbCode, adlb_error, tcl_ok, tcl_error, other_tcl}
use exm_turbine.Externals.{cmd_len, Externals}
use exm_turbine.Async.Get.{GetReqState, work, stop_with, bad_code, Got, ask}

module _ (buffers : List ℕ) (cap : ℕ) where
  -- The `n` requests from an index on, each with its buffer, going round at the end.
  abbrev pub window : List ℕ → ℕ → ℕ → List (ℕ × ℕ)
  window reqs i zero = []
  window reqs i (suc n) = (get_or reqs i 0, get_or buffers i 0) ∷ window reqs ((i + 1) % cap) n

-- The outstanding requests, oldest first.
abbrev pub pending : GetReqState → List (ℕ × ℕ)
pending s = window s.buffers s.max_reqs s.requests s.tail s.nreqs

-- New requests with the buffers that they were made with.
abbrev pub issued : (ℕ → ℕ) → (ℕ → ℕ) → ℕ → ℕ → List (ℕ × ℕ)
issued reqs bufs i zero = []
issued reqs bufs i (suc n) = (reqs i, bufs i) ∷ issued reqs bufs (i + 1) n

-- The queue's version of the loop in `get_tasks`.
module _ (x : Externals) where
  open x use {World, amget, eval_ex, add_error_info}

  abbrev pub Served : Type 0
  Served = ExecCode × Bool × List (ℕ × ℕ) × World

  unfoldable pub serve : List (ℕ × ℕ) → Bool → Bool → World → Outcome Served
  serve [] poll got w = done (exec_success, got, [], w)
  serve ((req, buf) ∷ rest) poll got w =
      let (answer, w') = ask x poll req w in
      elim answer [
        | work len ↦
            let (rc, w'') = eval_ex buf (cmd_len len) w' in
            elim rc [
              | tcl_ok ↦ serve rest true true w''
              | tcl_error ↦ done (exec_task, got, (req, buf) ∷ rest, add_error_info w'')
              | other_tcl ↦ done (exec_task, got, (req, buf) ∷ rest, add_error_info w'')
            ]
        | stop_with ec ↦ done (ec, got, (req, buf) ∷ rest, w')
        | bad_code ↦ fault
      ]

  -- A result of the array version, with the ring read as a queue.
  abbrev pub as_queue : Outcome (Got World) → Outcome Served
  as_queue m = m >>= λ r. done (r.0, r.1, pending r.2, r.3)

  -- `get_tasks` over a queue: new requests go to its end, with the buffers `bufs`.
  unfoldable pub serve_amget :
      ℕ → Bool → Bool → List (ℕ × ℕ) → (ℕ → ℕ) → AdlbCode × (ℕ → ℕ) × World → Outcome Served
  serve_amget extra poll got q bufs (ac, reqs, w) = elim ac [
    | adlb_error ↦ done (exec_other, got, q, w)
    | _ ↦ serve (q ++ issued reqs bufs 0 extra) poll false w
  ]

  unfoldable pub serve_tasks :
      ℕ → ℕ → List (ℕ × ℕ) → (ℕ → ℕ) → Bool → ℕ → Bool → World → Outcome Served
  unfolding serve_amget
  serve_tasks work_type max_reqs q bufs poll max_tasks got w =
      let extra = min max_tasks max_reqs - length q in
      if ltb 0 extra
      then serve_amget extra poll got q bufs
          (amget work_type extra (not poll && length q == 0) bufs w)
      else serve q poll false w
