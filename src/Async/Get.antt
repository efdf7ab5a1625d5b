-- ===== src/Async/Get.antt =====
-- `get_tasks` of code/src/turbine/async_exec.c, with its ring of outstanding get requests.
-- Arrays are lists; `int` values are numbers, as none is negative here but `extra_reqs`, whose sign
-- the code tests. Debug output is left out; `launch_error` only adds error info.
use exm_turbine.Common.{
  ℕ, zero, suc, ◌+◌, ◌-◌, ◌%◌, min, Bool, true, false, not, ◌&&◌, List, ltb, ◌==◌, get_or, set,
  if◌then◌else◌, Outcome, done, fault,
}
use exm_turbine.Exec.{ExecCode, exec_success, exec_shutdown, exec_task, exec_other}
use exm_turbine.Codes.{
  AdlbCode, adlb_success, adlb_error, adlb_nothing, adlb_shutdown, other_code, TclCode, tcl_ok,
  tcl_error, other_tcl,
}
use exm_turbine.Externals.{cmd_len, Externals}
pub mod Ring
pub mod Queue
pub mod Order
pub mod Refine

-- `get_req_state`.
pub record GetReqState : Type 0 where
  pub buffers : List ℕ
  pub requests : List ℕ
  pub max_reqs : ℕ
  pub nreqs : ℕ
  pub head : ℕ
  pub tail : ℕ

-- The buffers copied to `tmp_bufs`.
abbrev pub tmp_bufs : GetReqState → ℕ → ℕ
tmp_bufs s i = get_or s.buffers ((s.head + i) % s.max_reqs) 0

-- `for (i = 0; i < extra_reqs; i++)`: the new requests go in at the head.
pub store_reqs : ℕ → ℕ → (ℕ → ℕ) → GetReqState → GetReqState
store_reqs zero i reqs s = s
store_reqs (suc n) i reqs s =
    store_reqs n (i + 1) reqs
      (record s { requests = set s.requests s.head (reqs i); head = (s.head + 1) % s.max_reqs })

-- `desired_reqs - nreqs`; where the difference is negative in the source it is 0 here, and the code
-- only asks whether it is positive.
abbrev pub extra_reqs : GetReqState → ℕ → ℕ
extra_reqs s max_tasks = (if ltb max_tasks s.max_reqs then max_tasks else s.max_reqs) - s.nreqs

-- Storing the requests that ADLB_Amget returned, with the count of outstanding ones raised.
pub issue_reqs : ℕ → (ℕ → ℕ) → GetReqState → GetReqState
issue_reqs extra reqs s =
    let s' = store_reqs extra 0 reqs s in record s' { nreqs = s'.nreqs + extra }

-- Moving past the request at the tail.
pub next_req : GetReqState → GetReqState
next_req s = record s { tail = (s.tail + 1) % s.max_reqs; nreqs = s.nreqs - 1 }

-- How an answer to a request is taken: go on with the work, or return.
pub data Answer : Type 0 where
  work : ℕ → Answer
  stop_with : ExecCode → Answer
  bad_code : Answer

pub test_answer : AdlbCode → ℕ → Answer
test_answer adlb_error len = stop_with exec_other
test_answer adlb_shutdown len = stop_with exec_shutdown
test_answer adlb_nothing len = stop_with exec_success
test_answer adlb_success len = work len
test_answer other_code len = bad_code

pub wait_answer : AdlbCode → ℕ → Answer
wait_answer adlb_shutdown len = stop_with exec_shutdown
wait_answer adlb_error len = stop_with exec_other
wait_answer adlb_success len = work len
wait_answer adlb_nothing len = bad_code
wait_answer other_code len = bad_code

-- What `get_tasks` returns: its code, `*got_tasks`, the request state and the world.
abbrev pub Got : Type 0 → Type 0
Got W = ExecCode × Bool × GetReqState × W

module _ (x : Externals) where
  open x use {World, amget, aget_test, aget_wait, eval_ex, add_error_info}

  pub ask : Bool → ℕ → World → Answer × World
  unfolding test_answer wait_answer
  ask poll req w =
      if poll
      then (let (ac, len, w') = aget_test req w in (test_answer ac len, w'))
      else (let (ac, len, w') = aget_wait req w in (wait_answer ac len, w'))

  -- `while (reqs->nreqs > 0)`, by recursion on `nreqs`, which each round takes down by one.
  pub receive : ℕ → Bool → Bool → GetReqState → World → Outcome (Got World)
  receive zero poll got s w = done (exec_success, got, s, w)
  receive (suc n) poll got s w =
      let (answer, w') = ask poll (get_or s.requests s.tail 0) w in
      elim answer [
        | work len ↦
            let (rc, w'') = eval_ex (get_or s.buffers s.tail 0) (cmd_len len) w' in
            elim rc [
              | tcl_ok ↦ receive n true true (next_req s) w''
              | tcl_error ↦ done (exec_task, got, s, add_error_info w'')
              | other_tcl ↦ done (exec_task, got, s, add_error_info w'')
            ]
        | stop_with ec ↦ done (ec, got, s, w')
        | bad_code ↦ fault
      ]

  -- The rest of `get_tasks` after ADLB_Amget. Only ADLB_ERROR is checked.
  pub after_amget : ℕ → Bool → Bool → GetReqState → AdlbCode × (ℕ → ℕ) × World → Outcome (Got World)
  after_amget extra poll got s (ac, reqs, w) = elim ac [
    | adlb_error ↦ done (exec_other, got, s, w)
    | _ ↦ let s' = issue_reqs extra reqs s in receive s'.nreqs poll false s' w
  ]

  pub get_tasks : ℕ → GetReqState → Bool → ℕ → Bool → World → Outcome (Got World)
  unfolding after_amget
  get_tasks work_type s poll max_tasks got w =
      let extra = extra_reqs s max_tasks in
      let block = not poll && s.nreqs == 0 in
      if ltb 0 extra
      then after_amget extra poll got s (amget work_type extra block (tmp_bufs s) w)
      else receive s.nreqs poll false s w
