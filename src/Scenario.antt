-- ===== src/Scenario.antt =====
-- A scripted world for tests: ADLB, Tcl and the operating system as functions of a clock that every
-- call moves on. Work arrives until a fixed time, then everything shuts down.
use exm_turbine.Common.{
  ℕ, suc, ◌+◌, ◌≤◌, ◌≢◌, true, false, some, [], ◌∷◌, ltb, if◌then◌else◌, arith,
}
use exm_turbine.Codes.{AdlbCode, adlb_success, adlb_shutdown, adlb_nothing, other_code, tcl_ok}
use exm_turbine.Exec.{exec_success, CallbackVar, CompletedTask}
use exm_turbine.Externals.{Externals, AdlbContract, running, ended, parent_of}
use exm_turbine.Async.Check.{Executor}
use exm_turbine.Async.Check.Vars.{TclVars}
use exm_turbine.Async.Check.Safe.{ExecutorContract}

abbrev pub answer : ℕ → AdlbCode × ℕ × ℕ
answer w = if ltb w 20 then (adlb_success, 4, suc w) else (adlb_shutdown, 0, suc w)

abbrev pub scripted : Externals
scripted = record {
  World = ℕ;
  amget = λ kind count block buffers w. (adlb_success, (λ i. i + w), suc w);
  aget_test = λ r w. answer w;
  aget_wait = λ r w. answer w;
  get = λ kind buffer w.
      if ltb w 6 then (adlb_success, 4, kind, w, suc w) else (adlb_shutdown, 0, 0, 0, suc w);
  eval_ex = λ buffer len w. (tcl_ok, suc w);
  eval_obj = λ o w. (tcl_ok, suc w);
  add_error_info = λ w. suc w;
  set_var = λ n v w. (true, suc w);
  unset_var = λ n w. (tcl_ok, suc w);
  sched_yield = λ w. suc w;
  getenv_service = λ w. some "service";
  fork = λ w. (parent_of 42, suc w);
  waitpid = λ pid w. (if ltb w 30 then running else ended (some 0), suc w);
  kill_term = λ pid w. (true, suc w);
  time_delay = λ d w. suc w;
}

answer-known : (w : ℕ) → (answer w).0 ≢ other_code
answer-known w = ground arith

answer-answers : (w : ℕ) → (answer w).0 ≢ adlb_nothing
answer-answers w = ground arith

pub scripted-AdlbContract : AdlbContract scripted
scripted-AdlbContract = record {
  test_known = λ r w. answer-known w;
  wait_known = λ r w. answer-known w;
  wait_answers = λ r w. answer-answers w;
}

abbrev pub result : CallbackVar
result = record { name = "result"; free_name = false; val = some "1" }

abbrev pub task : CompletedTask
task = record {
  success = true;
  callbacks = record { success = some 1; failure = some 2 };
  vars = result ∷ [];
}

-- One of four slots is in use, and each question for completed tasks finds one.
abbrev pub executor : Executor ℕ
executor = record {
  start = λ w. (exec_success, suc w);
  stop = λ w. (exec_success, suc w);
  wait = λ n w. (exec_success, task ∷ [], suc w);
  poll = λ n w. (exec_success, task ∷ [], suc w);
  slots = λ w. (exec_success, record { used = 1; total = 4 }, w);
}

pub executor-ExecutorContract : ExecutorContract executor
executor-ExecutorContract = record {
  poll_sets = λ n w. (((λ e. cc), tt), tt);
  wait_sets = λ n w. (((λ e. cc), tt), tt);
}

-- Every variable is gone from the time 3 on.
pub scripted-TclVars : TclVars scripted
scripted-TclVars = record {
  IsUnset = λ n w. 1 ≤ w;
  removes = λ n w e. omega arith;
  makes_none = λ n m w h. omega (arith, h);
}
