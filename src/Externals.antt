-- ===== src/Externals.antt =====
-- What the worker code calls and this repository does not implement: ADLB, the Tcl interpreter and
-- the operating system, over a state `World` of theirs. Every call returns its results and the new
-- world. A buffer and a request of ADLB are numbers, their identities.
use Prim.Native.String.{String}
use exm_turbine.Common.{ℕ, zero, suc, ◌≢◌, Bool, Option, none, some}
use exm_turbine.Codes.{AdlbCode, adlb_nothing, other_code, TclCode}

-- `waitpid(pid, &status, WNOHANG)`: the child still runs, it ended with a status (its exit code
-- where it exited by itself), or the call failed and left `status` alone.
pub data WaitResult : Type 0 where
  running : WaitResult
  ended : Option ℕ → WaitResult
  wait_failed : WaitResult

-- `fork()`: the pid of the child in the parent, 0 in the child, -1 where no child was made.
pub data ForkResult : Type 0 where
  parent_of : ℕ → ForkResult
  in_child no_child : ForkResult

-- `work_len - 1`, the length of a command without its terminator. Tcl_EvalEx takes -1, here `none`,
-- to mean that the string ends at its terminator.
abbrev pub cmd_len : ℕ → Option ℕ
cmd_len zero = none
cmd_len (suc n) = some n

pub record Externals : Type 1 where
  pub World : Type 0
  -- ADLB_Amget(work_type, count, block, buffers): its code and the requests that it fills in.
  pub amget : ℕ → ℕ → Bool → (ℕ → ℕ) → World → AdlbCode × (ℕ → ℕ) × World
  -- ADLB_Aget_test and ADLB_Aget_wait on a request: code and length of the work unit.
  pub aget_test : ℕ → World → AdlbCode × ℕ × World
  pub aget_wait : ℕ → World → AdlbCode × ℕ × World
  -- ADLB_Get(work_type, buffer): code, length of the work unit, received type, task communicator.
  pub get : ℕ → ℕ → World → AdlbCode × ℕ × ℕ × ℕ × World
  -- Tcl_EvalEx on a buffer and a length (`none`: -1), Tcl_EvalObjEx on an object, Tcl_AddErrorInfo.
  pub eval_ex : ℕ → Option ℕ → World → TclCode × World
  pub eval_obj : ℕ → World → TclCode × World
  pub add_error_info : World → World
  -- Tcl_ObjSetVar2 (false: it returned NULL) and Tcl_UnsetVar.
  pub set_var : String → String → World → Bool × World
  pub unset_var : String → World → TclCode × World
  pub sched_yield : World → World
  pub getenv_service : World → Option String
  pub fork : World → ForkResult × World
  pub waitpid : ℕ → World → WaitResult × World
  pub kill_term : ℕ → World → Bool × World
  pub time_delay : ℕ → World → World

-- The codes that ADLB documents for a test of a request and for a wait.
pub record AdlbContract (x : Externals) : Type 0 where
  pub test_known : (r : ℕ) (w : x.World) → (x.aget_test r w).0 ≢ other_code
  pub wait_known : (r : ℕ) (w : x.World) → (x.aget_wait r w).0 ≢ other_code
  pub wait_answers : (r : ℕ) (w : x.World) → (x.aget_wait r w).0 ≢ adlb_nothing
