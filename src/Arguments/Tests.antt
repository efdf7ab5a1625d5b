-- ===== src/Arguments/Tests.antt =====
-- The commands of the worker loops in a scripted world.
use Prim.Native.String.{String}
use exm_turbine.Common.{
  ◌≡◌, refl, inl, false, none, some, List, [], ◌∷◌, pos, str_eq, if◌then◌else◌, arith, fault,
  Ensures,
}
use exm_turbine.Exec.{Refs}
use exm_turbine.Codes.{success}
use exm_turbine.Service.{ServiceState}
use exm_turbine.Scenario.{scripted, scripted-AdlbContract, executor, executor-ExecutorContract}
use exm_turbine.Arguments.{
  TclValues, get_count, keyword_loop, worker_keyword_args, optional_keywords,
  async_exec_worker_loop_cmd,
}
use exm_turbine.Arguments.Keywords.{LastOf, last_count, worker_keyword_args-LastOf}
use exm_turbine.Arguments.Loops.{
  CommandRestored, async_exec_worker_loop_cmd-Restored, async_exec_worker_loop_cmd-zero,
}

abbrev counts : List (String × String)
counts = ("buffer_count", "4") ∷ ("buffer_size", "0") ∷ ("buffer_count", "2") ∷ []

abbrev tcl : TclValues
tcl = record {
  get_int = λ s.
      (if str_eq s "4"
        then some (pos 4)
        else if str_eq s "2"
        then some (pos 2)
        else if str_eq s "0"
        then some (pos 0)
        else none);
  dict_pairs = λ s. some (if str_eq s "none" then ("buffer_count", "0") ∷ [] else counts);
  work_type_of = λ t. 1;
  xfer_size = 1000;
}

no_refs : Refs
no_refs = λ j. 1

abbrev no_service : ServiceState
no_service = record { launched = false; pid = none }

worker_keyword_args-LastOf_example : LastOf tcl counts (16, 1000) (2, 0)
unfolding worker_keyword_args keyword_loop get_count
worker_keyword_args-LastOf_example =
    worker_keyword_args-LastOf tcl "some" (16, 1000) counts (2, 0) refl refl

-- Without keywords there are 16 buffers, and the executor has 4 slots.
async_exec_worker_loop_cmd-Restored_example : Ensures (CommandRestored false) (
    async_exec_worker_loop_cmd tcl scripted 20
      (some (executor, false))
      (success, pos 4)
      no_service
      ("4" ∷ [])
      no_refs
      0)
unfolding optional_keywords
async_exec_worker_loop_cmd-Restored_example =
    async_exec_worker_loop_cmd-Restored tcl scripted executor scripted-AdlbContract
      executor-ExecutorContract 20 false (success, pos 4) no_service "4" [] no_refs 0 (λ w e. cc)
      (λ e. cc) (omega arith)

async_exec_worker_loop_cmd-zero_example :
    async_exec_worker_loop_cmd tcl scripted 20
      (some (executor, false))
      (success, pos 4)
      no_service
      ("4" ∷ "none" ∷ [])
      no_refs
      0
    ≡ fault
unfolding last_count get_count
async_exec_worker_loop_cmd-zero_example =
    async_exec_worker_loop_cmd-zero tcl scripted executor scripted-AdlbContract
      executor-ExecutorContract 20 false (pos 4) (pos 4) no_service "4" "none"
      (("buffer_count", "0") ∷ []) no_refs 0 refl refl (inl refl, (0, refl), tt) refl
