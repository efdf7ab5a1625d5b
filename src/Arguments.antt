-- ===== src/Arguments.antt =====
-- The commands that start the worker loops, of code/src/tcl/turbine/tcl-turbine.c. A Tcl object is
-- the text it stands for. A work type is the number that stands for it. ADLB_XFER_SIZE, the default
-- size of a buffer, is ADLB's. Allocation of buffers does not fail.
use Prim.Native.String.{String}
use exm_turbine.Common.{
  ℕ, zero, suc, ◌+◌, Bool, true, false, ◌&&◌, Option, none, some, List, [], ◌∷◌, ℤ, pos, negsuc,
  str_eq, ltb, leb, if◌then◌else◌, Outcome, done, fault, ◌>>=◌,
}
use exm_turbine.Codes.{TurbineCode, success, error_external}
use exm_turbine.Exec.{Refs}
use exm_turbine.Externals.{Externals}
use exm_turbine.Service.{ServiceState}
use exm_turbine.Async.Check.{Executor, succeeds}
use exm_turbine.Async.Loop.{LoopResult, finished, child, turbine_async_worker_loop}
use exm_turbine.Worker.{WorkerResult, turbine_worker_loop}
pub mod Keywords
pub mod Loops
mod Tests

-- What the commands use of Tcl: integers and dictionaries.
pub record TclValues : Type 0 where
  pub get_int : String → Option ℤ
  pub dict_pairs : String → Option (List (String × String))
  pub work_type_of : ℤ → ℕ
  pub xfer_size : ℕ

-- TURBINE_ASYNC_EXEC_DEFAULT_BUFFER_COUNT.
abbrev pub default_buffer_count : ℕ
default_buffer_count = 16

-- The buffers that are allocated, one after the other.
abbrev pub new_buffers : ℕ → ℕ → List ℕ
new_buffers b zero = []
new_buffers b (suc n) = b ∷ new_buffers (b + 1) n

-- A limit from 1 on that is below the count replaces it.
pub limit_buffers : ℤ → ℕ → ℕ
limit_buffers (pos max) n = if leb 1 max && ltb max n then max else n
limit_buffers (negsuc m) n = n

-- A command that is refused before the loop, or the loop's result with what the command returns,
-- `true` for TCL_OK.
pub data Command (R : Type 0) : Type 0 where
  refused : Command R
  ran : Bool → R → Command R

-- Any code but EXTERNAL and SUCCESS goes to the clean-up with `rc` as it was, TCL_OK.
pub loop_rc : {W : Type 0} → LoopResult W → Bool
loop_rc (finished error_external st service refs w) = false
loop_rc _ = true

-- Here any code but EXTERNAL and SUCCESS is an error.
pub worker_rc : {W : Type 0} → WorkerResult W → Bool
worker_rc (WorkerResult.finished tc service comm w) = succeeds tc
worker_rc (WorkerResult.child cmd) = true

module _ (v : TclValues) where
  open v use {get_int, dict_pairs, work_type_of, xfer_size}

  -- An integer that is not negative.
  pub get_count : String → Option ℕ
  get_count s = elim (get_int s) [
    | none ↦ none
    | some i ↦ elim i [ pos n ↦ some n | negsuc n ↦ none ]
  ]

  -- The loop over the dictionary, from the count and size of the buffers so far.
  pub keyword_loop : ℕ × ℕ → List (String × String) → Option (ℕ × ℕ)
  unfolding get_count
  keyword_loop (count, size) [] = some (count, size)
  keyword_loop (count, size) ((k, s) ∷ rest) =
      let found = get_count s in
      if str_eq k "buffer_count"
      then (elim found [ none ↦ none | some n ↦ keyword_loop (n, size) rest ])
      else if str_eq k "buffer_size"
      then (elim found [ none ↦ none | some n ↦ keyword_loop (count, n) rest ])
      else none

  pub worker_keyword_args : String → ℕ × ℕ → Option (ℕ × ℕ)
  unfolding keyword_loop
  worker_keyword_args dict b = elim (dict_pairs dict) [
    | none ↦ none
    | some pairs ↦ keyword_loop b pairs
  ]

  -- The optional last argument.
  pub optional_keywords : List String → ℕ × ℕ → Option (ℕ × ℕ)
  unfolding worker_keyword_args
  optional_keywords [] b = some b
  optional_keywords (dict ∷ []) b = worker_keyword_args dict b
  optional_keywords _ b = none

  module _ (x : Externals) where
    open x use {World}

    -- `max_slots` is what the executor answers, with the code of the call.
    pub async_with_buffers :
        Executor World
        → ℕ
        → ℕ
        → Bool
        → ServiceState
        → TurbineCode × ℤ
        → Option (ℕ × ℕ)
        → Refs
        → World
        → Outcome (Command (LoopResult World))
    unfolding limit_buffers loop_rc
    async_with_buffers e fuel work_type started service slots none refs w = done refused
    async_with_buffers e fuel work_type started service (tc, max) (some (count, size)) refs w =
        let n = limit_buffers max count in
        if succeeds tc
        then (turbine_async_worker_loop x e work_type fuel started service (new_buffers 0 n) n refs
              w
            >>= λ r. done (ran (loop_rc r) r))
        else done refused

    -- The words after the name of the executor: the work type, and keywords. `exec` is the executor
    -- that is registered under that name, with whether it is started.
    pub async_exec_worker_loop_cmd :
        ℕ
        → Option (Executor World × Bool)
        → TurbineCode × ℤ
        → ServiceState
        → List String
        → Refs
        → World
        → Outcome (Command (LoopResult World))
    unfolding async_with_buffers optional_keywords
    async_exec_worker_loop_cmd fuel none slots service words refs w = done refused
    async_exec_worker_loop_cmd fuel (some (e, started)) slots service [] refs w = done refused
    async_exec_worker_loop_cmd fuel (some (e, started)) slots service (kind ∷ rest) refs w =
        elim (get_int kind) [
          | none ↦ done refused
          | some t ↦
              async_with_buffers e fuel (work_type_of t) started service slots
                (optional_keywords rest (default_buffer_count, xfer_size)) refs w
        ]

    -- The count of buffers is ignored.
    pub worker_with_buffer :
        ℕ → ℕ → ServiceState → Option (ℕ × ℕ) → ℕ → World → Outcome (Command (WorkerResult World))
    unfolding worker_rc
    worker_with_buffer fuel work_type service none comm w = done refused
    worker_with_buffer fuel work_type service (some (count, size)) comm w =
        turbine_worker_loop x fuel 0 size work_type service comm w >>= λ r.
        done (ran (worker_rc r) r)

    pub turbine_worker_loop_cmd :
        ℕ → ServiceState → List String → ℕ → World → Outcome (Command (WorkerResult World))
    unfolding worker_with_buffer optional_keywords
    turbine_worker_loop_cmd fuel service [] comm w = done refused
    turbine_worker_loop_cmd fuel service (kind ∷ rest) comm w = elim (get_int kind) [
      | none ↦ done refused
      | some t ↦
          worker_with_buffer fuel (work_type_of t) service (optional_keywords rest (1, xfer_size))
            comm w
    ]
