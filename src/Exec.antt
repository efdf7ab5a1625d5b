-- ===== src/Exec.antt =====
-- code/src/turbine/executors/exec_interface.h, and the callback types of
-- code/src/turbine/async_exec.h: what an executor and the generic async module exchange.
-- A `Tcl_Obj*` that holds code is a number, the object's identity; NULL is `none`.
-- The reference counts of all objects are one function, `Refs`.
use Prim.Native.String.{String}
use exm_turbine.Common.{ℕ, ◌+◌, ◌-◌, Bool, Option, none, some, List, ◌==◌, if◌then◌else◌}

pub data ExecCode : Type 0 where
  exec_success exec_shutdown exec_oom exec_task exec_invalid exec_other : ExecCode

pub record Callbacks : Type 0 where
  pub success : Option ℕ
  pub failure : Option ℕ

pub record CallbackVar : Type 0 where
  pub name : String
  pub free_name : Bool
  pub val : Option String

pub record CompletedTask : Type 0 where
  pub success : Bool
  pub callbacks : Callbacks
  pub vars : List CallbackVar

-- Counts: -1, for unlimited or unknown, is left out.
pub record Slots : Type 0 where
  pub used : ℕ
  pub total : ℕ

abbrev pub Refs : Type 0
Refs = ℕ → ℕ

-- `if (obj != NULL) Tcl_IncrRefCount(obj)` and its inverse.
abbrev pub incr_ref : Option ℕ → Refs → Refs
incr_ref none r = r
incr_ref (some o) r = λ j. if j == o then r j + 1 else r j

abbrev pub decr_ref : Option ℕ → Refs → Refs
decr_ref none r = r
decr_ref (some o) r = λ j. if j == o then r j - 1 else r j

abbrev pub incr_callbacks : Callbacks → Refs → Refs
incr_callbacks c r = incr_ref c.failure (incr_ref c.success r)

abbrev pub decr_callbacks : Callbacks → Refs → Refs
decr_callbacks c r = decr_ref c.failure (decr_ref c.success r)

-- How often an object is named by a callback, and by a pair of callbacks.
abbrev pub names : Option ℕ → ℕ → ℕ
names none j = 0
names (some o) j = if j == o then 1 else 0

abbrev pub mentions : Callbacks → ℕ → ℕ
mentions c j = names c.success j + names c.failure j
