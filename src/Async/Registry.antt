-- ===== src/Async/Registry.antt =====
-- The table of registered executors of code/src/turbine/async_exec.c. The string table of the ExM
-- c-utils library is a parameter. Executors stand in a heap, since the table holds pointers to
-- them; function pointers are represented by whether they are non-NULL.
use Prim.Native.String.{String}
use exm_turbine.Common.{
  ℕ, ℤ, zero, suc, ◌+◌, Bool, true, false, ◌&&◌, Option, none, some, List, [], ◌∷◌, map, ltb, ◌==◌,
  if◌then◌else◌, length, take, Outcome, done, fault, assert,
}
use exm_turbine.Codes.{TurbineCode, success, error_invalid, error_oom, error_external}
use exm_turbine.Exec.{ExecCode}
use exm_turbine.Async.Loop.{is_success}
pub mod Laws
mod Tests

-- `struct table`, from names to pointers; `entries` is the order of TABLE_FOREACH.
pub record StringTable : Type 1 where
  pub Table : Type 0
  -- table_init with a capacity: `none` where memory is out.
  pub table_init : ℕ → Option Table
  pub table_add : Table → String → ℕ → Table
  pub table_search : Table → String → Option ℕ
  pub table_size : Table → ℕ
  pub entries : Table → List (String × ℕ)

-- `struct turbine_executor`, as the registry sees it.
pub record ExecDesc : Type 0 where
  pub name : Option String
  pub has_configure : Bool
  pub has_start : Bool
  pub has_stop : Bool
  pub has_free : Bool
  pub has_wait : Bool
  pub has_poll : Bool
  pub has_slots : Bool
  pub has_max_slots : Bool
  pub started : Bool

-- The static variables, with the heap that the pointers below `next` point into. Where
-- `executors_table_init` is false the table is `none`.
pub record Registry (t : StringTable) : Type 0 where
  pub executors_init : Bool
  pub executors : Option t.Table
  pub heap : ℕ → ExecDesc
  pub next : ℕ

-- TURBINE_ASYNC_EXEC_LIMIT.
abbrev pub async_exec_limit : ℕ
async_exec_limit = 64

-- The assertions of `turbine_add_async_exec`; `free` and `max_slots` are not among them.
abbrev pub has_functions : ExecDesc → Bool
has_functions e =
    e.has_configure && e.has_start && e.has_stop && e.has_wait && e.has_poll && e.has_slots

abbrev pub write_exec : (ℕ → ExecDesc) → ℕ → ExecDesc → ℕ → ExecDesc
write_exec h p e q = if q == p then e else h q

-- A pointer that was found, with whether its executor is started.
abbrev pub found_at : (ℕ → ExecDesc) → Option ℕ → Option (ℕ × Bool)
found_at heap none = none
found_at heap (some p) = some (p, (heap p).started)

module _ (t : StringTable) where
  pub turbine_async_exec_initialize : Registry t → TurbineCode × Registry t
  turbine_async_exec_initialize r =
      if r.executors_init then (error_invalid, r) else (success, record r { executors_init = true })

  pub init_exec_table : Registry t → Outcome (TurbineCode × Registry t)
  init_exec_table r = elim r.executors [
    | some table ↦ fault
    | none ↦ elim (t.table_init 16) [
      | none ↦ done (error_oom, r)
      | some table ↦ done (success, record r { executors = some table })
    ]
  ]

  -- `memory` is the outcome of `malloc`.
  pub add_to : ExecDesc → Bool → t.Table → Registry t → Outcome (TurbineCode × Registry t)
  add_to e memory table r =
      if ltb (t.table_size table) async_exec_limit
      then (elim e.name [
        | none ↦ fault
        | some name ↦ assert (has_functions e) (
            if memory
            then done (
              success,
              record r {
                executors = some (t.table_add table name r.next);
                heap = write_exec r.heap r.next e;
                next = r.next + 1;
              },
            )
            else done (error_oom, r))
      ])
      else done (error_invalid, r)

  pub turbine_add_async_exec : ExecDesc → Bool → Registry t → Outcome (TurbineCode × Registry t)
  unfolding add_to
  turbine_add_async_exec e memory r = elim r.executors [
    | some table ↦ add_to e memory table r
    | none ↦ elim (t.table_init 16) [
      | none ↦ done (error_oom, r)
      | some table ↦ add_to e memory table (record r { executors = some table })
    ]
  ]

  -- The names that fit into the caller's array, and their number.
  pub turbine_async_exec_names : ℕ → Registry t → List String × ℕ
  turbine_async_exec_names size r = elim r.executors [
    | none ↦ ([], 0)
    | some table ↦
        let names = map (λ (e : String × ℕ). e.0) (take size (t.entries table)) in
        (names, length names)
  ]

  -- The pointer to the executor and `*started`.
  pub turbine_get_async_exec : String → Registry t → Option (ℕ × Bool)
  turbine_get_async_exec name r = elim r.executors [
    | none ↦ none
    | some table ↦ found_at r.heap (t.table_search table name)
  ]

  -- `code` is what the executor's own function returns.
  pub turbine_configure_exec : ExecDesc → ExecCode → Outcome TurbineCode
  turbine_configure_exec e code =
      assert e.has_configure (done (if is_success code then success else error_external))

  pub turbine_async_exec_max_slots : ExecDesc → ExecCode × ℤ → Outcome (TurbineCode × ℤ)
  turbine_async_exec_max_slots e (code, max) =
      assert e.has_max_slots
        (if is_success code then done (success, max) else done (error_external, max))

  -- The executors from `p` on, `n` of them: a code of `stop` other than success only warns.
  pub stop_executors : ℕ → ℕ → (ℕ → ExecDesc) → Outcome (ℕ → ExecDesc)
  stop_executors p zero heap = done heap
  stop_executors p (suc n) heap =
      let rest =
        stop_executors (p + 1) n (write_exec heap p (record (heap p) { started = false })) in
      assert (heap p).has_stop rest

  -- Whether every executor that is freed has the function to free it, which is asserted.
  pub free_executors : List (String × ℕ) → (ℕ → ExecDesc) → Bool
  free_executors [] heap = true
  free_executors ((name, p) ∷ rest) heap = (heap p).has_free && free_executors rest heap

  pub turbine_async_exec_finalize : Registry t → Outcome (Registry t)
  turbine_async_exec_finalize r = elim r.executors [
    | none ↦ done (record r { executors_init = false })
    | some table ↦
        assert (free_executors (t.entries table) r.heap)
          (done (record r { executors_init = false; executors = none }))
  ]
