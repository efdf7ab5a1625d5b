-- ===== src/Coaster.antt =====
-- code/src/turbine/executors/coaster_executor.c: the executor that runs tasks through the Coaster
-- service. The Coaster client and the table of active tasks (ExM c-utils) are parameters; jobs are
-- numbers. Debug output, memory that is freed, and the start of the client are left out. Putting a
-- key into a fresh dictionary and the `malloc` of variables do not fail.
use Prim.Native.String.{String}
use exm_turbine.Common.{
  ℕ, zero, suc, ◌+◌, ◌-◌, Bool, true, false, not, ◌&&◌, Option, none, some, List, [], ◌∷◌, ◌++◌,
  str_eq, ltb, leb, ◌==◌, if◌then◌else◌, length, Outcome, done, fault, starved, ◌>>=◌, assert,
}
use exm_turbine.Codes.{TurbineCode, success, error_oom, error_invalid, error_external}
use exm_turbine.Exec.{
  ExecCode, exec_success, exec_invalid, exec_other, Callbacks, CallbackVar, CompletedTask, Slots,
  Refs, incr_callbacks, decr_callbacks,
}
pub mod Yields
pub mod Held
pub mod Launch
pub mod Check
pub mod Dict
pub mod Tests

-- `coaster_active_task`.
pub record ActiveTask : Type 0 where
  pub callbacks : Callbacks
  pub job : ℕ

-- `coaster_job_status`, with its numbers as texts.
pub record JobStatus : Type 0 where
  pub completed : Bool
  pub code : String
  pub timestamp : String
  pub message : Option String
  pub exception : Option String

-- The client's functions, `false` where they return an error, and `struct table_lp` of active tasks.
pub record CoasterClient : Type 1 where
  pub World : Type 0
  pub submit : ℕ → World → Bool × World
  -- coaster_check_jobs(wait, maxjobs).
  pub check_jobs : Bool → ℕ → World → Bool × List ℕ × World
  pub job_id : ℕ → ℕ
  pub get_status : ℕ → World → Option JobStatus
  pub job_free : ℕ → World → Bool × World
  pub client_stop : World → Bool × World
  pub config_free : World → Bool × World
  -- The text of a Tcl dictionary.
  pub dict_text : List (String × String) → String
  pub Table : Type 0
  pub table_add : Table → ℕ → ActiveTask → Option Table
  pub table_remove : Table → ℕ → Option ActiveTask × Table
  pub entries : Table → List (ℕ × ActiveTask)

-- `coaster_state` without its context, client and configuration.
pub record CoasterState (c : CoasterClient) : Type 0 where
  pub slots : Slots
  pub active_tasks : c.Table

-- `tmp_jobs_size`.
abbrev pub tmp_jobs_size : ℕ
tmp_jobs_size = 32

-- `Tcl_DictObjPut`: a key that is there keeps its place.
abbrev pub dict_put : String → String → List (String × String) → List (String × String)
dict_put k v [] = (k, v) ∷ []
dict_put k v ((j, u) ∷ d) =
    let rest = dict_put k v d in if str_eq k j then (j, v) ∷ d else (j, u) ∷ rest

abbrev pub or_empty : Option String → String
or_empty none = ""
or_empty (some s) = s

-- The dictionary that describes a completed job.
pub result_dict : JobStatus → List (String × String)
result_dict s =
    let base =
      dict_put "timestamp" s.timestamp
        (dict_put "message" (or_empty s.message) (dict_put "timestamp" s.timestamp [])) in
    if s.completed
    then base
    else dict_put "message" (or_empty s.exception) (dict_put "status_code" s.code base)

abbrev pub with_used : {c : CoasterClient} → CoasterState c → ℕ → CoasterState c
with_used s n = record s { slots = record (s.slots) { used = n } }

-- A code with the completed tasks so far, the state and the world.
abbrev pub Checked : CoasterClient → Type 0
Checked c = ExecCode × List CompletedTask × CoasterState c × c.World

module _ (c : CoasterClient) where
  open c use {
    World, submit, check_jobs, job_id, get_status, job_free, client_stop, config_free, dict_text,
    table_add, table_remove, entries,
  }

  abbrev pub completion : ActiveTask → JobStatus → CompletedTask
  completion t s = record {
    success = s.completed;
    callbacks = t.callbacks;
    vars =
        record {
          name = "coaster_task_result";
          free_name = false;
          val = some (dict_text (result_dict s));
        }
        ∷ [];
  }

  -- The last steps of `coaster_execute`, with the outcome of `malloc`.
  pub add_task :
      Bool
      → ℕ
      → Callbacks
      → CoasterState c
      → Refs
      → World
      → TurbineCode × CoasterState c × Refs × World
  add_task memory job cbs s refs w =
      if memory
      then (elim (table_add s.active_tasks (job_id job) (record { callbacks = cbs; job = job })) [
        | none ↦ (error_oom, s, refs, w)
        | some t ↦ (success, record s { active_tasks = t }, incr_callbacks cbs refs, w)
      ])
      else (error_oom, s, refs, w)

  -- The slot is counted as used before the job is submitted. A NULL `exec->state` is `none`.
  pub coaster_execute :
      Bool
      → ℕ
      → Callbacks
      → Option (CoasterState c)
      → Refs
      → World
      → Outcome (TurbineCode × Option (CoasterState c) × Refs × World)
  unfolding add_task
  coaster_execute memory job cbs none refs w = done (error_invalid, none, refs, w)
  coaster_execute memory job cbs (some s) refs w = assert (ltb s.slots.used s.slots.total) (
      let (ok, w') = submit job w in
      let s' = with_used s (s.slots.used + 1) in
      let r = add_task memory job cbs s' refs w' in
      if ok then done (r.0, some r.1, r.2, r.3) else done (error_external, some s', refs, w'))

  -- The loop over the jobs of one call of the client. A job that the table does not hold is an error;
  -- the source then tests a pointer that `table_lp_remove` has left as it was, taken as NULL here.
  pub take_jobs : List ℕ → List CompletedTask → CoasterState c → World → Checked c
  take_jobs [] acc s w = (exec_success, acc, s, w)
  take_jobs (job ∷ jobs) acc s w =
      let (task, t) = table_remove s.active_tasks (job_id job) in
      let s' = record s { active_tasks = t } in
      elim task [
        | none ↦ (exec_other, acc, s', w)
        | some task ↦ elim (get_status job w) [
          | none ↦ (exec_other, acc, s', w)
          | some status ↦
              let acc' = acc ++ completion task status ∷ [] in
              let (ok, w') = job_free job w in
              let rest = take_jobs jobs acc' s' w' in
              if ok then rest else (exec_other, acc', s', w')
        ]
      ]

  -- `while (job_count < completed_size)`, on fuel; `left` is the room in the caller's array.
  pub check_loop : ℕ → Bool → ℕ → List CompletedTask → CoasterState c → World → Outcome (Checked c)
  unfolding take_jobs
  check_loop zero wait left acc s w = starved
  check_loop (suc fuel) wait left acc s w =
      let maxjobs = if ltb left tmp_jobs_size then left else tmp_jobs_size in
      let (ok, jobs, w') = check_jobs wait maxjobs w in
      let (ec, acc', s', w'') = take_jobs jobs acc s w' in
      let again = check_loop fuel (wait && length jobs == 0) (left - length jobs) acc' s' w'' in
      if ltb 0 left
      then (if ok
          then (elim ec [
            | exec_success ↦
                if ltb (length jobs) maxjobs then done (exec_success, acc', s', w'') else again
            | failed ↦ done (failed, acc', s', w'')
          ])
          else done (exec_other, acc, s, w'))
      else done (exec_success, acc, s, w)

  -- On success the slots of the tasks that are returned become free.
  abbrev pub free_slots : Checked c → Checked c
  free_slots (exec_success, tasks, s, w) =
      (exec_success, tasks, with_used s (s.slots.used - length tasks), w)
  free_slots (ec, tasks, s, w) = (ec, tasks, s, w)

  -- A full round of the client is at least one job, so `size` rounds are enough, and one to end.
  pub check_completed : ℕ → Bool → CoasterState c → World → Outcome (Checked c)
  unfolding check_loop
  check_completed size wait s w =
      assert (leb 1 size) (check_loop (suc size) wait size [] s w >>= λ r. done (free_slots r))

  pub coaster_wait : ℕ → CoasterState c → World → Outcome (Checked c)
  coaster_wait size s w =
      if s.slots.used == 0 then done (exec_invalid, [], s, w) else check_completed size true s w

  pub coaster_poll : ℕ → CoasterState c → World → Outcome (Checked c)
  coaster_poll size s w =
      if ltb 0 s.slots.used then check_completed size false s w else done (exec_success, [], s, w)

  pub coaster_slots : CoasterState c → Slots
  coaster_slots s = s.slots

  -- The loop over the tasks that are still active at shutdown.
  pub coaster_cleanup_active : List (ℕ × ActiveTask) → Refs → World → ExecCode × Refs × World
  coaster_cleanup_active [] refs w = (exec_success, refs, w)
  coaster_cleanup_active ((id, t) ∷ rest) refs w =
      let (ok, w') = job_free t.job w in
      let r = coaster_cleanup_active rest (decr_callbacks t.callbacks refs) w' in
      if ok then r else (exec_other, refs, w')

  pub coaster_stop : CoasterState c → Refs → World → ExecCode × Refs × World
  unfolding coaster_cleanup_active
  coaster_stop s refs w =
      let (ok, w') = client_stop w in
      let (ok', w'') = config_free w' in
      if ok
      then (if ok'
          then coaster_cleanup_active (entries s.active_tasks) refs w''
          else (exec_other, refs, w''))
      else (exec_other, refs, w')
