-- ===== src/Jobs.antt =====
-- `turbine::coaster_run` of code/src/tcl/turbine/tcl-turbine.c: the description of a job for the
-- Coaster executor. A Tcl object is the text it stands for, taken as its bytes; a NULL text is
-- `none`. The client's functions that make a job are parameters; memory is not short.
use Prim.Native.String.{String}
use exm_turbine.Common.{
  ℕ, zero, suc, ◌+◌, Bool, true, false, ◌&&◌, ◌||◌, Option, none, some, List, [], ◌∷◌, map, str_eq,
  ltb, ◌==◌, if◌then◌else◌, length, Outcome, done, ◌>>=◌,
}
use exm_turbine.Codes.{TurbineCode}
use exm_turbine.Exec.{Callbacks, Refs}
use exm_turbine.Async.Check.{succeeds}
use exm_turbine.Rule.{byte_length}
use exm_turbine.Coaster.{CoasterClient, CoasterState, coaster_execute}
pub mod Command
mod Tests

pub data StagingMode : Type 0 where
  stage_always stage_if_present stage_on_error stage_on_success : StagingMode

-- `coaster_stage_entry`.
pub record StageEntry : Type 0 where
  pub src : String
  pub dst : String
  pub mode : StagingMode

pub record JobOptions : Type 0 where
  pub stdin_s : Option String
  pub stdout_s : Option String
  pub stderr_s : Option String
  pub job_manager : String
  pub staging_mode : StagingMode

-- The table `staging_modes`, searched from its start.
pub parse_staging_mode : String → Option StagingMode
parse_staging_mode s =
    if str_eq s "always"
    then some stage_always
    else if str_eq s "if_present"
    then some stage_if_present
    else if str_eq s "on_error"
    then some stage_on_error
    else if str_eq s "on_success"
    then some stage_on_success
    else none

abbrev pub set_staging : JobOptions → String → Option JobOptions
set_staging o v = elim (parse_staging_mode v) [
  | none ↦ none
  | some m ↦ some (record o { staging_mode = m })
]

-- One key and its value. The length of the key is compared first.
pub coaster_opt : JobOptions → String → String → Option JobOptions
coaster_opt o k v =
    let n = byte_length k in
    if n == 5 && str_eq k "stdin"
    then some (record o { stdin_s = some v })
    else if n == 6
    then (if str_eq k "stdout"
        then some (record o { stdout_s = some v })
        else if str_eq k "stderr"
        then some (record o { stderr_s = some v })
        else none)
    else if n == 11 && str_eq k "job_manager"
    then some (record o { job_manager = v })
    else if n == 12 && str_eq k "staging_mode"
    then set_staging o v
    else none

pub coaster_opts_loop : JobOptions → List (String × String) → Option JobOptions
unfolding coaster_opt
coaster_opts_loop o [] = some o
coaster_opts_loop o ((k, v) ∷ rest) = elim (coaster_opt o k v) [
  | none ↦ none
  | some o' ↦ coaster_opts_loop o' rest
]

-- What a job is made of.
pub record JobSpec : Type 0 where
  pub executable : String
  pub args : List String
  pub options : JobOptions
  pub stage_in : List StageEntry
  pub stage_out : List StageEntry

pub record JobEnv (c : CoasterClient) : Type 0 where
  pub list_elements : String → Option (List String)
  pub dict_pairs : String → Option (List (String × String))
  pub default_staging_mode : StagingMode
  -- coaster_job_create: `none` where it fails.
  pub job_create : String → List String → String → c.World → Option ℕ × c.World
  pub add_stages : ℕ → List StageEntry → List StageEntry → c.World → Bool × c.World
  pub set_redirects : ℕ → Option String → Option String → Option String → c.World → Bool × c.World
  -- The identity of the object that a callback's code is.
  pub object : String → ℕ

abbrev pub stages : StagingMode → List String → List StageEntry
stages m l = map (λ (s : String). record { src = s; dst = s; mode = m }) l

abbrev pub is_some : Option String → Bool
is_some none = false
is_some (some s) = true

module _ (c : CoasterClient) (e : JobEnv c) where
  open c use {World}
  open e use {
    list_elements, dict_pairs, default_staging_mode, job_create, add_stages, set_redirects, object,
  }

  abbrev default_options : String → JobOptions
  default_options manager = record {
    stdin_s = none;
    stdout_s = none;
    stderr_s = none;
    job_manager = manager;
    staging_mode = default_staging_mode;
  }

  pub turbine_tcllist_to_strings : String → Option (List String)
  turbine_tcllist_to_strings l = list_elements l

  pub parse_coaster_opts : JobOptions → String → Option JobOptions
  unfolding coaster_opts_loop
  parse_coaster_opts o dict = elim (dict_pairs dict) [
    | none ↦ none
    | some pairs ↦ coaster_opts_loop o pairs
  ]

  pub parse_coaster_stages : StagingMode → String → Option (List StageEntry)
  parse_coaster_stages m l = elim (list_elements l) [ none ↦ none | some es ↦ some (stages m es) ]

  -- All the parsing of the command: the words after its name, and the default job manager.
  pub parse_job : String → String → String → String → String → String → Option JobSpec
  unfolding turbine_tcllist_to_strings parse_coaster_opts parse_coaster_stages
  parse_job manager executable args ins outs opts = elim (turbine_tcllist_to_strings args) [
    | none ↦ none
    | some args' ↦ elim (parse_coaster_opts (default_options manager) opts) [
      | none ↦ none
      | some o ↦ elim (parse_coaster_stages o.staging_mode ins) [
        | none ↦ none
        | some ins' ↦ elim (parse_coaster_stages o.staging_mode outs) [
          | none ↦ none
          | some outs' ↦ some (record {
            executable = executable;
            args = args';
            options = o;
            stage_in = ins';
            stage_out = outs';
          })
        ]
      ]
    ]
  ]

  -- Creating the job, with stages and redirections where there are any.
  pub make_job : JobSpec → World → Option ℕ × World
  make_job j w =
      let o = j.options in
      let (job, w1) = job_create j.executable j.args o.job_manager w in
      elim job [
        | none ↦ (none, w1)
        | some n ↦
            let staged = ltb 0 (length j.stage_in) || ltb 0 (length j.stage_out) in
            let (ok, w2) = if staged then add_stages n j.stage_in j.stage_out w1 else (true, w1) in
            let redirected = is_some o.stdin_s || is_some o.stdout_s || is_some o.stderr_s in
            let (ok', w3) =
              if redirected
              then set_redirects n o.stdin_s o.stdout_s o.stderr_s w2
              else (true, w2) in
            if ok then (if ok' then (some n, w3) else (none, w3)) else (none, w2)
      ]

  pub run_job :
      Callbacks
      → CoasterState c
      → Refs
      → Option ℕ × World
      → Outcome (Bool × Option (CoasterState c) × Refs × World)
  run_job cbs s refs (none, w) = done (false, some s, refs, w)
  run_job cbs s refs (some job, w) =
      coaster_execute c true job cbs (some s) refs w >>= λ r. done (succeeds r.0, r.1, r.2, r.3)

  pub run_spec :
      Callbacks
      → CoasterState c
      → Refs
      → Option JobSpec
      → World
      → Outcome (Bool × Option (CoasterState c) × Refs × World)
  unfolding make_job run_job
  run_spec cbs s refs none w = done (false, some s, refs, w)
  run_spec cbs s refs (some j) w = run_job cbs s refs (make_job j w)

  -- The executor is not registered, or registered and started or not; its state is `s`, its default
  -- job manager `manager`. `true` is TCL_OK.
  pub coaster_run_cmd :
      Option Bool
      → String
      → CoasterState c
      → List String
      → Refs
      → World
      → Outcome (Bool × Option (CoasterState c) × Refs × World)
  unfolding parse_job run_spec
  coaster_run_cmd (some true) manager s (exe ∷ args ∷ ins ∷ outs ∷ opts ∷ ok ∷ bad ∷ []) refs w =
      run_spec (record { success = some (object ok); failure = some (object bad) }) s refs
        (parse_job manager exe args ins outs opts) w
  coaster_run_cmd exec manager s words refs w = done (false, some s, refs, w)
