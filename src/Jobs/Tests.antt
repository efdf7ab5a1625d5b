-- ===== src/Jobs/Tests.antt =====
-- Jobs of the Coaster executor: options and a command that stages a file and redirects its output.
use exm_turbine.Common.{◌+◌, ◌≡◌, refl, true, none, some, [], ◌∷◌, arith}
use exm_turbine.Coaster.Tests.{client, client-ClientLaws, idle, base}
use exm_turbine.Coaster.Yields.{Yields}
use exm_turbine.Jobs.{
  StagingMode, stage_always, stage_on_error, JobOptions, JobEnv, JobSpec, coaster_opt, parse_job,
  coaster_run_cmd,
}
use exm_turbine.Jobs.Command.{Ran, coaster_run_cmd-Ran}

abbrev plain : JobOptions
plain = record {
  stdin_s = none;
  stdout_s = none;
  stderr_s = none;
  job_manager = "local:local";
  staging_mode = stage_always;
}

-- A list is the text of its one element; every dictionary has the same two pairs.
abbrev env : JobEnv client
env = record {
  list_elements = λ s. some (s ∷ []);
  dict_pairs = λ s. some (("stdout", "out.txt") ∷ ("staging_mode", "on_error") ∷ []);
  default_staging_mode = stage_always;
  job_create = λ x args manager w. (some w, w + 1);
  add_stages = λ job ins outs w. (true, w);
  set_redirects = λ job i o e w. (true, w);
  object = λ s. 1;
}

refused_key : coaster_opt plain "stdall" "x" ≡ none
unfolding coaster_opt
refused_key = refl

parsed :
    parse_job client env "local:local" "cat" "a" "in" "out" "opts"
    ≡ some (record {
      executable = "cat";
      args = "a" ∷ [];
      options = record plain { stdout_s = some "out.txt"; staging_mode = stage_on_error };
      stage_in = record { src = "in"; dst = "in"; mode = stage_on_error } ∷ [];
      stage_out = record { src = "out"; dst = "out"; mode = stage_on_error } ∷ [];
    })
unfolding parse_job exm_turbine.Jobs.parse_staging_mode
parsed = refl

coaster_opt_test : coaster_opt plain "stderr" "log" ≡ some (record plain { stderr_s = some "log" })
unfolding coaster_opt
coaster_opt_test = refl

coaster_run_cmd-Ran_example :
    Yields (Ran idle (record { success = some 1; failure = some 1 }) base) (
      coaster_run_cmd client env
        (some true)
        "local:local"
        idle
        ("cat" ∷ "a" ∷ "in" ∷ "out" ∷ "opts" ∷ "ok" ∷ "bad" ∷ [])
        base
        7)
coaster_run_cmd-Ran_example =
    coaster_run_cmd-Ran client client-ClientLaws env (some true) idle "local:local" "cat" "a" "in"
      "out" "opts" "ok" "bad" base 7 (omega arith) (λ x args manager w n e. tt)
