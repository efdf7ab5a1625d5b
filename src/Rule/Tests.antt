-- ===== src/Rule/Tests.antt =====
-- Rules over a Tcl and an ADLB that are written out for a few words.
use Prim.Native.String.{String, [], ◌∷◌}
use exm_turbine.Common.{
  ℕ, ◌+◌, ◌%◌, ◌≡◌, refl, none, some, List, [], ◌∷◌, pos, negsuc, str_eq, if◌then◌else◌, length,
  done, fault, WhenDone,
}
use exm_turbine.Codes.{adlb_success}
use exm_turbine.Rule.{
  RuleEnv, text, unterminated, strict_hard, other_accuracy, zero_opts, rule_set_opts_default,
  rule_opt_from_kv, rule_opts_from_list, rule_opts_loop, default_name, rule_set_name_default,
  turbine_extract_ids, turbine_rule_cmd,
}
use exm_turbine.Rule.Keys.{WhenSome, Fields, rule_opts_from_list-Fields}
use exm_turbine.Rule.Inputs.{turbine_extract_ids-sorted}
use exm_turbine.Rule.Command.{PutOrNot, turbine_rule_cmd-PutOrNot}

abbrev env : RuleEnv
env = record {
  World = ℕ;
  get_int =
      λ s. (if str_eq s "4" then some (pos 4) else if str_eq s "-1" then some (negsuc 0) else none);
  list_elements = λ s. some ("<7>" ∷ "<8.x>" ∷ "<9>" ∷ []);
  parse_handle = λ s.
      (if str_eq s "<7>"
        then some (pos 7, none)
        else if str_eq s "<9>"
        then some (pos 9, none)
        else some (pos 8, some "x"));
  rank_any = negsuc 99;
  comm_rank = pos 3;
  curr_priority = λ w. pos 0;
  default_put_opts = record {
    priority = pos 0;
    parallelism = pos 1;
    strictness = strict_hard;
    accuracy = other_accuracy;
  };
  dput = λ args w. (adlb_success, w + 1);
}

abbrev words : List String
words = "target" ∷ "4" ∷ "type" ∷ "-1" ∷ "parallelism" ∷ "4" ∷ []

-- LOCAL wins over the target given before.
local_run :
    rule_opts_from_list env (zero_opts env) words 128 "f x"
    ≡ done (
        some (record {
          name = some (text "f ");
          work_type = pos 0;
          target = pos 3;
          opts = record {
            priority = pos 0;
            parallelism = pos 4;
            strictness = strict_hard;
            accuracy = other_accuracy;
          };
        }))
unfolding rule_opts_from_list rule_opts_loop rule_opt_from_kv default_name rule_set_name_default
local_run = refl

rule_opts_from_list-Fields_example :
    WhenDone
      (WhenSome (λ o'.
        Fields env words (rule_set_opts_default env (zero_opts env)) o' × (length words % 2 ≡ 0)))
      (rule_opts_from_list env (zero_opts env) words 128 "f x")
rule_opts_from_list-Fields_example = rule_opts_from_list-Fields env (zero_opts env) words 128 "f x"

turbine_extract_ids-sorted_example :
    turbine_extract_ids env "list" ≡ done (some (pos 7 ∷ pos 9 ∷ [], (pos 8, "x") ∷ []))
turbine_extract_ids-sorted_example =
    turbine_extract_ids-sorted env "list" ("<7>" ∷ "<8.x>" ∷ "<9>" ∷ []) refl

rule_set_name_default_test : rule_set_name_default 4 "ab cd" ≡ done (text "ab ")
unfolding rule_set_name_default
rule_set_name_default_test = refl

-- The first word is written without regard to the size of the buffer.
rule_set_name_default_overflow_test : rule_set_name_default 3 "ab cd" ≡ fault
unfolding rule_set_name_default
rule_set_name_default_overflow_test = refl

rule_set_name_default_word_test : rule_set_name_default 2 "ab" ≡ done (unterminated "ab")
unfolding rule_set_name_default
rule_set_name_default_word_test = refl

turbine_rule_cmd-PutOrNot_example :
    WhenDone
      (PutOrNot env "list" "f x" 5)
      (turbine_rule_cmd env ("rule" ∷ "list" ∷ "f x" ∷ words) 5)
turbine_rule_cmd-PutOrNot_example = turbine_rule_cmd-PutOrNot env "rule" "list" "f x" words 5
