-- ===== src/Rule.antt =====
-- `turbine::c::rule` of code/src/tcl/turbine/tcl-turbine.c: the options of a rule, its inputs, and
-- the call of ADLB_Dput. A Tcl object is the text it stands for, taken as its bytes, and `none` is
-- TCL_ERROR; error messages are left out, and memory is not short.
use Prim.Native.Char.{Char, code}
use Prim.Native.String.{String, [], ◌∷◌}
use exm_turbine.Common.{
  ℕ, zero, suc, ◌+◌, ◌%◌, Bool, true, false, Option, none, some, List, [], ◌∷◌, ◌++◌, ℤ, pos,
  negsuc, int_eq, str_eq, ltb, ◌==◌, if◌then◌else◌, length, Outcome, done, fault, ◌>>=◌,
}
use exm_turbine.Codes.{AdlbCode, adlb_success, adlb_error, adlb_nothing, adlb_shutdown, other_code}
pub mod Keys
pub mod Inputs
pub mod Command
mod Tests

pub data Strictness : Type 0 where
  strict_hard strict_soft other_strictness : Strictness

pub data Accuracy : Type 0 where
  accuracy_rank accuracy_node other_accuracy : Accuracy

-- `adlb_put_opts`.
pub record PutOpts : Type 0 where
  pub priority : ℤ
  pub parallelism : ℤ
  pub strictness : Strictness
  pub accuracy : Accuracy

-- A name that ends in its buffer, or one that fills the buffer and has no terminator.
pub data RuleName : Type 0 where
  text unterminated : String → RuleName

-- `struct rule_opts`; a NULL name is `none`.
pub record RuleOpts : Type 0 where
  pub name : Option RuleName
  pub work_type : ℤ
  pub target : ℤ
  pub opts : PutOpts

-- What ADLB_Dput is given.
pub record DputArgs : Type 0 where
  pub action : String
  pub action_len : ℕ
  pub options : RuleOpts
  pub answer : ℤ
  pub ids : List ℤ
  pub id_subs : List (ℤ × String)

-- What the commands use of Tcl and of ADLB.
pub record RuleEnv : Type 1 where
  pub World : Type 0
  pub get_int : String → Option ℤ
  pub list_elements : String → Option (List String)
  -- ADLB_PARSE_HANDLE: the id, and the subscript where there is one.
  pub parse_handle : String → Option (ℤ × Option String)
  pub rank_any : ℤ
  pub comm_rank : ℤ
  pub curr_priority : World → ℤ
  pub default_put_opts : PutOpts
  pub dput : DputArgs → World → AdlbCode × World

-- TURBINE_ADLB_WORK_TYPE_WORK and TURBINE_ADLB_WORK_TYPE_LOCAL.
abbrev pub type_work : ℤ
type_work = pos 0

abbrev pub type_local : ℤ
type_local = negsuc 0

-- TURBINE_NAME_MAX and TCL_TURBINE_MAX_INPUTS.
abbrev pub name_max : ℕ
name_max = 128

abbrev pub max_inputs : ℕ
max_inputs = 128

abbrev pub byte_length : String → ℕ
byte_length [] = 0
byte_length (c ∷ s) = suc (byte_length s)

abbrev pub prefix : ℕ → String → String
prefix zero s = []
prefix (suc n) [] = []
prefix (suc n) (c ∷ s) = c ∷ prefix n s

-- `strchr(action, ' ') - action`.
abbrev pub first_space : String → Option ℕ
first_space [] = none
first_space (c ∷ s) =
    if code c == b' '
    then some 0
    else (elim (first_space s) [ none ↦ none | some q ↦ some (suc q) ])

-- Where the first space is too far for the buffer, the source writes behind it.
pub rule_set_name_default : ℕ → String → Outcome RuleName
rule_set_name_default size action = elim (first_space action) [
  | none ↦
      if ltb (byte_length action) size
      then done (text action)
      else done (unterminated (prefix size action))
  | some q ↦ if ltb (q + 1) size then done (text (prefix (q + 1) action)) else fault
]

pub adlb_parse_strictness : String → Option Strictness
adlb_parse_strictness s =
    if str_eq s "HARD" then some strict_hard else if str_eq s "SOFT" then some strict_soft else none

pub adlb_parse_accuracy : String → Option Accuracy
adlb_parse_accuracy s =
    if str_eq s "RANK"
    then some accuracy_rank
    else if str_eq s "NODE"
    then some accuracy_node
    else none

-- `k[0]`.
abbrev pub first_byte : String → ℕ
first_byte [] = 0
first_byte (c ∷ s) = code c

module _ (x : RuleEnv) where
  open x use {
    World, get_int, list_elements, parse_handle, rank_any, comm_rank, curr_priority,
    default_put_opts, dput,
  }

  -- The call with no action, which leaves the name NULL.
  abbrev pub rule_set_opts_default : RuleOpts → RuleOpts
  rule_set_opts_default o = record o {
    name = none;
    work_type = type_work;
    target = rank_any;
    opts = record (o.opts) { parallelism = pos 1 };
  }

  abbrev pub set_type : ℤ → RuleOpts → RuleOpts
  set_type t o =
      if int_eq t type_local
      then record o {
        work_type = type_work;
        target = comm_rank;
        opts = record (o.opts) { strictness = strict_hard };
      }
      else record o { work_type = t }

  -- The cases of the switch, each with its comparison.
  abbrev pub set_accuracy_kv : RuleOpts → String → Option RuleOpts
  set_accuracy_kv o v = elim (adlb_parse_accuracy v) [
    | none ↦ none
    | some a ↦ some (record o { opts = record (o.opts) { accuracy = a } })
  ]

  abbrev pub set_strictness_kv : RuleOpts → String → Option RuleOpts
  set_strictness_kv o v = elim (adlb_parse_strictness v) [
    | none ↦ none
    | some a ↦ some (record o { opts = record (o.opts) { strictness = a } })
  ]

  abbrev pub set_parallelism_kv : RuleOpts → String → Option RuleOpts
  set_parallelism_kv o v = elim (get_int v) [
    | none ↦ none
    | some t ↦ some (record o { opts = record (o.opts) { parallelism = t } })
  ]

  abbrev pub set_target_kv : RuleOpts → String → Option RuleOpts
  set_target_kv o v = elim (get_int v) [ none ↦ none | some t ↦ some (record o { target = t }) ]

  abbrev pub set_type_kv : RuleOpts → String → Option RuleOpts
  set_type_kv o v = elim (get_int v) [ none ↦ none | some t ↦ some (set_type t o) ]

  pub rule_opt_from_kv : RuleOpts → String → String → Option RuleOpts
  rule_opt_from_kv o k v =
      let c = first_byte k in
      if c == b'a'
      then (if str_eq k "accuracy" then set_accuracy_kv o v else none)
      else if c == b'n'
      then (if str_eq k "name" then some (record o { name = some (text v) }) else none)
      else if c == b'p'
      then (if str_eq k "parallelism" then set_parallelism_kv o v else none)
      else if c == b't'
      then (if str_eq k "target"
          then set_target_kv o v
          else if str_eq k "type"
          then set_type_kv o v
          else none)
      else if c == b's'
      then (if str_eq k "strictness" then set_strictness_kv o v else none)
      else none

  -- The loop over keys and values, of which there are equally many.
  pub rule_opts_loop : RuleOpts → List String → Option RuleOpts
  unfolding rule_opt_from_kv
  rule_opts_loop o [] = some o
  rule_opts_loop o (k ∷ []) = none
  rule_opts_loop o (k ∷ v ∷ rest) = elim (rule_opt_from_kv o k v) [
    | none ↦ none
    | some o' ↦ rule_opts_loop o' rest
  ]

  -- The options with the name that is made up where none is given.
  pub default_name : ℕ → String → RuleOpts → Outcome (Option RuleOpts)
  default_name size action o = elim o.name [
    | some n ↦ done (some o)
    | none ↦ rule_set_name_default size action >>= λ n. done (some (record o { name = some n }))
  ]

  pub rule_opts_from_list : RuleOpts → List String → ℕ → String → Outcome (Option RuleOpts)
  unfolding rule_opts_loop default_name
  rule_opts_from_list o objs size action =
      if (length objs % 2) == 0
      then (elim (rule_opts_loop (rule_set_opts_default o) objs) [
        | none ↦ done none
        | some o' ↦ default_name size action o'
      ])
      else done none

  -- The loop over the entries: the ids and the pairs so far, in order.
  pub extract_loop : List ℤ → List (ℤ × String) → List String → Option (List ℤ × List (ℤ × String))
  extract_loop ids subs [] = some (ids, subs)
  extract_loop ids subs (e ∷ es) = elim (parse_handle e) [
    | none ↦ none
    | some h ↦
        let (id, sub) = h in
        elim sub [
          | none ↦ extract_loop (ids ++ id ∷ []) subs es
          | some key ↦ extract_loop ids (subs ++ (id, key) ∷ []) es
        ]
  ]

  -- A list that Tcl does not parse fails an assertion.
  pub turbine_extract_ids : String → Outcome (Option (List ℤ × List (ℤ × String)))
  unfolding extract_loop
  turbine_extract_ids list = elim (list_elements list) [
    | none ↦ fault
    | some es ↦ done (if ltb (length es) max_inputs then extract_loop [] [] es else none)
  ]

  abbrev pub zero_opts : RuleOpts
  zero_opts = record { name = none; work_type = pos 0; target = pos 0; opts = default_put_opts }

  -- The options of a call: with no keyword the defaults and the name of the action.
  pub rule_options : String → List String → Outcome (Option RuleOpts)
  unfolding rule_opts_from_list
  rule_options action [] = rule_set_name_default name_max action >>= λ n.
      done (some (record (rule_set_opts_default zero_opts) { name = some n }))
  rule_options action (k ∷ objs) = rule_opts_from_list zero_opts (k ∷ objs) name_max action

  pub put_rule : String → RuleOpts → Option (List ℤ × List (ℤ × String)) → World → Bool × World
  put_rule action o none w = (false, w)
  put_rule action o (some inputs) w =
      let (ac, w') =
        dput
          (record {
            action = action;
            action_len = byte_length action + 1;
            options = record o { opts = record (o.opts) { priority = curr_priority w } };
            answer = comm_rank;
            ids = inputs.0;
            id_subs = inputs.1;
          })
          w in
      (elim ac [ adlb_success ↦ true | _ ↦ false ], w')

  put_options : String → String → Option RuleOpts → World → Outcome (Bool × World)
  unfolding put_rule
  put_options action inputs none w = done (false, w)
  put_options action inputs (some o) w =
      turbine_extract_ids inputs >>= λ ids. done (put_rule action o ids w)

  -- The words of the command; `true` is TCL_OK.
  pub turbine_rule_cmd : List String → World → Outcome (Bool × World)
  unfolding put_options
  turbine_rule_cmd (cmd ∷ inputs ∷ action ∷ objs) w =
      rule_options action objs >>= λ o. put_options action inputs o w
  turbine_rule_cmd _ w = done (false, w)
