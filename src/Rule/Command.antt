-- ===== src/Rule/Command.antt =====
-- The command `turbine::c::rule` as a whole.
use Prim.Native.String.{String}
use exm_turbine.Common.{
  ◌+◌, ◌≡◌, ◌⊎◌, inl, inr, ◌↔◌, refl, Bool, true, false, Option, none, some, List, ◌∷◌, ℤ, done,
  WhenDone, WhenDone->>=,
}
use exm_turbine.Codes.{AdlbCode, adlb_success, adlb_error, adlb_nothing, adlb_shutdown, other_code}
use exm_turbine.Rule.{
  RuleEnv, DputArgs, RuleOpts, byte_length, rule_options, put_rule, put_options,
  turbine_extract_ids, turbine_rule_cmd,
}

module _ (x : RuleEnv) where
  open x use {World, dput, comm_rank, curr_priority}

  -- One task was put, with the action and its terminator, this rank as the one to answer to, the
  -- priority of the task that runs, and the inputs of the list; it is TCL_OK where ADLB succeeds.
  pub record Put (inputs action : String) (w : World) (r : Bool × World) : Type 0 where
    pub args : DputArgs
    pub of_action : args.action ≡ action
    pub terminated : args.action_len ≡ byte_length action + 1
    pub answers : args.answer ≡ comm_rank
    pub prioritized : args.options.opts.priority ≡ curr_priority w
    pub of_inputs : turbine_extract_ids x inputs ≡ done (some (args.ids, args.id_subs))
    pub left : r.1 ≡ (dput args w).1
    pub succeeds : (r.0 ≡ true) ↔ ((dput args w).0 ≡ adlb_success)

  abbrev pub PutOrNot : String → String → World → Bool × World → Type 0
  PutOrNot inputs action w r = ((r.0 ≡ false) × (r.1 ≡ w)) ⊎ Put inputs action w r

  is_put :
      (c : AdlbCode) → ((elim c [ adlb_success ↦ true | _ ↦ false ]) ≡ true) ↔ (c ≡ adlb_success)
  is_put adlb_success = (λ _. refl, λ _. refl)
  is_put adlb_error = (λ e. cc, λ e. cc)
  is_put adlb_nothing = (λ e. cc, λ e. cc)
  is_put adlb_shutdown = (λ e. cc, λ e. cc)
  is_put other_code = (λ e. cc, λ e. cc)

  put_rule-PutOrNot :
      (inputs action : String) (o : RuleOpts) (i : Option (List ℤ × List (ℤ × String))) (w : World)
      → turbine_extract_ids x inputs ≡ done i
      → PutOrNot inputs action w (put_rule x action o i w)
  unfolding put_rule
  put_rule-PutOrNot inputs action o none w e = inl (refl, refl)
  put_rule-PutOrNot inputs action o (some i) w e = inr (record {
    args = _;
    of_action = refl;
    terminated = refl;
    answers = refl;
    prioritized = refl;
    of_inputs = e;
    left = refl;
    succeeds = is_put _;
  })

  put_options-PutOrNot :
      (inputs action : String) (o : Option RuleOpts) (w : World)
      → WhenDone (PutOrNot inputs action w) (put_options x action inputs o w)
  unfolding put_options
  put_options-PutOrNot inputs action none w = inl (refl, refl)
  put_options-PutOrNot inputs action (some o) w =
      WhenDone->>= _ (turbine_extract_ids x inputs) _ λ i e. put_rule-PutOrNot inputs action o i w e

  -- A command with inputs and an action either fails and puts nothing, or puts one task, which has
  -- that action and those inputs, and returns TCL_OK just where ADLB accepts it.
  pub turbine_rule_cmd-PutOrNot :
      (cmd inputs action : String) (objs : List String) (w : World)
      → WhenDone (PutOrNot inputs action w) (turbine_rule_cmd x (cmd ∷ inputs ∷ action ∷ objs) w)
  unfolding turbine_rule_cmd
  turbine_rule_cmd-PutOrNot cmd inputs action objs w =
      WhenDone->>= _ (rule_options x action objs) _ λ o _. put_options-PutOrNot inputs action o w
