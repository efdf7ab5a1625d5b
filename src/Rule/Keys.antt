-- ===== src/Rule/Keys.antt =====
-- The keyword arguments of a rule, without the switch on their first byte.
use Prim.Native.String.{String}
use exm_turbine.Common.{
  ℕ, ◌%◌, ◌≡◌, ◌≢◌, inl, inr, refl, sym, ap, ◌∙◌, Bool, true, false, Option, none, some,
  Option-cases, List, [], ◌∷◌, ℤ, int_eq, str_eq, str_eq_iff, String-cases, ◌==◌, arith,
  if◌then◌else◌, length, done, ◌>>=◌, WhenDone, WhenDone-if, WhenDone-mono, ==_iff, WhenDone->>=,
}
use exm_turbine.Rule.{
  RuleOpts, RuleName, text, RuleEnv, type_local, type_work, first_byte, set_accuracy_kv,
  set_strictness_kv, set_parallelism_kv, set_target_kv, set_type_kv, rule_opt_from_kv,
  rule_opts_loop, rule_opts_from_list, rule_set_opts_default, default_name, rule_set_name_default,
}

-- A property of a result that is there.
abbrev pub WhenSome : {A : Type 0} → (A → Type 0) → Option A → Type 0
WhenSome P none = Unit
WhenSome P (some a) = P a

WhenSome-mono :
    {A : Type 0} {P Q : A → Type 0} (o : Option A)
    → ((a : A) → P a → Q a)
    → WhenSome P o
    → WhenSome Q o
WhenSome-mono none k h = tt
WhenSome-mono (some a) k h = k a h

-- The keywords, found by comparing the whole key.
pub data Keyword : Type 0 where
  accuracy name parallelism target kind strictness : Keyword

pub keyword : String → Option Keyword
keyword k =
    if str_eq k "accuracy"
    then some accuracy
    else if str_eq k "name"
    then some name
    else if str_eq k "parallelism"
    then some parallelism
    else if str_eq k "target"
    then some target
    else if str_eq k "type"
    then some kind
    else if str_eq k "strictness"
    then some strictness
    else none

str_eq-ne : (s t : String) → s ≢ t → str_eq s t ≡ false
str_eq-ne s t n = by_test (str_eq s t) refl
  where
    by_test : (b : Bool) → str_eq s t ≡ b → b ≡ false
    by_test true e = absurd (n ((str_eq_iff s t).0 e))
    by_test false e = refl

if-none {ℓ} : {A : Type ℓ} (b : Bool) (o : Option A) → o ≡ none → (if b then none else o) ≡ none
if-none true o e = refl
if-none false o e = e

module _ (x : RuleEnv) where
  open x use {get_int, comm_rank, rank_any}

  -- What each keyword does with its value.
  pub apply : Keyword → RuleOpts → String → Option RuleOpts
  apply accuracy o v = set_accuracy_kv x o v
  apply name o v = some (record o { name = some (text v) })
  apply parallelism o v = set_parallelism_kv x o v
  apply target o v = set_target_kv x o v
  apply kind o v = set_type_kv x o v
  apply strictness o v = set_strictness_kv x o v

  abbrev pub apply_to : Option Keyword → RuleOpts → String → Option RuleOpts
  apply_to none o v = none
  apply_to (some w) o v = apply w o v

  pub rule_opt_from_kv-keyword :
      (o : RuleOpts) (k v : String) → rule_opt_from_kv x o k v ≡ apply_to (keyword k) o v
  unfolding rule_opt_from_kv keyword apply
  rule_opt_from_kv-keyword o k v = elim (String-cases k "accuracy") [
    | inl e ↦ rw e refl
    | inr a ↦ elim (String-cases k "name") [
      | inl e ↦ rw e refl
      | inr n ↦ elim (String-cases k "parallelism") [
        | inl e ↦ rw e refl
        | inr p ↦ elim (String-cases k "target") [
          | inl e ↦ rw e refl
          | inr t ↦ elim (String-cases k "type") [
            | inl e ↦ rw e refl
            | inr y ↦ elim (String-cases k "strictness") [
              | inl e ↦ rw e refl
              | inr s ↦
                  rw
                    (
                      str_eq-ne k _ a,
                      str_eq-ne k _ n,
                      str_eq-ne k _ p,
                      str_eq-ne k _ t,
                      str_eq-ne k _ y,
                      str_eq-ne k _ s,
                    )
                    (if-none (first_byte k == b'a') _ (
                      if-none (first_byte k == b'n') _ (
                        if-none (first_byte k == b'p') _ (
                          if-none (first_byte k == b't') _
                            (if-none (first_byte k == b's') _ refl)))))
            ]
          ]
        ]
      ]
    ]
  ]

  -- A value that is kept unless the keyword and its value say otherwise, over all the arguments.
  abbrev pub last_wins : (String → String → ℤ → ℤ) → List String → ℤ → ℤ
  last_wins g (k ∷ v ∷ rest) z = last_wins g rest (g k v z)
  last_wins g _ z = z

  abbrev pub int_or : String → ℤ → ℤ
  int_or v z = elim (get_int v) [ none ↦ z | some t ↦ t ]

  -- What a keyword and its value say of the parallelism, the target and the work type.
  abbrev pub says_parallelism : Option Keyword → String → ℤ → ℤ
  says_parallelism (some parallelism) v z = int_or v z
  says_parallelism _ v z = z

  -- A rule of the type LOCAL goes to the rank that makes it.
  abbrev pub says_target : Option Keyword → String → ℤ → ℤ
  says_target (some target) v z = int_or v z
  says_target (some kind) v z = if int_eq (int_or v z) type_local then comm_rank else z
  says_target _ v z = z

  abbrev pub says_type : Option Keyword → String → ℤ → ℤ
  says_type (some kind) v z = if int_eq (int_or v z) type_local then type_work else int_or v z
  says_type _ v z = z

  -- The options after all arguments: the last word on each counts.
  pub record Fields (objs : List String) (o o' : RuleOpts) : Type 0 where
    pub parallelism_last :
        o'.opts.parallelism ≡ last_wins (λ k. says_parallelism (keyword k)) objs o.opts.parallelism
    pub target_last : o'.target ≡ last_wins (λ k. says_target (keyword k)) objs o.target
    pub type_last : o'.work_type ≡ last_wins (λ k. says_type (keyword k)) objs o.work_type

  apply-Fields :
      (w : Option Keyword) (v : String) (o o' : RuleOpts)
      → apply_to w o v ≡ some o'
      → (o'.opts.parallelism ≡ says_parallelism w v o.opts.parallelism)
        × (o'.target ≡ says_target w v o.target)
        × (o'.work_type ≡ says_type w v o.work_type)
  unfolding apply
  apply-Fields w v o o' e = ground arith

  rule_opts_loop-Fields :
      (objs : List String) (o o' : RuleOpts) → rule_opts_loop x o objs ≡ some o' → Fields objs o o'
  unfolding rule_opts_loop
  rule_opts_loop-Fields [] o o' e = record {
    parallelism_last = cc;
    target_last = cc;
    type_last = cc;
  }
  rule_opts_loop-Fields (k ∷ []) o o' e = cc
  rule_opts_loop-Fields (k ∷ v ∷ rest) o o' e = elim (Option-cases (rule_opt_from_kv x o k v)) [
    | inl n ↦ cc (rw (n, rule_opts_loop) at e)
    | inr (m, q) ↦
        let a = apply-Fields (keyword k) v o m (sym (rule_opt_from_kv-keyword o k v) ∙ q) in
        let b = rule_opts_loop-Fields rest m o' (rw (q, rule_opts_loop) at e) in
        record {
          parallelism_last =
              b.parallelism_last ∙ ap (last_wins (λ k. says_parallelism (keyword k)) rest) a.0;
          target_last = b.target_last ∙ ap (last_wins (λ k. says_target (keyword k)) rest) a.1;
          type_last = b.type_last ∙ ap (last_wins (λ k. says_type (keyword k)) rest) a.2;
        }
  ]

  default_name-Fields :
      (size : ℕ) (action : String) (objs : List String) (o o' : RuleOpts)
      → Fields objs o o'
      → WhenDone (WhenSome (Fields objs o)) (default_name x size action o')
  unfolding default_name
  default_name-Fields size action objs o o' f = by_name o'.name
    where
      by_name :
          (n : Option RuleName)
          → WhenDone (WhenSome (Fields objs o)) (elim n [
            | some n ↦ done (some o')
            | none ↦
                rule_set_name_default size action >>= λ n. done (some (record o' { name = some n }))
          ])
      by_name (some n) = f
      by_name none = WhenDone->>= _ (rule_set_name_default size action) _ λ n _. record {
        parallelism_last = f.parallelism_last;
        target_last = f.target_last;
        type_last = f.type_last;
      }

  -- Wherever `rule_opts_from_list` accepts its arguments there is a value for each key, and
  -- parallelism, target and work type are those that the last keyword on each gave, or 1, any rank
  -- and WORK where none did. The type LOCAL gives the work type WORK and this rank as the target.
  pub rule_opts_from_list-Fields :
      (o : RuleOpts) (objs : List String) (size : ℕ) (action : String)
      → WhenDone
          (WhenSome (λ o'. Fields objs (rule_set_opts_default x o) o' × (length objs % 2 ≡ 0)))
          (rule_opts_from_list x o objs size action)
  unfolding rule_opts_from_list
  rule_opts_from_list-Fields o objs size action =
      WhenDone-if _ ((length objs % 2) == 0) _ _
        (λ e. by_loop e (rule_opts_loop x (rule_set_opts_default x o) objs) refl) (λ _. tt)
    where
      by_loop :
          ((length objs % 2) == 0) ≡ true
          → (r : Option RuleOpts) → rule_opts_loop x (rule_set_opts_default x o) objs ≡ r
          → WhenDone
              (WhenSome (λ o'. Fields objs (rule_set_opts_default x o) o' × (length objs % 2 ≡ 0)))
              (elim r [ none ↦ done none | some o' ↦ default_name x size action o' ])
      by_loop e none q = tt
      by_loop e (some o') q =
          WhenDone-mono _ _ (default_name x size action o')
            (λ r f. WhenSome-mono r (λ a b. (b, (==_iff _ _).0 e)) f)
            (default_name-Fields size action objs _ o' (rule_opts_loop-Fields objs _ o' q))
