-- ===== src/Data/Create.antt =====
-- Creating data: types from words, adlb::create, adlb::multicreate and adlb::create_globals.
use exm_turbine.Common.{
  zero, suc, Bool, not, true, false, Option, none, some, List, [], ◌∷◌, ℤ, pos, negsuc, length,
  ◌==◌, if◌then◌else◌,
}
use exm_turbine.Handle.{Bytes}
use exm_turbine.Packing.{
  DataType, no_type, container, multiset, TypeExtra, no_extra, container_types, multiset_type,
  FullType,
}
use exm_turbine.Data.{
  CreateProps, CreateSpec, Cmd, ◌>>=◌, pure, demand, condition, asserted, call, is_success, DataEnv,
}

-- What extract_create_props has written: whether it returned TCL_OK, and its results.
abbrev pub Extracted : Type 0
Extracted = Bool × CreateSpec

abbrev pub zero_props : CreateProps
zero_props = record {
  read_refcount = pos 0;
  write_refcount = pos 0;
  symbol = pos 0;
  permanent = false;
  release_write_refs = false;
}

abbrev pub int_eq : ℤ → ℤ → Bool
int_eq (pos m) (pos n) = m == n
int_eq (negsuc m) (negsuc n) = m == n
int_eq _ _ = false

-- The id after one.
abbrev pub suc_id : ℤ → ℤ
suc_id (pos n) = pos (suc n)
suc_id (negsuc zero) = pos 0
suc_id (negsuc (suc n)) = negsuc n

-- A type that has lost what belongs to it is asserted not to have: containers and multisets.
abbrev pub has_its_types : FullType → Bool
has_its_types (container, no_extra) = false
has_its_types (multiset, no_extra) = false
has_its_types _ = true

abbrev pub is_no_type : DataType → Bool
is_no_type no_type = true
is_no_type _ = false

module _ (e : DataEnv) where
  open e use {
    State, packing, get_int, get_boolean, is_compound, default_props, null_id, create, multicreate,
    alloc_global, is_local,
  }

  -- adlb_type_extra_from_array: the types of what is in a container or multiset, and the other words.
  unfoldable pub type_extra_from_array : DataType → List Bytes → Option (TypeExtra × List Bytes)
  type_extra_from_array container (k ∷ v ∷ words) = elim (packing.type_of_name k) [
    | none ↦ none
    | some key ↦ elim (packing.type_of_name v) [
      | none ↦ none
      | some val ↦ some (container_types (key.0) (val.0), words)
    ]
  ]
  type_extra_from_array container _ = none
  type_extra_from_array multiset (v ∷ words) = elim (packing.type_of_name v) [
    | none ↦ none
    | some val ↦ some (multiset_type (val.0), words)
  ]
  type_extra_from_array multiset [] = none
  type_extra_from_array t words = some (no_extra, words)

  -- adlb_type_from_array on a name and the words behind it. The type is written as soon as its name is
  -- known; `none` behind it where what belongs to it is missing.
  unfoldable pub type_from_array :
      Bytes → List Bytes → Option (DataType × Option (TypeExtra × List Bytes))
  unfolding type_extra_from_array
  type_from_array name words = elim (packing.type_of_name name) [
    | none ↦ none
    | some (t, no_extra) ↦ some (t, type_extra_from_array t words)
    | some (t, x) ↦ some (t, some (x, words))
  ]

  -- The optional arguments, each written as it is read.
  pub permanent_arg : CreateProps → List Bytes → Bool × CreateProps
  permanent_arg p [] = (true, p)
  permanent_arg p (w ∷ words) = elim (get_boolean w) [
    | none ↦ (false, p)
    | some b ↦ (true, record p { permanent = b })
  ]

  pub symbol_arg : CreateProps → List Bytes → Bool × CreateProps
  unfolding permanent_arg
  symbol_arg p [] = (true, p)
  symbol_arg p (w ∷ words) = elim (get_int w) [
    | none ↦ (false, p)
    | some n ↦ permanent_arg (record p { symbol = n }) words
  ]

  pub write_refcount_arg : CreateProps → List Bytes → Bool × CreateProps
  unfolding symbol_arg
  write_refcount_arg p [] = (true, p)
  write_refcount_arg p (w ∷ words) = elim (get_int w) [
    | none ↦ (false, p)
    | some n ↦ symbol_arg (record p { write_refcount = n }) words
  ]

  unfoldable pub read_refcount_arg : CreateProps → List Bytes → Bool × CreateProps
  unfolding write_refcount_arg
  read_refcount_arg p [] = (true, p)
  read_refcount_arg p (w ∷ words) = elim (get_int w) [
    | none ↦ (false, p)
    | some n ↦ write_refcount_arg (record p { read_refcount = n }) words
  ]

  abbrev pub no_spec : CreateSpec
  no_spec = record { id = null_id; type = (no_type, no_extra); props = zero_props }

  abbrev pub props_for : DataType → CreateProps
  props_for t = record default_props { release_write_refs = is_compound t }

  unfoldable pub type_and_props : ℤ → Bytes → List Bytes → Extracted
  unfolding type_from_array read_refcount_arg
  type_and_props id name words = elim (type_from_array name words) as (λ _. Extracted) [
    | none ↦ (false, record no_spec { id = id })
    | some (t, none) ↦ (false, record { id = id; type = (t, no_extra); props = zero_props })
    | some (t, some (x, rest)) ↦
        let r = read_refcount_arg (props_for t) rest in
        (r.0, record { id = id; type = (t, x); props = r.1 })
  ]

  unfoldable pub extract_create_props : Bool → List Bytes → Extracted
  unfolding type_and_props
  extract_create_props true (w ∷ name ∷ words) = elim (packing.get_int w) as (λ _. Extracted) [
    | none ↦ (false, no_spec)
    | some id ↦ type_and_props id name words
  ]
  extract_create_props true _ = (false, no_spec)
  extract_create_props false (name ∷ words) = type_and_props null_id name words
  extract_create_props false [] = (false, no_spec)

  -- A struct without a type is created with ADLB_STRUCT_TYPE_NULL. The result is the id where it is new.
  unfoldable pub create_spec : CreateSpec → Cmd State (Option ℤ)
  create_spec spec = do
    _ ← condition (not (is_no_type (spec.type.0)))
    _ ← asserted (has_its_types spec.type)
    r ← call (create spec)
    _ ← condition (is_success (r.0))
    pure (if int_eq spec.id null_id then some (r.1) else none)

  -- What extract_create_props returned is not looked at.
  unfoldable pub create_cmd : List Bytes → Cmd State (Option ℤ)
  unfolding extract_create_props create_spec
  create_cmd words = create_spec ((extract_create_props true words).1)

  -- parse_variable_spec_list.
  abbrev pub parse_variable_spec_list : Bytes → Option CreateSpec
  parse_variable_spec_list list = elim (packing.list_elements list) [
    | none ↦ none
    | some words ↦ let r = extract_create_props false words in if r.0 then some (r.1) else none
  ]

  pub all_specs : List Bytes → Option (List CreateSpec)
  unfolding extract_create_props
  all_specs [] = some []
  all_specs (w ∷ words) = elim (parse_variable_spec_list w) [
    | none ↦ none
    | some spec ↦ elim (all_specs words) [ none ↦ none | some specs ↦ some (spec ∷ specs) ]
  ]

  pub multicreate_cmd : List Bytes → Cmd State (List ℤ)
  unfolding all_specs
  multicreate_cmd words = do
    specs ← demand (all_specs words)
    r ← call (multicreate specs)
    _ ← condition (is_success (r.0))
    pure (r.1)

  -- Each global in turn: where its id is of this rank it is created before the next is read.
  abbrev pub create_here : CreateSpec → Cmd State Unit
  create_here spec =
      if is_local spec.id
      then (call (create spec) >>= λ r. condition (is_success (r.0)))
      else pure tt

  pub create_each : ℤ → List Bytes → Cmd State (List ℤ)
  unfolding extract_create_props
  create_each id [] = pure []
  create_each id (w ∷ words) = do
    spec ← demand (parse_variable_spec_list w)
    _ ← create_here (record spec { id = id; props = record spec.props { permanent = true } })
    ids ← create_each (suc_id id) words
    pure (id ∷ ids)

  pub create_globals_cmd : List Bytes → Cmd State (List ℤ)
  unfolding create_each
  create_globals_cmd words = do
    r ← call (alloc_global (length words))
    _ ← condition (is_success (r.0))
    create_each (r.1) words
