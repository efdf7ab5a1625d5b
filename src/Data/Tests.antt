-- ===== src/Data/Tests.antt =====
-- The commands on an ADLB that has one place, in which every subscript of every datum lies.
use exm_turbine.Common.{
  map, List, ◌++◌, ℕ, ◌≤◌, ◌≡◌, refl, ◌↔◌, Bool, true, false, Option, none, some, [], ◌∷◌, ℤ, pos,
  negsuc, leb, length, done, fault, if◌then◌else◌,
}
use exm_turbine.Codes.{AdlbCode, adlb_success, adlb_error, adlb_nothing}
use exm_turbine.Handle.{
  SubKind, parse_subscript, Bytes, HandleEnv, SubParse, no_sub, no_buf, parse_handle,
  parse_subscript, extract_handle, extract_handle_id,
}
use exm_turbine.Packing.{DataType, no_type, integer, string, ref, container, no_extra}
use exm_turbine.Packing.Objects.{tclobj2datum}
use exm_turbine.Packing.Append.{tclobj2bin}
use exm_turbine.Packing.Unpack.{datum_object, datum2tclobj}
use exm_turbine.Packing.Canonical.{put_all}
use exm_turbine.Packing.Scenario.{env, int_bytes, value-framed}
use exm_turbine.Data.{Refc, RetrieveRefc, DataEnv}
use exm_turbine.Data.Access.{insert_impl, retrieve_impl, lookup_loop}
use exm_turbine.Data.Create.{extract_create_props, create_cmd, props_for}
use exm_turbine.Data.Nested.{fill_nested, nested_at}
use exm_turbine.Data.Ignored.{created, create_cmd-ignored}
use exm_turbine.Data.Counts.{CountsEnv, read_refcount_cmd, write_refcount_decr_cmd}
use exm_turbine.Data.Types.{TypesEnv, container_typeof_cmd}
use exm_turbine.Data.Enumerate.{enumerate_object}
use exm_turbine.Data.Shapes.{
  Entry, pair_of, key_bytes, val_bytes, AreEntries, RecordLaws, packed_records,
  enumerate_object-shapes,
}
use exm_turbine.Data.Spin.{Answers, lookup_loop-Answers}

abbrev one_id : Bytes → Option ℤ
one_id (n ∷ []) = some (pos n)
one_id _ = none

abbrev pub handles : HandleEnv
handles = record {
  get_id = one_id;
  int64_parse = one_id;
  resize = λ b u n. none;
  set_length = λ n. true;
  scratch_bytes = [];
}

abbrev Place : Type 0
Place = Option (DataType × Bytes)

abbrev put : DataType → Bytes → Place → AdlbCode × Place
put t b s = if leb (length b) 100 then (adlb_success, some (t, b)) else (adlb_error, s)

abbrev look : Place → (AdlbCode × DataType × Bytes) × Place
look none = ((adlb_nothing, no_type, []), none)
look (some (t, b)) = ((adlb_success, t, b), some (t, b))

abbrev insert : Place → (AdlbCode × Bool × Place) × Place
insert none = ((adlb_success, true, none), none)
insert (some v) = ((adlb_success, false, some v), some v)

abbrev refs : ℕ → ℕ → Refc
refs r w = record { read = pos r; write = pos w }

abbrev no_refs : RetrieveRefc
no_refs = record { decr_self = refs 0 0; incr_referand = refs 0 0 }

abbrev pub one_place : DataEnv
one_place = record {
  State = Place;
  handles = handles;
  packing = env;
  get_int = one_id;
  get_boolean = λ w. none;
  bool_text = λ b. if b then 1 ∷ [] else 0 ∷ [];
  has_sub = λ s. true;
  is_compound = λ t. false;
  no_refc = refs 0 0;
  read_refc = refs 1 0;
  write_refc = refs 0 1;
  retrieve_no_refc = no_refs;
  default_props = record {
    read_refcount = pos 1;
    write_refcount = pos 1;
    symbol = pos 0;
    permanent = false;
    release_write_refs = false;
  };
  null_id = pos 0;
  store = λ id sub t b decr refs. put t b;
  retrieve = λ id sub refs. look;
  exists = λ id sub decr s. ((adlb_success, true), s);
  refcount_get = λ id decr s. ((adlb_success, refs 1 0), s);
  insert_atomic = λ id sub refs. insert;
  create = λ spec s. ((adlb_success, pos 7), s);
  multicreate = λ specs s. ((adlb_success, []), s);
  alloc_global = λ n s. ((adlb_success, pos 1), s);
  is_local = λ id. true;
  pack_ref = λ n. some (int_bytes n);
}

abbrev pub here : SubParse
here = record { val = no_sub; buf = no_buf }

pub parsed_test : parse_handle handles (5 ∷ []) true ≡ done (some (pos 5, here))
unfolding parse_handle extract_handle
parsed_test = refl

-- An integer that is stored is retrieved.
retrieve_impl_test :
    retrieve_impl one_place 1 false ((5 ∷ []) ∷ []) (some (integer, 4 ∷ []))
    ≡ done (some (4 ∷ []), some (integer, 4 ∷ []))
unfolding retrieve_impl parse_handle extract_handle datum2tclobj datum_object
retrieve_impl_test = refl

nested_at_test :
    nested_at one_place 3 (pos 5) here (integer, no_extra) no_refs none
    ≡ done (some (7 ∷ []), some (ref, 7 ∷ []))
unfolding nested_at fill_nested
nested_at_test = refl

create_cmd-ignored_example :
    (extract_create_props one_place true ((5 ∷ []) ∷ (1 ∷ []) ∷ [] ∷ [])).0 ≡ false
    × (create_cmd one_place ((5 ∷ []) ∷ (1 ∷ []) ∷ [] ∷ []) none
        ≡ created one_place (pos 5) (
            one_place.create
              (record {
                id = pos 5;
                type = (integer, no_extra);
                props = props_for one_place integer;
              })
              none))
    × (create_cmd one_place ((5 ∷ []) ∷ (7 ∷ []) ∷ []) none ≡ fault)
create_cmd-ignored_example =
    create_cmd-ignored one_place (5 ∷ []) (1 ∷ []) (7 ∷ []) [] [] (pos 5) integer no_extra container
      none refl refl tt refl refl refl

lookup_loop-Answers_example :
    ((lookup_loop one_place 2 true (pos 5) here no_refs (some (integer, 4 ∷ []))
        ≡ done (some (adlb_success, integer, 4 ∷ []), some (integer, 4 ∷ [])))
      ↔ ((n : ℕ) × (n ≤ 2)
          × Answers one_place
              (pos 5)
              here
              no_refs
              n
              (some (integer, 4 ∷ []))
              (adlb_success, integer, 4 ∷ [])
              (some (integer, 4 ∷ []))))
    × (lookup_loop one_place 2 false (pos 5) here no_refs (some (integer, 4 ∷ []))
        ≡ done (some (adlb_success, integer, 4 ∷ []), some (integer, 4 ∷ [])))
lookup_loop-Answers_example =
    lookup_loop-Answers one_place (pos 5) here no_refs 2 (some (integer, 4 ∷ []))
      (adlb_success, integer, 4 ∷ []) (some (integer, 4 ∷ []))

one_place-RecordLaws : RecordLaws one_place
one_place-RecordLaws = record { key_read = value-framed no_type; val_read = value-framed }

abbrev entries : List Entry
entries =
    record { key = 3 ∷ []; packed = 4 ∷ []; object = 4 ∷ [] }
    ∷ record { key = 5 ∷ []; packed = 6 ∷ []; object = 6 ∷ [] }
    ∷ []

entries-AreEntries : AreEntries one_place 1 integer entries
unfolding datum2tclobj datum_object
entries-AreEntries = (refl, (refl, tt))

enumerate_object-shapes_example :
    (enumerate_object one_place 1 true false
        (packed_records one_place one_place-RecordLaws entries integer (key_bytes one_place))
      ≡ done (some (3 ∷ 5 ∷ [])))
    × (enumerate_object one_place 1 false true (
          packed_records one_place one_place-RecordLaws entries integer
            (val_bytes one_place integer))
        ≡ done (some (4 ∷ 6 ∷ [])))
    × (enumerate_object one_place 1 true true (
          packed_records one_place one_place-RecordLaws entries integer
            (λ x. key_bytes one_place x ++ val_bytes one_place integer x))
        ≡ done (some (env.dict_text (put_all (map pair_of entries) []))))
    × (enumerate_object one_place 1 false false
          (packed_records one_place one_place-RecordLaws entries integer (λ x. []))
        ≡ done (some (2 ∷ [])))
enumerate_object-shapes_example =
    enumerate_object-shapes one_place one_place-RecordLaws 1 integer entries entries-AreEntries

-- A change of the counts is accepted where it takes no writer.
abbrev counts : CountsEnv one_place
counts = record {
  refcount_incr = λ id r s.
      (elim (r.write) as (λ _. AdlbCode) [ negsuc n ↦ adlb_error | pos n ↦ adlb_success ], s);
  container_size = λ id r s. ((adlb_success, 2), s);
  container_reference = λ id sub rid rsub t r n s. (adlb_success, s);
}

read_refcount_cmd_test :
    read_refcount_cmd one_place counts true ((5 ∷ []) ∷ (2 ∷ []) ∷ []) none ≡ done (some [], none)
unfolding read_refcount_cmd extract_handle_id extract_handle
read_refcount_cmd_test = refl

write_refcount_decr_cmd_test :
    write_refcount_decr_cmd one_place counts ((5 ∷ []) ∷ (2 ∷ []) ∷ []) none ≡ done (none, none)
unfolding write_refcount_decr_cmd
write_refcount_decr_cmd_test = refl

-- A container with texts as keys and integers as values.
abbrev types : TypesEnv one_place
types = record {
  typeof = λ id s. ((adlb_success, integer), s);
  container_typeof = λ id s. ((adlb_success, string, integer), s);
  type_name = λ t. elim t [ string ↦ 3 ∷ [] | _ ↦ 1 ∷ [] ];
  subscribe = λ id sub n s. ((adlb_success, pos 1), s);
  lock = λ id s. ((adlb_success, true), s);
  unlock = λ id s. (adlb_success, s);
  unique = λ s. ((adlb_success, pos 7), s);
}

container_typeof_cmd_test :
    container_typeof_cmd one_place types ((5 ∷ []) ∷ []) none ≡ done (some (1 ∷ 3 ∷ []), none)
unfolding container_typeof_cmd
container_typeof_cmd_test = refl

-- The type is read where there are three words only, which are accepted.
insert_impl_short_test :
    insert_impl one_place 0 SubKind.container ((5 ∷ []) ∷ (6 ∷ []) ∷ (4 ∷ []) ∷ []) none ≡ fault
unfolding insert_impl parse_handle extract_handle parse_subscript
insert_impl_short_test = refl

insert_impl_test :
    insert_impl one_place 0 SubKind.container ((5 ∷ []) ∷ (6 ∷ []) ∷ (4 ∷ []) ∷ (1 ∷ []) ∷ []) none
    ≡ done (some [], some (integer, 4 ∷ []))
unfolding insert_impl parse_handle extract_handle parse_subscript tclobj2bin tclobj2datum
insert_impl_test = refl
