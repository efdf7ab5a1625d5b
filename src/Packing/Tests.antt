-- ===== src/Packing/Tests.antt =====
-- Packing with the numbers and lists of Scenario.
use exm_turbine.Common.{
  ℕ, ◌≤◌, ◌≡◌, refl, Bool, true, false, none, some, List, [], ◌∷◌, ◌++◌, length, ◌↔◌, done, fault,
}
use exm_turbine.Handle.{Bytes}
use exm_turbine.Packing.{
  integer, string, container, multiset, no_extra, CompoundType, types_loop, get_compound_type,
}
use exm_turbine.Packing.Objects.{bytes_eq, dict_get, tclobj2datum}
use exm_turbine.Packing.Append.{tclobj_bin_append, tclobj2bin}
use exm_turbine.Packing.Unpack.{dict_put, datum_object, datum2tclobj}
use exm_turbine.Packing.Canonical.{canonical, framed}
use exm_turbine.Packing.RoundTrip.{tclobj_bin_append-datum2tclobj}
use exm_turbine.Packing.Grammar.{Compound, Spells, get_compound_type-Compound}
use exm_turbine.Packing.Scenario.{env, env-PackLaws}

abbrev dict_type : CompoundType
dict_type = (string, no_extra) ∷ (multiset, no_extra) ∷ (integer, no_extra) ∷ []

abbrev dict_of_bags : CompoundType
dict_of_bags = (container, no_extra) ∷ dict_type

get_compound_type_test :
    get_compound_type env ((7 ∷ []) ∷ (3 ∷ []) ∷ (8 ∷ []) ∷ (1 ∷ []) ∷ (1 ∷ []) ∷ [])
    ≡ done (some (dict_of_bags, (1 ∷ []) ∷ []))
unfolding get_compound_type types_loop
get_compound_type_test = refl

-- Keys of containers are not compound, and the types have to be complete.
get_compound_type_fault_test : get_compound_type env ((7 ∷ []) ∷ (8 ∷ []) ∷ (1 ∷ []) ∷ []) ≡ fault
unfolding get_compound_type types_loop
get_compound_type_fault_test = refl

get_compound_type_short_test : get_compound_type env ((7 ∷ []) ∷ (3 ∷ []) ∷ []) ≡ done none
unfolding get_compound_type types_loop
get_compound_type_short_test = refl

-- Sorted, the key 2 stands before the key 9.
tclobj_bin_append_test :
    tclobj_bin_append env 0 dict_of_bags (9 ∷ 5 ∷ 2 ∷ 7 ∷ []) false true []
    ≡ done (
        some
          (2 ∷ 3 ∷ 8 ∷ 2 ∷ 2 ∷ 0 ∷ 4 ∷ 0 ∷ 1 ∷ 1 ∷ 1 ∷ 7 ∷ 2 ∷ 9 ∷ 0 ∷ 4 ∷ 0 ∷ 1 ∷ 1 ∷ 1 ∷ 5 ∷ []))
unfolding tclobj_bin_append bytes_eq
tclobj_bin_append_test = refl

datum2tclobj_test :
    datum2tclobj env 4
      (container, no_extra)
      (2 ∷ 3 ∷ 8 ∷ 2 ∷ 2 ∷ 0 ∷ 4 ∷ 0 ∷ 1 ∷ 1 ∷ 1 ∷ 7 ∷ 2 ∷ 9 ∷ 0 ∷ 4 ∷ 0 ∷ 1 ∷ 1 ∷ 1 ∷ 5 ∷ [])
    ≡ done (some (2 ∷ 7 ∷ 9 ∷ 5 ∷ []))
unfolding datum2tclobj bytes_eq
datum2tclobj_test = refl

-- A container that is cut off, or that has bytes left, is taken for what was read.
datum2tclobj_cut_test :
    datum2tclobj env 4 (container, no_extra) (2 ∷ 3 ∷ 1 ∷ 2 ∷ 9 ∷ 0 ∷ 1 ∷ 5 ∷ [])
    ≡ done (some (9 ∷ 5 ∷ []))
unfolding datum2tclobj bytes_eq
datum2tclobj_cut_test = refl

-- One type only is not enough for a container.
tclobj2bin_test : tclobj2bin env 0 (container, no_extra) (9 ∷ 5 ∷ []) true ≡ done none
unfolding tclobj2bin tclobj_bin_append
tclobj2bin_test = refl

dict_of_bags-canonical :
    canonical env true dict_of_bags (9 ∷ 5 ∷ 2 ∷ 7 ∷ []) ≡ some (2 ∷ 7 ∷ 9 ∷ 5 ∷ [])
unfolding canonical tclobj2datum dict_get bytes_eq dict_put datum_object
dict_of_bags-canonical = refl

tclobj_bin_append-datum2tclobj_example :
    (packed : Bytes) × ((prefix_len : Bool) (output : Bytes)
      → tclobj_bin_append env 0 dict_of_bags (9 ∷ 5 ∷ 2 ∷ 7 ∷ []) prefix_len true output
        ≡ done (some (output ++ framed env container prefix_len packed)))
    × ((d : ℕ)
        → length dict_of_bags ≤ d
        → length packed ≤ 100
        → datum2tclobj env d (container, no_extra) packed ≡ done (some (2 ∷ 7 ∷ 9 ∷ 5 ∷ [])))
tclobj_bin_append-datum2tclobj_example =
    tclobj_bin_append-datum2tclobj env env-PackLaws 0 true (container, no_extra) dict_type
      (9 ∷ 5 ∷ 2 ∷ 7 ∷ []) (2 ∷ 7 ∷ 9 ∷ 5 ∷ []) dict_of_bags-canonical

get_compound_type-Compound_example :
    (get_compound_type env ((8 ∷ []) ∷ (1 ∷ []) ∷ (5 ∷ []) ∷ [])
      ≡ done (some ((multiset, no_extra) ∷ (integer, no_extra) ∷ [], (5 ∷ []) ∷ [])))
    ↔ (Compound ((multiset, no_extra) ∷ (integer, no_extra) ∷ [])
        × (used : List Bytes) × ((8 ∷ []) ∷ (1 ∷ []) ∷ (5 ∷ []) ∷ [] ≡ used ++ ((5 ∷ []) ∷ []))
        × Spells env used ((multiset, no_extra) ∷ (integer, no_extra) ∷ []))
get_compound_type-Compound_example =
    get_compound_type-Compound env ((8 ∷ []) ∷ (1 ∷ []) ∷ (5 ∷ []) ∷ [])
      ((multiset, no_extra) ∷ (integer, no_extra) ∷ []) ((5 ∷ []) ∷ [])
