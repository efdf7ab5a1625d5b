-- ===== src/Checkpoint.antt =====
-- The data of checkpoints, of code/src/tcl/adlb/tcl-adlb.c: adlb::xpt_pack and adlb::xpt_unpack. A
-- command takes the words behind its name.
use exm_turbine.Common.{
  ℕ, zero, suc, ◌+◌, ◌-◌, ◌/◌, ◌%◌, Bool, true, false, Option, none, some, List, [], ◌∷◌, leb, ◌==◌,
  length, Outcome, done, fault, starved,
}
use exm_turbine.Handle.{Bytes}
use exm_turbine.Packing.{CompoundType, PackEnv, get_compound_type}
use exm_turbine.Packing.Objects.{extract_tcl_blob, build_tcl_blob}
use exm_turbine.Packing.Append.{then_some, tclobj_bin_append}
use exm_turbine.Packing.Unpack.{datum2tclobj}
use exm_turbine.Data.{Cmd, ◌>>=◌, pure, lift, demand, condition}
pub mod RoundTrip
mod Tests

module _ (e : PackEnv) where
  open e use {copy, load, type_of_name, unpack_buffer}

  -- The loop of ADLB_Xpt_Pack_Cmd over the words that are left, behind what the buffer holds, on fuel.
  unfoldable pub pack_fields : ℕ → ℕ → List Bytes → Bytes → Outcome (Option Bytes)
  pack_fields fuel depth [] output = done (some output)
  pack_fields zero depth (w ∷ words) output = starved
  pack_fields (suc fuel) depth (w ∷ words) output = then_some (get_compound_type e (w ∷ words)) λ r.
      elim (r.1) [
        | [] ↦ done none
        | val ∷ rest ↦
            then_some (tclobj_bin_append e depth (r.0) val true true output)
              (pack_fields fuel depth rest)
      ]

  -- Every field takes a word at least. The result is a blob of the buffer.
  unfoldable pub xpt_pack_cmd : ℕ → List Bytes → Outcome (Option Bytes)
  unfolding pack_fields
  xpt_pack_cmd depth words =
      then_some (pack_fields (length words) depth words [])
        λ packed. done (some (build_tcl_blob e (copy packed) (length packed) none))

  -- The names before the word at a place, that word, and the types behind it.
  unfoldable pub split_fields : ℕ → List Bytes → Option (List Bytes × Bytes × List Bytes)
  split_fields n [] = none
  split_fields zero (w ∷ words) = some ([], w, words)
  split_fields (suc n) (w ∷ words) = elim (split_fields n words) [
    | none ↦ none
    | some (names, packed, types) ↦ some (w ∷ names, packed, types)
  ]

  -- Tcl_ObjSetVar2(name, value), `none` where it returns NULL.
  module _ {Vars : Type 0} (set_var : Bytes → Bytes → Vars → Option Vars) where
    abbrev pub assign : Bytes → Bytes → Cmd Vars Unit
    assign name value s = elim (set_var name value s) [
      | none ↦ done (none, s)
      | some s' ↦ done (some tt, s')
    ]

    -- The loop over names and types. `depth` is how deep data may lie in data.
    unfoldable pub unpack_fields : ℕ → List Bytes → List Bytes → Bytes → Cmd Vars Unit
    unpack_fields depth (name ∷ names) (t ∷ types) rest = do
      type ← demand (type_of_name t)
      entry ← demand (unpack_buffer (type.0) rest)
      obj ← lift (datum2tclobj e depth type (entry.0))
      _ ← assign name obj
      unpack_fields depth names types (entry.1)
    unpack_fields depth _ _ rest = pure tt

    unfoldable pub xpt_unpack_cmd : ℕ → List Bytes → Cmd Vars Unit
    unfolding unpack_fields split_fields
    xpt_unpack_cmd depth words = do
      _ ← condition (leb 1 (length words))
      _ ← condition (length words % 2 == 1)
      parts ← demand (split_fields ((length words - 1) / 2) words)
      blob ← demand (extract_tcl_blob e (parts.1))
      unpack_fields depth (parts.0) (parts.2) (load (blob.0) (blob.1))
