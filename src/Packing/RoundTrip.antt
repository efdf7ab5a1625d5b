-- ===== src/Packing/RoundTrip.antt =====
-- Compound data that are packed and read back.
use exm_turbine.Common.{
  ℕ, suc, ◌≤◌, ◌≡◌, Bool, Option, none, some, [], ◌∷◌, ◌++◌, arith, length, done,
}
use exm_turbine.Handle.{Bytes}
use exm_turbine.Packing.{DataType, no_type, no_extra, FullType, CompoundType, PackEnv}
use exm_turbine.Packing.Append.{Packer, tclobj_bin_append}
use exm_turbine.Packing.Unpack.{datum2tclobj}
use exm_turbine.Packing.Canonical.{canonical, framed, PackLaws}
use exm_turbine.Packing.Entries.{Returning}
use exm_turbine.Packing.Levels.{type-Returning}

abbrev head_type : CompoundType → DataType
head_type [] = no_type
head_type (t ∷ ts) = t.0

module _ (e : PackEnv) (l : PackLaws e) where
  -- More depth does no harm.
  deeper :
      (p : Packer) (sorted : Bool) (t : DataType) (m n : ℕ) (f : Bytes → Option Bytes)
      → m ≤ n
      → Returning e l p sorted t m f
      → Returning e l p sorted t n f
  deeper p sorted t m n f h g obj o q =
      let (packed, written, read) = g obj o q in
      (packed, written, λ d k z. read d (omega (arith, h, k)) z)

  types-Returning :
      (depth : ℕ) (sorted : Bool) (types : CompoundType)
      → Returning e l
          (tclobj_bin_append e depth types)
          sorted
          (head_type types)
          (length types)
          (canonical e sorted types)
  unfolding tclobj_bin_append canonical
  types-Returning depth sorted [] = λ obj o q. cc
  types-Returning depth sorted (t ∷ []) =
      type-Returning e l depth sorted 0 t none none none none tt tt
  types-Returning depth sorted (t ∷ k ∷ []) =
      type-Returning e l depth sorted 1 t (some (k.0, tclobj_bin_append e depth (k ∷ []))) none
        (some (canonical e sorted (k ∷ []))) none (types-Returning depth sorted (k ∷ [])) tt
  types-Returning depth sorted (t ∷ k ∷ v ∷ ts) =
      type-Returning e l depth sorted (suc (suc (length ts))) t
        (some (k.0, tclobj_bin_append e depth (k ∷ v ∷ ts)))
        (some (k.0, v.0, tclobj_bin_append e depth (v ∷ ts)))
        (some (canonical e sorted (k ∷ v ∷ ts))) (some (canonical e sorted (v ∷ ts)))
        (types-Returning depth sorted (k ∷ v ∷ ts))
        (deeper (tclobj_bin_append e depth (v ∷ ts)) sorted (v.0) (suc (length ts))
          (suc (suc (length ts))) (canonical e sorted (v ∷ ts)) (omega arith)
          (types-Returning depth sorted (v ∷ ts)))

  -- An object that `canonical` accepts for a compound type is packed behind whatever the buffer holds,
  -- with the length before it where that is asked for, and what was put there is read back, by
  -- `datum2tclobj` with the first of the types and as much depth as there are types, as the object
  -- that `canonical` gives: the same numbers, texts, dictionaries and lists, in the texts of new
  -- objects, sorted where that was asked for. No datum is larger than ADLB allows.
  pub tclobj_bin_append-datum2tclobj :
      (depth : ℕ) (sorted : Bool) (t : FullType) (types : CompoundType) (obj o : Bytes)
      → canonical e sorted (t ∷ types) obj ≡ some o
      → (packed : Bytes) × ((prefix_len : Bool) (output : Bytes)
          → tclobj_bin_append e depth (t ∷ types) obj prefix_len sorted output
            ≡ done (some (output ++ framed e (t.0) prefix_len packed)))
        × ((d : ℕ)
            → length (t ∷ types) ≤ d
            → length packed ≤ e.data_max
            → datum2tclobj e d (t.0, no_extra) packed ≡ done (some o))
  tclobj_bin_append-datum2tclobj depth sorted t types obj o q =
      types-Returning depth sorted (t ∷ types) obj o q
