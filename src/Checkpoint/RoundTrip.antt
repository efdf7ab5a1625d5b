-- ===== src/Checkpoint/RoundTrip.antt =====
-- Fields that are packed for a checkpoint and unpacked into variables.
use exm_turbine.Common.{
  ℕ, zero, suc, ◌+◌, ◌-◌, ◌/◌, ◌%◌, ◌≤◌, ◌≡◌, refl, ap, sym, ◌∙◌, Bool, true, false, Option, none,
  some, List, [], ◌∷◌, ◌++◌, append_assoc, append-nil, map, pos, arith, leb, le→leb, leb→le, length,
  length-append, done,
}
use exm_turbine.Handle.{Bytes}
use exm_turbine.Packing.{DataType, no_extra, CompoundType, PackEnv, get_compound_type}
use exm_turbine.Packing.Objects.{extract_tcl_blob, build_tcl_blob}
use exm_turbine.Packing.Append.{tclobj_bin_append}
use exm_turbine.Packing.Unpack.{datum2tclobj}
use exm_turbine.Packing.Canonical.{canonical, framed, PackLaws}
use exm_turbine.Packing.Grammar.{Compound, Spells, get_compound_type-Compound}
use exm_turbine.Packing.RoundTrip.{tclobj_bin_append-datum2tclobj}
use exm_turbine.Data.{and_next}
use exm_turbine.Checkpoint.{
  assign, pack_fields, xpt_pack_cmd, split_fields, unpack_fields, xpt_unpack_cmd,
}

-- A field: the words for its type and the type, its value, what comes back, and a variable for that.
pub record Field : Type 0 where
  pub name : Bytes
  pub names : List Bytes
  pub type : DataType
  pub types : CompoundType
  pub obj : Bytes
  pub back : Bytes
  pub var : Bytes

abbrev pub words_of : List Field → List Bytes
words_of [] = []
words_of (f ∷ fs) = f.name ∷ (f.names ++ (f.obj ∷ words_of fs))

-- The words of `xpt_unpack_cmd`, around a blob.
abbrev pub unpack_words : List Field → Bytes → List Bytes
unpack_words fs blob = map (λ f. f.var) fs ++ (blob ∷ map (λ f. f.name) fs)

length-map : {A B : Type 0} → (f : A → B) (xs : List A) → length (map f xs) ≡ length xs
length-map f [] = refl
length-map f (x ∷ xs) = ap suc (length-map f xs)

length-unpack_words :
    (fs : List Field) (blob : Bytes) → length (unpack_words fs blob) ≡ length fs + suc (length fs)
length-unpack_words fs blob =
    rw
      (
        length-append (map (λ f. f.var) fs) (blob ∷ map (λ f. f.name) fs),
        length-map (λ (f : Field). f.var) fs,
      )
      (ap (λ n. length fs + suc n) (length-map (λ (f : Field). f.name) fs))

module _ (e : PackEnv) where
  -- Each field takes a word at least.
  length-words_of : (fs : List Field) → length fs ≤ length (words_of fs)
  length-words_of [] = omega arith
  length-words_of (f ∷ fs) =
      let whole = length-append f.names (f.obj ∷ words_of fs) in
      let more = length-words_of fs in omega (arith, whole, more)

  -- The place of the blob is found from the number of words.
  split_fields-unpack_words :
      (fs : List Field) (blob : Bytes)
      → split_fields e (length fs) (unpack_words fs blob)
        ≡ some (map (λ f. f.var) fs, blob, map (λ f. f.name) fs)
  unfolding split_fields
  split_fields-unpack_words fs blob = split_at_blob fs (map (λ f. f.name) fs)
    where
      split_at_blob :
          (fs : List Field) (types : List Bytes)
          → split_fields e (length fs) (map (λ f. f.var) fs ++ (blob ∷ types))
            ≡ some (map (λ f. f.var) fs, blob, types)
      split_at_blob [] types = refl
      split_at_blob (f ∷ fs) types = rw (split_at_blob fs types) refl

  -- The type is spelled, as deep as is given at most, and takes the value.
  pub record IsField (d : ℕ) (f : Field) : Type 0 where
    pub spelled : Spells e (f.name ∷ f.names) ((f.type, no_extra) ∷ f.types)
    pub compound : Compound ((f.type, no_extra) ∷ f.types)
    pub comes_back : canonical e true ((f.type, no_extra) ∷ f.types) f.obj ≡ some f.back
    pub shallow : suc (length f.types) ≤ d

  abbrev pub AreFields : ℕ → List Field → Type 0
  AreFields d [] = Unit
  AreFields d (f ∷ fs) = IsField d f × AreFields d fs

  -- Blobs that are lists of an address and a length, and what ADLB_Unpack_buffer reads.
  pub record BlobLaws : Type 0 where
    pub blob_read :
        (p : e.Pointer) (n : ℕ) → extract_tcl_blob e (build_tcl_blob e p n none) ≡ some (p, pos n)
    pub copy_load : (b : Bytes) → e.load (e.copy b) (pos (length b)) ≡ b
    pub buffer_read :
        (t : DataType) (b rest : Bytes)
        → e.unpack_buffer t (framed e t true b ++ rest) ≡ some (b, rest)
    pub framed_length : (t : DataType) (b : Bytes) → length b ≤ length (framed e t true b)

  module _ {Vars : Type 0} (set_var : Bytes → Bytes → Vars → Option Vars) where
    -- Every variable set to what comes back.
    abbrev pub set_all : List Field → Vars → Option Vars
    set_all [] s = some s
    set_all (f ∷ fs) s = elim (set_var f.var f.back s) [ none ↦ none | some s' ↦ set_all fs s' ]

    module _ (l : PackLaws e) (b : BlobLaws) (depth d : ℕ) where
      -- What fields are packed to, behind anything, and how it is unpacked.
      abbrev Packed : List Field → Bytes → Type 0
      Packed fs bytes =
          ((fuel : ℕ) (out : Bytes)
            → length fs ≤ fuel
            → pack_fields e fuel depth (words_of fs) out ≡ done (some (out ++ bytes)))
          × ((s s' : Vars)
              → length bytes ≤ e.data_max
              → set_all fs s ≡ some s'
              → unpack_fields e set_var d (map (λ f. f.var) fs) (map (λ f. f.name) fs) bytes s
                ≡ done (some tt, s'))

      -- The types of a field are read from its words.
      field_types :
          (f : Field) (words : List Bytes)
          → IsField d f
          → get_compound_type e (f.name ∷ (f.names ++ (f.obj ∷ words)))
            ≡ done (some ((f.type, no_extra) ∷ f.types, f.obj ∷ words))
      field_types f words a =
          (get_compound_type-Compound e _ _ _).1 (a.compound, f.name ∷ f.names, refl, a.spelled)

      pack_field :
          (f : Field) (fs : List Field) (packed rest out : Bytes) (fuel : ℕ)
          → IsField d f
          → tclobj_bin_append e depth ((f.type, no_extra) ∷ f.types) f.obj true true out
            ≡ done (some (out ++ framed e f.type true packed))
          → pack_fields e fuel depth (words_of fs) (out ++ framed e f.type true packed)
            ≡ done (some ((out ++ framed e f.type true packed) ++ rest))
          → pack_fields e (suc fuel) depth (words_of (f ∷ fs)) out
            ≡ done (some (out ++ (framed e f.type true packed ++ rest)))
      unfolding pack_fields
      pack_field f fs packed rest out fuel a w r =
          rw (field_types f (words_of fs) a, w)
            (r ∙ ap (λ t. done (some t)) (append_assoc out _ rest))

      unpack_field :
          (f : Field) (fs : List Field) (packed rest : Bytes) (s s' : Vars)
          → IsField d f
          → datum2tclobj e d (f.type, no_extra) packed ≡ done (some f.back)
          → ((t : Vars)
              → set_all fs t ≡ some s'
              → unpack_fields e set_var d (map (λ f. f.var) fs) (map (λ f. f.name) fs) rest t
                ≡ done (some tt, s'))
          → set_all (f ∷ fs) s ≡ some s'
          → unpack_fields e set_var d
              (map (λ f. f.var) (f ∷ fs))
              (map (λ f. f.name) (f ∷ fs))
              (framed e f.type true packed ++ rest)
              s
            ≡ done (some tt, s')
      unfolding unpack_fields
      unpack_field f fs packed rest s s' a h k q =
          rw (a.spelled.0, b.buffer_read f.type packed rest, h)
            (by_set (set_var f.var f.back s) refl q)
        where
          by_set :
              (o : Option Vars)
              → set_var f.var f.back s ≡ o
              → elim o as (λ _. Option Vars) [ none ↦ none | some t ↦ set_all fs t ] ≡ some s'
              → and_next
                  (λ (u : Unit).
                    unpack_fields e set_var d (map (λ f. f.var) fs) (map (λ f. f.name) fs) rest)
                  (assign e set_var f.var f.back s)
                ≡ done (some tt, s')
          by_set none p q = cc
          by_set (some t) p q = rw (and_next, p) (k t q)

      fields-Packed : (fs : List Field) → AreFields d fs → (bytes : Bytes) × Packed fs bytes
      unfolding pack_fields unpack_fields
      fields-Packed [] a =
          ([], (λ fuel out h. ap (λ t. done (some t)) (sym (append-nil out)), λ s s' h q. cc))
      fields-Packed (f ∷ fs) a =
          let (packed, written, read) =
            tclobj_bin_append-datum2tclobj e l depth true (f.type, no_extra) f.types f.obj f.back
              a.0.comes_back in
          let (rest, (pack_rest, unpack_rest)) = fields-Packed fs (a.1) in
          let whole = length-append (framed e f.type true packed) rest in
          let part = b.framed_length f.type packed in
          (
            framed e f.type true packed ++ rest,
            (
              λ fuel out h.
                  fuel_pack fuel f fs packed rest out (a.0) (written true out) h pack_rest,
              λ s s' h q.
                  unpack_field f fs packed rest s s' (a.0)
                    (read d a.0.shallow (omega (arith, h, whole, part)))
                    (λ t. unpack_rest t s' (omega (arith, h, whole, part))) q,
            ),
          )
        where
          fuel_pack :
              (fuel : ℕ) (f : Field) (fs : List Field) (packed rest out : Bytes)
              → IsField d f
              → tclobj_bin_append e depth ((f.type, no_extra) ∷ f.types) f.obj true true out
                ≡ done (some (out ++ framed e f.type true packed))
              → suc (length fs) ≤ fuel
              → ((fuel : ℕ) (out : Bytes)
                  → length fs ≤ fuel
                  → pack_fields e fuel depth (words_of fs) out ≡ done (some (out ++ rest)))
              → pack_fields e fuel depth (words_of (f ∷ fs)) out
                ≡ done (some (out ++ (framed e f.type true packed ++ rest)))
          fuel_pack zero f fs packed rest out a w h r = absurd (omega (arith, h))
          fuel_pack (suc fuel) f fs packed rest out a w h r =
              pack_field f fs packed rest out fuel a w (r fuel _ (omega (arith, h)))

      abbrev pub blob_of : Bytes → Bytes
      blob_of bytes = build_tcl_blob e (e.copy bytes) (length bytes) none

      -- What is unpacked, where a datum may be as large as all that was packed.
      abbrev pub Unpacked : Bool → List Field → Bytes → Vars → Vars → Type 0
      Unpacked false fs bytes s s' = Unit
      Unpacked true fs bytes s s' =
          xpt_unpack_cmd e set_var d (unpack_words fs (blob_of bytes)) s ≡ done (some tt, s')

      -- Any number of fields, each a value that `canonical` accepts after the words that spell its full
      -- type, is packed into a blob. Where that is no larger than a datum may be, the names of as many
      -- variables, the blob and the first words of the types unpack it: every variable is set to its
      -- value in the canonical form, with entries sorted, one after the other.
      pub xpt_pack_cmd-xpt_unpack_cmd :
          (fs : List Field) (s s' : Vars)
          → AreFields d fs
          → set_all fs s ≡ some s'
          → (bytes : Bytes) × (xpt_pack_cmd e depth (words_of fs) ≡ done (some (blob_of bytes)))
            × Unpacked (leb (length bytes) e.data_max) fs bytes s s'
      unfolding xpt_pack_cmd xpt_unpack_cmd
      xpt_pack_cmd-xpt_unpack_cmd fs s s' a q =
          let (bytes, (pack, unpack)) = fields-Packed fs a in
          (
            bytes,
            rw (pack (length (words_of fs)) [] (length-words_of fs)) refl,
            within bytes (leb (length bytes) e.data_max) refl (λ h. unpack s s' h q),
          )
        where
          within :
              (bytes : Bytes) (test : Bool)
              → leb (length bytes) e.data_max ≡ test
              → (length bytes ≤ e.data_max
                  → unpack_fields e set_var d (map (λ f. f.var) fs) (map (λ f. f.name) fs) bytes s
                    ≡ done (some tt, s'))
              → Unpacked test fs bytes s s'
          within bytes false h k = tt
          within bytes true h k =
              let n = length-unpack_words fs (blob_of bytes) in
              let half : (length (unpack_words fs (blob_of bytes)) - 1) / 2 ≡ length fs =
                omega (arith, n) in
              let odd : length (unpack_words fs (blob_of bytes)) % 2 ≡ 1 = omega (arith, n) in
              let some_words : leb 1 (length (unpack_words fs (blob_of bytes))) ≡ true =
                le→leb _ _ (omega (arith, n)) in
              rw
                (
                  some_words,
                  odd,
                  half,
                  split_fields-unpack_words fs (blob_of bytes),
                  b.blob_read (e.copy bytes) (length bytes),
                  b.copy_load bytes,
                )
                (k (leb→le _ _ h))
