-- ===== src/Packing/Entries.antt =====
-- The entries of a container and the lengths in front of data, written and read back.
use exm_turbine.Common.{
  ℕ, suc, ◌+◌, ◌-◌, ◌≤◌, ◌≡◌, refl, ap, sym, ◌∙◌, Bool, true, false, Option, none, some, List, [],
  ◌∷◌, ◌++◌, append_assoc, append-nil, arith, lt→ltb, length, length-append, length-replicate,
  replicate, take, Outcome, done, ◌>>=◌, if◌then◌else◌,
}
use exm_turbine.Handle.{Bytes, memcpy}
use exm_turbine.Handle.Memory.{memcpy-split, replicate-add, take-append}
use exm_turbine.Packing.{DataType, no_type, no_extra, PackEnv}
use exm_turbine.Packing.Objects.{map_some}
use exm_turbine.Packing.Append.{Packer, append_entries, append_padded}
use exm_turbine.Packing.Unpack.{Reader, read_entries, datum2tclobj, dict_put}
use exm_turbine.Packing.Canonical.{
  put_all, cons_some, all_values, and_then, padded, framed, PackLaws,
}

pub cons_some-inv {ℓ} :
    {A : Type ℓ} (o : Option A) (r : Option (List A)) {l : List A}
    → cons_some o r ≡ some l
    → (a : A) × (t : List A) × (o ≡ some a) × (r ≡ some t) × (a ∷ t ≡ l)
cons_some-inv none r q = cc
cons_some-inv (some a) none q = cc
cons_some-inv (some a) (some t) q = (a, t, refl, refl, cc)

pub map_some-inv {ℓ κ} :
    {A : Type ℓ} {B : Type κ} (f : A → B) (o : Option A) {b : B}
    → map_some f o ≡ some b
    → (a : A) × (o ≡ some a) × (f a ≡ b)
map_some-inv f none q = cc
map_some-inv f (some a) q = (a, refl, cc)

pub and_then-inv {ℓ κ} :
    {A : Type ℓ} {B : Type κ} (o : Option A) (f : A → Option B) {b : B}
    → and_then o f ≡ some b
    → (a : A) × (o ≡ some a) × (f a ≡ some b)
and_then-inv none f q = cc
and_then-inv (some a) f q = (a, refl, q)

module _ (e : PackEnv) (l : PackLaws e) where
  open e use {
    Float, dict_pairs, list_elements, lsort, entry, pad_size, vint_max, vint_encode, data_max,
    list_text, dict_text,
  }

  -- How a packer packs an object, and how what was packed is read, with enough depth.
  abbrev pub Packs : Packer → Bool → DataType → Bytes → Bytes → Type 0
  Packs p sorted t obj packed =
      (prefix_len : Bool) (out : Bytes)
      → p obj prefix_len sorted out ≡ done (some (out ++ framed e t prefix_len packed))

  abbrev pub Reads : ℕ → DataType → Bytes → Bytes → Type 0
  Reads n t packed o =
      (d : ℕ)
      → n ≤ d
      → length packed ≤ data_max
      → datum2tclobj e d (t, no_extra) packed ≡ done (some o)

  -- A packer with the function that says what comes back.
  abbrev pub Returning : Packer → Bool → DataType → ℕ → (Bytes → Option Bytes) → Type 0
  Returning p sorted t n f =
      (obj o : Bytes)
      → f obj ≡ some o
      → (packed : Bytes) × Packs p sorted t obj packed × Reads n t packed o

  length-framed : (t : DataType) (bs : Bytes) → length bs ≤ length (framed e t true bs)
  length-framed t bs = by_pad (pad_size t)
    where
      by_pad : (b : Bool) → length bs ≤ length (if b then padded e bs else entry no_type true bs)
      by_pad true = omega (
        arith,
        length-append
            (vint_encode (length bs) ++ replicate (vint_max - length (vint_encode (length bs))) 0)
            bs,
      )
      by_pad false = l.entry_length bs

  -- Room for a length that is then filled in.
  pub append_padded-framed :
      (inner : Bytes → Outcome (Option Bytes)) (packed : Bytes)
      → ((out : Bytes) → inner out ≡ done (some (out ++ packed)))
      → (prefix_len : Bool) (out : Bytes)
      → append_padded e prefix_len inner out
        ≡ done (some (out ++ (if prefix_len then padded e packed else packed)))
  unfolding append_padded
  append_padded-framed inner packed h false out = h out
  append_padded-framed inner packed h true out = rw (h (out ++ replicate vint_max 0)) (
      ap
        (λ n. memcpy ((out ++ replicate vint_max 0) ++ packed) (length out) (vint_encode n) >>= λ b.
          done (some b))
        counted
      ∙ ap (λ bs. memcpy bs (length out) v >>= λ b. done (some b)) split
      ∙ rw
          (memcpy-split out v (replicate (length v) 0) (replicate m 0 ++ packed) (length out) refl
            (sym (length-replicate {A = ℕ} (length v) 0)))
          (ap (λ bs. done (some (out ++ bs))) (sym (append_assoc v (replicate m 0) packed))))
    where
      v : Bytes
      v = vint_encode (length packed)

      m : ℕ
      m = vint_max - length v

      counted :
          length ((out ++ replicate vint_max 0) ++ packed) - length out - vint_max ≡ length packed
      counted = omega (
        arith,
        length-append (out ++ replicate vint_max 0) packed,
        length-append out (replicate vint_max 0),
        length-replicate {A = ℕ} vint_max 0,
      )

      split :
          (out ++ replicate vint_max 0) ++ packed
          ≡ out ++ (replicate (length v) 0 ++ (replicate m 0 ++ packed))
      split =
          append_assoc out (replicate vint_max 0) packed
          ∙ ap (λ bs. out ++ (bs ++ packed))
              (ap (λ n. replicate n 0) (omega (arith, l.vint_fits (length packed)))
                ∙ replicate-add (length v) m 0)
          ∙ ap (λ bs. out ++ bs) (append_assoc (replicate (length v) 0) (replicate m 0) packed)

  take_key : (key : Bytes) → take (length (key ++ (0 ∷ [])) - 1) (key ++ (0 ∷ [])) ≡ key
  take_key key = take-append key (0 ∷ []) _ (omega (arith, length-append key (0 ∷ [])))

  pub entry_fits :
      (t : DataType) (a packed body : Bytes)
      → length (a ++ (framed e t true packed ++ body)) ≤ data_max
      → (length body ≤ data_max) × (length packed ≤ data_max)
  entry_fits t a packed body h =
      let n : length (a ++ (framed e t true packed ++ body))
          ≡ length a + (length (framed e t true packed) + length body) =
        length-append a (framed e t true packed ++ body)
        ∙ ap (λ m. length a + m) (length-append (framed e t true packed) body) in
      (omega (arith, h, n), omega (arith, h, n, length-framed t packed))

  -- One entry more, written and read.
  append_entries_step :
      (kt : DataType) (p : Packer) (sorted : Bool) (k v : Bytes) (ps : List (Bytes × Bytes))
      (out b1 b2 : Bytes)
      → p v true sorted (out ++ entry kt true (k ++ (0 ∷ []))) ≡ done (some b1)
      → append_entries e kt p sorted ps b1 ≡ done (some b2)
      → append_entries e kt p sorted ((k, v) ∷ ps) out ≡ done (some b2)
  unfolding append_entries
  append_entries_step kt p sorted k v ps out b1 b2 h m = rw h m

  read_entries_step :
      (reader : Reader) (kt vt : DataType) (n : ℕ) (k packed body o : Bytes)
      (dict : List (Bytes × Bytes))
      → reader (vt, no_extra) packed ≡ done (some o)
      → read_entries e reader kt vt
          (suc n)
          (entry kt true (k ++ (0 ∷ [])) ++ (framed e vt true packed ++ body))
          dict
        ≡ read_entries e reader kt vt n body (dict_put k o dict)
  unfolding read_entries
  read_entries_step reader kt vt n k packed body o dict h =
      rw (l.container_entry_read kt vt (k ++ (0 ∷ [])) packed body, read_entries)
        (rw (h, lt→ltb 0 (length (k ++ (0 ∷ []))) (omega (arith, length-append k (0 ∷ []))))
          (ap (λ key. read_entries e reader kt vt n body (dict_put key o dict)) (take_key k)))

  read_nothing :
      (reader : Reader) (kt vt : DataType) (dict : List (Bytes × Bytes))
      → read_entries e reader kt vt 0 [] dict ≡ done (some dict)
  unfolding read_entries
  read_nothing reader kt vt dict = refl

  write_nothing :
      (kt : DataType) (p : Packer) (sorted : Bool) (out : Bytes)
      → append_entries e kt p sorted [] out ≡ done (some (out ++ []))
  unfolding append_entries
  write_nothing kt p sorted out = ap (λ bs. done (some bs)) (sym (append-nil out))

  -- The entries of a container.
  pub append_entries-read :
      (kt vt : DataType) (p : Packer) (sorted : Bool) (n : ℕ) (f : Bytes → Option Bytes)
      → Returning p sorted vt n f
      → (ps qs : List (Bytes × Bytes)) → all_values f ps ≡ some qs
      → (body : Bytes) × ((out : Bytes)
          → append_entries e kt p sorted ps out ≡ done (some (out ++ body)))
        × ((d : ℕ) (dict : List (Bytes × Bytes))
            → n ≤ d
            → length body ≤ data_max
            → read_entries e (datum2tclobj e d) kt vt (length ps) body dict
              ≡ done (some (put_all qs dict)))
  append_entries-read kt vt p sorted n f g [] qs q =
      let nothing : [] ≡ qs = cc in
      (
        [],
        write_nothing kt p sorted,
        λ d dict m h. read_nothing _ kt vt dict ∙ ap (λ qs. done (some (put_all qs dict))) nothing,
      )
  append_entries-read kt vt p sorted n f g ((k, v) ∷ ps) qs q =
      let (kv, qs', h1, h2, h3) =
        cons_some-inv (map_some (λ o. (k, o)) (f v)) (all_values f ps) q in
      let (o, h4, h5) = map_some-inv (λ o. (k, o)) (f v) h1 in
      let (packed, written, read) = g v o h4 in
      let (body, written', read') = append_entries-read kt vt p sorted n f g ps qs' h2 in
      (
        entry kt true (k ++ (0 ∷ [])) ++ (framed e vt true packed ++ body),
        λ out.
            append_entries_step kt p sorted k v ps out _ _
              (written true (out ++ entry kt true (k ++ (0 ∷ [])))) (written' _)
            ∙ ap (λ bs. done (some bs)) (simp append_assoc),
        λ d dict m h.
            let shorter : length body ≤ data_max × (length packed ≤ data_max) =
              entry_fits vt (entry kt true (k ++ (0 ∷ []))) packed body h in
            read_entries_step (datum2tclobj e d) kt vt (length ps) k packed body o dict
              (read d m shorter.1)
            ∙ read' d (dict_put k o dict) m shorter.0
            ∙ ap (λ qs. done (some (put_all qs dict))) (ap (λ p. p ∷ qs') h5 ∙ h3),
      )
