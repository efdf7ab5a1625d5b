-- ===== src/Data/Shapes.antt =====
-- The shapes of adlb::enumerate show the same entries.
use exm_turbine.Common.{
  ℕ, ◌-◌, ◌≡◌, refl, true, false, some, List, [], ◌∷◌, ◌++◌, append_assoc, map, pos, arith, lt→ltb,
  length, length-append, done,
}
use exm_turbine.Handle.{Bytes}
use exm_turbine.Handle.Memory.{take-append}
use exm_turbine.Packing.{DataType, no_type, no_extra}
use exm_turbine.Packing.Unpack.{dict_put, datum2tclobj}
use exm_turbine.Packing.Canonical.{framed, put_all}
use exm_turbine.Data.{DataEnv}
use exm_turbine.Data.Enumerate.{
  Records, read_key, read_value, enumerate_dict, enumerate_keys, enumerate_vals, enumerate_object,
}

-- An entry: its key, the packed value and the object of that.
pub record Entry : Type 0 where
  pub key : Bytes
  pub packed : Bytes
  pub object : Bytes

abbrev pub pair_of : Entry → Bytes × Bytes
pair_of x = (x.key, x.object)

module _ (e : DataEnv) where
  open e use {State, packing}

  abbrev pub key_bytes : Entry → Bytes
  key_bytes x = packing.entry no_type true (x.key ++ (0 ∷ []))

  abbrev pub val_bytes : DataType → Entry → Bytes
  val_bytes t x = framed packing t true x.packed

  -- The records of entries: keys, values, or each value behind its key.
  abbrev pub records_of : (Entry → Bytes) → List Entry → Bytes
  records_of f [] = []
  records_of f (x ∷ xs) = f x ++ records_of f xs

  abbrev pub AreEntries : ℕ → DataType → List Entry → Type 0
  AreEntries depth t [] = Unit
  AreEntries depth t (x ∷ xs) =
      (datum2tclobj packing depth (t, no_extra) x.packed ≡ done (some x.object))
      × AreEntries depth t xs

  -- ADLB_Unpack_buffer reads what ADLB_Append_buffer has written, keys and values.
  pub record RecordLaws : Type 0 where
    pub key_read :
        (k rest : Bytes)
        → packing.unpack_buffer no_type (packing.entry no_type true k ++ rest) ≡ some (k, rest)
    pub val_read :
        (t : DataType) (v rest : Bytes)
        → packing.unpack_buffer t (framed packing t true v ++ rest) ≡ some (v, rest)

  module _ (l : RecordLaws) where
    read_key-entry :
        (x : Entry) (rest : Bytes) → read_key e (key_bytes x ++ rest) ≡ done (some (x.key, rest))
    read_key-entry x rest =
        let n = length-append x.key (0 ∷ []) in
        let m : length (x.key ++ (0 ∷ [])) - 1 ≡ length x.key = omega (arith, n) in
        rw
          (
            read_key,
            l.key_read (x.key ++ (0 ∷ [])) rest,
            lt→ltb 0 (length (x.key ++ (0 ∷ []))) (omega (arith, n)),
            take-append x.key (0 ∷ []) _ m,
          )
          refl

    read_value-entry :
        (depth : ℕ) (t : DataType) (x : Entry) (rest : Bytes)
        → datum2tclobj packing depth (t, no_extra) x.packed ≡ done (some x.object)
        → read_value e depth t (val_bytes t x ++ rest) ≡ done (some (x.object, rest))
    read_value-entry depth t x rest h = rw (read_value, l.val_read t x.packed rest, h) refl

    keys_read :
        (xs : List Entry)
        → enumerate_keys e (length xs) (records_of key_bytes xs) ≡ done (some (map (λ x. x.key) xs))
    unfolding enumerate_keys
    keys_read [] = refl
    keys_read (x ∷ xs) = rw (read_key-entry x (records_of key_bytes xs), keys_read xs) refl

    vals_read :
        (depth : ℕ) (t : DataType) (xs : List Entry)
        → AreEntries depth t xs
        → enumerate_vals e depth t (length xs) (records_of (val_bytes t) xs)
          ≡ done (some (map (λ x. x.object) xs))
    unfolding enumerate_vals
    vals_read depth t [] h = refl
    vals_read depth t (x ∷ xs) h =
        rw
          (
            read_value-entry depth t x (records_of (val_bytes t) xs) (h.0),
            vals_read depth t xs (h.1),
          )
          refl

    dict_read :
        (depth : ℕ) (t : DataType) (xs : List Entry) (d : List (Bytes × Bytes))
        → AreEntries depth t xs
        → enumerate_dict e depth t (length xs) (records_of (λ x. key_bytes x ++ val_bytes t x) xs) d
          ≡ done (some (put_all (map pair_of xs) d))
    unfolding enumerate_dict
    dict_read depth t [] d h = refl
    dict_read depth t (x ∷ xs) d h =
        let rest = records_of (λ x. key_bytes x ++ val_bytes t x) xs in
        rw
          (
            append_assoc (key_bytes x) (val_bytes t x) rest,
            read_key-entry x (val_bytes t x ++ rest),
            read_value-entry depth t x rest (h.0),
          )
          (dict_read depth t xs (dict_put x.key x.object d) (h.1))

    abbrev pub packed_records : List Entry → DataType → (Entry → Bytes) → Records
    packed_records xs t f = record {
      data_bytes = records_of f xs;
      records = length xs;
      val_type = t;
    }

    -- Where ADLB gives the records of some entries, with values that can be converted: the shape
    -- `subscripts` is the list of the keys, `members` that of the values in the same order, `dict` the
    -- dictionary in which each key has its value, and `count` their number.
    pub enumerate_object-shapes :
        (depth : ℕ) (t : DataType) (xs : List Entry)
        → AreEntries depth t xs
        → (enumerate_object e depth true false (packed_records xs t key_bytes)
            ≡ done (some (packing.list_text (map (λ x. x.key) xs))))
          × (enumerate_object e depth false true (packed_records xs t (val_bytes t))
              ≡ done (some (packing.list_text (map (λ x. x.object) xs))))
          × (enumerate_object e depth true true
                (packed_records xs t (λ x. key_bytes x ++ val_bytes t x))
              ≡ done (some (packing.dict_text (put_all (map pair_of xs) []))))
          × (enumerate_object e depth false false (packed_records xs t (λ x. []))
              ≡ done (some (packing.int_text (pos (length xs)))))
    unfolding enumerate_object
    enumerate_object-shapes depth t xs h = (
      rw (keys_read xs) refl,
      rw (vals_read depth t xs h) refl,
      rw (dict_read depth t xs [] h) refl,
      refl,
    )
