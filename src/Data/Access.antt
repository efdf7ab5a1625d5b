-- ===== src/Data/Access.antt =====
-- Storing, retrieving, inserting and looking up data, and the tests on them.
use exm_turbine.Common.{
  ℕ, zero, suc, ◌+◌, Bool, true, false, ◌&&◌, ◌||◌, not, Option, none, some, List, [], ◌∷◌, ℤ, pos,
  leb, length, ◌==◌, if◌then◌else◌, starved,
}
use exm_turbine.Codes.{AdlbCode}
use exm_turbine.Handle.{Bytes, SubKind, SubParse}
use exm_turbine.Packing.{
  DataType, no_type, container, multiset, no_extra, FullType, get_compound_type,
}
use exm_turbine.Packing.Append.{tclobj2bin_compound, tclobj2bin}
use exm_turbine.Packing.Unpack.{type_eq, datum2tclobj}
use exm_turbine.Data.{
  Refc, RetrieveRefc, Cmd, ◌>>=◌, pure, lift, demand, condition, asserted, call, next, is_success,
  is_nothing, is_end, sub_key, DataEnv, parsed_handle, with_subscript, int_arg, optional_int,
}

-- The types that take more types, which follow them.
abbrev pub is_nested : DataType → Bool
is_nested container = true
is_nested multiset = true
is_nested _ = false

module _ (e : DataEnv) where
  open e use {
    State, packing, get_int, bool_text, has_sub, no_refc, read_refc, write_refc, retrieve_no_refc,
    store, retrieve, exists, refcount_get, insert_atomic,
  }

  -- The type, the packed value and the words behind it. `depth` is how deep structs may lie in structs.
  -- A type that takes more types is read again with them, and a value that is not there is read anyway.
  unfoldable pub compound_data :
      ℕ → DataType → List Bytes → Cmd State (DataType × Bytes × List Bytes)
  compound_data depth t words = do
    types ← lift (get_compound_type packing words)
    obj ← next (types.1)
    bytes ← lift (tclobj2bin_compound packing depth (types.0) (obj.0) false)
    pure (t, bytes, obj.1)

  unfoldable pub single_data : ℕ → FullType → List Bytes → Cmd State (DataType × Bytes × List Bytes)
  single_data depth type words = do
    obj ← next words
    bytes ← lift (tclobj2bin packing depth type (obj.0) false)
    pure (type.0, bytes, obj.1)

  unfoldable pub store_data : ℕ → List Bytes → Cmd State (DataType × Bytes × List Bytes)
  unfolding compound_data single_data
  store_data depth words = do
    t ← next words
    type ← demand (packing.type_of_name (t.0))
    if is_nested (type.0) then compound_data depth (type.0) words else single_data depth type (t.1)

  unfoldable pub store_cmd : ℕ → List Bytes → Cmd State Bytes
  unfolding store_data
  store_cmd depth words = do
    _ ← condition (leb 3 (length words))
    w ← next words
    handle ← parsed_handle e (w.0)
    d ← store_data depth (w.1)
    writers ← optional_int e write_refc.write (d.2)
    readers ← optional_int e write_refc.read (writers.1)
    store_readers ← optional_int e read_refc.read (readers.1)
    store_writers ← optional_int e read_refc.write (store_readers.1)
    _ ← condition (is_end (store_writers.1))
    rc ← call (
        store (handle.0) (sub_key (handle.1)) (d.0) (d.1)
          (record { read = readers.0; write = writers.0 })
          (record { read = store_readers.0; write = store_writers.0 }))
    _ ← condition (is_success rc)
    pure []

  abbrev pub given_type : List Bytes → Cmd State FullType
  given_type [] = pure (no_type, no_extra)
  given_type (w ∷ ws) = demand (packing.type_of_name w)

  abbrev pub read_refc_of : ℤ → RetrieveRefc
  read_refc_of n = record retrieve_no_refc {
    decr_self = record retrieve_no_refc.decr_self { read = n };
  }

  -- `decr`: whether the second word is an amount. `depth` is how deep data may lie in data.
  unfoldable pub retrieve_impl : ℕ → Bool → List Bytes → Cmd State Bytes
  retrieve_impl depth decr words = do
    _ ← condition (
        if decr
        then length words == 2 || length words == 3
        else length words == 1 || length words == 2)
    w ← next words
    handle ← parsed_handle e (w.0)
    amount ← if decr then int_arg e (w.1) else pure (pos 0, w.1)
    given ← given_type (amount.1)
    r ← call (retrieve (handle.0) (sub_key (handle.1)) (read_refc_of (amount.0)))
    _ ← condition (is_success (r.0))
    _ ← condition (type_eq (given.0) no_type || type_eq (given.0) (r.1))
    lift (datum2tclobj packing depth (r.1, given.1) (r.2))

  -- The subscript that the next word adds where there is a kind: `none` is ADLB_SUB_NONE.
  abbrev pub subscript_arg :
      Option SubKind → SubParse → List Bytes → Cmd State (SubParse × List Bytes)
  subscript_arg none p words = pure (p, words)
  subscript_arg (some kind) p words = do
    w ← next words
    p' ← with_subscript e kind (w.0) p
    pure (p', w.1)

  -- adlb::acquire_ref and its variants.
  pub acquire_ref_impl : ℕ → Bool → Option SubKind → List Bytes → Cmd State Bytes
  acquire_ref_impl depth write_ref kind words = do
    _ ←
        condition
          (length words == 4 + (if write_ref then 1 else 0) + (elim kind [ none ↦ 0 | some k ↦ 1 ]))
    w ← next words
    handle ← parsed_handle e (w.0)
    sub ← subscript_arg kind (handle.1) (w.1)
    t ← next (sub.1)
    expected ← demand (packing.type_of_name (t.0))
    incr_read ← int_arg e (t.1)
    incr_write ←
        if write_ref
        then int_arg e (incr_read.1)
        else pure (retrieve_no_refc.incr_referand.write, incr_read.1)
    decr_read ← int_arg e (incr_write.1)
    r ← call (
        retrieve (handle.0) (sub_key (sub.0)) (record {
          decr_self = record retrieve_no_refc.decr_self { read = decr_read.0 };
          incr_referand = record { read = incr_read.0; write = incr_write.0 };
        }))
    _ ← condition (is_success (r.0))
    _ ← condition (type_eq (expected.0) (r.1))
    lift (datum2tclobj packing depth (r.1, expected.1) (r.2))

  -- What adlb::exists, adlb::exists_sub and adlb::closed take off the counts.
  abbrev pub decrements : List Bytes → Cmd State Refc
  decrements words = do
    readers ← optional_int e no_refc.read words
    writers ← optional_int e no_refc.write (readers.1)
    _ ← condition (is_end (writers.1))
    pure (record { read = readers.0; write = writers.0 })

  pub exists_impl : Option SubKind → List Bytes → Cmd State Bytes
  exists_impl kind words = do
    _ ← condition (leb (elim kind [ none ↦ 1 | some k ↦ 2 ]) (length words))
    w ← next words
    handle ← parsed_handle e (w.0)
    sub ← subscript_arg kind (handle.1) (w.1)
    decr ← decrements (sub.1)
    r ← call (exists (handle.0) (sub_key (sub.0)) decr)
    _ ← condition (is_success (r.0))
    pure (bool_text (r.1))

  pub closed_cmd : List Bytes → Cmd State Bytes
  closed_cmd words = do
    _ ← condition (leb 1 (length words))
    w ← next words
    handle ← parsed_handle e (w.0)
    decr ← decrements (w.1)
    r ← call (refcount_get (handle.0) decr)
    _ ← condition (is_success (r.0))
    pure (bool_text (elim (r.1.write) as (λ _. Bool) [ pos zero ↦ true | _ ↦ false ]))

  -- The handle in the first word with the subscript in the second, and the other words.
  abbrev pub subscripted : SubKind → List Bytes → Cmd State (ℤ × SubParse × List Bytes)
  subscripted kind words = do
    w ← next words
    handle ← parsed_handle e (w.0)
    v ← next (w.1)
    sub ← with_subscript e kind (v.0) (handle.1)
    pure (handle.0, sub, v.1)

  unfoldable pub insert_impl : ℕ → SubKind → List Bytes → Cmd State Bytes
  insert_impl depth kind words = do
    _ ← condition (leb 3 (length words))
    h ← subscripted kind words
    _ ← condition (has_sub h.1.val)
    member ← next (h.2)
    t ← next (member.1)
    type ← demand (packing.type_of_name (t.0))
    bytes ← lift (tclobj2bin packing depth type (member.0) false)
    writers ← optional_int e no_refc.write (t.1)
    readers ← optional_int e no_refc.read (writers.1)
    _ ← condition (is_end (readers.1))
    rc ← call (
        store (h.0) (sub_key (h.1)) (type.0) bytes (record { read = readers.0; write = writers.0 })
          read_refc)
    _ ← condition (is_success rc)
    pure []

  -- The counts that adlb::insert_atomic and adlb::create_nested take at the end.
  abbrev pub nested_refcounts : List Bytes → Cmd State RetrieveRefc
  nested_refcounts words = do
    incr_read ← optional_int e retrieve_no_refc.incr_referand.read words
    incr_write ← optional_int e retrieve_no_refc.incr_referand.write (incr_read.1)
    decr_write ← optional_int e retrieve_no_refc.decr_self.write (incr_write.1)
    decr_read ← optional_int e retrieve_no_refc.decr_self.read (decr_write.1)
    _ ← condition (is_end (decr_read.1))
    pure (record {
      decr_self = record { read = decr_read.0; write = decr_write.0 };
      incr_referand = record { read = incr_read.0; write = incr_write.0 };
    })

  pub insert_atomic_cmd : List Bytes → Cmd State Bytes
  insert_atomic_cmd words = do
    _ ← condition (leb 2 (length words))
    h ← subscripted SubKind.container words
    refcounts ← nested_refcounts (h.2)
    r ← call (insert_atomic (h.0) (sub_key (h.1)) refcounts)
    _ ← condition (is_success (r.0))
    pure (bool_text (r.1))

  -- The loop of ADLB_Lookup_Impl, with `again` rounds after the first.
  unfoldable pub lookup_loop :
      ℕ → Bool → ℤ → SubParse → RetrieveRefc → Cmd State (AdlbCode × DataType × Bytes)
  lookup_loop zero spin id sub refcounts = do
    r ← call (retrieve id (sub_key sub) refcounts)
    if spin && is_nothing (r.0) then (λ s. starved) else pure r
  lookup_loop (suc again) spin id sub refcounts = do
    r ← call (retrieve id (sub_key sub) refcounts)
    if spin && is_nothing (r.0) then lookup_loop again spin id sub refcounts else pure r

  abbrev pub lookup_refcounts : List Bytes → Cmd State RetrieveRefc
  lookup_refcounts words = do
    decr_read ← optional_int e retrieve_no_refc.decr_self.read words
    incr_read ← optional_int e retrieve_no_refc.incr_referand.read (decr_read.1)
    decr_write ← optional_int e retrieve_no_refc.decr_self.write (incr_read.1)
    incr_write ← optional_int e retrieve_no_refc.incr_referand.write (decr_write.1)
    _ ← condition (is_end (incr_write.1))
    pure (record {
      decr_self = record { read = decr_read.0; write = decr_write.0 };
      incr_referand = record { read = incr_read.0; write = incr_write.0 };
    })

  pub lookup_impl : ℕ → ℕ → SubKind → Bool → List Bytes → Cmd State Bytes
  unfolding lookup_loop
  lookup_impl again depth kind spin words = do
    _ ← condition (leb 2 (length words))
    h ← subscripted kind words
    _ ← condition (has_sub h.1.val)
    refcounts ← lookup_refcounts (h.2)
    r ← lookup_loop again spin (h.0) (h.1) refcounts
    _ ← condition (is_success (r.0))
    _ ← asserted (not (type_eq (r.1) no_type))
    lift (datum2tclobj packing depth (r.1, no_extra) (r.2))
