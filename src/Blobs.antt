-- ===== src/Blobs.antt =====
-- Blobs in the memory of a process, of code/src/tcl/adlb/tcl-adlb.c: the cache of retrieved blobs and
-- the commands that fill it and free from it. What is modelled of memory is which addresses are
-- allocated, not what lies there.
use exm_turbine.Common.{
  ℕ, zero, suc, ◌+◌, Bool, true, false, not, ◌&&◌, ◌||◌, Option, none, some, List, [], ◌∷◌, ◌++◌, ℤ,
  pos, ◌==◌, length, Outcome, done, fault, if◌then◌else◌,
}
use exm_turbine.Codes.{AdlbCode}
use exm_turbine.Handle.{Bytes, SubParse, parse_handle}
use exm_turbine.Packing.{DataType, blob}
use exm_turbine.Packing.Objects.{extract_tcl_blob, build_tcl_blob}
use exm_turbine.Packing.Unpack.{type_eq}
use exm_turbine.Data.{
  Refc, RetrieveRefc, DataEnv, Cmd, ◌>>=◌, pure, lift, demand, condition, is_success, sub_key,
}
use exm_turbine.Data.Access.{read_refc_of}
pub mod Freed
mod Tests

-- The table of the c-utils library (table_bp_add, table_bp_remove), and the C library's memory.
pub record BlobEnv (e : DataEnv) : Type 1 where
  pub Table : Type 0
  pub add : Bytes → e.packing.Pointer → Table → Bool × Table
  pub remove : Bytes → Table → Option e.packing.Pointer × Table
  -- The bytes of an `adlb_datum_id`.
  pub id_bytes : ℤ → Bytes
  -- malloc, from what is allocated already, and tests on addresses.
  pub malloc : ℕ → List e.packing.Pointer → Option e.packing.Pointer
  pub same : e.packing.Pointer → e.packing.Pointer → Bool
  pub is_null : e.packing.Pointer → Bool

module _ (e : DataEnv) (v : BlobEnv e) where
  open e use {
    packing, handles, get_int, has_sub, retrieve, store, no_refc, write_refc, retrieve_no_refc,
  }
  open v use {Table, add, remove, id_bytes, malloc, same, is_null}

  -- ADLB's state, the allocated addresses and `blob_cache`.
  pub record BlobState : Type 0 where
    pub adlb : e.State
    pub live : List packing.Pointer
    pub cache : Table

  -- free: what is not allocated may not be freed.
  unfoldable pub release : packing.Pointer → List packing.Pointer → Option (List packing.Pointer)
  release p [] = none
  release p (q ∷ live) =
      if same p q then some live else elim (release p live) [ none ↦ none | some l ↦ some (q ∷ l) ]

  abbrev pub free : packing.Pointer → Cmd BlobState Unit
  free p s = elim (release p s.live) [
    | none ↦ fault
    | some l ↦ done (some tt, record s { live = l })
  ]

  abbrev pub alloc : ℕ → Cmd BlobState packing.Pointer
  alloc n s = elim (malloc n s.live) [
    | none ↦ done (none, s)
    | some p ↦ done (some p, record s { live = p ∷ s.live })
  ]

  abbrev pub on_adlb : {A : Type 0} → (e.State → A × e.State) → Cmd BlobState A
  on_adlb f s = let r = f s.adlb in done (some (r.0), record s { adlb = r.1 })

  -- The bytes of the id, and behind them those of the subscript where there is one.
  abbrev pub sub_bytes : Option Bytes → Bytes
  sub_bytes none = []
  sub_bytes (some b) = b

  unfoldable pub blob_cache_key : ℤ → SubParse → Bytes
  blob_cache_key id sub =
      if has_sub sub.val then id_bytes id ++ sub_bytes (sub_key sub) else id_bytes id

  unfoldable pub cache_blob : ℤ → SubParse → packing.Pointer → Cmd BlobState Unit
  unfolding blob_cache_key
  cache_blob id sub p s =
      let r = add (blob_cache_key id sub) p s.cache in condition (r.0) (record s { cache = r.1 })

  abbrev pub free_found : Option packing.Pointer → Cmd BlobState Bool
  free_found none = pure false
  free_found (some p) = free p >>= λ u. pure true

  unfoldable pub uncache_blob : ℤ → SubParse → Cmd BlobState Bool
  unfolding blob_cache_key release
  uncache_blob id sub s =
      let r = remove (blob_cache_key id sub) s.cache in free_found (r.0) (record s { cache = r.1 })

  -- The blob that was retrieved, copied to new memory that the cache owns.
  unfoldable pub keep_blob : Bytes → ℤ → SubParse → Bytes → Cmd BlobState Bytes
  unfolding cache_blob
  keep_blob handle id sub bytes = do
    p ← alloc (length bytes)
    _ ← cache_blob id sub p
    pure (build_tcl_blob packing p (length bytes) (some handle))

  unfoldable pub retrieve_with : Bytes → (ℤ × SubParse) → RetrieveRefc → Cmd BlobState Bytes
  unfolding keep_blob
  retrieve_with handle h refcounts = do
    r ← on_adlb (retrieve (h.0) (sub_key (h.1)) refcounts)
    _ ← condition (is_success (r.0))
    _ ← condition (type_eq (r.1) blob)
    keep_blob handle (h.0) (h.1) (r.2)

  -- adlb::retrieve_blob, and with `decr` adlb::retrieve_decr_blob.
  unfoldable pub retrieve_blob_impl : Bool → List Bytes → Cmd BlobState Bytes
  unfolding retrieve_with
  retrieve_blob_impl false (handle ∷ []) =
      lift (parse_handle handles handle true) >>= λ h. retrieve_with handle h retrieve_no_refc
  retrieve_blob_impl true (handle ∷ amount ∷ []) = do
    h ← lift (parse_handle handles handle true)
    n ← demand (get_int amount)
    retrieve_with handle h (read_refc_of e n)
  retrieve_blob_impl _ _ = demand none

  unfoldable pub blob_free_cmd : List Bytes → Cmd BlobState Bytes
  unfolding uncache_blob
  blob_free_cmd (handle ∷ []) = do
    h ← lift (parse_handle handles handle true)
    found ← uncache_blob (h.0) (h.1)
    _ ← condition found
    pure []
  blob_free_cmd _ = demand none

  -- The handle in the list of a blob, where there is one.
  abbrev pub blob_handle : Bytes → Option Bytes
  blob_handle obj = elim (packing.list_elements obj) [ some (p ∷ n ∷ h ∷ []) ↦ some h | _ ↦ none ]

  abbrev pub free_value : packing.Pointer → Cmd BlobState Bytes
  free_value p = if is_null p then pure [] else (free p >>= λ u. pure [])

  abbrev pub free_by_handle : packing.Pointer → Option Bytes → Cmd BlobState Bytes
  free_by_handle p none = free_value p
  free_by_handle p (some handle) = do
    h ← lift (parse_handle handles handle true)
    cached ← uncache_blob (h.0) (h.1)
    if cached then pure [] else free_value p

  unfoldable pub local_blob_free_cmd : List Bytes → Cmd BlobState Bytes
  unfolding uncache_blob
  local_blob_free_cmd (obj ∷ []) =
      demand (extract_tcl_blob packing obj) >>= λ b. free_by_handle (b.0) (blob_handle obj)
  local_blob_free_cmd _ = demand none
