-- ===== src/Blobs/Freed.antt =====
-- A blob that is retrieved and freed.
use exm_turbine.Common.{ℕ, ◌≡◌, refl, true, false, none, some, List, [], ◌∷◌, ℤ, pos, length, done}
use exm_turbine.Codes.{adlb_success}
use exm_turbine.Handle.{Bytes, SubParse, parse_handle}
use exm_turbine.Packing.{blob}
use exm_turbine.Packing.Objects.{extract_tcl_blob, build_tcl_blob}
use exm_turbine.Data.{DataEnv, sub_key}
use exm_turbine.Blobs.{
  BlobEnv, BlobState, alloc, free, free_found, release, blob_cache_key, cache_blob, uncache_blob,
  keep_blob, retrieve_with, retrieve_blob_impl, blob_free_cmd, blob_handle, local_blob_free_cmd,
}

module _ (e : DataEnv) (v : BlobEnv e) where
  open e use {packing, handles, retrieve, retrieve_no_refc}
  open v use {Table, add, remove, malloc, same}

  -- An address is the same as itself; a list with an address, a length and a handle gives them back;
  -- a key that was not in the table is removed as it was added.
  pub record FreeLaws : Type 0 where
    pub same_refl : (p : packing.Pointer) → same p p ≡ true
    pub list_read :
        (p : packing.Pointer) (n : ℕ) (h : Bytes)
        → (extract_tcl_blob packing (build_tcl_blob packing p n (some h)) ≡ some (p, pos n))
          × (blob_handle e v (build_tcl_blob packing p n (some h)) ≡ some h)
    pub add_remove :
        (k : Bytes) (p : packing.Pointer) (t t' : Table)
        → remove k t ≡ (none, t)
        → add k p t ≡ (true, t')
        → remove k t' ≡ (some p, t)

  module _ (l : FreeLaws) where
    abbrev pub state : e.State → List packing.Pointer → Table → BlobState e v
    state a live t = record { adlb = a; live = live; cache = t }

    found_freed :
        (a : e.State) (live : List packing.Pointer) (t : Table) (p : packing.Pointer)
        → free_found e v (some p) (state a (p ∷ live) t) ≡ done (some true, state a live t)
    unfolding release
    found_freed a live t p = rw (free_found, free, l.same_refl p) refl

    -- Where ADLB gives a blob that is not cached, there is memory for it and the table takes it: its
    -- memory is allocated and in the cache, and freeing the blob by the list that was returned, or by
    -- its handle, leaves the memory and the cache just as they were. Nothing is freed twice.
    pub retrieve_blob_impl-freed :
        (h bytes : Bytes) (id : ℤ) (sub : SubParse) (a a' : e.State) (live : List packing.Pointer)
        (t t' : Table) (p : packing.Pointer)
        → parse_handle handles h true ≡ done (some (id, sub))
        → retrieve id (sub_key sub) retrieve_no_refc a ≡ ((adlb_success, blob, bytes), a')
        → malloc (length bytes) live ≡ some p
        → remove (blob_cache_key e v id sub) t ≡ (none, t)
        → add (blob_cache_key e v id sub) p t ≡ (true, t')
        → (obj : Bytes) × (retrieve_blob_impl e v false (h ∷ []) (state a live t)
            ≡ done (some obj, state a' (p ∷ live) t'))
          × (local_blob_free_cmd e v (obj ∷ []) (state a' (p ∷ live) t')
              ≡ done (some [], state a' live t))
          × (blob_free_cmd e v (h ∷ []) (state a' (p ∷ live) t') ≡ done (some [], state a' live t))
    unfolding retrieve_blob_impl local_blob_free_cmd blob_free_cmd
    retrieve_blob_impl-freed h bytes id sub a a' live t t' p ph r m absent added =
        let re = l.add_remove (blob_cache_key e v id sub) p t t' absent added in
        let (x, y) = l.list_read p (length bytes) h in
        (
          build_tcl_blob packing p (length bytes) (some h),
          rw (ph, retrieve_with, r, keep_blob, alloc, m, cache_blob, added) refl,
          rw (x, y, ph, uncache_blob, re, found_freed a' live t p) refl,
          rw (ph, uncache_blob, re, found_freed a' live t p) refl,
        )
