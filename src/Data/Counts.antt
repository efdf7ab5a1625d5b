-- ===== src/Data/Counts.antt =====
-- Reference counts, sizes and references.
use exm_turbine.Common.{
  ℕ, zero, suc, Bool, false, ◌&&◌, Option, none, some, List, [], ◌∷◌, ℤ, pos, negsuc, leb, length,
  if◌then◌else◌,
}
use exm_turbine.Codes.{AdlbCode}
use exm_turbine.Handle.{Bytes, SubKind, extract_handle_id, parse_handle}
use exm_turbine.Packing.{DataType}
use exm_turbine.Packing.Objects.{bytes_eq}
use exm_turbine.Data.{
  Refc, Cmd, ◌>>=◌, pure, lift, demand, condition, call, next, is_success, sub_key, DataEnv,
  optional_int,
}
use exm_turbine.Data.Access.{decrements, subscripted}

-- `adlb_refcount_type`.
pub data RefcountType : Type 0 where
  read_refcount write_refcount readwrite_refcount : RefcountType

-- `-change` of an int: the least one has no negative, which the code does not guard against.
abbrev pub negated : ℤ → ℤ
negated (pos zero) = pos zero
negated (pos (suc n)) = negsuc n
negated (negsuc n) = pos (suc n)

unfoldable pub refcount_mode : Bytes → Option RefcountType
refcount_mode obj =
    if bytes_eq obj (b'r' ∷ [])
    then some read_refcount
    else if bytes_eq obj (b'w' ∷ [])
    then some write_refcount
    else if bytes_eq obj (b'r' ∷ b'w' ∷ [])
    then some readwrite_refcount
    else none

-- What the ADLB library does for these commands.
pub record CountsEnv (e : DataEnv) : Type 0 where
  -- ADLB_Refcount_incr, ADLB_Container_size and ADLB_Container_reference(id, sub, ref_id, ref_sub,
  -- ref_type, transfer, ref_write_decr).
  pub refcount_incr : ℤ → Refc → e.State → AdlbCode × e.State
  pub container_size : ℤ → Refc → e.State → (AdlbCode × ℕ) × e.State
  pub container_reference :
      ℤ → Option Bytes → ℤ → Option Bytes → DataType → Refc → ℤ → e.State → AdlbCode × e.State

module _ (e : DataEnv) (c : CountsEnv e) where
  open e use {State, handles, packing, get_int, no_refc, read_refc, write_refc, has_sub}

  -- Which counts change.
  unfoldable pub count_change : RefcountType → ℤ → Refc
  count_change read_refcount n = record no_refc { read = n }
  count_change write_refcount n = record no_refc { write = n }
  count_change readwrite_refcount n = record { read = n; write = n }

  abbrev pub amount_of : Option Bytes → Option ℤ
  amount_of none = some (pos 1)
  amount_of (some obj) = get_int obj

  unfoldable pub refcount_incr_impl : RefcountType → Bytes → Option Bytes → Bool → Cmd State Bytes
  unfolding count_change
  refcount_incr_impl type var amount negate = do
    id ← demand (extract_handle_id handles var)
    n ← demand (amount_of amount)
    rc ← call (c.refcount_incr id (count_change type (if negate then negated n else n)))
    _ ← condition (is_success rc)
    pure []

  pub refcount_incr_cmd : List Bytes → Cmd State Bytes
  unfolding refcount_mode
  refcount_incr_cmd (var ∷ mode ∷ amount ∷ []) =
      demand (refcount_mode mode) >>= λ type. refcount_incr_impl type var (some amount) false
  refcount_incr_cmd _ = demand none

  -- adlb::read_refcount_incr and adlb::read_refcount_decr.
  unfoldable pub read_refcount_cmd : Bool → List Bytes → Cmd State Bytes
  unfolding refcount_incr_impl
  read_refcount_cmd negate (var ∷ []) = refcount_incr_impl read_refcount var none negate
  read_refcount_cmd negate (var ∷ amount ∷ []) =
      refcount_incr_impl read_refcount var (some amount) negate
  read_refcount_cmd negate _ = demand none

  -- One takes a handle, and the other only an id.
  abbrev pub change_writes : Option ℤ → Option ℤ → (ℤ → Refc) → Cmd State Bytes
  change_writes id amount change = do
    i ← demand id
    n ← demand amount
    rc ← call (c.refcount_incr i (change n))
    _ ← condition (is_success rc)
    pure []

  unfoldable pub write_refcount_incr_cmd : List Bytes → Cmd State Bytes
  write_refcount_incr_cmd (obj ∷ []) =
      change_writes (extract_handle_id handles obj) (some write_refc.write)
        (λ n. record write_refc { write = n })
  write_refcount_incr_cmd (obj ∷ amount ∷ []) =
      change_writes (extract_handle_id handles obj) (get_int amount)
        (λ n. record write_refc { write = n })
  write_refcount_incr_cmd _ = demand none

  unfoldable pub write_refcount_decr_cmd : List Bytes → Cmd State Bytes
  write_refcount_decr_cmd (obj ∷ []) =
      change_writes (packing.get_int obj) (some (pos 1))
        (λ n. record { read = pos 0; write = negated n })
  write_refcount_decr_cmd (obj ∷ amount ∷ []) =
      change_writes (packing.get_int obj) (get_int amount)
        (λ n. record { read = pos 0; write = negated n })
  write_refcount_decr_cmd _ = demand none

  pub container_size_cmd : List Bytes → Cmd State Bytes
  container_size_cmd words = do
    _ ← condition (leb 1 (length words))
    w ← next words
    id ← demand (packing.get_int (w.0))
    decr ← decrements e (w.1)
    r ← call (c.container_size id decr)
    _ ← condition (is_success (r.0))
    pure (packing.int_text (pos (r.1)))

  -- The handle of the reference is parsed into a buffer of its own.
  pub reference_impl : SubKind → List Bytes → Cmd State Bytes
  reference_impl kind words = do
    _ ← condition (leb 4 (length words) && leb (length words) 7)
    h ← subscripted e kind words
    _ ← condition (has_sub h.1.val)
    w ← next (h.2)
    target ← lift (parse_handle handles (w.0) false)
    t ← next (w.1)
    ref_type ← demand (packing.type_of_name (t.0))
    decr ← optional_int e (pos 1) (t.1)
    readers ← optional_int e read_refc.read (decr.1)
    writers ← optional_int e read_refc.write (readers.1)
    rc ← call (
        c.container_reference (h.0) (sub_key (h.1)) (target.0) (sub_key (target.1)) (ref_type.0)
          (record { read = readers.0; write = writers.0 }) (decr.0))
    _ ← condition (is_success rc)
    pure []
