-- ===== src/Data/Enumerate.antt =====
-- adlb::enumerate: the entries of a container in the shape that a word asks for.
use exm_turbine.Common.{
  ℕ, zero, suc, ◌-◌, Bool, true, false, Option, none, some, List, [], ◌∷◌, ℤ, pos, negsuc, leb,
  length, ltb, take, Outcome, assert, done, if◌then◌else◌,
}
use exm_turbine.Codes.{AdlbCode}
use exm_turbine.Handle.{Bytes}
use exm_turbine.Packing.{DataType, no_type, no_extra}
use exm_turbine.Packing.Objects.{bytes_eq}
use exm_turbine.Packing.Append.{then_some}
use exm_turbine.Packing.Unpack.{dict_put, datum2tclobj}
use exm_turbine.Data.{Refc, Cmd, ◌>>=◌, lift, demand, condition, call, next, is_success, DataEnv}
use exm_turbine.Data.Access.{decrements}

abbrev pub subscripts : Bytes
subscripts = b's' ∷ b'u' ∷ b'b' ∷ b's' ∷ b'c' ∷ b'r' ∷ b'i' ∷ b'p' ∷ b't' ∷ b's' ∷ []

abbrev pub members : Bytes
members = b'm' ∷ b'e' ∷ b'm' ∷ b'b' ∷ b'e' ∷ b'r' ∷ b's' ∷ []

abbrev pub dict : Bytes
dict = b'd' ∷ b'i' ∷ b'c' ∷ b't' ∷ []

abbrev pub count : Bytes
count = b'c' ∷ b'o' ∷ b'u' ∷ b'n' ∷ b't' ∷ []

abbrev pub all : Bytes
all = b'a' ∷ b'l' ∷ b'l' ∷ []

-- include_keys and include_vals.
unfoldable pub set_enumerate_params : Bytes → Option (Bool × Bool)
set_enumerate_params token =
    if bytes_eq token subscripts
    then some (true, false)
    else if bytes_eq token members
    then some (false, true)
    else if bytes_eq token dict
    then some (true, true)
    else if bytes_eq token count
    then some (false, false)
    else none

-- What ADLB_Enumerate gives: the packed records, their number and the type of the values.
pub record Records : Type 0 where
  pub data_bytes : Bytes
  pub records : ℕ
  pub val_type : DataType

module _ (e : DataEnv) where
  open e use {State, packing, get_int}

  -- A key without its terminator is read on until Tcl finds one.
  abbrev pub read_key : Bytes → Outcome (Option (Bytes × Bytes))
  read_key rest = elim (packing.unpack_buffer no_type rest) [
    | none ↦ done none
    | some (k, rest') ↦ assert (ltb 0 (length k)) (done (some (take (length k - 1) k, rest')))
  ]

  abbrev pub read_value : ℕ → DataType → Bytes → Outcome (Option (Bytes × Bytes))
  read_value depth t rest = elim (packing.unpack_buffer t rest) [
    | none ↦ done none
    | some (v, rest') ↦
        then_some (datum2tclobj packing depth (t, no_extra) v) (λ obj. done (some (obj, rest')))
  ]

  -- The loop over the records for each shape.
  unfoldable pub enumerate_dict :
      ℕ → DataType → ℕ → Bytes → List (Bytes × Bytes) → Outcome (Option (List (Bytes × Bytes)))
  enumerate_dict depth t zero rest d = done (some d)
  enumerate_dict depth t (suc n) rest d = then_some (read_key rest) λ k.
      then_some (read_value depth t (k.1))
        λ v. enumerate_dict depth t n (v.1) (dict_put (k.0) (v.0) d)

  unfoldable pub enumerate_keys : ℕ → Bytes → Outcome (Option (List Bytes))
  enumerate_keys zero rest = done (some [])
  enumerate_keys (suc n) rest =
      then_some (read_key rest)
        λ k. then_some (enumerate_keys n (k.1)) (λ ks. done (some (k.0 ∷ ks)))

  unfoldable pub enumerate_vals : ℕ → DataType → ℕ → Bytes → Outcome (Option (List Bytes))
  enumerate_vals depth t zero rest = done (some [])
  enumerate_vals depth t (suc n) rest =
      then_some (read_value depth t rest)
        λ v. then_some (enumerate_vals depth t n (v.1)) (λ vs. done (some (v.0 ∷ vs)))

  unfoldable pub enumerate_object : ℕ → Bool → Bool → Records → Outcome (Option Bytes)
  unfolding enumerate_dict enumerate_keys enumerate_vals
  enumerate_object depth true true r =
      then_some (enumerate_dict depth r.val_type r.records r.data_bytes [])
        (λ d. done (some (packing.dict_text d)))
  enumerate_object depth true false r =
      then_some (enumerate_keys r.records r.data_bytes) (λ ks. done (some (packing.list_text ks)))
  enumerate_object depth false true r =
      then_some (enumerate_vals depth r.val_type r.records r.data_bytes)
        (λ vs. done (some (packing.list_text vs)))
  enumerate_object depth false false r = done (some (packing.int_text (pos r.records)))

  -- A count is an int, or `all`.
  abbrev pub count_of : Bytes → Option ℤ
  count_of obj = if bytes_eq obj all then some (negsuc 0) else get_int obj

  -- ADLB_Enumerate(id, count, offset, decr, include_keys, include_vals).
  abbrev pub Enumerator : Type 0
  Enumerator = ℤ → ℤ → ℤ → Refc → Bool → Bool → State → (AdlbCode × Records) × State

  unfoldable pub enumerate_cmd : Enumerator → ℕ → List Bytes → Cmd State Bytes
  unfolding set_enumerate_params enumerate_object
  enumerate_cmd enumerate depth words = do
    _ ← condition (leb 4 (length words))
    w ← next words
    id ← demand (packing.get_int (w.0))
    token ← next (w.1)
    c ← next (token.1)
    n ← demand (count_of (c.0))
    o ← next (c.1)
    offset ← demand (get_int (o.0))
    decr ← decrements e (o.1)
    include ← demand (set_enumerate_params (token.0))
    r ← call (enumerate id n offset decr (include.0) (include.1))
    _ ← condition (is_success (r.0))
    lift (enumerate_object depth (include.0) (include.1) (r.1))
