-- ===== src/Handle.antt =====
-- Handles and subscripts of code/src/tcl/adlb/tcl-adlb.c. A text is its bytes, without the terminator
-- that Tcl keeps behind it. Tcl's and ADLB's conversions of numbers, ADLB_Resize_buf and Tcl's
-- memory are parameters. Debug output and memory that is freed are left out.
use exm_turbine.Common.{
  ℕ, zero, suc, ◌+◌, ◌-◌, Bool, true, false, not, ◌&&◌, Option, none, some, List, [], ◌∷◌, ◌++◌, ℤ,
  ltb, ◌==◌, if◌then◌else◌, length, take, drop, replicate, Outcome, done, fault, starved, ◌>>=◌,
}
pub mod Memory
pub mod Build
pub mod Parse
pub mod Append
mod Tests

abbrev pub Bytes : Type 0
Bytes = List ℕ

abbrev pub dot : ℕ
dot = b'.'

-- Where a buffer lies. `heap n` is memory from malloc or realloc.
pub data Pointer : Type 0 where
  null scratch : Pointer
  heap : ℕ → Pointer

pub ptr_eq : Pointer → Pointer → Bool
ptr_eq null null = true
ptr_eq scratch scratch = true
ptr_eq (heap m) (heap n) = m == n
ptr_eq _ _ = false

-- `adlb_buffer`: its length is the length of `bytes`.
pub record Buffer : Type 0 where
  pub at : Pointer
  pub bytes : Bytes

-- The key of an `adlb_subscript`: NULL, the text of a Tcl object with its terminator, or a buffer.
pub data Key : Type 0 where
  no_key : Key
  text : Bytes → Key
  inside : Pointer → Key

-- `adlb_subscript`. Its length counts the terminator.
pub record Subscript : Type 0 where
  pub key : Key
  pub length : ℕ

-- `tcl_adlb_sub_parse`.
pub record SubParse : Type 0 where
  pub val : Subscript
  pub buf : Buffer

-- The kinds that parsing and building accept: they assert that it is not ADLB_SUB_NONE, which their
-- callers test first.
pub data SubKind : Type 0 where
  container struct : SubKind

abbrev pub no_sub : Subscript
no_sub = record { key = no_key; length = 0 }

abbrev pub no_buf : Buffer
no_buf = record { at = null; bytes = [] }

pub record HandleEnv : Type 0 where
  -- Tcl_GetWideIntFromObj on the whole text; ADLB_Int64_parse on some bytes.
  pub get_id : Bytes → Option ℤ
  pub int64_parse : Bytes → Option ℤ
  -- ADLB_Resize_buf(buf, using_caller_buf, min_length): `none` where it fails.
  pub resize : Buffer → Bool → ℕ → Option Buffer
  -- Tcl_AttemptSetObjLength.
  pub set_length : ℕ → Bool
  -- What tcl_adlb_scratch holds.
  pub scratch_bytes : Bytes

-- memcpy(dst + offset, src, ...), which faults where it leaves the destination.
unfoldable pub memcpy : Bytes → ℕ → Bytes → Outcome Bytes
memcpy dst zero [] = done dst
memcpy [] zero (s ∷ src) = fault
memcpy (d ∷ dst) zero (s ∷ src) = memcpy dst zero src >>= λ r. done (s ∷ r)
memcpy [] (suc o) src = fault
memcpy (d ∷ dst) (suc o) src = memcpy dst o src >>= λ r. done (d ∷ r)

pub memchr : ℕ → Bytes → Option ℕ
memchr c [] = none
memchr c (b ∷ bs) =
    if b == c then some 0 else elim (memchr c bs) [ none ↦ none | some i ↦ some (suc i) ]

-- `if (buf->data != sub->key) memcpy(buf->data, sub->key, sub->length)`, where `old` is the buffer
-- before it was resized: what was on the heap is gone when the buffer has moved.
pub copy_old : Subscript → Buffer → Buffer → Outcome Bytes
unfolding ptr_eq memcpy
copy_old sub old new = elim (sub.key) [
  | no_key ↦ fault
  | text t ↦ if ltb (length t) sub.length then fault else memcpy new.bytes 0 (take sub.length t)
  | inside p ↦
      if ptr_eq p new.at
      then done new.bytes
      else if ptr_eq p scratch && ptr_eq old.at scratch
      then memcpy new.bytes 0 (take sub.length old.bytes)
      else fault
]

-- The sum over the subscripts in `new_handle_len`, and the loop that copies them to `result_ptr`.
pub subscripts_len : List Bytes → ℕ
subscripts_len [] = 0
subscripts_len (s ∷ subs) = length s + 1 + subscripts_len subs

pub copy_subscripts : Bytes → ℕ → List Bytes → Outcome Bytes
unfolding memcpy
copy_subscripts result ptr [] = done result
copy_subscripts result ptr (s ∷ subs) = do
  r1 ← memcpy result ptr (dot ∷ [])
  r2 ← memcpy r1 (ptr + 1) s
  copy_subscripts r2 (ptr + 1 + length s) subs

-- A container takes one level of subscripts.
pub too_many : SubKind → ℕ → Bool
too_many container n = ltb 1 n
too_many struct n = false

module _ (e : HandleEnv) where
  open e use {get_id, int64_parse, resize, set_length, scratch_bytes}

  abbrev pub scratch_buf : Buffer
  scratch_buf = record { at = scratch; bytes = scratch_bytes }

  -- The id and the subscript, `none` where that is NULL. The outer `none` is TCL_ERROR.
  unfoldable pub extract_handle : Bytes → Option (ℤ × Option Bytes)
  unfolding memchr
  extract_handle obj = elim (get_id obj) [
    | some id ↦ some (id, none)
    | none ↦ elim (memchr dot obj) [
      | none ↦ none
      | some prefix_len ↦ elim (int64_parse (take prefix_len obj)) [
        | none ↦ none
        | some id ↦ some (id, some (drop (prefix_len + 1) obj))
      ]
    ]
  ]

  unfoldable pub extract_handle_id : Bytes → Option ℤ
  unfolding extract_handle
  extract_handle_id obj = elim (extract_handle obj) [ none ↦ none | some (id, s) ↦ some id ]

  -- ADLB_Parse_Struct_Subscript in its two branches. The terminator of a subscript that was appended
  -- is written at the length of the new part.
  pub add_struct_subscript : Bytes → SubParse → Bool → Outcome (Option SubParse)
  unfolding copy_old memcpy
  add_struct_subscript str p using =
      let n = p.val.length in
      elim (resize p.buf using (n + length str + 1)) [
        | none ↦ done none
        | some b ↦ do
          b1 ← copy_old p.val p.buf b
          b2 ← memcpy b1 (n - 1) (dot ∷ [])
          b3 ← memcpy b2 n str
          b4 ← memcpy b3 (length str) (0 ∷ [])
          done (
              some (record {
                val = record { key = inside b.at; length = n + (length str + 1) };
                buf = record { at = b.at; bytes = b4 };
              }))
      ]

  pub set_struct_subscript : Bytes → SubParse → Bool → Outcome (Option SubParse)
  unfolding memcpy
  set_struct_subscript str p using = elim (resize p.buf using (length str + 1)) [
    | none ↦ done none
    | some b ↦ do
      b1 ← memcpy b.bytes 0 str
      b2 ← memcpy b1 (length str) (0 ∷ [])
      done (
          some (record {
            val = record { key = inside b.at; length = length str + 1 };
            buf = record { at = b.at; bytes = b2 };
          }))
  ]

  pub parse_struct_subscript : Bytes → SubParse → Bool → Bool → Outcome (Option SubParse)
  unfolding add_struct_subscript set_struct_subscript
  parse_struct_subscript str p using append =
      if append && ltb 0 p.val.length
      then add_struct_subscript str p using
      else set_struct_subscript str p using

  -- `to_append` comes with its terminator.
  pub append_subscript : SubParse → Bytes → Outcome (Option SubParse)
  unfolding copy_old memcpy ptr_eq
  append_subscript p to_append =
      let n = p.val.length in
      elim (resize p.buf (ptr_eq p.buf.at scratch) (n + length to_append)) [
        | none ↦ done none
        | some b ↦ do
          b1 ←
              if ltb 0 n
              then (copy_old p.val p.buf b >>= λ r. memcpy r (n - 1) (dot ∷ []))
              else done b.bytes
          b2 ← memcpy b1 n to_append
          done (
              some (record {
                val = record { key = inside b.at; length = n + length to_append };
                buf = record { at = b.at; bytes = b2 };
              }))
      ]

  abbrev pub initial_buf : Bool → Buffer
  initial_buf use_scratch = if use_scratch then scratch_buf else no_buf

  -- ADLB_Parse_Subscript(obj, sub_kind, parse, append, use_scratch).
  unfoldable pub parse_subscript :
      SubKind → Bytes → SubParse → Bool → Bool → Outcome (Option SubParse)
  unfolding append_subscript parse_struct_subscript ptr_eq
  parse_subscript container obj p append use_scratch =
      if append && not (p.val.length == 0)
      then append_subscript p (obj ++ (0 ∷ []))
      else done (
          some (record {
            val = record { key = text (obj ++ (0 ∷ [])); length = length obj + 1 };
            buf = no_buf;
          }))
  parse_subscript struct obj p append use_scratch =
      let p' = if append then p else record p { buf = initial_buf use_scratch } in
      if length obj == 0
      then done (some (if append then p else record { val = no_sub; buf = no_buf }))
      else parse_struct_subscript obj p' (ptr_eq p'.buf.at scratch) append

  -- ADLB_Parse_Handle(obj, parse, use_scratch): the id and the subscript.
  unfoldable pub parse_handle : Bytes → Bool → Outcome (Option (ℤ × SubParse))
  unfolding extract_handle parse_struct_subscript
  parse_handle obj use_scratch = elim (extract_handle obj) [
    | none ↦ done none
    | some (id, none) ↦ done (some (id, record { val = no_sub; buf = no_buf }))
    | some (id, some s) ↦
        parse_struct_subscript s (record { val = no_sub; buf = initial_buf use_scratch })
          use_scratch false
        >>= λ r. done (elim r [ none ↦ none | some p ↦ some (id, p) ])
  ]

  -- adlb::subscript_struct and adlb::subscript_container: the words after the command's name.
  pub subscript_impl : SubKind → List Bytes → Outcome (Option Bytes)
  unfolding memcpy copy_subscripts subscripts_len too_many
  subscript_impl kind [] = done none
  subscript_impl kind (old_handle ∷ subs) =
      let new_handle_len = length old_handle + subscripts_len subs in
      if too_many kind (length subs)
      then done none
      else if set_length new_handle_len
      then (do
        r ← memcpy (replicate new_handle_len 0) 0 old_handle
        r' ← copy_subscripts r (length old_handle) subs
        done (some r'))
      else done none
