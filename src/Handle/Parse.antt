-- ===== src/Handle/Parse.antt =====
-- Handles that are taken apart again.
use exm_turbine.Common.{
  ℕ, ◌+◌, ◌≤◌, ◌≡◌, refl, ap, sym, ◌∙◌, Bool, true, Option, none, some, List, [], ◌∷◌, ◌++◌, ℤ,
  append_assoc, append-nil, arith, length, length-append, drop, Outcome, done, ◌>>=◌, bind_done,
}
use exm_turbine.Handle.{
  Bytes, dot, Buffer, inside, SubParse, no_sub, no_buf, initial_buf, HandleEnv, struct, memcpy,
  extract_handle, set_struct_subscript, parse_struct_subscript, parse_handle, subscript_impl,
  too_many,
}
use exm_turbine.Handle.Memory.{
  memcpy-split, split_at, take-append, drop-append, Lacks, memchr-append,
}
use exm_turbine.Handle.Build.{joined, subscript_impl-joined}

-- What the code relies on. An id's text is read back, whole or as the start of a handle; no text
-- with a dot is an integer; a buffer that is resized has the length that was asked for.
pub record HandleLaws (e : HandleEnv) : Type 0 where
  pub print_id : ℤ → Bytes
  pub get_id_print : (n : ℤ) → e.get_id (print_id n) ≡ some n
  pub int64_parse_print : (n : ℤ) → e.int64_parse (print_id n) ≡ some n
  pub print_id_Lacks : (n : ℤ) → Lacks dot (print_id n)
  pub get_id_dot : (a b : Bytes) → e.get_id (a ++ dot ∷ b) ≡ none
  pub resize_enough :
      (b b' : Buffer) (using : Bool) (n : ℕ) → e.resize b using n ≡ some b' → n ≤ length b'.bytes

-- A subscript lies in its buffer, as a text with its terminator.
pub record Holds (p : SubParse) (t : Bytes) : Type 0 where
  pub place : p.val.key ≡ inside p.buf.at
  pub counted : p.val.length ≡ length t + 1
  pub stored : (rest : Bytes) × (p.buf.bytes ≡ t ++ (0 ∷ rest))

abbrev resized : HandleEnv → SubParse → Bool → ℕ → Option Buffer
resized e p using n = e.resize p.buf using n

after_dot : (pre s : Bytes) → drop (length pre + 1) (pre ++ dot ∷ s) ≡ s
after_dot pre s =
    ap (λ t. drop (length pre + 1) t) (sym (append_assoc pre (dot ∷ []) s))
    ∙ drop-append (pre ++ dot ∷ []) s _ (sym (length-append pre (dot ∷ [])))

module _ (e : HandleEnv) (l : HandleLaws e) where
  open l use {print_id, get_id_print, int64_parse_print, print_id_Lacks, get_id_dot, resize_enough}

  -- The two copies into a buffer that has room.
  fill_buffer :
      (str bytes : Bytes)
      → length str + 1 ≤ length bytes
      → (rest : Bytes) × ((memcpy bytes 0 str >>= λ b. memcpy b (length str) (0 ∷ []))
          ≡ done (str ++ (0 ∷ rest)))
  fill_buffer str bytes h =
      let (old, more, q, k) = split_at (length str) bytes (omega arith) in by_rest old more q k
    where
      by_rest :
          (old more : Bytes)
          → bytes ≡ old ++ more
          → length old ≡ length str
          → (rest : Bytes) × ((memcpy bytes 0 str >>= λ b. memcpy b (length str) (0 ∷ []))
              ≡ done (str ++ (0 ∷ rest)))
      by_rest old [] q k = absurd (omega (arith, ap (length {A = ℕ}) q, length-append old []))
      by_rest old (m ∷ rest) q k = (
        rest,
        rw q (
            rw (memcpy-split [] str old (m ∷ rest) 0 refl (sym k))
              (memcpy-split str (0 ∷ []) (m ∷ []) rest (length str) refl refl)),
      )

  pub set_struct_subscript-Holds :
      (str : Bytes) (p : SubParse) (using : Bool) (b : Buffer)
      → resized e p using (length str + 1) ≡ some b
      → (p' : SubParse) × (set_struct_subscript e str p using ≡ done (some p'))
        × Holds p' str
        × (p'.buf.at ≡ b.at)
  unfolding set_struct_subscript
  set_struct_subscript-Holds str p using b r =
      let (rest, q) = fill_buffer str b.bytes (resize_enough p.buf b using (length str + 1) r) in
      (
        record {
          val = record { key = inside b.at; length = length str + 1 };
          buf = record { at = b.at; bytes = str ++ (0 ∷ rest) };
        },
        rw (r, set_struct_subscript) (bind_done (memcpy b.bytes 0 str) _ _ q),
        record { place = refl; counted = refl; stored = (rest, refl) },
        refl,
      )

  extract_handle-joined :
      (id : ℤ) (s : Bytes) → extract_handle e (print_id id ++ dot ∷ s) ≡ some (id, some s)
  unfolding extract_handle
  extract_handle-joined id s =
      rw (get_id_dot (print_id id) s, extract_handle)
        (rw (memchr-append dot (print_id id) s (print_id_Lacks id), extract_handle)
          (rw (take-append (print_id id) (dot ∷ s) (length (print_id id)) refl) (
            rw (int64_parse_print id, extract_handle)
              (ap (λ t. some (id, some t)) (after_dot (print_id id) s)))))

  -- The id of a handle that has subscripts, and its subscript in a buffer.
  parse_handle-joined :
      (id : ℤ) (s : Bytes) (use_scratch : Bool) (b : Buffer)
      → e.resize (initial_buf e use_scratch) use_scratch (length s + 1) ≡ some b
      → (p : SubParse) × (parse_handle e (print_id id ++ dot ∷ s) use_scratch ≡ done (some (id, p)))
        × Holds p s
        × (p.buf.at ≡ b.at)
  unfolding parse_handle parse_struct_subscript
  parse_handle-joined id s use_scratch b r =
      let (p, q, h, k) =
        set_struct_subscript-Holds s (record { val = no_sub; buf = initial_buf e use_scratch })
          use_scratch b r in
      (p, rw (extract_handle-joined id s, parse_handle) (rw q refl), h, k)

  abbrev pub parse_built : Bool → Option Bytes → Outcome (Option (ℤ × SubParse))
  parse_built use_scratch none = done none
  parse_built use_scratch (some h) = parse_handle e h use_scratch

  -- A handle that `subscript_impl` builds from an id and one or more subscripts of a struct is taken
  -- apart by `parse_handle` into the same id and the subscripts with dots between them, in a buffer
  -- and with a terminator; with no subscript, into the id alone. Memory is not refused.
  pub parse_handle-subscript_impl :
      (id : ℤ) (s : Bytes) (subs : List Bytes) (use_scratch : Bool) (b : Buffer)
      → ((n : ℕ) → e.set_length n ≡ true)
      → e.resize (initial_buf e use_scratch) use_scratch (length (s ++ joined subs) + 1) ≡ some b
      → ((subscript_impl e struct (print_id id ∷ []) >>= parse_built use_scratch)
          ≡ done (some (id, record { val = no_sub; buf = no_buf })))
        × (p : SubParse) × ((subscript_impl e struct (print_id id ∷ s ∷ subs)
              >>= parse_built use_scratch)
            ≡ done (some (id, p)))
        × Holds p (s ++ joined subs)
  unfolding parse_handle extract_handle too_many
  parse_handle-subscript_impl id s subs use_scratch b m r =
      let (p, q, h, _) = parse_handle-joined id (s ++ joined subs) use_scratch b r in
      (
        rw (subscript_impl-joined e struct (print_id id) [], m (length (print_id id) + 0))
            (rw (append-nil (print_id id))
              (rw (get_id_print id, extract_handle, parse_handle) refl)),
        p,
        rw
            (
              subscript_impl-joined e struct (print_id id) (s ∷ subs),
              m (length (print_id id) + length (joined (s ∷ subs))),
            )
            q,
        h,
      )
