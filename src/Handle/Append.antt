-- ===== src/Handle/Append.antt =====
-- Subscripts that are put behind the subscript of a handle, in the scratch buffer.
use exm_turbine.Common.{
  ℕ, suc, ◌+◌, ◌-◌, ◌≤◌, ◌<◌, ◌≡◌, ◌⊎◌, inl, inr, refl, ap, sym, ◌∙◌, Bool, true, false, some, [],
  ◌∷◌, ◌++◌, append_assoc, arith, not, ◌==◌, lt→ltb, length, length-append, take, drop, get_or,
  done, ◌>>=◌, bind_assoc,
}
use exm_turbine.Handle.{
  Bytes, dot, scratch, heap, ptr_eq, Buffer, inside, SubParse, HandleEnv, container, struct,
  parse_subscript, parse_struct_subscript, memcpy, copy_old, append_subscript, add_struct_subscript,
}
use exm_turbine.Handle.Memory.{memcpy-split, split_at, take-append, Lacks}
use exm_turbine.Handle.Parse.{Holds}

-- ADLB_Resize_buf on the scratch buffer: the bytes stay where they are, or the buffer goes to the
-- heap. It has the length that was asked for.
pub record Resized (old new : Buffer) (n : ℕ) : Type 0 where
  pub enough : n ≤ length new.bytes
  pub moved : ((new.at ≡ scratch) × (new.bytes ≡ old.bytes)) ⊎ ((m : ℕ) × (new.at ≡ heap m))

-- The old subscript in the buffer after it was resized, with its terminator.
copied :
    (p : SubParse) (t : Bytes) (b : Buffer) (k : ℕ)
    → p.buf.at ≡ scratch
    → Holds p t
    → Resized p.buf b (length t + 1 + k)
    → (rest : Bytes) × (k ≤ length rest) × (copy_old p.val p.buf b ≡ done (t ++ (0 ∷ rest)))
unfolding copy_old ptr_eq
copied p t b k s h r = elim (r.moved) [
  | inl (at, same) ↦
      let (rest, q) = h.stored in
      (
        rest,
        omega (arith, r.enough, ap (length {A = ℕ}) (same ∙ q), length-append t (0 ∷ rest)),
        rw (h.place, copy_old) (rw (s, at) (ap done (same ∙ q))),
      )
  | inr (m, at) ↦
      let (old, rest, q, l) = split_at (length t + 1) b.bytes (omega (arith, r.enough)) in
      (
        rest,
        omega (arith, r.enough, l, ap (length {A = ℕ}) q, length-append old rest),
        rw (h.place, copy_old)
            (rw (s, at)
              (ap (λ n. memcpy b.bytes 0 (take n p.buf.bytes)) h.counted
                ∙ ap (memcpy b.bytes 0) (
                    ap (take (length t + 1)) (h.stored.1 ∙ sym (append_assoc t (0 ∷ []) _))
                    ∙ take-append (t ++ 0 ∷ []) _ (length t + 1)
                        (omega (arith, length-append t (0 ∷ []))))
                ∙ ap (λ bs. memcpy bs 0 (t ++ 0 ∷ [])) q
                ∙ memcpy-split [] (t ++ 0 ∷ []) old rest 0 refl
                    (omega (arith, l, length-append t (0 ∷ [])))
                ∙ ap done (append_assoc t (0 ∷ []) rest))),
      )
]

-- Then the dot in place of its terminator.
dotted :
    (p : SubParse) (t : Bytes) (b : Buffer) (k : ℕ)
    → p.buf.at ≡ scratch
    → Holds p t
    → Resized p.buf b (length t + 1 + k)
    → (rest : Bytes) × (k ≤ length rest)
      × ((copy_old p.val p.buf b >>= λ r. memcpy r (p.val.length - 1) (dot ∷ []))
          ≡ done (t ++ (dot ∷ rest)))
dotted p t b k s h r =
    let (rest, m, q) = copied p t b k s h r in
    (
      rest,
      m,
      rw q (
          memcpy-split t (dot ∷ []) (0 ∷ []) rest (p.val.length - 1) (omega (arith, h.counted))
            refl),
    )

-- A text behind the dot.
placed :
    (t src rest old more : Bytes) (n : ℕ)
    → n ≡ length t + 1
    → rest ≡ old ++ more
    → length src ≡ length old
    → memcpy (t ++ (dot ∷ rest)) n src ≡ done ((t ++ (dot ∷ [])) ++ (src ++ more))
placed t src rest old more n k d l =
    ap (λ r. memcpy (t ++ (dot ∷ r)) n src) d
    ∙ ap (λ bs. memcpy bs n src) (sym (append_assoc t (dot ∷ []) (old ++ more)))
    ∙ memcpy-split (t ++ (dot ∷ [])) src old more n (omega (arith, k, length-append t (dot ∷ []))) l

no_zero :
    (pre post xs rest : Bytes)
    → length pre < length xs
    → Lacks 0 xs
    → pre ++ (0 ∷ post) ≡ xs ++ rest
    → ⊥
no_zero pre post [] rest h k q = absurd (omega arith)
no_zero [] post (x ∷ xs) rest h k q = k.0 (sym (ap (λ l. get_or l 0 1) q))
no_zero (c ∷ pre) post (x ∷ xs) rest h k q =
    no_zero pre post xs rest (omega arith) (k.1) (ap (drop 1) q)

Lacks-append : (c : ℕ) (xs ys : Bytes) → Lacks c xs → Lacks c ys → Lacks c (xs ++ ys)
Lacks-append c [] ys h k = k
Lacks-append c (x ∷ xs) ys h k = (h.0, Lacks-append c xs ys h.1 k)

-- One byte that is overwritten.
overwritten :
    (bs : Bytes) (n : ℕ)
    → n < length bs
    → (pre : Bytes) × (post : Bytes) × (length pre ≡ n)
      × (memcpy bs n (0 ∷ []) ≡ done (pre ++ (0 ∷ post)))
overwritten bs n h = let (pre, more, q, l) = split_at n bs (omega arith) in by_more pre more q l
  where
    by_more :
        (pre more : Bytes)
        → bs ≡ pre ++ more
        → length pre ≡ n
        → (pre : Bytes) × (post : Bytes) × (length pre ≡ n)
          × (memcpy bs n (0 ∷ []) ≡ done (pre ++ (0 ∷ post)))
    by_more pre [] q l = absurd (omega (arith, ap (length {A = ℕ}) q, length-append pre []))
    by_more pre (m ∷ post) q l =
        (pre, post, l, rw q (memcpy-split pre (0 ∷ []) (m ∷ []) post n (sym l) refl))

ne_zero : (n : ℕ) → 0 < n → not (n == 0) ≡ true
ne_zero n h = ground arith

nonempty : (n : ℕ) → (suc n == 0) ≡ false
nonempty n = ground arith

module _ (e : HandleEnv) where
  -- A dot and the new subscript go behind the old one.
  append_subscript-Holds :
      (p : SubParse) (t u : Bytes) (b : Buffer)
      → p.buf.at ≡ scratch
      → Holds p t
      → e.resize p.buf true (length t + 1 + (length u + 1)) ≡ some b
      → Resized p.buf b (length t + 1 + (length u + 1))
      → (p' : SubParse) × (append_subscript e p (u ++ (0 ∷ [])) ≡ done (some p'))
        × Holds p' (t ++ (dot ∷ u))
  unfolding append_subscript ptr_eq
  append_subscript-Holds p t u b s h z r =
      let (rest, m, q) = dotted p t b (length u + 1) s h r in
      let (old, more, d, l) = split_at (length u + 1) rest m in
      (
        record {
          val = record { key = inside b.at; length = p.val.length + length (u ++ (0 ∷ [])) };
          buf = record { at = b.at; bytes = (t ++ (dot ∷ [])) ++ ((u ++ (0 ∷ [])) ++ more) };
        },
        rw (resized_to, append_subscript)
            (rw (lt→ltb 0 p.val.length (omega (arith, h.counted)), q)
              (rw
                (placed t (u ++ (0 ∷ [])) rest old more p.val.length h.counted d
                  (omega (arith, l, length-append u (0 ∷ []))))
                refl)),
        record {
          place = refl;
          counted = omega (arith, h.counted, length-append u (0 ∷ []), length-append t (dot ∷ u));
          stored = (more, simp append_assoc);
        },
      )
    where
      resized_to :
          e.resize p.buf (ptr_eq p.buf.at scratch) (p.val.length + length (u ++ (0 ∷ []))) ≡ some b
      resized_to =
          ap (λ at. e.resize p.buf (ptr_eq at scratch) (p.val.length + length (u ++ (0 ∷ [])))) s
          ∙ ap (e.resize p.buf true) (omega (arith, h.counted, length-append u (0 ∷ [])))
          ∙ z

  -- The terminator falls into the subscript that was made.
  add_struct_subscript-broken :
      (p : SubParse) (t u : Bytes) (b : Buffer)
      → p.buf.at ≡ scratch
      → Holds p t
      → Lacks 0 t
      → Lacks 0 u
      → e.resize p.buf true (length t + 1 + (length u + 1)) ≡ some b
      → Resized p.buf b (length t + 1 + (length u + 1))
      → (p' : SubParse) × (add_struct_subscript e u p true ≡ done (some p'))
        × (p'.val.length ≡ length (t ++ (dot ∷ u)) + 1)
        × ¬ Holds p' (t ++ (dot ∷ u))
  unfolding add_struct_subscript
  add_struct_subscript-broken p t u b s h lt lu z r =
      let (rest, m, q) = dotted p t b (length u + 1) s h r in
      let (old, more, d, l) = split_at (length u) rest (omega (arith, m)) in
      let whole : length ((t ++ (dot ∷ [])) ++ (u ++ more))
          ≡ length t + 1 + length u + length more =
        omega (
          arith,
          length-append (t ++ (dot ∷ [])) (u ++ more),
          length-append t (dot ∷ []),
          length-append u more,
        ) in
      let (pre, post, k, o) =
        overwritten ((t ++ (dot ∷ [])) ++ (u ++ more)) (length u) (omega (arith, whole)) in
      (
        record {
          val = record { key = inside b.at; length = p.val.length + (length u + 1) };
          buf = record { at = b.at; bytes = pre ++ (0 ∷ post) };
        },
        rw (resized_to, add_struct_subscript)
            (sym (
                bind_assoc (copy_old p.val p.buf b) (λ r. memcpy r (p.val.length - 1) (dot ∷ [])) _)
              ∙ rw (q, placed t u rest old more p.val.length h.counted d (sym l)) (rw o refl)),
        omega (arith, h.counted, length-append t (dot ∷ u)),
        λ z.
            no_zero pre post (t ++ (dot ∷ u)) (0 ∷ z.stored.0)
              (omega (arith, k, length-append t (dot ∷ u)))
              (Lacks-append 0 t (dot ∷ u) lt (omega arith, lu)) z.stored.1,
      )
    where
      resized_to : e.resize p.buf true (p.val.length + length u + 1) ≡ some b
      resized_to = ap (e.resize p.buf true) (omega (arith, h.counted)) ∙ z

  -- What a subscript of a container adds to a handle that has a subscript already, in the scratch
  -- buffer: the old subscript, a dot and the new one, in the buffer or in memory that was got for it.
  pub parse_subscript-Holds :
      (p : SubParse) (t u : Bytes) (use_scratch : Bool) (b : Buffer)
      → p.buf.at ≡ scratch
      → Holds p t
      → e.resize p.buf true (length t + 1 + (length u + 1)) ≡ some b
      → Resized p.buf b (length t + 1 + (length u + 1))
      → (p' : SubParse) × (parse_subscript e container u p true use_scratch ≡ done (some p'))
        × Holds p' (t ++ (dot ∷ u))
  unfolding parse_subscript
  parse_subscript-Holds p t u use_scratch b s h z r =
      let (p', q, k) = append_subscript-Holds p t u b s h z r in
      (p', rw (ne_zero p.val.length (omega (arith, h.counted))) q, k)

  -- For a struct's subscript it is not so: whatever the old and the new one are, texts without a zero
  -- byte and the new one not empty, `parse_subscript` succeeds with the right length, but what the
  -- buffer then holds is not the old subscript, a dot and the new one.
  pub parse_subscript-broken :
      (p : SubParse) (t : Bytes) (c : ℕ) (u : Bytes) (use_scratch : Bool) (b : Buffer)
      → p.buf.at ≡ scratch
      → Holds p t
      → Lacks 0 t
      → Lacks 0 (c ∷ u)
      → e.resize p.buf true (length t + 1 + (length (c ∷ u) + 1)) ≡ some b
      → Resized p.buf b (length t + 1 + (length (c ∷ u) + 1))
      → (p' : SubParse) × (parse_subscript e struct (c ∷ u) p true use_scratch ≡ done (some p'))
        × (p'.val.length ≡ length (t ++ (dot ∷ (c ∷ u))) + 1)
        × ¬ Holds p' (t ++ (dot ∷ (c ∷ u)))
  unfolding parse_subscript ptr_eq parse_struct_subscript
  parse_subscript-broken p t c u use_scratch b s h lt lu z r =
      let (p', q, k, n) = add_struct_subscript-broken p t (c ∷ u) b s h lt lu z r in
      (
        p',
        rw (nonempty (length u)) (
            ap (λ at. parse_struct_subscript e (c ∷ u) p (ptr_eq at scratch) true) s
            ∙ rw (lt→ltb 0 p.val.length (omega (arith, h.counted)), parse_struct_subscript) q),
        k,
        n,
      )
