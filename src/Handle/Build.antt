-- ===== src/Handle/Build.antt =====
-- Handles that are built from an id and subscripts.
use exm_turbine.Common.{
  ℕ, suc, ◌+◌, ◌≡◌, refl, ap, ◌∙◌, Bool, true, false, none, some, List, [], ◌∷◌, ◌++◌, append_assoc,
  sym, Outcome, ◌>>=◌, bind_assoc, arith, length, length-append, length-replicate, replicate,
  if◌then◌else◌, done,
}
use exm_turbine.Handle.{
  Bytes, dot, HandleEnv, SubKind, memcpy, copy_subscripts, subscripts_len, too_many, subscript_impl,
}
use exm_turbine.Handle.Memory.{memcpy-split, replicate-add}

-- Each subscript behind a dot.
abbrev pub joined : List Bytes → Bytes
joined [] = []
joined (s ∷ subs) = dot ∷ (s ++ joined subs)

abbrev zeros : ℕ → Bytes
zeros n = replicate n 0

-- What is still to be written, for one more subscript.
blank :
    (s : Bytes) (subs : List Bytes)
    → zeros (subscripts_len (s ∷ subs)) ≡ 0 ∷ (zeros (length s) ++ zeros (subscripts_len subs))
unfolding subscripts_len
blank s subs =
    rw
      (let e : length s + 1 + subscripts_len subs ≡ suc (length s + subscripts_len subs) =
          omega arith in
        e)
      (ap (λ (t : Bytes). 0 ∷ t) (replicate-add (length s) (subscripts_len subs) 0))

copy_one :
    (written s rest : Bytes) (n : ℕ)
    → n ≡ length written
    → (memcpy (written ++ (0 ∷ (zeros (length s) ++ rest))) n (dot ∷ []) >>= λ r.
        memcpy r (n + 1) s)
      ≡ done ((written ++ dot ∷ s) ++ rest)
copy_one written s rest n e =
    rw (memcpy-split written (dot ∷ []) (0 ∷ []) (zeros (length s) ++ rest) n e refl) (
      ap (λ (t : Bytes). memcpy t (n + 1) s) (sym (append_assoc written (dot ∷ []) _))
      ∙ memcpy-split (written ++ dot ∷ []) s (zeros (length s)) rest (n + 1)
          (omega (arith, e, length-append written (dot ∷ []))) (sym (length-replicate (length s) 0))
      ∙ ap done (simp append_assoc))

copy_subscripts-joined :
    (subs : List Bytes) (written : Bytes) (n : ℕ)
    → n ≡ length written
    → copy_subscripts (written ++ zeros (subscripts_len subs)) n subs
      ≡ done (written ++ joined subs)
unfolding copy_subscripts
copy_subscripts-joined [] written n e = unfold subscripts_len in refl
copy_subscripts-joined (s ∷ subs) written n e = rw (blank s subs) (
    sym (
      bind_assoc
        (memcpy (written ++ (0 ∷ (zeros (length s) ++ zeros (subscripts_len subs)))) n (dot ∷ [])) _
        _)
    ∙ ap (λ m. m >>= λ r. copy_subscripts r (n + 1 + length s) subs)
        (copy_one written s (zeros (subscripts_len subs)) n e)
    ∙ copy_subscripts-joined subs (written ++ dot ∷ s) (n + 1 + length s)
        (omega (arith, e, length-append written (dot ∷ s)))
    ∙ ap done (append_assoc written (dot ∷ s) (joined subs)))

subscripts_len-joined : (subs : List Bytes) → subscripts_len subs ≡ length (joined subs)
unfolding subscripts_len
subscripts_len-joined [] = refl
subscripts_len-joined (s ∷ subs) =
    omega (arith, subscripts_len-joined subs, length-append s (joined subs))

by_tests :
    (a b : Bool) (m : Outcome Bytes) (x : Bytes)
    → m ≡ done x
    → (if a then done none else if b then (m >>= λ r. done (some r)) else done none)
      ≡ done (if a then none else if b then some x else none)
by_tests true b m x e = refl
by_tests false true m x e = rw e refl
by_tests false false m x e = refl

module _ (e : HandleEnv) where
  open e use {set_length}

  built-joined :
      (h : Bytes) (subs : List Bytes)
      → (memcpy (zeros (length h + subscripts_len subs)) 0 h >>= λ r.
          copy_subscripts r (length h) subs)
        ≡ done (h ++ joined subs)
  built-joined h subs = rw (replicate-add (length h) (subscripts_len subs) 0) (
      rw
        (memcpy-split [] h (zeros (length h)) (zeros (subscripts_len subs)) 0 refl
          (sym (length-replicate (length h) 0)))
        (copy_subscripts-joined subs h (length h) refl))

  pub subscript_impl-joined :
      (kind : SubKind) (h : Bytes) (subs : List Bytes)
      → subscript_impl e kind (h ∷ subs)
        ≡ done (
            if too_many kind (length subs)
            then none
            else if set_length (length h + length (joined subs))
            then some (h ++ joined subs)
            else none)
  unfolding subscript_impl
  subscript_impl-joined kind h subs = rw (sym (subscripts_len-joined subs)) (
      rw
        (sym (
          bind_assoc (memcpy (zeros (length h + subscripts_len subs)) 0 h)
            (λ r. copy_subscripts r (length h) subs) (λ r. done (some r))))
        (by_tests (too_many kind (length subs)) (set_length (length h + subscripts_len subs)) _ _
          (built-joined h subs)))
