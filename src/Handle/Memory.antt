-- ===== src/Handle/Memory.antt =====
-- Copies into memory that is split at the right places.
use exm_turbine.Common.{
  ℕ, zero, suc, ◌+◌, ◌≤◌, ◌≡◌, refl, ap, [], ◌∷◌, ◌++◌, arith, length, take, drop, replicate, some,
  ◌≢◌, ==_iff, done,
}
use exm_turbine.Handle.{Bytes, memcpy, memchr}

memcpy-start :
    (src old post : Bytes)
    → length src ≡ length old
    → memcpy (old ++ post) 0 src ≡ done (src ++ post)
unfolding memcpy
memcpy-start [] [] [] h = refl
memcpy-start [] [] (p ∷ post) h = refl
memcpy-start [] (o ∷ old) post h = absurd (omega arith)
memcpy-start (s ∷ src) [] post h = absurd (omega arith)
memcpy-start (s ∷ src) (o ∷ old) post h = rw (memcpy-start src old post (omega arith)) refl

-- A copy replaces the bytes at its place.
pub memcpy-split :
    (pre src old post : Bytes) (n : ℕ)
    → n ≡ length pre
    → length src ≡ length old
    → memcpy (pre ++ (old ++ post)) n src ≡ done (pre ++ (src ++ post))
unfolding memcpy
memcpy-split [] src old post n e h = rw e (memcpy-start src old post h)
memcpy-split (p ∷ pre) src old post zero e h = absurd (omega arith)
memcpy-split (p ∷ pre) src old post (suc n) e h =
    rw (memcpy-split pre src old post n (omega arith) h) refl

-- Memory that is long enough has a part of any length at its start.
pub split_at :
    (n : ℕ) (xs : Bytes)
    → n ≤ length xs
    → (ys : Bytes) × (zs : Bytes) × (xs ≡ ys ++ zs) × (length ys ≡ n)
split_at zero xs h = ([], xs, refl, refl)
split_at (suc n) [] h = absurd (omega arith)
split_at (suc n) (x ∷ xs) h =
    let (ys, zs, e, l) = split_at n xs (omega arith) in (x ∷ ys, zs, ap (λ t. x ∷ t) e, ap suc l)

pub take-append : (xs ys : Bytes) (n : ℕ) → n ≡ length xs → take n (xs ++ ys) ≡ xs
take-append [] ys zero e = refl
take-append [] ys (suc n) e = absurd (omega arith)
take-append (x ∷ xs) ys zero e = absurd (omega arith)
take-append (x ∷ xs) ys (suc n) e = ap (λ t. x ∷ t) (take-append xs ys n (omega arith))

pub drop-append : (xs ys : Bytes) (n : ℕ) → n ≡ length xs → drop n (xs ++ ys) ≡ ys
drop-append [] ys zero e = refl
drop-append [] ys (suc n) e = absurd (omega arith)
drop-append (x ∷ xs) ys zero e = absurd (omega arith)
drop-append (x ∷ xs) ys (suc n) e = drop-append xs ys n (omega arith)

pub replicate-add : (m n b : ℕ) → replicate (m + n) b ≡ replicate m b ++ replicate n b
replicate-add zero n b = rw (let e : 0 + n ≡ n = omega arith in e) refl
replicate-add (suc m) n b =
    rw (let e : suc m + n ≡ suc (m + n) = omega arith in e) (ap (λ t. b ∷ t) (replicate-add m n b))

-- `c` does not occur.
abbrev pub Lacks : ℕ → Bytes → Type 0
Lacks c [] = Unit
Lacks c (b ∷ bs) = (b ≢ c) × Lacks c bs

pub memchr-append :
    (c : ℕ) (pre post : Bytes) → Lacks c pre → memchr c (pre ++ c ∷ post) ≡ some (length pre)
unfolding memchr
memchr-append c [] post h = ground (arith, ==_iff c c)
memchr-append c (b ∷ pre) post (n, h) = ground (arith, ==_iff b c, memchr-append c pre post h)
