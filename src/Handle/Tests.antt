-- ===== src/Handle/Tests.antt =====
-- Handles with numbers in unary, and a scratch buffer of eight bytes.
use exm_turbine.Common.{
  ℕ, zero, suc, ◌≤◌, ◌≡◌, inr, refl, ap, Bool, true, Option, none, some, [], ◌∷◌, ◌++◌, ℤ, pos,
  negsuc, arith, leb, ◌==◌, length, length-append, length-replicate, replicate, if◌then◌else◌, done,
  ◌>>=◌,
}
use exm_turbine.Handle.{
  Bytes, dot, scratch, heap, Buffer, inside, SubParse, HandleEnv, container, struct, no_sub, no_buf,
  subscript_impl, parse_subscript,
}
use exm_turbine.Handle.Memory.{Lacks}
use exm_turbine.Handle.Parse.{HandleLaws, Holds, parse_built, parse_handle-subscript_impl}
use exm_turbine.Handle.Append.{Resized, parse_subscript-Holds, parse_subscript-broken}

abbrev one_more : Option ℕ → Option ℕ
one_more none = none
one_more (some n) = some (suc n)

abbrev ones : Bytes → Option ℕ
ones [] = some 0
ones (b ∷ bs) = if b == b'1' then one_more (ones bs) else none

abbrev as_pos : Option ℕ → Option ℤ
as_pos none = none
as_pos (some n) = some (pos n)

abbrev as_negsuc : Option ℕ → Option ℤ
as_negsuc none = none
as_negsuc (some n) = some (negsuc n)

abbrev read_id : Bytes → Option ℤ
read_id [] = some (pos 0)
read_id (b ∷ bs) = if b == b'-' then as_negsuc (ones bs) else as_pos (ones (b ∷ bs))

abbrev print : ℤ → Bytes
print (pos n) = replicate n b'1'
print (negsuc n) = b'-' ∷ replicate n b'1'

ones-replicate : (n : ℕ) → ones (replicate n b'1') ≡ some n
ones-replicate zero = refl
ones-replicate (suc n) = ap one_more (ones-replicate n)

read_id-print : (n : ℤ) → read_id (print n) ≡ some n
read_id-print (pos zero) = refl
read_id-print (pos (suc n)) = ap (λ o. as_pos (one_more o)) (ones-replicate n)
read_id-print (negsuc n) = ap as_negsuc (ones-replicate n)

ones-dot : (a b : Bytes) → ones (a ++ dot ∷ b) ≡ none
ones-dot [] b = refl
ones-dot (c ∷ a) b = ground (arith, ones-dot a b)

read_id-dot : (a b : Bytes) → read_id (a ++ dot ∷ b) ≡ none
read_id-dot [] b = refl
read_id-dot (c ∷ a) b = ground (arith, ones-dot a b)

ones-Lacks : (n : ℕ) → Lacks dot (replicate n b'1')
ones-Lacks zero = tt
ones-Lacks (suc n) = (omega arith, ones-Lacks n)

print-Lacks : (n : ℤ) → Lacks dot (print n)
print-Lacks (pos n) = ones-Lacks n
print-Lacks (negsuc n) = (omega arith, ones-Lacks n)

abbrev grow : Buffer → Bool → ℕ → Option Buffer
grow b using n =
    some (
      if leb n (length b.bytes)
      then b
      else record { at = heap 0; bytes = b.bytes ++ replicate n 0 })

grow_enough :
    (b b' : Buffer) (using : Bool) (n : ℕ) → grow b using n ≡ some b' → n ≤ length b'.bytes
grow_enough b b' using n e =
    ground (arith, length-append b.bytes (replicate n 0), length-replicate {A = ℕ} n 0)

abbrev env : HandleEnv
env = record {
  get_id = read_id;
  int64_parse = read_id;
  resize = grow;
  set_length = λ n. true;
  scratch_bytes = replicate 8 7;
}

env-HandleLaws : HandleLaws env
env-HandleLaws = record {
  print_id = print;
  get_id_print = read_id-print;
  int64_parse_print = read_id-print;
  print_id_Lacks = print-Lacks;
  get_id_dot = read_id-dot;
  resize_enough = grow_enough;
}

-- 2 and the subscripts 11 and 1.
built :
    subscript_impl env struct ((b'1' ∷ b'1' ∷ []) ∷ (b'1' ∷ b'1' ∷ []) ∷ (b'1' ∷ []) ∷ [])
    ≡ done (some (b'1' ∷ b'1' ∷ b'.' ∷ b'1' ∷ b'1' ∷ b'.' ∷ b'1' ∷ []))
unfolding subscript_impl
built = refl

abbrev parsed : SubParse
parsed = record {
  val = record { key = inside scratch; length = 3 };
  buf = record { at = scratch; bytes = b'1' ∷ b'2' ∷ 0 ∷ 7 ∷ 7 ∷ [] };
}

abbrev two : Bytes
two = b'1' ∷ b'2' ∷ []

parsed-Holds : Holds parsed two
parsed-Holds = record { place = refl; counted = refl; stored = (7 ∷ 7 ∷ [], refl) }

abbrev wide : Buffer
wide = record { at = heap 0; bytes = b'1' ∷ b'2' ∷ 0 ∷ 7 ∷ 7 ∷ 0 ∷ 0 ∷ 0 ∷ 0 ∷ 0 ∷ 0 ∷ [] }

wide-Resized : Resized (parsed.buf) wide 6
wide-Resized = record { enough = omega arith; moved = inr (0, refl) }

-- "12", then "3" for a container: the text 12.3. For a struct the terminator is put behind the 1.
appended :
    (parse_subscript env container (b'3' ∷ []) parsed true true
      ≡ done (
          some (record {
            val = record { key = inside scratch; length = 5 };
            buf = record { at = scratch; bytes = b'1' ∷ b'2' ∷ b'.' ∷ b'3' ∷ 0 ∷ [] };
          })))
    × (parse_subscript env struct (b'3' ∷ []) parsed true true
        ≡ done (
            some (record {
              val = record { key = inside scratch; length = 5 };
              buf = record { at = scratch; bytes = b'1' ∷ 0 ∷ b'.' ∷ b'3' ∷ 7 ∷ [] };
            })))
unfolding parse_subscript
appended = (refl, refl)

parse_handle-subscript_impl_example :
    ((subscript_impl env struct ((b'1' ∷ b'1' ∷ []) ∷ []) >>= parse_built env env-HandleLaws true)
      ≡ done (some (pos 2, record { val = no_sub; buf = no_buf })))
    × (p : SubParse) × ((subscript_impl env struct ((b'1' ∷ b'1' ∷ []) ∷ two ∷ (b'7' ∷ []) ∷ [])
          >>= parse_built env env-HandleLaws true)
        ≡ done (some (pos 2, p)))
    × Holds p (b'1' ∷ b'2' ∷ b'.' ∷ b'7' ∷ [])
unfolding env-HandleLaws
parse_handle-subscript_impl_example =
    parse_handle-subscript_impl env env-HandleLaws (pos 2) two ((b'7' ∷ []) ∷ []) true
      (record { at = scratch; bytes = replicate 8 7 }) (λ n. refl) refl

parse_subscript-Holds_example :
    (p : SubParse) × (parse_subscript env container (b'3' ∷ b'4' ∷ []) parsed true true
      ≡ done (some p))
    × Holds p (b'1' ∷ b'2' ∷ b'.' ∷ b'3' ∷ b'4' ∷ [])
parse_subscript-Holds_example =
    parse_subscript-Holds env parsed two (b'3' ∷ b'4' ∷ []) true wide refl parsed-Holds refl
      wide-Resized

parse_subscript-broken_example :
    (p : SubParse) × (parse_subscript env struct (b'3' ∷ b'4' ∷ []) parsed true true
      ≡ done (some p))
    × (p.val.length ≡ 6)
    × ¬ Holds p (b'1' ∷ b'2' ∷ b'.' ∷ b'3' ∷ b'4' ∷ [])
parse_subscript-broken_example =
    parse_subscript-broken env parsed two b'3' (b'4' ∷ []) true wide refl parsed-Holds (omega arith)
      (omega arith) refl wide-Resized
