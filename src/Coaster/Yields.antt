-- ===== src/Coaster/Yields.antt =====
-- A function that returns, with a result that satisfies a predicate.
use exm_turbine.Common.{
  ◌≡◌, refl, Bool, true, false, if◌then◌else◌, Outcome, done, fault, starved, ◌>>=◌,
}

abbrev pub Yields : {A : Type 0} → (A → Type 0) → Outcome A → Type 0
Yields P (done a) = P a
Yields P fault = ⊥
Yields P starved = ⊥

module _ {A : Type 0} where
  pub Yields->>= :
      {B : Type 0} (P : A → Type 0) (Q : B → Type 0) (m : Outcome A) (f : A → Outcome B)
      → Yields P m
      → ((a : A) → P a → Yields Q (f a))
      → Yields Q (m >>= f)
  Yields->>= P Q (done a) f h k = k a h
  Yields->>= P Q fault f h k = h
  Yields->>= P Q starved f h k = h

  pub Yields-if :
      (P : A → Type 0) (b : Bool) (x y : Outcome A)
      → (b ≡ true → Yields P x)
      → (b ≡ false → Yields P y)
      → Yields P (if b then x else y)
  Yields-if P true x y f g = f refl
  Yields-if P false x y f g = g refl
