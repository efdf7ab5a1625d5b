-- ===== src/Common/Outcomes.antt =====
-- Postconditions of functions that may fail, and their rule for sequencing.
use mathlib.Core.Path.{◌≡◌, refl, subst}
use mathlib.Core.Bool.{Bool, true, false}
use exm_turbine.Common.Tests.{if◌then◌else◌, Outcome, done, fault, starved, ◌>>=◌}

-- The function does not fault, and where it returns the result satisfies `P`.
abbrev pub Ensures {ℓ} : {A : Type ℓ} → (A → Type 0) → Outcome A → Type 0
Ensures P (done a) = P a
Ensures P fault = ⊥
Ensures P starved = Unit

module _ {ℓ κ} {A : Type ℓ} {B : Type κ} where
  pub Ensures->>= :
      (P : A → Type 0) (Q : B → Type 0) (m : Outcome A) (f : A → Outcome B)
      → Ensures P m
      → ((a : A) → P a → Ensures Q (f a))
      → Ensures Q (m >>= f)
  Ensures->>= P Q (done a) f h k = k a h
  Ensures->>= P Q fault f h k = h
  Ensures->>= P Q starved f h k = tt

module _ {ℓ} {A : Type ℓ} where
  pub Ensures-done : (P : A → Type 0) (m : Outcome A) {a : A} → Ensures P m → m ≡ done a → P a
  Ensures-done P (done b) h e = subst (λ (m : Outcome A). Ensures P m) e h
  Ensures-done P fault h e = absurd h
  Ensures-done P starved h e = cc

  pub Ensures-if :
      (P : A → Type 0) (b : Bool) (x y : Outcome A)
      → (b ≡ true → Ensures P x)
      → (b ≡ false → Ensures P y)
      → Ensures P (if b then x else y)
  Ensures-if P true x y f g = f refl
  Ensures-if P false x y f g = g refl

  pub Ensures-mono :
      (P Q : A → Type 0) (m : Outcome A) → ((a : A) → P a → Q a) → Ensures P m → Ensures Q m
  Ensures-mono P Q (done a) k h = k a h
  Ensures-mono P Q fault k h = h
  Ensures-mono P Q starved k h = tt

-- The function returns.
abbrev pub Returns {ℓ} : {A : Type ℓ} → Outcome A → Type ℓ
Returns {A} m = (a : A) × (m ≡ done a)

pub Returns-if {ℓ} :
    {A : Type ℓ} (b : Bool) (x y : Outcome A)
    → (b ≡ true → Returns x)
    → (b ≡ false → Returns y)
    → Returns (if b then x else y)
Returns-if true x y f g = f refl
Returns-if false x y f g = g refl

pub Returns->>= {ℓ κ} :
    {A : Type ℓ} {B : Type κ} (m : Outcome A) (f : A → Outcome B)
    → Returns m
    → ((a : A) → m ≡ done a → Returns (f a))
    → Returns (m >>= f)
Returns->>= (done a) f h k = k a refl
Returns->>= fault f h k = cc (h.1)
Returns->>= starved f h k = cc (h.1)

-- Where the function returns, the result satisfies `P`.
abbrev pub WhenDone {ℓ} : {A : Type ℓ} → (A → Type 0) → Outcome A → Type 0
WhenDone P (done a) = P a
WhenDone P fault = Unit
WhenDone P starved = Unit

pub WhenDone->>= {ℓ κ} :
    {A : Type ℓ} {B : Type κ} (Q : B → Type 0) (m : Outcome A) (f : A → Outcome B)
    → ((a : A) → m ≡ done a → WhenDone Q (f a))
    → WhenDone Q (m >>= f)
WhenDone->>= Q (done a) f k = k a refl
WhenDone->>= Q fault f k = tt
WhenDone->>= Q starved f k = tt

module _ {ℓ} {A : Type ℓ} (P : A → Type 0) where
  pub WhenDone-if :
      (b : Bool) (x y : Outcome A)
      → (b ≡ true → WhenDone P x)
      → (b ≡ false → WhenDone P y)
      → WhenDone P (if b then x else y)
  WhenDone-if true x y f g = f refl
  WhenDone-if false x y f g = g refl

  pub WhenDone-done : (m : Outcome A) {a : A} → WhenDone P m → m ≡ done a → P a
  WhenDone-done (done b) h e = subst (λ (m : Outcome A). WhenDone P m) e h
  WhenDone-done fault h e = cc
  WhenDone-done starved h e = cc

  pub WhenDone-mono :
      (Q : A → Type 0) (m : Outcome A) → ((a : A) → Q a → P a) → WhenDone Q m → WhenDone P m
  WhenDone-mono Q (done a) k h = k a h
  WhenDone-mono Q fault k h = tt
  WhenDone-mono Q starved k h = tt

pub bind_assoc {ℓ κ μ} :
    {A : Type ℓ} {B : Type κ} {C : Type μ} (m : Outcome A) (f : A → Outcome B) (g : B → Outcome C)
    → (m >>= f >>= g) ≡ (m >>= λ a. f a >>= g)
bind_assoc (done a) f g = refl
bind_assoc fault f g = refl
bind_assoc starved f g = refl

-- The same result, passed on through a function at the end.
pub bind_done {ℓ κ μ} :
    {A : Type ℓ} {B : Type κ} {C : Type μ} (m : Outcome A) (f : A → Outcome B) (k : B → C) {b : B}
    → (m >>= f) ≡ done b
    → (m >>= λ a. f a >>= λ r. done (k r)) ≡ done (k b)
bind_done (done a) f k e = rw e refl
bind_done fault f k e = cc
bind_done starved f k e = cc
