-- ===== src/Cache/Linked.antt =====
-- The link between table and tree of code/src/turbine/cache.c, on the views of both as functions.
use exm_turbine.Common.{
  ℕ, ◌+◌, ◌≤◌, ◌<◌, ◌≡◌, ◌≢◌, ◌⊎◌, inl, inr, refl, sym, ap, ◌∙◌, Bool-cases, Option, none, some,
  ◌==◌, ==_iff, arith, if◌then◌else◌,
}
use exm_turbine.Cache.{Entry, write}

-- A key is added, or removed, and all other keys keep what they had.
pub record Added (f f' : ℕ → Option ℕ) (k p : ℕ) : Type 0 where
  pub absent : f k ≡ none
  pub here : f' k ≡ some p
  pub elsewhere : (o : ℕ) → o ≢ k → f' o ≡ f o

pub record Removed (f f' : ℕ → Option ℕ) (k : ℕ) : Type 0 where
  pub gone : f' k ≡ none
  pub elsewhere : (o : ℕ) → o ≢ k → f' o ≡ f o

-- Table and tree hold the same entries: each once, under its datum and under its stamp.
pub record IsLinked (t l : ℕ → Option ℕ) (heap : ℕ → Entry) (next counter : ℕ) : Type 0 where
  pub by_td :
      (td p : ℕ) → t td ≡ some p → (p < next) × ((heap p).td ≡ td) × (l (heap p).stamp ≡ some p)
  pub by_stamp :
      (k p : ℕ) → l k ≡ some p → (k < counter) × ((heap p).stamp ≡ k) × (t (heap p).td ≡ some p)

pub write_self : (h : ℕ → Entry) (p : ℕ) (e : Entry) → write h p e p ≡ e
write_self h p e = rw ((==_iff p p).1 refl) refl

pub write-ne : (h : ℕ → Entry) (p q : ℕ) (e : Entry) → q ≢ p → write h p e q ≡ h q
write-ne h p q e n = elim (Bool-cases (q == p)) [
  | inl y ↦ absurd (n ((==_iff q p).0 y))
  | inr y ↦ rw y refl
]

pub same? : (a b : ℕ) → (a ≡ b) ⊎ (a ≢ b)
same? a b = ground arith

module _ (t l : ℕ → Option ℕ) (heap : ℕ → Entry) (next counter : ℕ)
    (v : IsLinked t l heap next counter) where
  pub Added-IsLinked :
      (t' l' : ℕ → Option ℕ) (td p : ℕ) (e : Entry) (next' : ℕ)
      → Added t t' td p
      → Added l l' counter p
      → ((o : ℕ) → t o ≢ some p)
      → e.td ≡ td
      → e.stamp ≡ counter
      → next ≤ next'
      → p < next'
      → IsLinked t' l' (write heap p e) next' (counter + 1)
  Added-IsLinked t' l' td p e next' a b n f g i j = record {
    by_td = λ o q m. elim (same? o td) [
      | inl y ↦
          let z : q ≡ p = cc (y, m, a.here) in
          rw (z, write_self heap p e) (j, f ∙ sym y, ap l' g ∙ b.here)
      | inr y ↦
          let m' = sym (a.elsewhere o y) ∙ m in
          let k = v.by_td o q m' in
          let other : q ≢ p = λ z. n o (m' ∙ ap some z) in
          let older = v.by_stamp _ q k.2 in
          rw (write-ne heap p q e other)
            (omega arith, k.1, b.elsewhere (heap q).stamp (λ z. omega (arith, older.0)) ∙ k.2)
    ];
    by_stamp = λ o q m. elim (same? o counter) [
      | inl y ↦
          let z : q ≡ p = cc (y, m, b.here) in
          rw (z, write_self heap p e) (omega arith, g ∙ sym y, ap t' f ∙ a.here)
      | inr y ↦
          let m' = sym (b.elsewhere o y) ∙ m in
          let k = v.by_stamp o q m' in
          let other : q ≢ p = λ z. n (heap q).td (k.2 ∙ ap some z) in
          rw (write-ne heap p q e other)
            (omega (arith, k.0), k.1, a.elsewhere (heap q).td (λ z. cc (z, a.absent, k.2)) ∙ k.2)
    ];
  }

  -- Taking an entry out of both.
  pub Removed-IsLinked :
      (t' l' : ℕ → Option ℕ) (td p : ℕ)
      → t td ≡ some p
      → Removed t t' td
      → Removed l l' (heap p).stamp
      → IsLinked t' l' heap next counter × ((o : ℕ) → t' o ≢ some p)
  Removed-IsLinked t' l' td p m a b =
      let me = v.by_td td p m in
      (
        record {
          by_td = λ o q n.
              let y : o ≢ td = λ z. cc (z, n, a.gone) in
              let n' = sym (a.elsewhere o y) ∙ n in
              let k = v.by_td o q n' in
              let y' : (heap q).stamp ≢ (heap p).stamp = λ z.
                let w : q ≡ p = cc (z, k.2, me.2) in
                y (sym k.1 ∙ ap (λ (i : ℕ). (heap i).td) w ∙ me.1) in
              (k.0, k.1, b.elsewhere _ y' ∙ k.2);
          by_stamp = λ o q n.
              let y : o ≢ (heap p).stamp = λ z. cc (z, n, b.gone) in
              let n' = sym (b.elsewhere o y) ∙ n in
              let k = v.by_stamp o q n' in
              let y' : (heap q).td ≢ td = λ z.
                let w : q ≡ p = cc (z, k.2, m) in y (sym k.1 ∙ ap (λ (i : ℕ). (heap i).stamp) w) in
              (k.0, k.1, a.elsewhere _ y' ∙ k.2);
        },
        λ o n.
            let y : o ≢ td = λ z. cc (z, n, a.gone) in
            y (sym (v.by_td o p (sym (a.elsewhere o y) ∙ n)).1 ∙ me.1),
      )

-- A view without one key.
abbrev pub without : (ℕ → Option ℕ) → ℕ → ℕ → Option ℕ
without f k o = if o == k then none else f o

pub without_self : (f : ℕ → Option ℕ) (k : ℕ) → without f k k ≡ none
without_self f k = rw ((==_iff k k).1 refl) refl

pub without-ne : (f : ℕ → Option ℕ) (k o : ℕ) → o ≢ k → without f k o ≡ f o
without-ne f k o n = elim (Bool-cases (o == k)) [
  | inl y ↦ absurd (n ((==_iff o k).0 y))
  | inr y ↦ rw y refl
]

pub without-Removed : (f : ℕ → Option ℕ) (k : ℕ) → Removed f (without f k) k
without-Removed f k = record { gone = without_self f k; elsewhere = without-ne f k }

-- Putting the same key back.
pub without-Added : (f : ℕ → Option ℕ) (k p : ℕ) → f k ≡ some p → Added (without f k) f k p
without-Added f k p m = record {
  absent = without_self f k;
  here = m;
  elsewhere = λ o n. sym (without-ne f k o n);
}
