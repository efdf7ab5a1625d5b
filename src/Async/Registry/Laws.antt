-- ===== src/Async/Registry/Laws.antt =====
-- What registering an executor changes.
use Prim.Native.String.{String}
use exm_turbine.Common.{
  String-cases, ℕ, ◌+◌, ◌≤◌, ◌<◌, ◌≡◌, ◌≢◌, ◌⊎◌, inl, inr, refl, sym, ap, ◌∙◌, Bool, true,
  Bool-cases, Option, none, some, ltb, ltb→lt, ◌==◌, ==_iff, arith, Outcome, done, fault, Ensures,
  Ensures-mono, Ensures-if,
}
use exm_turbine.Codes.{TurbineCode, success, error_invalid, error_oom}
use exm_turbine.Async.Registry.{
  StringTable, ExecDesc, Registry, async_exec_limit, has_functions, found_at, write_exec, add_to,
  turbine_add_async_exec, turbine_get_async_exec,
}

-- The behaviour of the string table of c-utils on names that are absent when they are added.
pub record TableLaws (t : StringTable) : Type 0 where
  pub init_search :
      (n : ℕ) (table : t.Table) (name : String)
      → t.table_init n ≡ some table
      → t.table_search table name ≡ none
  pub init_size : (n : ℕ) (table : t.Table) → t.table_init n ≡ some table → t.table_size table ≡ 0
  pub add_search_self :
      (table : t.Table) (name : String) (p : ℕ)
      → t.table_search table name ≡ none
      → t.table_search (t.table_add table name p) name ≡ some p
  pub add_search_ne :
      (table : t.Table) (name other : String) (p : ℕ)
      → other ≢ name
      → t.table_search (t.table_add table name p) other ≡ t.table_search table other
  pub add_size :
      (table : t.Table) (name : String) (p : ℕ)
      → t.table_search table name ≡ none
      → t.table_size (t.table_add table name p) ≡ t.table_size table + 1

-- Every pointer in the table is one that was handed out, and the limit holds.
pub record IsRegistry {t : StringTable} (r : Registry t) : Type 0 where
  pub allocated :
      (table : t.Table) (name : String) (p : ℕ)
      → r.executors ≡ some table
      → t.table_search table name ≡ some p
      → p < r.next
  pub limited : (table : t.Table) → r.executors ≡ some table → t.table_size table ≤ async_exec_limit

-- What an attempt to register an executor may leave, for a name that is not taken.
pub data Registered {t : StringTable} (e : ExecDesc) (name : String) (r : Registry t)
    : TurbineCode × Registry t → Type 0 where
  -- It is found, with the state that was passed, and all others are found as before.
  added :
      (r' : Registry t)
      → IsRegistry r'
      → turbine_get_async_exec t name r' ≡ some (r.next, e.started)
      → ((other : String)
          → other ≢ name
          → turbine_get_async_exec t other r' ≡ turbine_get_async_exec t other r)
      → Registered e name r (success, r')
  -- Nothing is registered; at most the empty table was made.
  refused :
      (tc : TurbineCode) (r' : Registry t)
      → (tc ≡ error_oom) ⊎ (tc ≡ error_invalid)
      → IsRegistry r'
      → ((other : String) → turbine_get_async_exec t other r' ≡ turbine_get_async_exec t other r)
      → Registered e name r (tc, r')

write_exec_self : (h : ℕ → ExecDesc) (p : ℕ) (e : ExecDesc) → write_exec h p e p ≡ e
write_exec_self h p e = rw ((==_iff p p).1 refl) refl

write_exec-ne : (h : ℕ → ExecDesc) (p q : ℕ) (e : ExecDesc) → q ≢ p → write_exec h p e q ≡ h q
write_exec-ne h p q e n = elim (Bool-cases (q == p)) [
  | inl y ↦ absurd (n ((==_iff q p).0 y))
  | inr y ↦ rw y refl
]

found_at-same :
    (h h' : ℕ → ExecDesc) (o o' : Option ℕ)
    → o' ≡ o
    → ((p : ℕ) → o ≡ some p → h' p ≡ h p)
    → found_at h' o' ≡ found_at h o
found_at-same h h' none o' e k = rw e refl
found_at-same h h' (some p) o' e k = rw e (ap (λ (x : ExecDesc). some (p, x.started)) (k p refl))

found_at-none : (h : ℕ → ExecDesc) (o : Option ℕ) → found_at h o ≡ none → o ≡ none
found_at-none h none e = refl
found_at-none h (some p) e = cc

Ensures-name :
    {A : Type 0} (P : A → Type 0) (o : Option String) (name : String) (f : String → Outcome A)
    → o ≡ some name
    → Ensures P (f name)
    → Ensures P (elim o [ none ↦ fault | some n ↦ f n ])
Ensures-name P o name f e k = rw e k

pub some-eq : {A : Type 0} {a b : A} → some a ≡ some b → a ≡ b
some-eq e = cc

module _ (t : StringTable) (l : TableLaws t) where
  added-Registered :
      (e : ExecDesc) (name : String) (table : t.Table) (r : Registry t)
      → IsRegistry r
      → r.executors ≡ some table
      → t.table_search table name ≡ none
      → t.table_size table < async_exec_limit
      → Registered e name r (
        success,
        record r {
          executors = some (t.table_add table name r.next);
          heap = write_exec r.heap r.next e;
          next = r.next + 1;
        },
      )
  unfolding turbine_get_async_exec
  added-Registered e name table r v at a h =
      added _
        (record {
          allocated = λ table' other p m k.
              let k' = ap (λ (x : t.Table). t.table_search x other) (some-eq m) ∙ k in
              elim (String-cases other name) [
                | inl y ↦
                    let z : r.next ≡ p = cc (k', y, l.add_search_self table name r.next a) in
                    omega arith
                | inr y ↦ omega (
                  arith,
                  v.allocated table other p at
                      (sym (l.add_search_ne table name other r.next y) ∙ k'),
                )
              ];
          limited = λ table' m.
              omega (arith, ap t.table_size (some-eq m), l.add_size table name r.next a);
        })
        (ap (found_at (write_exec r.heap r.next e)) (l.add_search_self table name r.next a)
          ∙ ap (λ (x : ExecDesc). some (r.next, x.started)) (write_exec_self r.heap r.next e))
        λ o k.
          rw (at, turbine_get_async_exec)
            (found_at-same r.heap _ (t.table_search table o) _
              (l.add_search_ne table name o r.next k)
              λ p m.
                write_exec-ne r.heap r.next p e (λ z. omega (arith, v.allocated table o p at m)))

  add_to-Registered :
      (e : ExecDesc) (name : String) (memory : Bool) (table : t.Table) (r : Registry t)
      → IsRegistry r
      → r.executors ≡ some table
      → e.name ≡ some name
      → has_functions e ≡ true
      → t.table_search table name ≡ none
      → Ensures (Registered e name r) (add_to t e memory table r)
  unfolding add_to
  add_to-Registered e name memory table r v at n f a =
      Ensures-if (Registered e name r) (ltb (t.table_size table) async_exec_limit) _ _
        (λ h. Ensures-name (Registered e name r) e.name name _ n (
          rw f (
            Ensures-if (Registered e name r) memory _ _
              (λ _. added-Registered e name table r v at a (ltb→lt _ _ h))
              (λ _. refused error_oom r (inl refl) v λ o. refl))))
        (λ _. refused error_invalid r (inr refl) v λ o. refl)

  -- Where the table is made first, nothing was found before.
  fresh-Registered :
      (e : ExecDesc) (name : String) (n : ℕ) (table : t.Table) (r : Registry t)
      → t.table_init n ≡ some table
      → r.executors ≡ none
      → (q : TurbineCode × Registry t) → Registered e name (record r { executors = some table }) q
      → Registered e name r q
  unfolding turbine_get_async_exec
  fresh-Registered e name n table r i a _ (added r' v h k) =
      added r' v h λ o z. k o z ∙ (rw (l.init_search n table o i, a, turbine_get_async_exec) refl)
  fresh-Registered e name n table r i a _ (refused tc r' w v k) =
      refused tc r' w v λ o. k o ∙ (rw (l.init_search n table o i, a, turbine_get_async_exec) refl)

  unfound :
      (name : String) (table : t.Table) (r : Registry t)
      → r.executors ≡ some table
      → turbine_get_async_exec t name r ≡ none
      → t.table_search table name ≡ none
  unfolding turbine_get_async_exec
  unfound name table r z a = found_at-none r.heap _ (rw z at a)

  -- Registering an executor that has a name and the functions that are asked for, under a name that
  -- is not taken: no assertion fails; either it is found from then on with the `started` that it
  -- came with, and every other name as before, or the code is OOM or INVALID and nothing that is
  -- found changes. The limit on executors holds after either.
  pub turbine_add_async_exec-Registered :
      (e : ExecDesc) (name : String) (memory : Bool) (r : Registry t)
      → IsRegistry r
      → e.name ≡ some name
      → has_functions e ≡ true
      → turbine_get_async_exec t name r ≡ none
      → Ensures (Registered e name r) (turbine_add_async_exec t e memory r)
  unfolding turbine_add_async_exec turbine_get_async_exec
  turbine_add_async_exec-Registered e name memory r v n f a = by_table r.executors refl
    where
      made :
          (o : Option t.Table)
          → t.table_init 16 ≡ o
          → r.executors ≡ none
          → Ensures (Registered e name r) (elim o [
            | none ↦ done (error_oom, r)
            | some table ↦ add_to t e memory table (record r { executors = some table })
          ])
      made none i z = refused error_oom r (inl refl) v λ o. refl
      made (some table) i z =
          Ensures-mono _ _ (add_to t e memory table (record r { executors = some table }))
            (fresh-Registered e name 16 table r i z)
            (add_to-Registered e name memory table (record r { executors = some table })
              (record {
                allocated = λ table' o p m k. cc (l.init_search 16 table o i, some-eq m, k);
                limited =
                    λ table' m. omega (arith, l.init_size 16 table i, ap t.table_size (some-eq m));
              })
              refl n f (l.init_search 16 table name i))

      by_table :
          (o : Option t.Table)
          → r.executors ≡ o
          → Ensures (Registered e name r) (elim o [
            | some table ↦ add_to t e memory table r
            | none ↦ elim (t.table_init 16) [
              | none ↦ done (error_oom, r)
              | some table ↦ add_to t e memory table (record r { executors = some table })
            ]
          ])
      by_table none z = made (t.table_init 16) refl z
      by_table (some table) z =
          add_to-Registered e name memory table r v z n f (unfound name table r z a)
