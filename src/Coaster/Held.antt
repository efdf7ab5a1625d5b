-- ===== src/Coaster/Held.antt =====
-- What the active tasks of the Coaster executor hold, and what it relies on of client and table.
use exm_turbine.Common.{ℕ, ◌+◌, ◌≤◌, ◌≡◌, ◌≢◌, some, List, [], ◌∷◌, length, Bool}
use exm_turbine.Exec.{mentions}
use exm_turbine.Coaster.{ActiveTask, CoasterClient, CoasterState}

-- A sum over the active tasks.
abbrev pub total : (ActiveTask → ℕ) → List (ℕ × ActiveTask) → ℕ
total f [] = 0
total f ((id, t) ∷ rest) = f t + total f rest

abbrev pub Absent : ℕ → List (ℕ × ActiveTask) → Type 0
Absent id [] = Unit
Absent id ((j, t) ∷ rest) = (j ≢ id) × Absent id rest

-- A new key adds its task and a key that is found takes its task away; the client never returns more
-- jobs than it was asked for.
pub record ClientLaws (c : CoasterClient) : Type 0 where
  pub add_total :
      (t t' : c.Table) (id : ℕ) (task : ActiveTask) (f : ActiveTask → ℕ)
      → Absent id (c.entries t)
      → c.table_add t id task ≡ some t'
      → total f (c.entries t') ≡ total f (c.entries t) + f task
  pub remove_total :
      (t : c.Table) (id : ℕ) (task : ActiveTask) (f : ActiveTask → ℕ)
      → (c.table_remove t id).0 ≡ some task
      → total f (c.entries t) ≡ total f (c.entries (c.table_remove t id).1) + f task
  pub few : (wait : Bool) (max : ℕ) (w : c.World) → length (c.check_jobs wait max w).1 ≤ max

-- The number of active tasks, and the references to an object that they hold.
abbrev pub active : {c : CoasterClient} → CoasterState c → ℕ
active {c} s = total (λ t. 1) (c.entries s.active_tasks)

abbrev pub held : {c : CoasterClient} → CoasterState c → ℕ → ℕ
held {c} s j = total (λ t. mentions t.callbacks j) (c.entries s.active_tasks)
