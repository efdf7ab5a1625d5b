-- ===== src/Async/Check/Release.antt =====
-- References to callbacks after `check_tasks`.
use exm_turbine.Common.{
  ℕ, Bool, true, ◌≡◌, ◌≢◌, ◌⊎◌, ◌↔◌, inl, inr, refl, ◌∙◌, false, Option, List, [], ◌∷◌, ◌++◌, arith,
  append-nil, if◌then◌else◌, done, WhenDone, WhenDone->>=, WhenDone-if, WhenDone-done,
  WhenDone-mono, ap,
}
use exm_turbine.Exec.{exec_success, CompletedTask, Refs, decr_callbacks}
use exm_turbine.Codes.{TurbineCode, success}
use exm_turbine.Externals.{Externals}
use exm_turbine.Async.Check.{
  CheckCode, exec_code, turbine_code, finish_tasks, succeeds, run_callback, chosen,
}

-- The counts after the callbacks of all the tasks gave back their references.
abbrev pub decr_all : List CompletedTask → Refs → Refs
decr_all [] refs = refs
decr_all (t ∷ ts) refs = decr_all ts (decr_callbacks t.callbacks refs)

pub succeeds-success : succeeds success ≡ true
unfolding succeeds
succeeds-success = refl

-- The callback of a task that succeeded or failed.
abbrev pub called : Bool → CompletedTask → Option ℕ
called true t = t.callbacks.success
called false t = t.callbacks.failure

chosen-called : (t : CompletedTask) → chosen t ≡ called t.success t
chosen-called t = by_test t.success
  where
    by_test : (b : Bool) → (if b then t.callbacks.success else t.callbacks.failure) ≡ called b t
    by_test true = refl
    by_test false = refl

succeeds-true : (tc : TurbineCode) → succeeds tc ≡ true → tc ≡ success
unfolding succeeds
succeeds-true tc h = ground arith

succeeds-false : (tc : TurbineCode) → succeeds tc ≡ false → tc ≢ success
unfolding succeeds
succeeds-false tc h e = ground arith

succeeds-failed : (tc : TurbineCode) → tc ≢ success → succeeds tc ≡ false
unfolding succeeds
succeeds-failed tc h = ground arith

module _ (x : Externals) where
  open x use {World}

  -- The callback of a task ends with a code.
  abbrev pub Called : CompletedTask → World → TurbineCode → World → Type 0
  Called t w tc w' = run_callback x t.vars (called t.success t) w ≡ done (tc, w')

  -- The callbacks of the tasks, each run in the world that the one before it left, all succeed.
  abbrev pub Ran : List CompletedTask → World → World → Type 0
  Ran [] w w' = w ≡ w'
  Ran (t ∷ ts) w w' = (w1 : World) × Called t w success w1 × Ran ts w1 w'

  -- Every callback succeeded, or one failed after those before it succeeded.
  abbrev pub Finished : List CompletedTask → Refs → World → CheckCode × Refs × World → Type 0
  Finished ts refs w r =
      (Ran ts w r.2 × (r.0 ≡ exec_code exec_success) × (r.1 ≡ decr_all ts refs))
      ⊎ ((before : List CompletedTask) × (t : CompletedTask) × (rest : List CompletedTask)
          × (tc : TurbineCode) × (w1 : World) × (ts ≡ before ++ t ∷ rest)
          × Ran before w w1
          × Called t w1 tc r.2
          × (tc ≢ success)
          × (r.0 ≡ turbine_code tc)
          × (r.1 ≡ decr_all before refs))

  Finished-cons :
      (t : CompletedTask) (ts : List CompletedTask) (refs : Refs) (w w1 : World)
      (r : CheckCode × Refs × World)
      → Called t w success w1
      → Finished ts (decr_callbacks t.callbacks refs) w1 r
      → Finished (t ∷ ts) refs w r
  Finished-cons t ts refs w w1 r c (inl (n, h, k)) = inl ((w1, c, n), h, k)
  Finished-cons t ts refs w w1 r c (inr (before, u, rest, tc, w2, e, n, d, h, i, j)) =
      inr (t ∷ before, u, rest, tc, w2, ap (λ l. t ∷ l) e, (w1, c, n), d, h, i, j)

  run_callback-Called :
      (t : CompletedTask) (w : World) (r : TurbineCode × World)
      → run_callback x t.vars (chosen t) w ≡ done r
      → Called t w r.0 r.1
  run_callback-Called t w r e = rw (chosen-called t) at e

  finish_tasks-WhenDone :
      (ts : List CompletedTask) (refs : Refs) (w : World)
      → WhenDone (Finished ts refs w) (finish_tasks x ts refs w)
  unfolding finish_tasks
  finish_tasks-WhenDone [] refs w = inl (refl, refl, refl)
  finish_tasks-WhenDone (t ∷ ts) refs w =
      WhenDone->>= _ (run_callback x t.vars (chosen t) w) _ λ r e.
        let c : Called t w r.0 r.1 = run_callback-Called t w r e in
        WhenDone-if (Finished (t ∷ ts) refs w) (succeeds r.0) _ _
          (λ h.
            WhenDone-mono _ _ (finish_tasks x ts (decr_callbacks t.callbacks refs) r.1)
              (λ q k. Finished-cons t ts refs w r.1 q (rw (succeeds-true r.0 h) at c) k)
              (finish_tasks-WhenDone ts _ r.1))
          (λ h. inr ([], t, ts, r.0, w, refl, refl, c, succeeds-false r.0 h, refl, refl))

  -- The loop goes over tasks whose callbacks succeed, and then on.
  finish_tasks-Ran :
      (before rest : List CompletedTask) (refs : Refs) (w w1 : World)
      → Ran before w w1
      → finish_tasks x (before ++ rest) refs w ≡ finish_tasks x rest (decr_all before refs) w1
  unfolding finish_tasks
  finish_tasks-Ran [] rest refs w w1 n = ap (finish_tasks x rest refs) n
  finish_tasks-Ran (t ∷ ts) rest refs w w1 (w2, c, n) =
      rw (chosen-called t, c, succeeds-success)
        (finish_tasks-Ran ts rest (decr_callbacks t.callbacks refs) w2 w1 n)

  finish_tasks-stopped :
      (t : CompletedTask) (rest : List CompletedTask) (refs : Refs) (tc : TurbineCode)
      (w w1 : World)
      → Called t w tc w1
      → tc ≢ success
      → finish_tasks x (t ∷ rest) refs w ≡ done (turbine_code tc, refs, w1)
  unfolding finish_tasks
  finish_tasks-stopped t rest refs tc w w1 c h = rw (chosen-called t, c, succeeds-failed tc h) refl

  Finished-done :
      (ts : List CompletedTask) (refs : Refs) (w : World) (r : CheckCode × Refs × World)
      → Finished ts refs w r
      → finish_tasks x ts refs w ≡ done r
  unfolding finish_tasks
  Finished-done ts refs w r (inl (n, h, k)) =
      let e = finish_tasks-Ran ts [] refs w (r.2) n in (rw (append-nil ts) at e) ∙ cc
  Finished-done ts refs w r (inr (before, t, rest, tc, w1, e, n, c, f, h, k)) =
      let go = finish_tasks-Ran before (t ∷ rest) refs w w1 n in
      let stop = finish_tasks-stopped t rest (decr_all before refs) tc w1 (r.2) c f in cc

  -- The loop over completed tasks returns a result exactly where the callbacks account for it. Either
  -- the callback of every task, the one for its success or the one for its failure, was run in order
  -- and succeeded: then the code is EXEC_SUCCESS and the references of all the tasks are given back.
  -- Or one of them failed after those before it succeeded: then its code is returned, no callback
  -- after it is run, and that task and those after it keep their references.
  pub finish_tasks-Finished :
      (ts : List CompletedTask) (refs : Refs) (w : World) (r : CheckCode × Refs × World)
      → (finish_tasks x ts refs w ≡ done r) ↔ Finished ts refs w r
  finish_tasks-Finished ts refs w r = (
    WhenDone-done (Finished ts refs w) (finish_tasks x ts refs w) (finish_tasks-WhenDone ts refs w),
    Finished-done ts refs w r,
  )
