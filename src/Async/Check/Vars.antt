-- ===== src/Async/Check/Vars.antt =====
-- `run_callback` and the Tcl variables that it sets for the callback.
use Prim.Native.String.{String}
use exm_turbine.Common.{
  ℕ, ◌≡◌, ◌≢◌, refl, Bool, true, false, some, List, [], ◌∷◌, if◌then◌else◌, done, WhenDone->>=,
  WhenDone-done,
}
use exm_turbine.Exec.{CallbackVar}
use exm_turbine.Codes.{
  TurbineCode, success, error_external, error_unknown, TclCode, tcl_ok, tcl_error, other_tcl,
}
use exm_turbine.Externals.{Externals}
use exm_turbine.Async.Check.{set_vars, unset_vars, eval_callback, run_callback}

-- What the Tcl manual says of variables: `is_set` tells whether one exists, and `Tcl_UnsetVar` that
-- returns TCL_OK removed the variable and no call of it makes another one.
pub record TclVars (x : Externals) : Type 1 where
  pub IsUnset : String → x.World → Type 0
  pub removes :
      (n : String) (w : x.World) → (x.unset_var n w).0 ≡ tcl_ok → IsUnset n (x.unset_var n w).1
  pub makes_none : (n m : String) (w : x.World) → IsUnset m w → IsUnset m (x.unset_var n w).1

after_unset {ℓ} :
    {A : Type ℓ} (P : A → Type 0) (c : TclCode) (a b : A)
    → (c ≡ tcl_ok → P a)
    → P b
    → P (elim c [ tcl_ok ↦ a | tcl_error ↦ b | other_tcl ↦ b ])
after_unset P tcl_ok a b h k = h refl
after_unset P tcl_error a b h k = k
after_unset P other_tcl a b h k = k

module _ (x : Externals) (t : TclVars x) where
  open x use {World, unset_var, eval_obj}
  open t use {IsUnset, removes, makes_none}

  abbrev pub AllUnset : List CallbackVar → World → Type 0
  AllUnset [] w = Unit
  AllUnset (v ∷ vs) w = IsUnset v.name w × AllUnset vs w

  unset_vars-keeps :
      (tc : TurbineCode) (vs : List CallbackVar) (w : World) (m : String)
      → IsUnset m w
      → IsUnset m (unset_vars x tc vs w).1
  unfolding unset_vars
  unset_vars-keeps tc [] w m h = h
  unset_vars-keeps tc (v ∷ vs) w m h =
      after_unset (λ (r : TurbineCode × World). IsUnset m r.1) (unset_var v.name w).0 _ _
        (λ _. unset_vars-keeps tc vs (unset_var v.name w).1 m (makes_none v.name m w h))
        (makes_none v.name m w h)

  unset_vars-AllUnset :
      (tc : TurbineCode) (vs : List CallbackVar) (w : World)
      → (unset_vars x tc vs w).0 ≢ error_unknown
      → AllUnset vs (unset_vars x tc vs w).1
  unfolding unset_vars
  unset_vars-AllUnset tc [] w h = tt
  unset_vars-AllUnset tc (v ∷ vs) w ne =
      after_unset (λ (r : TurbineCode × World). r.0 ≢ error_unknown → AllUnset (v ∷ vs) r.1)
        (unset_var v.name w).0 _ _
        (λ e h. (
          unset_vars-keeps tc vs (unset_var v.name w).1 v.name (removes v.name w e),
          unset_vars-AllUnset tc vs (unset_var v.name w).1 h,
        ))
        (λ h. absurd (h refl)) ne

  eval_callback-AllUnset :
      (cb : ℕ) (vs : List CallbackVar) (w : World)
      → (eval_callback x cb vs w).0 ≢ error_unknown
      → AllUnset vs (eval_callback x cb vs w).1
  unfolding eval_callback
  eval_callback-AllUnset cb vs w =
      after_unset (λ (r : TurbineCode × World). r.0 ≢ error_unknown → AllUnset vs r.1)
        (eval_obj cb w).0 _ _ (λ _ h. unset_vars-AllUnset success vs (eval_obj cb w).1 h)
        (λ h. unset_vars-AllUnset error_external vs (x.add_error_info (eval_obj cb w).1) h)

  -- After a callback has run, whether it succeeded or failed, none of the variables that were set
  -- for it exists any more, unless Tcl refused to set or unset one (TURBINE_ERROR_UNKNOWN).
  pub run_callback-AllUnset :
      (cb : ℕ) (vs : List CallbackVar) (w : World) (r : TurbineCode × World)
      → run_callback x vs (some cb) w ≡ done r
      → r.0 ≢ error_unknown
      → AllUnset vs r.1
  unfolding run_callback
  run_callback-AllUnset cb vs w r e =
      WhenDone-done (λ r. r.0 ≢ error_unknown → AllUnset vs r.1) _
        (WhenDone->>= _ (set_vars x vs w) _ λ q _. by_set q.0 q.1) e
    where
      by_set :
          (ok : Bool) (w' : World)
          → let q = if ok then eval_callback x cb vs w' else (error_unknown, w') in
            q.0 ≢ error_unknown → AllUnset vs q.1
      by_set true w' h = eval_callback-AllUnset cb vs w' h
      by_set false w' h = absurd (h refl)
