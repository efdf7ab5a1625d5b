-- ===== src/Service/Launch.antt =====
-- `turbine_service_init` of code/src/turbine/services.c: after it a launched service has a pid.
use exm_turbine.Common.{◌≡◌, ◌≢◌, refl, true, none, some, Option}
use Prim.Native.String.{String}
use exm_turbine.Codes.{success}
use exm_turbine.Externals.{Externals, ForkResult, parent_of, in_child, no_child}
use exm_turbine.Service.{
  ServiceState, InitResult, returned, replaced_by, service_fork, turbine_service_init,
}

abbrev pub PidKnown : ServiceState → Type 0
PidKnown s = s.launched ≡ true → s.pid ≢ none

-- The state that a return leaves.
abbrev pub Launched : {W : Type 0} → InitResult W → Type 0
Launched (returned tc s w) = PidKnown s
Launched (replaced_by cmd) = Unit

module _ (x : Externals) where
  open x use {World, fork, getenv_service}

  service_fork-Launched :
      (cmd : String) (r : ForkResult × World) → r.0 ≢ no_child → Launched (service_fork x cmd r)
  unfolding service_fork
  service_fork-Launched cmd (parent_of p, w) h = λ _ e. cc
  service_fork-Launched cmd (in_child, w) h = tt
  service_fork-Launched cmd (no_child, w) h = absurd (h refl)

  -- Unless `fork` fails, `turbine_service_init` keeps it so that a launched service has a pid,
  -- whether the environment names a command or not.
  pub turbine_service_init-Launched :
      (s : ServiceState) (w : World)
      → ((w : World) → (fork w).0 ≢ no_child)
      → PidKnown s
      → Launched (turbine_service_init x s w)
  unfolding turbine_service_init
  turbine_service_init-Launched s w f h = by_command (getenv_service w)
    where
      by_command :
          (o : Option String)
          → Launched {W = World}
              (elim o [ none ↦ returned success s w | some cmd ↦ service_fork x cmd (fork w) ])
      by_command none = h
      by_command (some cmd) = service_fork-Launched cmd (fork w) (f w)
