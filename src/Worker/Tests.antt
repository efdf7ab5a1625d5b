-- ===== src/Worker/Tests.antt =====
-- The synchronous worker in a scripted world.
use exm_turbine.Common.{ℕ, ◌≡◌, ◌≢◌, ◌↔◌, refl, arith, done, fault}
use exm_turbine.Codes.{success}
use exm_turbine.Scenario.{scripted}
use exm_turbine.Worker.{loop, Stopped}
use exm_turbine.Worker.Session.{GetContract, Session, loop-Session}

scripted-GetContract : GetContract scripted 100 64 1
scripted-GetContract = record { fits = λ w e. ground arith; typed = λ w e. ground arith }

loop-Session_example :
    ((fuel : ℕ) → loop scripted fuel 100 64 1 0 0 ≢ fault)
    × ((r : Stopped ℕ)
        → ((fuel : ℕ) × (loop scripted fuel 100 64 1 0 0 ≡ done r))
          ↔ Session scripted 100 64 1 0 0 r)
loop-Session_example = loop-Session scripted 100 64 1 scripted-GetContract 0 0

-- Three work units are evaluated, the last of them in the communicator 4.
loop_run : loop scripted 10 100 64 1 0 0 ≡ done (success, 4, 7)
unfolding loop
loop_run = refl
