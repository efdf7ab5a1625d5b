-- ===== src/Service/Tests.antt =====
-- The service process in a scripted world.
use exm_turbine.Common.{true, false, some, none, Returns}
use exm_turbine.Scenario.{scripted}
use exm_turbine.Service.{ServiceState, turbine_service_finalize}
use exm_turbine.Service.Backoff.{turbine_service_finalize-Returns}

abbrev idle : ServiceState
idle = record { launched = false; pid = none }

abbrev running_service : ServiceState
running_service = record { launched = true; pid = some 42 }

turbine_service_finalize-Returns_example :
    Returns (turbine_service_finalize scripted running_service 0)
turbine_service_finalize-Returns_example =
    turbine_service_finalize-Returns scripted running_service 0 (λ e f. cc)
