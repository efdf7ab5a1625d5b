-- ===== src/Coaster/Dict.antt =====
-- The dictionary with which the callbacks of a Coaster task are told of its end.
use Prim.Native.String.{String}
use exm_turbine.Common.{
  ◌≡◌, refl, Bool-cases, inl, inr, Option, none, some, List, [], ◌∷◌, if◌then◌else◌, str_eq,
}
use exm_turbine.Coaster.{JobStatus, or_empty, result_dict}

-- `dict get`.
pub dict_get : String → List (String × String) → Option String
dict_get k [] = none
dict_get k ((j, v) ∷ d) = if str_eq k j then some v else dict_get k d

-- What the callbacks find: the time of the last status; for a job that completed the message of its
-- status; for one that failed its code, and as the message its exception, which takes the place of
-- the message of the status.
pub result_dict-entries :
    (s : JobStatus)
    → (dict_get "timestamp" (result_dict s) ≡ some s.timestamp)
      × (dict_get "message" (result_dict s)
          ≡ some (if s.completed then or_empty s.message else or_empty s.exception))
      × (dict_get "status_code" (result_dict s) ≡ (if s.completed then none else some s.code))
unfolding result_dict dict_get
result_dict-entries s = elim (Bool-cases s.completed) [
  | inl e ↦ rw (e, result_dict) (refl, refl, refl)
  | inr e ↦ rw (e, result_dict) (refl, refl, refl)
]
