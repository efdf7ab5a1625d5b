-- ===== src/Arguments/Loops.antt =====
-- From the command to the async worker loop.
use Prim.Native.String.{String}
use exm_turbine.Common.{
  ℕ, zero, suc, ◌+◌, ◌≤◌, ◌≡◌, ◌≢◌, refl, ap, Bool, Option, none, some, List, [], ◌∷◌, ℤ, pos,
  negsuc, arith, length, done, fault, Ensures, Ensures->>=, Ensures-if,
}
use exm_turbine.Exec.{Refs}
use exm_turbine.Codes.{TurbineCode, success}
use exm_turbine.Externals.{Externals, AdlbContract, no_child}
use exm_turbine.Service.{ServiceState}
use exm_turbine.Service.Launch.{PidKnown}
use exm_turbine.Async.Check.{Executor, succeeds}
use exm_turbine.Async.Check.Release.{succeeds-success}
use exm_turbine.Async.Check.Safe.{ExecutorContract}
use exm_turbine.Async.Loop.{LoopResult, turbine_async_worker_loop}
use exm_turbine.Async.Loop.Safe.{
  Restored, turbine_async_worker_loop-Restored, turbine_async_worker_loop-zero,
}
use exm_turbine.Arguments.{
  TclValues, default_buffer_count, new_buffers, limit_buffers, Command, refused, ran,
  worker_keyword_args, optional_keywords, async_with_buffers, async_exec_worker_loop_cmd,
}
use exm_turbine.Arguments.Keywords.{last_count, AreCounts, keyword_loop-accepted}

abbrev pub CommandRestored : {W : Type 0} → Bool → Command (LoopResult W) → Type 0
CommandRestored started refused = Unit
CommandRestored started (ran rc r) = Restored started r

length-new_buffers : (b n : ℕ) → length (new_buffers b n) ≡ n
length-new_buffers b zero = refl
length-new_buffers b (suc n) = ap suc (length-new_buffers (b + 1) n)

limit_buffers-positive : (max : ℤ) (n : ℕ) → 1 ≤ n → 1 ≤ limit_buffers max n
unfolding limit_buffers
limit_buffers-positive (pos max) n h = ground arith
limit_buffers-positive (negsuc m) n h = h

limit_buffers-zero : (max : ℤ) → limit_buffers max 0 ≡ 0
unfolding limit_buffers
limit_buffers-zero (pos max) = ground arith
limit_buffers-zero (negsuc m) = refl

-- At least one buffer, where the keywords are accepted.
abbrev pub SomeBuffer : Option (ℕ × ℕ) → Type 0
SomeBuffer none = Unit
SomeBuffer (some b) = 1 ≤ b.0

module _ (v : TclValues) (x : Externals) (e : Executor x.World) (c : AdlbContract x)
    (d : ExecutorContract e) where
  open x use {World}
  open v use {get_int, dict_pairs, work_type_of, xfer_size}

  buffers-Restored :
      (fuel work_type : ℕ) (started : Bool) (service : ServiceState) (slots : TurbineCode × ℤ)
      (b : Option (ℕ × ℕ)) (refs : Refs) (w : World)
      → ((w : World) → (x.fork w).0 ≢ no_child)
      → PidKnown service
      → SomeBuffer b
      → Ensures
          (CommandRestored started)
          (async_with_buffers v x e fuel work_type started service slots b refs w)
  unfolding async_with_buffers
  buffers-Restored fuel work_type started service slots none refs w f k h = tt
  buffers-Restored fuel work_type started service (tc, max) (some (count, size)) refs w f k h =
      let n = limit_buffers max count in
      Ensures-if (CommandRestored started) (succeeds tc) _ _
        (λ _.
          Ensures->>= (Restored started) (CommandRestored started)
            (turbine_async_worker_loop x e work_type fuel started service (new_buffers 0 n) n refs
              w)
            _
            (turbine_async_worker_loop-Restored x e work_type c d fuel started service
              (new_buffers 0 n) n refs w f k (limit_buffers-positive max count h)
              (ground (arith, length-new_buffers 0 n)))
            λ r q. q)
        (λ _. tt)

  -- The command that starts the async worker loop, under what `turbine_async_worker_loop` relies on
  -- and with keywords that do not ask for 0 buffers: it is refused, or the loop runs without a
  -- failed assertion, and where the loop succeeds the executor is as started as it was.
  pub async_exec_worker_loop_cmd-Restored :
      (fuel : ℕ) (started : Bool) (slots : TurbineCode × ℤ) (service : ServiceState) (kind : String)
      (rest : List String) (refs : Refs) (w : World)
      → ((w : World) → (x.fork w).0 ≢ no_child)
      → PidKnown service
      → SomeBuffer (optional_keywords v rest (default_buffer_count, xfer_size))
      → Ensures (CommandRestored started) (
          async_exec_worker_loop_cmd v x fuel
            (some (e, started))
            slots
            service
            (kind ∷ rest)
            refs
            w)
  unfolding async_exec_worker_loop_cmd
  async_exec_worker_loop_cmd-Restored fuel started slots service kind rest refs w f k h =
      by_type (get_int kind)
    where
      by_type :
          (o : Option ℤ)
          → Ensures (CommandRestored started) (elim o [
            | none ↦ done refused
            | some t ↦
                async_with_buffers v x e fuel
                  (work_type_of t)
                  started
                  service
                  slots
                  (optional_keywords v rest (default_buffer_count, xfer_size))
                  refs
                  w
          ])
      by_type none = tt
      by_type (some t) = buffers-Restored fuel _ started service slots _ refs w f k h

  keywords-zero :
      (dict : String) (pairs : List (String × String))
      → dict_pairs dict ≡ some pairs
      → AreCounts v pairs
      → last_count v "buffer_count" pairs default_buffer_count ≡ 0
      → optional_keywords v (dict ∷ []) (default_buffer_count, xfer_size)
        ≡ some (0, last_count v "buffer_size" pairs xfer_size)
  unfolding optional_keywords worker_keyword_args
  keywords-zero dict pairs p h z =
      rw
        (
          optional_keywords,
          worker_keyword_args,
          p,
          keyword_loop-accepted v pairs default_buffer_count xfer_size h,
          z,
        )
        refl

  -- A dictionary of the two keywords with integers that are not negative, whose last "buffer_count"
  -- is 0, is accepted, for all that no buffer is then allocated: the command of an executor whose
  -- slots are known always fails the assertion of `turbine_async_worker_loop`.
  pub async_exec_worker_loop_cmd-zero :
      (fuel : ℕ) (started : Bool) (max t : ℤ) (service : ServiceState) (kind dict : String)
      (pairs : List (String × String)) (refs : Refs) (w : World)
      → get_int kind ≡ some t
      → dict_pairs dict ≡ some pairs
      → AreCounts v pairs
      → last_count v "buffer_count" pairs default_buffer_count ≡ 0
      → async_exec_worker_loop_cmd v x fuel
          (some (e, started))
          (success, max)
          service
          (kind ∷ dict ∷ [])
          refs
          w
        ≡ fault
  unfolding async_exec_worker_loop_cmd async_with_buffers
  async_exec_worker_loop_cmd-zero fuel started max t service kind dict pairs refs w g p h z =
      rw
        (
          g,
          async_exec_worker_loop_cmd,
          keywords-zero dict pairs p h z,
          async_with_buffers,
          succeeds-success,
          limit_buffers-zero max,
          turbine_async_worker_loop-zero x e (work_type_of t) c d fuel started service
              (new_buffers 0 0) refs w,
        )
        refl
