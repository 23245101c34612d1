-- ===== src/Service/Discipline/Ticks.antt =====
-- internal/jobs/jobs.go, holdLease: its calls, and when it has cancelled the run.
use anchora.Prelude.{String, Bool, true, false, Option, none, some, List, [], ◌∷◌, ◌≡◌, refl}
use anchora.Service.Program.{done, Entry, Ensures}
use anchora.Service.Program.Rules.{Ensures->>=, by_response, by_test, Ensures-if}
use anchora.Service.Backend.{Backend}
use anchora.Service.Lease.{Cause, Tick, RunState, first_cause, beat, tick, hold_lease}
use anchora.Service.Discipline.{saw, fenced, finished, lost_beat, granted, Permitted}

abbrev pub is_cancelled : Option Cause → Bool
is_cancelled none = false
is_cancelled (some cause) = true

is_cancelled-first_cause :
    (cause : Option Cause) (later : Cause) → is_cancelled (first_cause cause later) ≡ true
is_cancelled-first_cause none later = refl
is_cancelled-first_cause (some cause) later = refl

module _ (backend : Backend) (worker id : String) where
  -- What the variables of a run say of the calls so far.
  abbrev pub Live : RunState → List Entry → Type 0
  Live s h =
      (saw (granted backend) h ≡ true)
      × (saw finished h ≡ false)
      × (saw fenced h ≡ s.fence)
      × (lost_beat h ≡ true → is_cancelled s.cause ≡ true)

  -- The same, and the fence is `f`.
  abbrev pub LiveAt : Bool → List Entry → RunState → Type 0
  LiveAt f h s = Live s h × (s.fence ≡ f)

  beat-Live :
      (f : Bool) (s : RunState) (h : List Entry)
      → LiveAt f h s
      → Ensures (Permitted backend worker id) (LiveAt f) h (beat backend worker id s)
  unfolding beat
  beat-Live f s h (live, e) = (
    (refl, refl, live.0),
    by_response _ kept (
        by_test _ ((refl, refl, live.0), by_response _ kept (by_test _ (live, e) (lost, e)))
          ((refl, refl, live.0), by_response _ kept (by_test _ (lost, e) (lost, e)))),
  )
    where
      kept : String → LiveAt f h s
      kept e' = (live, e)

      lost :
          (saw (granted backend) h ≡ true)
          × (saw finished h ≡ false)
          × (saw fenced h ≡ s.fence)
          × (true ≡ true → is_cancelled (first_cause s.cause Cause.lease_lost) ≡ true)
      lost = (live.0, live.1, live.2, λ l. is_cancelled-first_cause s.cause Cause.lease_lost)

  pub tick-Live :
      (f : Bool) (t : Tick) (s : RunState) (h : List Entry)
      → LiveAt f h s
      → Ensures (Permitted backend worker id) (LiveAt f) h (tick backend worker id t s)
  unfolding tick
  tick-Live f Tick.beats s h live =
      Ensures-if _ _ s.beating (beat backend worker id s) (done s) h (λ on. beat-Live f s h live)
        (λ off. live)
  tick-Live f Tick.stops s h ((a, b, c, d), e) =
      ((a, b, c, λ l. is_cancelled-first_cause s.cause Cause.canceled), e)

  -- The calls of the heartbeat keep what the variables say.
  pub hold_lease-Live :
      (f : Bool) (ticks : List Tick) (s : RunState) (h : List Entry)
      → LiveAt f h s
      → Ensures (Permitted backend worker id) (LiveAt f) h (hold_lease backend worker id ticks s)
  unfolding hold_lease
  hold_lease-Live f [] s h live = live
  hold_lease-Live f (t ∷ ticks) s h live =
      Ensures->>= _ _ _ (tick backend worker id t s) _ h (tick-Live f t s h live)
        (λ h' s' q. hold_lease-Live f ticks s' h' q)
