-- ===== src/Scenarios/Engine/Run/Ending.antt =====
-- What the run loop leaves behind (internal/scenarios/engine.go, `run`, `skipPending`).
use c4isr_systems.Prelude.{
  ℕ, zero, suc, String, ◌≡◌, ◌≢◌, ◌≤◌, ◌⊎◌, inr, refl, Bool, true, Option, none, some, List, [],
  ◌∷◌, arith, All, if◌then◌else◌, if_both,
}
use c4isr_systems.Platform.Apperr.{Error, is_code, internal, conflict_error, text}
use c4isr_systems.Scenarios.Timeline.{Action}
use c4isr_systems.Scenarios.Engine.{
  Engine, max_scheduled_actions, EventInspection, pending, running, candidate, peek_next, pop_next,
  mark_finished, skip_pending, skip_all, reserve, DynamicAction, refused, begin_action, fail_action,
  settle_action, clear_error,
}
use c4isr_systems.Scenarios.Engine.Run.{
  Round, Texts, Outcome, out_of_fuel, Turn, ends, goes_on, turn, run, abort, interrupted, perform,
  take_turn, visit, close_round, after_failure, after_success,
}
use c4isr_systems.Scenarios.Engine.Queue.{IsQueue}
use c4isr_systems.Scenarios.Engine.Run.Termination.{IsFairRound, waiting, events, run_ends}

-- The event is over: it is neither pending nor running.
abbrev pub IsOver : EventInspection → Type 0
IsOver x = (x.status ≢ pending) × (x.status ≢ running)

-- Nothing waits, or every event is over; and the engine takes no more actions.
abbrev pub IsSettled : Engine → Type 0
IsSettled e = (e.finished ≡ true) × ((candidate e ≡ none) ⊎ All IsOver e.event_states)

skip_all-IsOver : (message : String) (xs : List EventInspection) → All IsOver (skip_all message xs)
unfolding skip_all
skip_all-IsOver message [] = tt
skip_all-IsOver message (x ∷ xs) = (ground arith, skip_all-IsOver message xs)

skipped-IsSettled :
    (message : String) (e : Engine) → IsSettled (skip_pending message (mark_finished e))
unfolding skip_pending mark_finished
skipped-IsSettled message e = (refl, inr (skip_all-IsOver message e.event_states))

abbrev EndsSettled : Turn → Type 0
EndsSettled (ends r) = IsSettled r.1
EndsSettled (goes_on g) = Unit

interrupted-EndsSettled :
    (txt : Texts) (why : Option Error) (g : Engine) → IsSettled (interrupted txt why g).1
interrupted-EndsSettled txt none g = skipped-IsSettled "scenario run stopped" g
interrupted-EndsSettled txt (some e) g =
    if_both (λ (r : Outcome × Engine). IsSettled r.1) g.stopped
      (skipped-IsSettled "scenario run stopped" g) (skipped-IsSettled (txt.of_error e) g)

abort-IsSettled : (txt : Texts) (e : Error) (g : Engine) → IsSettled (abort txt e g).1
abort-IsSettled txt e g = skipped-IsSettled (txt.of_error e) g

close_round-EndsSettled :
    (txt : Texts) (r : Round) (fatal : Option Error) (g : Engine)
    → EndsSettled (close_round txt r fatal g)
close_round-EndsSettled txt r fatal g =
    elim r.cursor_fault
      as (λ c. EndsSettled (elim c [
        | some e ↦ ends (abort txt e g)
        | none ↦ elim fatal [ some e ↦ ends (abort txt e g) | none ↦ goes_on g ]
      ])) [
        | some e ↦ abort-IsSettled txt e g
        | none ↦
            elim fatal
              as (λ f. EndsSettled (elim f [ some e ↦ ends (abort txt e g) | none ↦ goes_on g ])) [
                | some e ↦ abort-IsSettled txt e g
                | none ↦ tt
              ]
      ]

-- A write to the repository that fails ends the run; else the rest decides.
guarded-EndsSettled :
    (txt : Texts) (fault : Option Error) (g : Engine) (t : Turn)
    → EndsSettled t
    → EndsSettled (elim fault [ some f ↦ ends (abort txt f g) | none ↦ t ])
guarded-EndsSettled txt (some f) g t h = abort-IsSettled txt f g
guarded-EndsSettled txt none g t h = h

perform-EndsSettled :
    (txt : Texts) (r : Round) (a : Action) (g : Engine) → EndsSettled (perform txt r a g)
perform-EndsSettled txt r a g =
    guarded-EndsSettled txt r.start_fault (begin_action a g)
      (elim r.result [
        | some e ↦ after_failure txt r e a (r.during (begin_action a g))
        | none ↦ after_success txt r a (r.during (begin_action a g))
      ])
      (acted r.result (r.during (begin_action a g)))
  where
    acted :
        (o : Option Error) (d : Engine)
        → EndsSettled
            (elim o [ some e ↦ after_failure txt r e a d | none ↦ after_success txt r a d ])
    acted (some e) d = guarded-EndsSettled txt r.end_fault (fail_action (txt.of_error e) a d) _ (
        close_round-EndsSettled txt r (if is_code e internal then some e else none)
          (settle_action a (fail_action (txt.of_error e) a d)))
    acted none d =
        guarded-EndsSettled txt r.end_fault (settle_action a (clear_error d)) _
          (close_round-EndsSettled txt r none (settle_action a (clear_error d)))

take_turn-EndsSettled :
    (txt : Texts) (r : Round) (p : Option Action × Engine) → EndsSettled (take_turn txt r p)
take_turn-EndsSettled txt r (none, g) = tt
take_turn-EndsSettled txt r (some a, g) = perform-EndsSettled txt r a g

-- The engine after a `peekNext` that found nothing.
exhausted-IsSettled : (g : Engine) → (peek_next g).0 ≡ none → IsSettled (peek_next g).1
unfolding peek_next
exhausted-IsSettled g h = ground arith

visit-EndsSettled :
    (txt : Texts) (r : Round) (p : Option Action × Engine)
    → (p.0 ≡ none → IsSettled p.1)
    → EndsSettled (visit txt r p)
visit-EndsSettled txt r (none, g) h = h refl
visit-EndsSettled txt r (some a, g) h =
    if_both EndsSettled r.waited (take_turn-EndsSettled txt r (pop_next a.seq (r.meanwhile g)))
      (interrupted-EndsSettled txt r.cancelled (r.meanwhile g))

turn-EndsSettled : (txt : Texts) (r : Round) (g : Engine) → EndsSettled (turn txt r g)
unfolding turn
turn-EndsSettled txt r g = visit-EndsSettled txt r (peek_next g) (exhausted-IsSettled g)

-- However the run loop ends (timeline exhausted, stop, cancelled context, failed write, internal
-- error of an action), the engine is finished, and either no action waits or no event is left
-- pending or running. The fuel has not run out.
pub run-IsSettled :
    (fuel : ℕ) (txt : Texts) (rounds : ℕ → Round) (g : Engine)
    → (run fuel txt rounds g).0 ≢ out_of_fuel
    → IsSettled (run fuel txt rounds g).1
unfolding run
run-IsSettled zero txt rounds g h = absurd (h refl)
run-IsSettled (suc fuel) txt rounds g h =
    step (λ g'. run-IsSettled fuel txt rounds g') (turn txt (rounds fuel) g)
      (turn-EndsSettled txt (rounds fuel) g) h
  where
    step :
        ((g' : Engine)
          → (run fuel txt rounds g').0 ≢ out_of_fuel
          → IsSettled (run fuel txt rounds g').1)
        → (t : Turn) → EndsSettled t
        → (elim t as (λ x. Outcome × Engine) [ ends r ↦ r | goes_on g' ↦ run fuel txt rounds g' ]).0
          ≢ out_of_fuel
        → IsSettled
            (elim t as (λ x. Outcome × Engine) [
              | ends r ↦ r
              | goes_on g' ↦ run fuel txt rounds g'
            ]).1
    step recur (ends r) s h = s
    step recur (goes_on g') s h = recur g' h

-- Once the loop has ended, `scheduleAfterMany` refuses every new action and changes nothing.
pub reserve_after_run :
    (fuel : ℕ) (txt : Texts) (rounds : ℕ → Round) (g : Engine) (from_action : Bool) (current : ℕ)
    (d : DynamicAction) (ds : List DynamicAction)
    → (run fuel txt rounds g).0 ≢ out_of_fuel
    → reserve from_action current (d ∷ ds) (run fuel txt rounds g).1 ≡ (
      refused (some (conflict_error (text "scenario run is no longer accepting actions"))),
      (run fuel txt rounds g).1,
    )
unfolding reserve
reserve_after_run fuel txt rounds g from_action current d ds h =
    let done = (run-IsSettled fuel txt rounds g h).0 in ground arith

-- Under the conditions of `run_ends`, a run of 40001 rounds at the most is settled: the engine is
-- finished, and either no action waits or no event is left pending or running.
pub run_settles :
    (bound : ℕ) (txt : Texts) (rounds : ℕ → Round) (g : Engine)
    → ((n : ℕ) → IsFairRound bound (rounds n))
    → IsQueue bound g
    → waiting g ≤ events g
    → events g ≤ max_scheduled_actions
    → IsSettled (run 40001 txt rounds g).1
run_settles bound txt rounds g fair queue fits capped =
    run-IsSettled 40001 txt rounds g (run_ends bound txt rounds g fair queue fits capped)
