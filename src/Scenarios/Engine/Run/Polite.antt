-- ===== src/Scenarios/Engine/Run/Polite.antt =====
-- What whole calls of other threads keep of a run (internal/scenarios/engine.go).
use c4isr_systems.Prelude.{
  ℕ, ◌+◌, ◌≤◌, ◌≡◌, refl, Bool, true, false, ◌&&◌, not, List, [], ◌∷◌, arith, All, get_elem?,
  if_both,
}
use c4isr_systems.Scenarios.Engine.{
  Engine, EventInspection, max_scheduled_actions, pause, resume, set_speed, stop,
}
use c4isr_systems.Scenarios.Engine.Queue.{upcoming, IsQueue}
use c4isr_systems.Scenarios.Engine.Run.Termination.{IsFair, waiting, events}
use c4isr_systems.Scenarios.Engine.Run.Numbers.{Absent}

-- What the controls and whole calls keep besides: the counter goes on, a number that was given out
-- before and names no event names none later, the events and the reservations together stay within
-- the maximum, and what is reserved is given back. So of two calls that overlap, one runs between the
-- sections of the other; the sections of calls in any order are the steps of Capacity.
pub record IsPolite (bound : ℕ) (f : Engine → Engine) : Type 0 where
  pub fair : IsFair bound f
  pub onward : (e : Engine) → IsQueue bound e → e.next_seq ≤ (f e).next_seq
  pub fresh :
      (e : Engine)
      → IsQueue bound e
      → (k : ℕ) → k ≤ e.next_seq
      → Absent k e.event_states
      → Absent k (f e).event_states
  pub roomy :
      (e : Engine)
      → IsQueue bound e
      → events e + e.reserved ≤ max_scheduled_actions
      → events (f e) + (f e).reserved ≤ max_scheduled_actions
  pub balanced : (e : Engine) → IsQueue bound e → (f e).reserved ≡ e.reserved

-- All that is asked of one outcome.
pub record Polite (bound : ℕ) (e f : Engine) : Type 0 where
  pub static_kept : upcoming f ≡ upcoming e
  pub head_kept : get_elem? f.static f.next_static ≡ get_elem? e.static e.next_static
  pub grown : waiting f + events e ≤ waiting e + events f
  pub kept : events e ≤ events f
  pub capped : events e ≤ max_scheduled_actions → events f ≤ max_scheduled_actions
  pub ordered : IsQueue bound f
  pub quiet : events f ≡ events e → f.pending ≡ e.pending
  pub onward : e.next_seq ≤ f.next_seq
  pub fresh : (k : ℕ) → k ≤ e.next_seq → Absent k e.event_states → Absent k f.event_states
  pub roomy :
      events e + e.reserved ≤ max_scheduled_actions → events f + f.reserved ≤ max_scheduled_actions
  pub balanced : f.reserved ≡ e.reserved

pub IsPolite-from :
    (bound : ℕ) (f : Engine → Engine)
    → ((e : Engine) → IsQueue bound e → Polite bound e (f e))
    → IsPolite bound f
IsPolite-from bound f after = record {
  fair = record {
    static_kept = λ e q. (after e q).static_kept;
    head_kept = λ e q. (after e q).head_kept;
    grown = λ e q. (after e q).grown;
    kept = λ e q. (after e q).kept;
    capped = λ e q. (after e q).capped;
    ordered = λ e q. (after e q).ordered;
    quiet = λ e q. (after e q).quiet;
  };
  onward = λ e q. (after e q).onward;
  fresh = λ e q. (after e q).fresh;
  roomy = λ e q. (after e q).roomy;
  balanced = λ e q. (after e q).balanced;
}

pub All-wider :
    (n m : ℕ) (xs : List EventInspection)
    → n ≤ m
    → All (λ x. x.sequence ≤ n) xs
    → All (λ x. x.sequence ≤ m) xs
All-wider n m [] h hs = tt
All-wider n m (x ∷ xs) h hs = (omega (arith, h, hs.0), All-wider n m xs h hs.1)

pub IsQueue-counter :
    (bound counter : ℕ) (e : Engine)
    → e.next_seq ≤ counter
    → IsQueue bound e
    → IsQueue bound (record e { next_seq = counter })
IsQueue-counter bound counter e h q = record {
  static_sorted = q.static_sorted;
  pending_sorted = q.pending_sorted;
  static_low = q.static_low;
  pending_high = q.pending_high;
  parted = omega (arith, q.parted, h);
  numbered = All-wider e.next_seq counter e.event_states h q.numbered;
}

-- The controls only set flags and the virtual time.
flags-Polite :
    (bound base : ℕ) (paused stopped : Bool) (e : Engine)
    → IsQueue bound e
    → Polite bound e (record e { paused = paused; stopped = stopped; virtual_base_ms = base })
flags-Polite bound base paused stopped e q = record {
  static_kept = refl;
  head_kept = refl;
  grown = omega arith;
  kept = omega arith;
  capped = λ fits. fits;
  ordered = record {
    static_sorted = q.static_sorted;
    pending_sorted = q.pending_sorted;
    static_low = q.static_low;
    pending_high = q.pending_high;
    parted = q.parted;
    numbered = q.numbered;
  };
  quiet = λ same. refl;
  onward = omega arith;
  fresh = λ k low new. new;
  roomy = λ fits. fits;
  balanced = refl;
}

pub stop-IsPolite : (bound : ℕ) → IsPolite bound stop
unfolding stop
stop-IsPolite bound =
    IsPolite-from bound stop (λ e q. flags-Polite bound e.virtual_base_ms e.paused true e q)

pub resume-IsPolite : (bound : ℕ) → IsPolite bound resume
unfolding resume
resume-IsPolite bound = IsPolite-from bound resume (λ e q.
    if_both (Polite bound e) (e.paused && (not e.stopped && not e.finished))
      (flags-Polite bound e.virtual_base_ms false e.stopped e q)
      (flags-Polite bound e.virtual_base_ms e.paused e.stopped e q))

pub pause-IsPolite : (bound current : ℕ) → IsPolite bound (pause current)
unfolding pause
pause-IsPolite bound current = IsPolite-from bound (pause current) (λ e q.
    if_both (Polite bound e) (not e.paused && (not e.stopped && not e.finished))
      (flags-Polite bound current true e.stopped e q)
      (flags-Polite bound e.virtual_base_ms e.paused e.stopped e q))

pub set_speed-IsPolite : (bound current : ℕ) → IsPolite bound (set_speed current)
unfolding set_speed
set_speed-IsPolite bound current = IsPolite-from bound (set_speed current) (λ e q.
    if_both (Polite bound e) (not e.paused && (not e.stopped && not e.finished))
      (flags-Polite bound current e.paused e.stopped e q)
      (flags-Polite bound e.virtual_base_ms e.paused e.stopped e q))
