-- ===== src/Scenarios/Engine/Run/Fair.antt =====
-- What a call of scheduleAfterMany does to a run from outside the loop (internal/scenarios/engine.go).
use c4isr_systems.Prelude.{
  ℕ, String, ◌==◌, ◌+◌, ◌-◌, ◌≤◌, ◌<◌, ◌≡◌, ◌∙◌, refl, sym, ap, subst, Bool, false, ◌||◌, Option,
  none, some, List, [], ◌∷◌, ◌++◌, arith, length, length-append, All, All-append, Option-cases,
  Bool-cases, inl, inr, if_both, if◌then◌else◌, ltb, get_elem?,
}
use c4isr_systems.Scenarios.Timeline.{Action, sort}
use c4isr_systems.Scenarios.Timeline.Order.{sort-IsSorted, All-sort, length-sort}
use c4isr_systems.Scenarios.Engine.{
  Engine, EventStatus, pending, skipped, DynamicAction, Reservation, granted, max_scheduled_actions,
  set_events, inspection, reserve_actions, any_negative, date, reserve, abandon, commit,
}
use c4isr_systems.Scenarios.Engine.Schedule.{Unlocked, conclude, schedule}
use c4isr_systems.Scenarios.Engine.Queue.{upcoming, IsQueue}
use c4isr_systems.Scenarios.Engine.Capacity.{length-reserve_actions}
use c4isr_systems.Scenarios.Engine.Run.Termination.{waiting, events}
use c4isr_systems.Scenarios.Engine.Run.Polite.{
  IsPolite, Polite, IsPolite-from, All-wider, IsQueue-counter,
}
use c4isr_systems.Scenarios.Engine.Run.Numbers.{
  Absent, Numbered, AreFree, AreFree-from, inspected, length-inspected, set_events-append,
  inspected_within, inspected_absent, Numbered-over, Absent-above, reserve_actions-Numbered,
  reserve_actions_onward,
}

-- The engine between the two locked sections of a call that has reserved these actions.
record Entered (bound : ℕ) (e m : Engine) (actions : List Action) : Type 0 where
  static_same : upcoming m ≡ upcoming e
  head_same : get_elem? m.static m.next_static ≡ get_elem? e.static e.next_static
  grown : waiting m + events e ≤ waiting e + events m
  kept : events e ≤ events m
  queue : IsQueue bound m
  onward : e.next_seq + length actions ≤ m.next_seq
  numbers : Numbered e.next_seq actions
  free : AreFree e.next_seq actions m.event_states
  older : (k : ℕ) → k ≤ e.next_seq → Absent k e.event_states → Absent k m.event_states
  roomy : events m + m.reserved ≤ max_scheduled_actions
  held : m.reserved ≡ e.reserved + length actions
  some_new : 1 ≤ length actions
  low : bound ≤ e.next_seq

-- The events of these actions are recorded, in that state and with that message.
abbrev with_events : EventStatus → String → List Action → Engine → Engine
with_events status message actions m = record m {
  reserved = m.reserved - length actions;
  event_states = set_events (inspection status message) actions m.event_states;
}

-- What a call comes to: nothing but a higher counter, or new events, with the actions or skipped.
data Scheduled (bound : ℕ) (e : Engine) : Engine → Type 0 where
  nothing :
      (counter : ℕ) → e.next_seq ≤ counter → Scheduled bound e (record e { next_seq = counter })
  skips :
      (m : Engine) (message : String) (actions : List Action)
      → Entered bound e m actions
      → Scheduled bound e (with_events skipped message actions m)
  adds :
      (m : Engine) (actions : List Action)
      → Entered bound e m actions
      → Scheduled bound e
          (record (with_events pending "" actions m) { pending = sort (m.pending ++ actions) })

module _ (bound : ℕ) (e : Engine) (m : Engine) (actions : List Action)
    (n : Entered bound e m actions) (status : EventStatus) (message : String) where
  recorded :
      (with_events status message actions m).event_states
      ≡ m.event_states ++ inspected status message actions
  recorded = set_events-append status message e.next_seq actions m.event_states n.numbers n.free

  recorded_events : events (with_events status message actions m) ≡ events m + length actions
  recorded_events = omega (
    arith,
    ap length recorded,
    length-append m.event_states (inspected status message actions),
    length-inspected status message actions,
  )

  recorded_within :
      All (λ x. x.sequence ≤ m.next_seq) (with_events status message actions m).event_states
  recorded_within = rw recorded (
      All-append (λ x. x.sequence ≤ m.next_seq) m.event_states (inspected status message actions)
        n.queue.numbered
        (inspected_within status message e.next_seq m.next_seq actions n.numbers n.onward))

  recorded_fresh :
      (k : ℕ)
      → k ≤ e.next_seq
      → Absent k e.event_states
      → Absent k (with_events status message actions m).event_states
  recorded_fresh k low new = rw recorded (
      All-append (λ x. (x.sequence == k) ≡ false) m.event_states (inspected status message actions)
        (n.older k low new) (inspected_absent status message e.next_seq k actions n.numbers low))

Scheduled-Polite :
    (bound : ℕ) (e : Engine) {f : Engine} → IsQueue bound e → Scheduled bound e f → Polite bound e f
Scheduled-Polite bound e q (nothing counter h) = record {
  static_kept = refl;
  head_kept = refl;
  grown = omega arith;
  kept = omega arith;
  capped = λ fits. fits;
  ordered = IsQueue-counter bound counter e h q;
  quiet = λ same. refl;
  onward = h;
  fresh = λ k low new. new;
  roomy = λ fits. fits;
  balanced = refl;
}
Scheduled-Polite bound e q (skips m message actions n) =
    let count = recorded_events bound e m actions n skipped message in
    record {
      static_kept = n.static_same;
      head_kept = n.head_same;
      grown = omega (arith, n.grown, count);
      kept = omega (arith, n.kept, count);
      capped = λ fits. omega (arith, n.roomy, n.held, count);
      ordered = record {
        static_sorted = n.queue.static_sorted;
        pending_sorted = n.queue.pending_sorted;
        static_low = n.queue.static_low;
        pending_high = n.queue.pending_high;
        parted = n.queue.parted;
        numbered = recorded_within bound e m actions n skipped message;
      };
      quiet = λ same. absurd (omega (arith, n.kept, n.some_new, count, same));
      onward = omega (arith, n.onward);
      fresh = recorded_fresh bound e m actions n skipped message;
      roomy = λ fits. omega (arith, n.roomy, n.held, count);
      balanced = omega (arith, n.held);
    }
Scheduled-Polite bound e q (adds m actions n) =
    let count = recorded_events bound e m actions n pending "" in
    let longer = length-sort (m.pending ++ actions) in
    record {
      static_kept = n.static_same;
      head_kept = n.head_same;
      grown = omega (arith, n.grown, count, longer, length-append m.pending actions);
      kept = omega (arith, n.kept, count);
      capped = λ fits. omega (arith, n.roomy, n.held, count);
      ordered = record {
        static_sorted = n.queue.static_sorted;
        pending_sorted = sort-IsSorted (m.pending ++ actions);
        static_low = n.queue.static_low;
        pending_high =
            All-sort (λ a. bound < a.seq) (m.pending ++ actions)
              (All-append (λ a. bound < a.seq) m.pending actions n.queue.pending_high
                (Numbered-over bound e.next_seq actions n.low n.numbers));
        parted = n.queue.parted;
        numbered = recorded_within bound e m actions n pending "";
      };
      quiet = λ same. absurd (omega (arith, n.kept, n.some_new, count, same));
      onward = omega (arith, n.onward);
      fresh = recorded_fresh bound e m actions n pending "";
      roomy = λ fits. omega (arith, n.roomy, n.held, count);
      balanced = omega (arith, n.held);
    }

-- The engine that a granted reservation leaves, and what polite threads make of it.
entered :
    (bound : ℕ) (others : Engine → Engine) (e : Engine) (counter : ℕ) (actions : List Action)
    → IsPolite bound others
    → IsQueue bound e
    → counter ≡ e.next_seq + length actions
    → Numbered e.next_seq actions
    → 1 ≤ length actions
    → events e + e.reserved + length actions ≤ max_scheduled_actions
    → Entered bound e
        (others (record e { next_seq = counter; reserved = e.reserved + length actions }))
        actions
entered bound others e counter actions p q counted numbers some_new room =
    let start = record e { next_seq = counter; reserved = e.reserved + length actions } in
    let qs : IsQueue bound start = record {
      static_sorted = q.static_sorted;
      pending_sorted = q.pending_sorted;
      static_low = q.static_low;
      pending_high = q.pending_high;
      parted = omega (arith, q.parted, counted);
      numbered = All-wider e.next_seq counter e.event_states (omega (arith, counted)) q.numbered;
    } in
    record {
      static_same = p.fair.static_kept start qs;
      head_same = p.fair.head_kept start qs;
      grown = p.fair.grown start qs;
      kept = p.fair.kept start qs;
      queue = p.fair.ordered start qs;
      onward = omega (arith, p.onward start qs, counted);
      numbers = numbers;
      free = AreFree-from e.next_seq actions (others start).event_states (λ k high low.
          p.fresh start qs k (omega (arith, low, counted))
            (Absent-above e.next_seq k e.event_states high q.numbered));
      older = λ k low new. p.fresh start qs k (omega (arith, low, counted)) new;
      roomy = p.roomy start qs (omega (arith, room));
      held = p.balanced start qs;
      some_new = some_new;
      low = q.parted;
    }

-- The second locked section.
finishing :
    (bound : ℕ) (w : Unlocked) (e start : Engine) (actions : List Action)
    → Entered bound e (w.others start) actions
    → Scheduled bound e (conclude w (granted actions, start)).1
unfolding abandon commit
finishing bound w e start actions n = elim (Option-cases w.create_fault) [
  | inr (x, failed) ↦ rw (failed, conclude) (skips (w.others start) (w.message_of x) actions n)
  | inl fine ↦ elim (Bool-cases ((w.others start).stopped || (w.others start).finished)) [
    | inl over ↦
        rw (fine, conclude, commit, over)
          (skips (w.others start) "scenario run stopped before dynamic action was scheduled" actions
            n)
    | inr on ↦ rw (fine, conclude, commit, on) (adds (w.others start) actions n)
  ]
]

-- From the numbering of the actions on.
dated-Scheduled :
    (bound base : ℕ) (w : Unlocked) (d : DynamicAction) (ds : List DynamicAction) (e : Engine)
    → IsPolite bound w.others
    → IsQueue bound e
    → events e + e.reserved + length (d ∷ ds) ≤ max_scheduled_actions
    → Scheduled bound e
        (conclude w (date (length (d ∷ ds)) base e (reserve_actions base e.next_seq (d ∷ ds)))).1
dated-Scheduled bound base w d ds e p q room =
    go (reserve_actions base e.next_seq (d ∷ ds)).0 (reserve_actions base e.next_seq (d ∷ ds)).1
      refl refl
  where
    go :
        (counter : ℕ) (o : Option (List Action))
        → (reserve_actions base e.next_seq (d ∷ ds)).0 ≡ counter
        → (reserve_actions base e.next_seq (d ∷ ds)).1 ≡ o
        → Scheduled bound e (conclude w (date (length (d ∷ ds)) base e (counter, o))).1
    go counter none ec eo =
        nothing counter (omega (arith, ec, reserve_actions_onward base e.next_seq (d ∷ ds)))
    go counter (some actions) ec eo =
        let as_many = length-reserve_actions base e.next_seq (d ∷ ds) eo in
        let (counted, numbers) = reserve_actions-Numbered base e.next_seq (d ∷ ds) eo in
        subst
          (λ c.
            Scheduled bound e
              (conclude w
                (granted actions, record e { next_seq = counter; reserved = e.reserved + c })).1)
          as_many
          (finishing bound w e
            (record e { next_seq = counter; reserved = e.reserved + length actions }) actions
            (entered bound w.others e counter actions p q (sym ec ∙ counted) numbers
              (omega (arith, as_many)) (omega (arith, room, as_many))))

schedule-Scheduled :
    (bound : ℕ) (from_action : Bool) (current : ℕ) (w : Unlocked) (ds : List DynamicAction)
    (e : Engine)
    → IsPolite bound w.others
    → IsQueue bound e
    → Scheduled bound e (schedule from_action current w ds e).1
unfolding schedule reserve
schedule-Scheduled bound from_action current w [] e p q = nothing e.next_seq (omega arith)
schedule-Scheduled bound from_action current w (d ∷ ds) e p q =
    let P : Reservation × Engine → Type 0 = λ r. Scheduled bound e (conclude w r).1 in
    let same : Scheduled bound e e = nothing e.next_seq (omega arith) in
    if_both P (e.stopped || e.finished) same (
      if_both P (any_negative (d ∷ ds)) same
        (elim (Bool-cases
          (ltb max_scheduled_actions (length e.event_states + e.reserved + length (d ∷ ds)))) [
            | inl full ↦ rw full same
            | inr room ↦ rw room (
                dated-Scheduled bound (if from_action then e.last_action_at else current) w d ds e p
                  q (ground arith))
          ]))

-- If what other threads do between its two locked sections is polite, as the controls and whole calls
-- are, then so is a call of scheduleAfterMany, made by an action or by another thread, whether it is
-- refused, fails to write its events, finds the run stopped when it takes the lock again, or adds its
-- actions. A polite function leaves the static timeline and the order of the queues, and the pending
-- actions if it adds no event; it adds an event for every action that it adds, keeps the maximum, goes
-- on with the counter, takes no number in use, and gives back what it reserves.
pub schedule-IsPolite :
    (bound : ℕ) (from_action : Bool) (current : ℕ) (w : Unlocked) (ds : List DynamicAction)
    → IsPolite bound w.others
    → IsPolite bound (λ e. (schedule from_action current w ds e).1)
schedule-IsPolite bound from_action current w ds p =
    IsPolite-from bound (λ e. (schedule from_action current w ds e).1)
      (λ e q. Scheduled-Polite bound e q (schedule-Scheduled bound from_action current w ds e p q))
