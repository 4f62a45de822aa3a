-- ===== src/Scenarios/Engine/Run/Termination.antt =====
-- The run loop ends (internal/scenarios/engine.go, `run`).
use c4isr_systems.Prelude.{
  List, [], ◌∷◌, if_both, ◌==◌, ℕ, zero, suc, ◌+◌, ◌-◌, ◌*◌, ◌≤◌, ◌<◌, ◌≡◌, ◌≢◌, inl, inr, refl,
  sym, subst, ap, ◌∙◌, String, All, if◌then◌else◌, Option, none, some, arith, length, Option-cases,
  get_elem?,
}
use c4isr_systems.Platform.Apperr.{Error, is_code, internal}
use c4isr_systems.Scenarios.Timeline.{Action}
use c4isr_systems.Scenarios.Timeline.Order.{IsSorted}
use c4isr_systems.Scenarios.Engine.{
  Engine, EventInspection, complete_running, max_scheduled_actions, peek_next, pop_next,
  begin_action, fail_action, clear_error, settle_action, update_event,
}
use c4isr_systems.Scenarios.Engine.Capacity.{length-update_event}
use c4isr_systems.Scenarios.Engine.Queue.{
  IsQueue, upcoming, Takes, pop_next-peek_next, pop_next-Takes, peek_next-IsFirst,
}
use c4isr_systems.Scenarios.Engine.Run.{
  Round, Texts, Outcome, out_of_fuel, Turn, ends, goes_on, turn, run, perform, take_turn,
  close_round,
}

-- How many actions wait, and how many events there are.
abbrev pub waiting : Engine → ℕ
waiting e = length (upcoming e) + length e.pending

abbrev pub events : Engine → ℕ
events e = length e.event_states

-- What the other threads, and the actions, may do to the engine: the static timeline stays, each new
-- waiting action is a new event, the maximum is kept, the queues stay in order, and without a new
-- event the dynamic queue stays as it is.
pub record IsFair (bound : ℕ) (f : Engine → Engine) : Type 0 where
  pub static_kept : (e : Engine) → IsQueue bound e → upcoming (f e) ≡ upcoming e
  pub head_kept :
      (e : Engine)
      → IsQueue bound e
      → get_elem? (f e).static (f e).next_static ≡ get_elem? e.static e.next_static
  pub grown : (e : Engine) → IsQueue bound e → waiting (f e) + events e ≤ waiting e + events (f e)
  pub kept : (e : Engine) → IsQueue bound e → events e ≤ events (f e)
  pub capped :
      (e : Engine)
      → IsQueue bound e
      → events e ≤ max_scheduled_actions
      → events (f e) ≤ max_scheduled_actions
  pub ordered : (e : Engine) → IsQueue bound e → IsQueue bound (f e)
  pub quiet : (e : Engine) → IsQueue bound e → events (f e) ≡ events e → (f e).pending ≡ e.pending

abbrev pub IsFairRound : ℕ → Round → Type 0
IsFairRound bound r = IsFair bound r.meanwhile × IsFair bound r.during

-- What a round may still use up.
abbrev pub budget : Engine → ℕ
budget e = 2 * (max_scheduled_actions - events e) + waiting e

-- The queues of two engines are the same, and so are the number of their events and the counter.
record SameQueues (e f : Engine) : Type 0 where
  same_upcoming : upcoming f ≡ upcoming e
  same_pending : f.pending ≡ e.pending
  same_events : events f ≡ events e
  same_counter : f.next_seq ≡ e.next_seq
  still_numbered :
      (n : ℕ) → All (λ x. x.sequence ≤ n) e.event_states → All (λ x. x.sequence ≤ n) f.event_states

IsQueue-same : (bound : ℕ) (e f : Engine) → SameQueues e f → IsQueue bound e → IsQueue bound f
IsQueue-same bound e f s q = record {
  static_sorted = rw s.same_upcoming q.static_sorted;
  pending_sorted = rw s.same_pending q.pending_sorted;
  static_low = rw s.same_upcoming q.static_low;
  pending_high = rw s.same_pending q.pending_high;
  parted = rw s.same_counter q.parted;
  numbered = rw s.same_counter (s.still_numbered e.next_seq q.numbered);
}

-- An update that keeps the sequence numbers.
update_event-numbered :
    (seq n : ℕ) (f : EventInspection → EventInspection) (xs : List EventInspection)
    → ((x : EventInspection) → (f x).sequence ≡ x.sequence)
    → All (λ x. x.sequence ≤ n) xs
    → All (λ x. x.sequence ≤ n) (update_event seq f xs)
unfolding update_event
update_event-numbered seq n f [] keep h = tt
update_event-numbered seq n f (x ∷ xs) keep h =
    if_both (All (λ y. y.sequence ≤ n)) (x.sequence == seq) (omega (arith, keep x, h.0), h.1)
      (h.0, update_event-numbered seq n f xs keep h.1)

complete_running_sequence : (x : EventInspection) → (complete_running x).sequence ≡ x.sequence
complete_running_sequence x = ground arith

begin_action-same : (a : Action) (e : Engine) → SameQueues e (begin_action a e)
unfolding begin_action
begin_action-same a e = record {
  same_upcoming = refl;
  same_pending = refl;
  same_events = length-update_event a.seq _ e.event_states;
  same_counter = refl;
  still_numbered = λ n h. update_event-numbered a.seq n _ e.event_states (λ x. refl) h;
}

settle_failed-same :
    (a : Action) (message : String) (e : Engine)
    → SameQueues e (settle_action a (fail_action message a e))
unfolding settle_action fail_action
settle_failed-same a message e = record {
  same_upcoming = refl;
  same_pending = refl;
  same_events =
      length-update_event a.seq _ (update_event a.seq _ e.event_states)
      ∙ length-update_event a.seq _ e.event_states;
  same_counter = refl;
  still_numbered = λ n h.
      update_event-numbered a.seq n complete_running (update_event a.seq _ e.event_states)
        complete_running_sequence (update_event-numbered a.seq n _ e.event_states (λ x. refl) h);
}

settle_cleared-same : (a : Action) (e : Engine) → SameQueues e (settle_action a (clear_error e))
unfolding settle_action clear_error
settle_cleared-same a e = record {
  same_upcoming = refl;
  same_pending = refl;
  same_events = length-update_event a.seq _ e.event_states;
  same_counter = refl;
  still_numbered = λ n h.
      update_event-numbered a.seq n complete_running e.event_states complete_running_sequence h;
}

close_round-goes_on :
    (txt : Texts) (r : Round) (fatal : Option Error) (g : Engine) {g' : Engine}
    → close_round txt r fatal g ≡ goes_on g'
    → g ≡ g'
close_round-goes_on txt r fatal g h = ground arith

perform-goes_on :
    (txt : Texts) (r : Round) (a : Action) (g : Engine) {g' : Engine}
    → perform txt r a g ≡ goes_on g'
    → SameQueues (r.during (begin_action a g)) g'
perform-goes_on txt r a g {g'} h = go r.result refl
  where
    d : Engine
    d = r.during (begin_action a g)

    go : (o : Option Error) → r.result ≡ o → SameQueues d g'
    go (some e) at =
        let closed : close_round txt r (if is_code e internal then some e else none)
              (settle_action a (fail_action (txt.of_error e) a d))
            ≡ goes_on g' =
          ground arith in
        subst (SameQueues d)
          (close_round-goes_on txt r (if is_code e internal then some e else none)
            (settle_action a (fail_action (txt.of_error e) a d)) closed)
          (settle_failed-same a (txt.of_error e) d)
    go none at =
        let closed : close_round txt r none (settle_action a (clear_error d)) ≡ goes_on g' =
          ground arith in
        subst (SameQueues d)
          (close_round-goes_on txt r none (settle_action a (clear_error d)) closed)
          (settle_cleared-same a d)

-- Taking an action out keeps the queues in order and makes them shorter by one.
Takes-IsQueue :
    (bound : ℕ) (a : Action) (e e' : Engine)
    → Takes a e e'
    → e'.event_states ≡ e.event_states
    → e'.next_seq ≡ e.next_seq
    → IsQueue bound e
    → IsQueue bound e' × (waiting e ≡ suc (waiting e'))
Takes-IsQueue bound a e e' (inl (up, pend)) same_states counter q = (
  record {
    static_sorted = (subst IsSorted up q.static_sorted).1;
    pending_sorted = rw pend q.pending_sorted;
    static_low = (subst (All (λ b. b.seq ≤ bound)) up q.static_low).1;
    pending_high = rw pend q.pending_high;
    parted = rw counter q.parted;
    numbered = rw (same_states, counter) q.numbered;
  },
  rw (up, pend) (omega arith),
)
Takes-IsQueue bound a e e' (inr (up, pend)) same_states counter q = (
  record {
    static_sorted = rw up q.static_sorted;
    pending_sorted = (subst IsSorted pend q.pending_sorted).1;
    static_low = rw up q.static_low;
    pending_high = (subst (All (λ b. bound < b.seq)) pend q.pending_high).1;
    parted = rw counter q.parted;
    numbered = rw (same_states, counter) q.numbered;
  },
  rw (up, pend) (omega arith),
)

pop_next-events : (seq : ℕ) (e : Engine) → (pop_next seq e).1.event_states ≡ e.event_states
unfolding pop_next
pop_next-events seq e = ground arith

pop_next-counter : (seq : ℕ) (e : Engine) → (pop_next seq e).1.next_seq ≡ e.next_seq
unfolding pop_next
pop_next-counter seq e = ground arith

pop_next-none : (seq : ℕ) (e : Engine) → (pop_next seq e).0 ≡ none → (pop_next seq e).1 ≡ e
unfolding pop_next
pop_next-none seq e h = ground arith

-- If the action that was picked is no longer at a head, a new event has come in meanwhile.
lost_head :
    (bound : ℕ) (r : Round) (g : Engine) {a : Action}
    → IsFair bound r.meanwhile
    → IsQueue bound g
    → (peek_next g).0 ≡ some a
    → (pop_next a.seq (r.meanwhile g)).0 ≡ none
    → events (r.meanwhile g) ≢ events g
unfolding peek_next
lost_head bound r g {a} fair q picked missed same =
    let still : (peek_next (r.meanwhile g)).0 ≡ some a =
      ground (arith, fair.quiet g q same, fair.head_kept g q) in
    let (found, _) = pop_next-peek_next bound (r.meanwhile g) (fair.ordered g q) still in cc

record IsLive (bound : ℕ) (e : Engine) : Type 0 where
  queue : IsQueue bound e
  capped : events e ≤ max_scheduled_actions

-- The round goes on with a live engine and a smaller budget.
abbrev Progress : ℕ → Engine → Engine → Type 0
Progress bound e e' = IsLive bound e' × (budget e' < budget e)

perform-Progress :
    (bound : ℕ) (txt : Texts) (r : Round) (a : Action) (g m t : Engine) {g' : Engine}
    → IsFair bound r.meanwhile
    → IsFair bound r.during
    → IsLive bound g
    → m ≡ r.meanwhile g
    → IsQueue bound t
    → waiting m ≡ suc (waiting t)
    → events t ≡ events m
    → perform txt r a t ≡ goes_on g'
    → Progress bound g g'
perform-Progress bound txt r a g m t {g'} fm fd live em qt shorter same h =
    let b = begin_action a t in
    let sb = begin_action-same a t in
    let qb = IsQueue-same bound t b sb qt in
    let sp = perform-goes_on txt r a t h in
    let wb : waiting b ≡ waiting t = rw (sb.same_upcoming, sb.same_pending) refl in
    let wp : waiting g' ≡ waiting (r.during b) = rw (sp.same_upcoming, sp.same_pending) refl in
    let wm : waiting m + events g ≤ waiting g + events m = rw em (fm.grown g live.queue) in
    let km : events g ≤ events m = rw em (fm.kept g live.queue) in
    let cm : events m ≤ max_scheduled_actions = rw em (fm.capped g live.queue live.capped) in
    let wd = fd.grown b qb in
    let kd = fd.kept b qb in
    let cd = fd.capped b qb (omega (arith, sb.same_events)) in
    (
      record {
        queue = IsQueue-same bound (r.during b) g' sp (fd.ordered b qb);
        capped = omega (arith, sp.same_events);
      },
      omega (arith, sp.same_events, sb.same_events),
    )

missed-Progress :
    (bound : ℕ) (txt : Texts) (r : Round) (a : Action) (g : Engine) {g' : Engine}
    → IsFair bound r.meanwhile
    → IsLive bound g
    → (peek_next g).0 ≡ some a
    → (pop_next a.seq (r.meanwhile g)).0 ≡ none
    → take_turn txt r (pop_next a.seq (r.meanwhile g)) ≡ goes_on g'
    → Progress bound g g'
missed-Progress bound txt r a g {g'} fm live picked missed h =
    let m = r.meanwhile g in
    let left : g' ≡ (pop_next a.seq m).1 = ground arith in
    let same : g' ≡ m = left ∙ pop_next-none a.seq m missed in
    let news = lost_head bound r g fm live.queue picked missed in
    subst (Progress bound g) (sym same) (
      record { queue = fm.ordered g live.queue; capped = fm.capped g live.queue live.capped },
      omega (
        arith,
        fm.grown g live.queue,
        fm.kept g live.queue,
        fm.capped g live.queue live.capped,
        news,
      ),
    )

taken-Progress :
    (bound : ℕ) (txt : Texts) (r : Round) (a b : Action) (g : Engine) {g' : Engine}
    → IsFair bound r.meanwhile
    → IsFair bound r.during
    → IsLive bound g
    → (pop_next a.seq (r.meanwhile g)).0 ≡ some b
    → take_turn txt r (pop_next a.seq (r.meanwhile g)) ≡ goes_on g'
    → Progress bound g g'
taken-Progress bound txt r a b g {g'} fm fd live found h =
    let m = r.meanwhile g in
    let t = (pop_next a.seq m).1 in
    let (qt, shorter) =
      Takes-IsQueue bound b m t (pop_next-Takes a.seq m found) (pop_next-events a.seq m)
        (pop_next-counter a.seq m) (fm.ordered g live.queue) in
    let performed : perform txt r b t ≡ goes_on g' = ground arith in
    perform-Progress bound txt r b g m t fm fd live refl qt shorter
      (ap length (pop_next-events a.seq m)) performed

turn-Progress :
    (bound : ℕ) (txt : Texts) (r : Round) (g : Engine) {g' : Engine}
    → IsFair bound r.meanwhile
    → IsFair bound r.during
    → IsLive bound g
    → turn txt r g ≡ goes_on g'
    → Progress bound g g'
unfolding turn
turn-Progress bound txt r g {g'} fm fd live h = elim (Option-cases (peek_next g).0) [
  | inl none_left ↦ absurd (ground arith)
  | inr (a, picked) ↦
      let (_, kept) = peek_next-IsFirst bound g live.queue picked in
      let popped : take_turn txt r (pop_next a.seq (r.meanwhile g)) ≡ goes_on g' = ground arith in
      elim (Option-cases (pop_next a.seq (r.meanwhile g)).0) [
        | inl missed ↦ missed-Progress bound txt r a g fm live picked missed popped
        | inr (b, found) ↦ taken-Progress bound txt r a b g fm fd live found popped
      ]
]

turn-ends :
    (txt : Texts) (r : Round) (g : Engine) {o : Outcome × Engine}
    → turn txt r g ≡ ends o
    → o.0 ≢ out_of_fuel
unfolding turn
turn-ends txt r g h e = ground arith

run-live :
    (bound fuel : ℕ) (txt : Texts) (rounds : ℕ → Round) (g : Engine)
    → ((n : ℕ) → IsFairRound bound (rounds n))
    → IsLive bound g
    → budget g < fuel
    → (run fuel txt rounds g).0 ≢ out_of_fuel
unfolding run
run-live bound zero txt rounds g fair live enough = absurd (omega arith)
run-live bound (suc fuel) txt rounds g fair live enough =
    step (λ g' l e. run-live bound fuel txt rounds g' fair l e) (turn txt (rounds fuel) g) refl
  where
    step :
        ((g' : Engine)
          → IsLive bound g'
          → budget g' < fuel
          → (run fuel txt rounds g').0 ≢ out_of_fuel)
        → (t : Turn) → turn txt (rounds fuel) g ≡ t
        → (run (suc fuel) txt rounds g).0 ≢ out_of_fuel
    step recur (ends r) e = rw (e, run) (turn-ends txt (rounds fuel) g e)
    step recur (goes_on g') e =
        let (l, less) =
          turn-Progress bound txt (rounds fuel) g (fair fuel).0 (fair fuel).1 live e in
        rw (e, run) (recur g' l (omega arith))

-- A run ends after at most 40000 rounds, twice the maximum of scheduled actions: it starts with its
-- queues in order and its counter past every number in use, no more actions waiting than events, and
-- no more events than the maximum; and in every round the action and the other threads keep the queues
-- and the counter in order, add an event for each action that they add, keep the maximum, and leave
-- the static timeline alone. Nothing is assumed of results, failures of the repository and
-- interruptions.
pub run_ends :
    (bound : ℕ) (txt : Texts) (rounds : ℕ → Round) (g : Engine)
    → ((n : ℕ) → IsFairRound bound (rounds n))
    → IsQueue bound g
    → waiting g ≤ events g
    → events g ≤ max_scheduled_actions
    → (run 40001 txt rounds g).0 ≢ out_of_fuel
run_ends bound txt rounds g fair queue fits capped =
    run-live bound 40001 txt rounds g fair (record { queue = queue; capped = capped }) (omega arith)
