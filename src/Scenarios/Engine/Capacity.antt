-- ===== src/Scenarios/Engine/Capacity.antt =====
-- The capacity of a run: `maxScheduledActions` bounds the events, counted with what concurrent
-- `scheduleAfterMany` calls have reserved and not yet recorded (internal/scenarios/engine.go).
use c4isr_systems.Prelude.{
  ℕ, suc, String, ◌+◌, ◌≤◌, ◌≡◌, refl, Bool, Option, none, some, List, [], ◌∷◌, ◌++◌, arith, length,
  ap, Option-cases, Bool-cases, ◌||◌, inl, inr, if◌then◌else◌,
}
use c4isr_systems.Platform.Apperr.{Error}
use c4isr_systems.Scenarios.Timeline.{Action}
use c4isr_systems.Scenarios.Engine.{
  Engine, EventInspection, DynamicAction, refused, granted, max_scheduled_actions, set_event,
  set_events, update_event, peek_next, pop_next, reserve, reserve_actions, date, abandon, commit,
  skip_all, skip_pending, mark_finished, pause, set_speed, resume, stop, begin_action, fail_action,
  clear_error, settle_action,
}

-- The engine, and the actions of the calls that stand between their two locked sections.
pub record Shared : Type 0 where
  pub engine : Engine
  pub outstanding : List (List Action)

-- A locked section of any of the threads that share the engine.
pub data Step (s : Shared) : Shared → Type 0 where
  reserves :
      (from_action : Bool) (current : ℕ) (ds : List DynamicAction) (actions : List Action)
      → (reserve from_action current ds s.engine).0 ≡ granted actions
      → Step s (record {
        engine = (reserve from_action current ds s.engine).1;
        outstanding = actions ∷ s.outstanding;
      })
  refuses :
      (from_action : Bool) (current : ℕ) (ds : List DynamicAction) (why : Option Error)
      → (reserve from_action current ds s.engine).0 ≡ refused why
      → Step s (record s { engine = (reserve from_action current ds s.engine).1 })
  commits :
      (before after : List (List Action)) (actions : List Action)
      → s.outstanding ≡ before ++ actions ∷ after
      → Step s (record { engine = (commit actions s.engine).1; outstanding = before ++ after })
  abandons :
      (message : String) (before after : List (List Action)) (actions : List Action)
      → s.outstanding ≡ before ++ actions ∷ after
      → Step s (record { engine = abandon message actions s.engine; outstanding = before ++ after })
  peeks : Step s (record s { engine = (peek_next s.engine).1 })
  pops : (seq : ℕ) → Step s (record s { engine = (pop_next seq s.engine).1 })
  begins : (a : Action) → Step s (record s { engine = begin_action a s.engine })
  fails :
      (message : String) (a : Action)
      → Step s (record s { engine = fail_action message a s.engine })
  clears : Step s (record s { engine = clear_error s.engine })
  settles : (a : Action) → Step s (record s { engine = settle_action a s.engine })
  skips : (message : String) → Step s (record s { engine = skip_pending message s.engine })
  finishes : Step s (record s { engine = mark_finished s.engine })
  pauses : (current : ℕ) → Step s (record s { engine = pause current s.engine })
  speeds : (current : ℕ) → Step s (record s { engine = set_speed current s.engine })
  resumes : Step s (record s { engine = resume s.engine })
  stops : Step s (record s { engine = stop s.engine })

pub data Reach (s : Shared) : Shared → Type 0 where
  here : Reach s s
  next : {t u : Shared} → Reach s t → Step t u → Reach s u

-- How many actions are reserved by the calls under way.
abbrev pub claimed : List (List Action) → ℕ
claimed [] = 0
claimed (a ∷ rest) = length a + claimed rest

pub record IsWithin (s : Shared) : Type 0 where
  pub accounted : s.engine.reserved ≡ claimed s.outstanding
  pub bounded : length s.engine.event_states + s.engine.reserved ≤ max_scheduled_actions

claimed-append : (xs ys : List (List Action)) → claimed (xs ++ ys) ≡ claimed xs + claimed ys
claimed-append [] ys = omega arith
claimed-append (x ∷ xs) ys = omega (arith, claimed-append xs ys)

length-set_event :
    (x : EventInspection) (xs : List EventInspection) → length (set_event x xs) ≤ suc (length xs)
unfolding set_event
length-set_event x [] = omega arith
length-set_event x (y ∷ ys) = ground (arith, length-set_event x ys)

length-set_events :
    (f : Action → EventInspection) (actions : List Action) (xs : List EventInspection)
    → length (set_events f actions xs) ≤ length xs + length actions
unfolding set_events
length-set_events f [] xs = omega arith
length-set_events f (a ∷ actions) xs =
    omega (arith, length-set_event (f a) xs, length-set_events f actions (set_event (f a) xs))

pub length-update_event :
    (seq : ℕ) (f : EventInspection → EventInspection) (xs : List EventInspection)
    → length (update_event seq f xs) ≡ length xs
unfolding update_event
length-update_event seq f [] = refl
length-update_event seq f (x ∷ xs) = ground (arith, length-update_event seq f xs)

length-skip_all :
    (message : String) (xs : List EventInspection) → length (skip_all message xs) ≡ length xs
unfolding skip_all
length-skip_all message [] = refl
length-skip_all message (x ∷ xs) = ap suc (length-skip_all message xs)

pub length-reserve_actions :
    (base seq : ℕ) (ds : List DynamicAction) {actions : List Action}
    → (reserve_actions base seq ds).1 ≡ some actions
    → length actions ≡ length ds
unfolding reserve_actions
length-reserve_actions base seq [] h = ground arith
length-reserve_actions base seq (d ∷ ds) h =
    elim (Option-cases (reserve_actions base (suc seq) ds).1) [
      | inl overflow ↦ ground arith
      | inr (rest, e) ↦ ground (arith, length-reserve_actions base (suc seq) ds e)
    ]

date-granted :
    (count base : ℕ) (e : Engine) (r : ℕ × Option (List Action)) {actions : List Action}
    → (date count base e r).0 ≡ granted actions
    → (r.1 ≡ some actions)
      × ((date count base e r).1.event_states ≡ e.event_states)
      × ((date count base e r).1.reserved ≡ e.reserved + count)
date-granted count base e (seq, none) h = cc
date-granted count base e (seq, some actions) h = ground arith

date-refused :
    (count base : ℕ) (e : Engine) (r : ℕ × Option (List Action)) {why : Option Error}
    → (date count base e r).0 ≡ refused why
    → ((date count base e r).1.event_states ≡ e.event_states)
      × ((date count base e r).1.reserved ≡ e.reserved)
date-refused count base e (seq, none) h = (refl, refl)
date-refused count base e (seq, some actions) h = cc

-- A granted reservation is counted, and there was room for it.
reserve-granted :
    (from_action : Bool) (current : ℕ) (ds : List DynamicAction) (e : Engine)
    {actions : List Action}
    → (reserve from_action current ds e).0 ≡ granted actions
    → ((reserve from_action current ds e).1.event_states ≡ e.event_states)
      × ((reserve from_action current ds e).1.reserved ≡ e.reserved + length actions)
      × (length e.event_states + e.reserved + length actions ≤ max_scheduled_actions)
unfolding reserve
reserve-granted from_action current [] e h = cc
reserve-granted from_action current (d ∷ ds) e {actions} h =
    let base = if from_action then e.last_action_at else current in
    let r = reserve_actions base e.next_seq (d ∷ ds) in
    ground (
      arith,
      date-granted (length (d ∷ ds)) base e r,
      length-reserve_actions base e.next_seq (d ∷ ds) {actions = actions},
    )

reserve-refused :
    (from_action : Bool) (current : ℕ) (ds : List DynamicAction) (e : Engine) {why : Option Error}
    → (reserve from_action current ds e).0 ≡ refused why
    → ((reserve from_action current ds e).1.event_states ≡ e.event_states)
      × ((reserve from_action current ds e).1.reserved ≡ e.reserved)
unfolding reserve
reserve-refused from_action current [] e h = (refl, refl)
reserve-refused from_action current (d ∷ ds) e h = ground (
  arith,
  date-refused (length (d ∷ ds)) (if from_action then e.last_action_at else current) e
      (reserve_actions (if from_action then e.last_action_at else current) e.next_seq (d ∷ ds)),
)

accounted_swap :
    (before after : List (List Action)) (actions : List Action)
    → claimed (before ++ actions ∷ after) ≡ claimed (before ++ after) + length actions
accounted_swap before after actions =
    omega (arith, claimed-append before (actions ∷ after), claimed-append before after)

abandon-IsWithin :
    (message : String) (before after : List (List Action)) (actions : List Action) (s : Shared)
    → s.outstanding ≡ before ++ actions ∷ after
    → IsWithin s
    → IsWithin (record { engine = abandon message actions s.engine; outstanding = before ++ after })
unfolding abandon
abandon-IsWithin message before after actions s e v =
    let count : claimed s.outstanding ≡ claimed (before ++ after) + length actions =
      rw e (accounted_swap before after actions) in
    record {
      accounted = omega (arith, v.accounted);
      bounded =
          omega (arith, v.accounted, v.bounded, length-set_events _ actions s.engine.event_states);
    }

commit-IsWithin :
    (before after : List (List Action)) (actions : List Action) (s : Shared)
    → s.outstanding ≡ before ++ actions ∷ after
    → IsWithin s
    → IsWithin (record { engine = (commit actions s.engine).1; outstanding = before ++ after })
unfolding commit
commit-IsWithin before after actions s e v =
    elim (Bool-cases (s.engine.stopped || s.engine.finished)) [
      | inl over ↦ rw over (
          abandon-IsWithin "scenario run stopped before dynamic action was scheduled" before after
            actions s e v)
      | inr on ↦
          let count : claimed s.outstanding ≡ claimed (before ++ after) + length actions =
            rw e (accounted_swap before after actions) in
          rw on (record {
            accounted = omega (arith, v.accounted);
            bounded =
                omega (
                  arith,
                  v.accounted,
                  v.bounded,
                  length-set_events _ actions s.engine.event_states,
                );
          })
    ]

-- Every locked section keeps the accounts.
pub Step-IsWithin : {s t : Shared} → Step s t → IsWithin s → IsWithin t
Step-IsWithin {s} (reserves from_action current ds actions h) v =
    let (events, counted, room) = reserve-granted from_action current ds s.engine h in
    record {
      accounted = omega (arith, v.accounted, counted);
      bounded = rw events (omega (arith, counted, room));
    }
Step-IsWithin {s} (refuses from_action current ds why h) v =
    let (events, counted) = reserve-refused from_action current ds s.engine h in
    record {
      accounted = omega (arith, v.accounted, counted);
      bounded = rw events (omega (arith, v.bounded, counted));
    }
Step-IsWithin {s} (commits before after actions e) v = commit-IsWithin before after actions s e v
Step-IsWithin {s} (abandons message before after actions e) v =
    abandon-IsWithin message before after actions s e v
Step-IsWithin {s} peeks v = unfold peek_next in ground arith
Step-IsWithin {s} (pops seq) v = unfold pop_next in ground arith
Step-IsWithin {s} (begins a) v =
    unfold begin_action in
    record {
      accounted = v.accounted;
      bounded = rw (length-update_event a.seq _ s.engine.event_states) v.bounded;
    }
Step-IsWithin {s} (fails message a) v =
    unfold fail_action in
    record {
      accounted = v.accounted;
      bounded = rw (length-update_event a.seq _ s.engine.event_states) v.bounded;
    }
Step-IsWithin {s} clears v = unfold clear_error in ground arith
Step-IsWithin {s} (settles a) v =
    unfold settle_action in
    record {
      accounted = v.accounted;
      bounded = rw (length-update_event a.seq _ s.engine.event_states) v.bounded;
    }
Step-IsWithin {s} (skips message) v =
    unfold skip_pending in
    record {
      accounted = v.accounted;
      bounded = rw (length-skip_all message s.engine.event_states) v.bounded;
    }
Step-IsWithin {s} finishes v = unfold mark_finished in ground arith
Step-IsWithin {s} (pauses current) v = unfold pause in ground arith
Step-IsWithin {s} (speeds current) v = unfold set_speed in ground arith
Step-IsWithin {s} resumes v = unfold resume in ground arith
Step-IsWithin {s} stops v = unfold stop in ground arith

Reach-IsWithin : {s t : Shared} → IsWithin s → Reach s t → IsWithin t
Reach-IsWithin v here = v
Reach-IsWithin v (next r st) = Step-IsWithin st (Reach-IsWithin v r)

-- However the locked sections of the run loop, the controls and the schedulers interleave, the
-- events of a run never exceed the maximum, if the timeline that it starts with does not and no call
-- is under way; and the reservation counter is the sum of the calls under way.
pub events_bounded :
    {s t : Shared}
    → s.outstanding ≡ []
    → s.engine.reserved ≡ 0
    → length s.engine.event_states ≤ max_scheduled_actions
    → Reach s t
    → (length t.engine.event_states ≤ max_scheduled_actions)
      × (t.engine.reserved ≡ claimed t.outstanding)
events_bounded {s} {t} idle none_reserved fits r =
    let start : IsWithin s = record { accounted = rw idle none_reserved; bounded = omega arith } in
    let v = Reach-IsWithin start r in (omega (arith, v.bounded), v.accounted)
