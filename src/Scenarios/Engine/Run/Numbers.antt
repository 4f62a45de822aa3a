-- ===== src/Scenarios/Engine/Run/Numbers.antt =====
-- The numbers of new actions, and the events that are recorded for them (internal/scenarios/engine.go).
use c4isr_systems.Prelude.{
  ℕ, suc, String, ◌+◌, ◌≤◌, ◌<◌, ◌≡◌, ◌∙◌, refl, sym, ap, subst, false, some, List, [], ◌∷◌, ◌++◌,
  arith, length, All, All-append, Option-cases, inl, inr, ◌==◌, pos_part,
}
use c4isr_systems.Scenarios.Timeline.{Action}
use c4isr_systems.Scenarios.Engine.{
  EventInspection, EventStatus, DynamicAction, set_event, set_events, inspection, reserve_actions,
}

-- No event has this number.
abbrev pub Absent : ℕ → List EventInspection → Type 0
Absent k xs = All (λ x. (x.sequence == k) ≡ false) xs

-- The actions are numbered from the counter on, without a gap.
abbrev pub Numbered : ℕ → List Action → Type 0
Numbered seq [] = Unit
Numbered seq (a ∷ actions) = (a.seq ≡ suc seq) × Numbered (suc seq) actions

-- None of the numbers after the counter, as many as there are actions, is taken.
abbrev pub AreFree : ℕ → List Action → List EventInspection → Type 0
AreFree seq [] xs = Unit
AreFree seq (a ∷ actions) xs = Absent (suc seq) xs × AreFree (suc seq) actions xs

abbrev pub inspected : EventStatus → String → List Action → List EventInspection
inspected status message [] = []
inspected status message (a ∷ actions) =
    inspection status message a ∷ inspected status message actions

pub length-inspected :
    (status : EventStatus) (message : String) (actions : List Action)
    → length (inspected status message actions) ≡ length actions
length-inspected status message [] = refl
length-inspected status message (a ∷ actions) = ap suc (length-inspected status message actions)

set_event-append :
    (item : EventInspection) (xs : List EventInspection)
    → Absent item.sequence xs
    → set_event item xs ≡ xs ++ item ∷ []
unfolding set_event
set_event-append item [] free = refl
set_event-append item (x ∷ xs) free =
    rw (free.0, set_event) (ap (λ r. x ∷ r) (set_event-append item xs free.1))

append_nil : (xs : List EventInspection) → xs ++ [] ≡ xs
append_nil [] = refl
append_nil (x ∷ xs) = ap (λ r. x ∷ r) (append_nil xs)

append_assoc :
    (xs : List EventInspection) (x : EventInspection) (ys : List EventInspection)
    → (xs ++ x ∷ []) ++ ys ≡ xs ++ x ∷ ys
append_assoc [] x ys = refl
append_assoc (z ∷ xs) x ys = ap (λ r. z ∷ r) (append_assoc xs x ys)

-- An event with an earlier number takes none of those that come.
AreFree-append :
    (seq : ℕ) (actions : List Action) (xs : List EventInspection) (x : EventInspection)
    → x.sequence ≤ seq
    → AreFree seq actions xs
    → AreFree seq actions (xs ++ x ∷ [])
AreFree-append seq [] xs x low free = tt
AreFree-append seq (a ∷ actions) xs x low free = (
  All-append (λ y. (y.sequence == suc seq) ≡ false) xs (x ∷ []) free.0 (ground (arith, low), tt),
  AreFree-append (suc seq) actions xs x (omega (arith, low)) free.1,
)

-- Events with new numbers are added behind the others.
pub set_events-append :
    (status : EventStatus) (message : String) (seq : ℕ) (actions : List Action)
    (xs : List EventInspection)
    → Numbered seq actions
    → AreFree seq actions xs
    → set_events (inspection status message) actions xs ≡ xs ++ inspected status message actions
unfolding set_events
set_events-append status message seq [] xs numbered free = sym (append_nil xs)
set_events-append status message seq (a ∷ actions) xs numbered free =
    let item = inspection status message a in
    let new : Absent item.sequence xs = subst (λ k. Absent k xs) (sym numbered.0) free.0 in
    ap (set_events (inspection status message) actions) (set_event-append item xs new)
    ∙ set_events-append status message (suc seq) actions (xs ++ item ∷ []) numbered.1
        (AreFree-append (suc seq) actions xs item (omega (arith, numbered.0)) free.1)
    ∙ append_assoc xs item (inspected status message actions)

pub inspected_within :
    (status : EventStatus) (message : String) (seq bound : ℕ) (actions : List Action)
    → Numbered seq actions
    → seq + length actions ≤ bound
    → All (λ x. x.sequence ≤ bound) (inspected status message actions)
inspected_within status message seq bound [] numbered low = tt
inspected_within status message seq bound (a ∷ actions) numbered low = (
  omega (arith, numbered.0, low),
  inspected_within status message (suc seq) bound actions numbered.1 (omega (arith, low)),
)

pub inspected_absent :
    (status : EventStatus) (message : String) (seq k : ℕ) (actions : List Action)
    → Numbered seq actions
    → k ≤ seq
    → Absent k (inspected status message actions)
inspected_absent status message seq k [] numbered low = tt
inspected_absent status message seq k (a ∷ actions) numbered low = (
  ground (arith, numbered.0, low),
  inspected_absent status message (suc seq) k actions numbered.1 (omega (arith, low)),
)

pub Numbered-over :
    (bound seq : ℕ) (actions : List Action)
    → bound ≤ seq
    → Numbered seq actions
    → All (λ a. bound < a.seq) actions
Numbered-over bound seq [] low numbered = tt
Numbered-over bound seq (a ∷ actions) low numbered = (
  omega (arith, low, numbered.0),
  Numbered-over bound (suc seq) actions (omega (arith, low)) numbered.1,
)

-- A number above all of the events is not taken.
pub Absent-above :
    (n k : ℕ) (xs : List EventInspection) → n < k → All (λ x. x.sequence ≤ n) xs → Absent k xs
Absent-above n k [] high low = tt
Absent-above n k (x ∷ xs) high low = (ground (arith, high, low.0), Absent-above n k xs high low.1)

pub AreFree-from :
    (seq : ℕ) (actions : List Action) (xs : List EventInspection)
    → ((k : ℕ) → seq < k → k ≤ seq + length actions → Absent k xs)
    → AreFree seq actions xs
AreFree-from seq [] xs free = tt
AreFree-from seq (a ∷ actions) xs free = (
  free (suc seq) (omega arith) (omega arith),
  AreFree-from (suc seq) actions xs
      (λ k high low. free k (omega (arith, high)) (omega (arith, low))),
)

-- What `reserve_actions` numbers.
pub reserve_actions-Numbered :
    (base seq : ℕ) (ds : List DynamicAction) {actions : List Action}
    → (reserve_actions base seq ds).1 ≡ some actions
    → ((reserve_actions base seq ds).0 ≡ seq + length actions) × Numbered seq actions
unfolding reserve_actions
reserve_actions-Numbered base seq [] {actions} e =
    let same : [] ≡ actions = ground arith in
    subst (λ (x : List Action). (seq ≡ seq + length x) × Numbered seq x) same (omega arith, tt)
reserve_actions-Numbered base seq (d ∷ ds) {actions} e =
    elim (Option-cases (reserve_actions base (suc seq) ds).1) [
      | inl overflow ↦ absurd (ground arith)
      | inr (rest, found) ↦
          let a : Action = record {
            at_ms = base + pos_part d.delay_ms;
            seq = suc seq;
            name = d.name;
          } in
          let same : a ∷ rest ≡ actions = ground arith in
          let counter : (reserve_actions base (suc seq) ds).0
              ≡ (reserve_actions base seq (d ∷ ds)).0 =
            ground arith in
          let (counted, more) = reserve_actions-Numbered base (suc seq) ds found in
          subst
            (λ (x : List Action).
              ((reserve_actions base seq (d ∷ ds)).0 ≡ seq + length x) × Numbered seq x)
            same (omega (arith, counter, counted), (refl, more))
    ]

pub reserve_actions_onward :
    (base seq : ℕ) (ds : List DynamicAction) → seq ≤ (reserve_actions base seq ds).0
unfolding reserve_actions
reserve_actions_onward base seq [] = omega arith
reserve_actions_onward base seq (d ∷ ds) = ground (arith, reserve_actions_onward base (suc seq) ds)
