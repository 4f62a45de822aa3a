-- ===== src/Telemetry/Shown.antt =====
-- What a client shows that applies the events of the freshness monitor
-- (internal/telemetry/freshness_monitor.go).
use c4isr_systems.Prelude.{
  ℕ, String, ◌≡◌, ◌⊎◌, refl, ◌∙◌, sym, ap, Bool, true, false, Option, none, some, List, [], ◌∷◌,
  ◌++◌, inl, inr, Bool-cases, Option-cases, if◌then◌else◌, str_eq, eq_iff, if_both,
}
use c4isr_systems.Platform.Table.{Table, find}
use c4isr_systems.Platform.Freshness.{State, live, delayed, stale, unavailable, unknown, Policy}
use c4isr_systems.Platform.Metrics.{Gauge}
use c4isr_systems.Telemetry.Monitor.{
  entity_key, FreshnessChanged, Monitor, Tick, new_monitor, classify, same_state, unchanged,
  is_some, report, report_changes, report_vanished, reconcile,
}
use c4isr_systems.Telemetry.Keys.{IsNamespaced, IsKeyed, classify-IsKeyed}

-- What is shown for an entity after some events, if v was shown before: the last that they say.
unfoldable pub shown : String → List FreshnessChanged → Option State → Option State
shown key [] v = v
shown key (e ∷ es) v =
    shown key es (if str_eq (entity_key e.entity_type e.entity_id) key then some e.freshness else v)

shown-append :
    (key : String) (es fs : List FreshnessChanged) (v : Option State)
    → shown key (es ++ fs) v ≡ shown key fs (shown key es v)
unfolding shown
shown-append key [] fs v = refl
shown-append key (e ∷ es) fs v = shown-append key es fs _

-- What is shown after all that the monitor has published.
abbrev pub display : String → Monitor → Option State
display key m = shown key m.outbox none

display-report :
    (now : ℕ) (k key : String) (s : State) (p : Option State) (m : Monitor)
    → IsNamespaced k
    → display key (report now k s p m) ≡ (if str_eq k key then some s else display key m)
unfolding report
display-report now k key s p m named =
    shown-append key m.outbox _ none ∙ unfold shown in rw named refl

abbrev after_change : Option State → Option State → Option State → Option State
after_change p none v = v
after_change p (some s) v = if unchanged p s then v else some s

-- A conditional report.
display_if :
    (key : String) (skip : Bool) (now : ℕ) (k : String) (s : State) (p : Option State) (m : Monitor)
    → IsNamespaced k
    → display key (if skip then m else report now k s p m)
      ≡ (if str_eq k key then (if skip then display key m else some s) else display key m)
display_if key true now k s p m named = sym (if_same (str_eq k key))
  where
    if_same : (b : Bool) → (if b then display key m else display key m) ≡ display key m
    if_same true = refl
    if_same false = refl
display_if key false now k s p m named = display-report now k key s p m named

display-report_changes :
    (now : ℕ) (previous rest : Table State) (key : String) (m : Monitor)
    → IsKeyed rest
    → display key (report_changes now previous rest m)
      ≡ after_change (find key previous) (find key rest) (display key m)
unfolding report_changes find
display-report_changes now previous [] key m h = refl
display-report_changes now previous ((k, s) ∷ rest) key m (named, free, keyed) =
    let skip = unchanged (find k previous) s in
    let first = if skip then m else report now k s (find k previous) m in
    let ih = display-report_changes now previous rest key first keyed in
    let shows = display_if key skip now k s (find k previous) m named in
    elim (Bool-cases (str_eq k key)) [
      | inl same ↦
          let eq = (eq_iff k key).0 same in
          ih
          ∙ ap (λ o. after_change (find key previous) o (display key first))
              (ap (λ i. find i rest) (sym eq) ∙ free)
          ∙ shows
          ∙ rw (same, eq) refl
      | inr other ↦
          let still : display key first ≡ display key m = shows ∙ rw other refl in
          ih ∙ ap (after_change (find key previous) (find key rest)) still ∙ rw other refl
    ]

abbrev after_vanish : Bool → Option State → Option State → Option State
after_vanish there none v = v
after_vanish there (some s) v = if there then v else some unknown

display-report_vanished :
    (now : ℕ) (current rest : Table State) (key : String) (m : Monitor)
    → IsKeyed rest
    → display key (report_vanished now current rest m)
      ≡ after_vanish (is_some (find key current)) (find key rest) (display key m)
unfolding report_vanished find
display-report_vanished now current [] key m h = refl
display-report_vanished now current ((k, s) ∷ rest) key m (named, free, keyed) =
    let skip = is_some (find k current) in
    let first = if skip then m else report now k unknown (some s) m in
    let ih = display-report_vanished now current rest key first keyed in
    let shows = display_if key skip now k unknown (some s) m named in
    elim (Bool-cases (str_eq k key)) [
      | inl same ↦
          let eq = (eq_iff k key).0 same in
          ih
          ∙ ap (λ o. after_vanish (is_some (find key current)) o (display key first))
              (ap (λ i. find i rest) (sym eq) ∙ free)
          ∙ shows
          ∙ rw (same, eq) refl
      | inr other ↦
          let still : display key first ≡ display key m = shows ∙ rw other refl in
          ih ∙ ap (after_vanish (is_some (find key current)) (find key rest)) still ∙ rw other refl
    ]

-- What is to be shown of an entity: its state, and nothing or "unknown" of one that is not there.
abbrev pub Agrees : Option State → Option State → Type 0
Agrees (some s) v = v ≡ some s
Agrees none v = (v ≡ none) ⊎ (v ≡ some unknown)

same_state-eq : (p s : State) → same_state p s ≡ true → p ≡ s
same_state-eq live live h = refl
same_state-eq delayed delayed h = refl
same_state-eq stale stale h = refl
same_state-eq unavailable unavailable h = refl
same_state-eq unknown unknown h = refl
same_state-eq _ _ h = cc

step-Agrees :
    (p c v : Option State) → Agrees p v → Agrees c (after_vanish (is_some c) p (after_change p c v))
step-Agrees none none v h = h
step-Agrees none (some s) v h = refl
step-Agrees (some p) none v h = inr refl
step-Agrees (some p) (some s) v h = elim (Bool-cases (same_state p s)) [
  | inl same ↦ rw same (h ∙ ap some (same_state-eq p s same))
  | inr other ↦ rw other refl
]

-- Every entity is shown as the monitor has classified it last.
pub record IsShown (m : Monitor) : Type 0 where
  pub keyed : IsKeyed m.previous
  pub agrees : (key : String) → Agrees (find key m.previous) (display key m)

previous-report :
    (now : ℕ) (k : String) (s : State) (p : Option State) (m : Monitor)
    → (report now k s p m).previous ≡ m.previous
unfolding report
previous-report now k s p m = refl

previous-report_changes :
    (now : ℕ) (previous rest : Table State) (m : Monitor)
    → (report_changes now previous rest m).previous ≡ m.previous
unfolding report_changes
previous-report_changes now previous [] m = refl
previous-report_changes now previous ((k, s) ∷ rest) m =
    previous-report_changes now previous rest _
    ∙ if_both (λ (x : Monitor). x.previous ≡ m.previous) (unchanged (find k previous) s) refl
        (previous-report now k s (find k previous) m)

previous-report_vanished :
    (now : ℕ) (current rest : Table State) (m : Monitor)
    → (report_vanished now current rest m).previous ≡ m.previous
unfolding report_vanished
previous-report_vanished now current [] m = refl
previous-report_vanished now current ((k, s) ∷ rest) m =
    previous-report_vanished now current rest _
    ∙ if_both (λ (x : Monitor). x.previous ≡ m.previous) (is_some (find k current)) refl
        (previous-report now k unknown (some s) m)

reconcile-IsShown : (tick : Tick) (m : Monitor) → IsShown m → IsShown (reconcile tick m).1
unfolding reconcile
reconcile-IsShown tick m h = elim (Option-cases tick.asset_fault) [
  | inr (e, f) ↦ rw (f, reconcile) h
  | inl f ↦ elim (Option-cases tick.track_fault) [
    | inr (e, g) ↦ rw (f, g, reconcile) h
    | inl g ↦ rw (f, g, reconcile) done
  ]
]
  where
    current : Table State
    current = classify m.policy tick

    changed : Monitor
    changed = report_changes tick.now m.previous current (record m { previous = current })

    eq : (report_vanished tick.now current m.previous changed).previous ≡ current
    eq =
        previous-report_vanished tick.now current m.previous changed
        ∙ previous-report_changes tick.now m.previous current (record m { previous = current })

    done : IsShown (report_vanished tick.now current m.previous changed)
    done = record {
      keyed = rw eq (classify-IsKeyed m.policy tick);
      agrees = λ key.
          rw (eq, display-report_vanished tick.now current m.previous key changed h.keyed)
            (rw
              (display-report_changes tick.now m.previous current key
                (record m { previous = current }) (classify-IsKeyed m.policy tick))
              (step-Agrees (find key m.previous) (find key current) (display key m)
                (h.agrees key)));
    }

-- Any sequence of ticks.
unfoldable pub reconcile_all : List Tick → Monitor → Monitor
reconcile_all [] m = m
reconcile_all (tick ∷ ticks) m = reconcile_all ticks (reconcile tick m).1

reconciled-IsShown : (ticks : List Tick) (m : Monitor) → IsShown m → IsShown (reconcile_all ticks m)
unfolding reconcile_all
reconciled-IsShown [] m h = h
reconciled-IsShown (tick ∷ ticks) m h =
    reconciled-IsShown ticks (reconcile tick m).1 (reconcile-IsShown tick m h)

-- After any sequence of ticks from the start, failed ones included, a client that has applied all
-- events shows each asset and track as the monitor has classified it last, and one that the
-- monitor no longer knows as unknown or not at all.
pub reconcile_all-IsShown :
    (policy : Policy) (gauge : Gauge) (ticks : List Tick)
    → IsShown (reconcile_all ticks (new_monitor policy gauge))
unfolding new_monitor find shown
reconcile_all-IsShown policy gauge ticks =
    reconciled-IsShown ticks (new_monitor policy gauge)
      (record { keyed = tt; agrees = λ key. inl refl })
