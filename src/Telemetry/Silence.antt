-- ===== src/Telemetry/Silence.antt =====
-- The gauge of stale entities under the freshness monitor (internal/telemetry/freshness_monitor.go,
-- internal/platform/observability/metrics.go), and ticks that find nothing new.
use c4isr_systems.Prelude.{
  ℕ, String, ◌≡◌, refl, ap, Bool, true, false, ◌||◌, Option, none, some, List, [], ◌∷◌, inl, inr,
  Bool-cases, Option-cases, arith, str_eq, eq_iff, eq_refl, is_empty, trim_space, All,
}
use c4isr_systems.Platform.Table.{Table, find}
use c4isr_systems.Platform.Freshness.{State, live, delayed, stale, unavailable, unknown}
use c4isr_systems.Platform.Metrics.{Gauge, holds, remove, observe_stale_entity, observe_telemetry}
use c4isr_systems.Telemetry.Monitor.{
  Monitor, Tick, classify, add_assets, add_tracks, same_state, report, report_changes,
  report_vanished, reconcile,
}
use c4isr_systems.Telemetry.Keys.{IsKeyed, has_colon}
use c4isr_systems.Telemetry.Shown.{reconcile_all}

-- Every entry of a table is found.
abbrev FoundIn : Table State → Table State → Type 0
FoundIn t rest = All (λ (e : String × State). find e.0 t ≡ some e.1) rest

found_behind :
    (k : String) (s : State) (t rest : Table State)
    → find k t ≡ none
    → FoundIn t rest
    → FoundIn ((k, s) ∷ t) rest
unfolding find
found_behind k s t [] free h = tt
found_behind k s t ((j, q) ∷ rest) free h =
    (ground (arith, eq_iff k j), found_behind k s t rest free h.1)

IsKeyed-FoundIn : (t : Table State) → IsKeyed t → FoundIn t t
unfolding find
IsKeyed-FoundIn [] h = tt
IsKeyed-FoundIn ((k, s) ∷ t) (named, free, keyed) =
    (rw (eq_refl k) refl, found_behind k s t t free (IsKeyed-FoundIn t keyed))

same_state_refl : (s : State) → same_state s s ≡ true
same_state_refl live = refl
same_state_refl delayed = refl
same_state_refl stale = refl
same_state_refl unavailable = refl
same_state_refl unknown = refl

unchanged_silent :
    (now : ℕ) (t rest : Table State) (m : Monitor)
    → FoundIn t rest
    → report_changes now t rest m ≡ m
unfolding report_changes
unchanged_silent now t [] m h = refl
unchanged_silent now t ((k, s) ∷ rest) m h =
    rw (h.0, same_state_refl s) (unchanged_silent now t rest m h.1)

present_silent :
    (now : ℕ) (t rest : Table State) (m : Monitor)
    → FoundIn t rest
    → report_vanished now t rest m ≡ m
unfolding report_vanished
present_silent now t [] m h = refl
present_silent now t ((k, s) ∷ rest) m h = rw h.0 (present_silent now t rest m h.1)

-- A tick that classifies everything as the one before reports nothing and changes nothing.
pub quiet_tick :
    (tick : Tick) (m : Monitor)
    → IsKeyed m.previous
    → tick.asset_fault ≡ none
    → tick.track_fault ≡ none
    → classify m.policy tick ≡ m.previous
    → reconcile tick m ≡ (none, m)
unfolding reconcile
quiet_tick tick m keyed assets tracks same =
    let found = IsKeyed-FoundIn m.previous keyed in
    rw (reconcile, assets, tracks, same)
      (ap (λ x. (none, x))
        (rw (unchanged_silent tick.now m.previous m.previous m found)
          (present_silent tick.now m.previous m.previous m found)))

-- Reporting an entity as stale takes none out of the gauge.
holds-observe :
    (k key : String) (g : Gauge)
    → holds k g.held ≡ true
    → holds k (observe_stale_entity key true g).held ≡ true
unfolding observe_stale_entity holds
holds-observe k key g h = ground arith

holds-observed :
    (key : String) (g : Gauge)
    → is_empty (trim_space key) ≡ false
    → holds (trim_space key) (observe_stale_entity key true g).held ≡ true
unfolding observe_stale_entity holds
holds-observed key g named = ground (arith, eq_refl (trim_space key))

report-holds :
    (now : ℕ) (k key : String) (p : Option State) (m : Monitor)
    → holds k m.gauge.held ≡ true
    → holds k (report now key unknown p m).gauge.held ≡ true
unfolding report
report-holds now k key p m h = holds-observe k key m.gauge h

-- When nothing is left, what is held stays held.
emptied-holds :
    (now : ℕ) (k : String) (rest : Table State) (m : Monitor)
    → holds k m.gauge.held ≡ true
    → holds k (report_vanished now [] rest m).gauge.held ≡ true
unfolding report_vanished find
emptied-holds now k [] m h = h
emptied-holds now k ((key, s) ∷ rest) m h =
    emptied-holds now k rest (report now key unknown (some s) m)
      (report-holds now k key (some s) m h)

-- And every entity that was there before is held.
emptied_held :
    (now : ℕ) (key : String) (rest : Table State) (m : Monitor) {s : State}
    → find key rest ≡ some s
    → is_empty (trim_space key) ≡ false
    → holds (trim_space key) (report_vanished now [] rest m).gauge.held ≡ true
unfolding report_vanished find
emptied_held now key [] m there named = cc
emptied_held now key ((k, q) ∷ rest) m {s} there named = elim (Bool-cases (str_eq k key)) [
  | inl same ↦
      emptied-holds now (trim_space key) rest (report now k unknown (some q) m)
        (unfold report in rw ((eq_iff k key).0 same) (holds-observed key m.gauge named))
  | inr other ↦
      let later : find key rest ≡ some s = ground arith in
      emptied_held now key rest (report now k unknown (some q) m) later named
]

-- A tick that finds no asset and no track any more.
pub record IsEmptied (tick : Tick) : Type 0 where
  pub no_assets : tick.assets ≡ []
  pub no_tracks : tick.tracks ≡ []

emptied-classify : (m : Monitor) (tick : Tick) → IsEmptied tick → classify m.policy tick ≡ []
unfolding classify add_assets add_tracks
emptied-classify m tick e = rw (e.no_assets, e.no_tracks) refl

reconcile-holds :
    (tick : Tick) (k : String) (m : Monitor)
    → IsEmptied tick
    → holds k m.gauge.held ≡ true
    → holds k (reconcile tick m).1.gauge.held ≡ true
unfolding reconcile report_changes
reconcile-holds tick k m e h = elim (Option-cases tick.asset_fault) [
  | inr (x, f) ↦ rw (f, reconcile) h
  | inl f ↦ elim (Option-cases tick.track_fault) [
    | inr (x, g) ↦ rw (f, g, reconcile) h
    | inl g ↦
        rw (f, g, reconcile, emptied-classify m tick e)
          (emptied-holds tick.now k m.previous (record m { previous = [] }) h)
  ]
]

reconcile_all-holds :
    (ticks : List Tick) (k : String) (m : Monitor)
    → All IsEmptied ticks
    → holds k m.gauge.held ≡ true
    → holds k (reconcile_all ticks m).gauge.held ≡ true
unfolding reconcile_all
reconcile_all-holds [] k m e h = h
reconcile_all-holds (tick ∷ ticks) k m e h =
    reconcile_all-holds ticks k (reconcile tick m).1 e.1 (reconcile-holds tick k m e.0 h)

-- The comment in Reconcile says that the gauge of an entity that has disappeared is cleared. It is
-- set: once all assets and tracks are gone, every one of them, however fresh it was, is counted as
-- stale, and stays so over any number of further ticks.
pub vanished_stay_stale :
    (tick : Tick) (ticks : List Tick) (key : String) (m : Monitor) {s : State}
    → tick.asset_fault ≡ none
    → tick.track_fault ≡ none
    → All IsEmptied (tick ∷ ticks)
    → find key m.previous ≡ some s
    → is_empty (trim_space key) ≡ false
    → holds (trim_space key) (reconcile_all (tick ∷ ticks) m).gauge.held ≡ true
unfolding reconcile_all reconcile report_changes
vanished_stay_stale tick ticks key m assets tracks empty there named =
    reconcile_all-holds ticks (trim_space key) (reconcile tick m).1 empty.1 (
      rw (reconcile, assets, tracks, emptied-classify m tick empty.0)
        (emptied_held tick.now key m.previous (record m { previous = [] }) there named))

holds-remove :
    (k j : String) (js : List String) → str_eq j k ≡ false → holds k (remove j js) ≡ holds k js
unfolding holds remove
holds-remove k j [] other = refl
holds-remove k j (i ∷ is_) other = elim (Bool-cases (str_eq i j)) [
  | inl same ↦ ground (arith, eq_iff i j)
  | inr differs ↦ rw differs (ap (λ b. str_eq i k || b) (holds-remove k j is_ other))
]

-- The keys of the monitor have a colon; telemetry.received names the asset without its type. So a
-- sample of an asset whose trimmed id has no colon takes no key with a colon out of the gauge.
pub telemetry_clears_nothing :
    (asset key : String) (stale : Bool) (g : Gauge)
    → has_colon (trim_space asset) ≡ false
    → has_colon key ≡ true
    → holds key (observe_telemetry asset stale g).held ≡ holds key g.held
unfolding observe_telemetry observe_stale_entity
telemetry_clears_nothing asset key true g plain_id typed = refl
telemetry_clears_nothing asset key false g plain_id typed =
    ground (arith, holds-remove key (trim_space asset) g.held other)
  where
    other : str_eq (trim_space asset) key ≡ false
    other = elim (Bool-cases (str_eq (trim_space asset) key)) [
      | inl same ↦
          let e : has_colon (trim_space asset) ≡ has_colon key =
            ap has_colon ((eq_iff (trim_space asset) key).0 same) in
          cc
      | inr differs ↦ differs
    ]
