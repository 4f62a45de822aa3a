-- ===== src/Telemetry/Monitor.antt =====
-- internal/telemetry/freshness_monitor.go: the periodic classification of all assets and tracks. Go
-- leaves open in which order a map is gone through; here it is that of insertion.
use c4isr_systems.Prelude.{
  ℕ, String, ◌==◌, Bool, true, false, not, Option, none, some, List, [], ◌∷◌, ◌++◌, if◌then◌else◌,
}
use Prim.Native.Char.{code}
use c4isr_systems.Platform.Apperr.{Error}
use c4isr_systems.Platform.Table.{Table, find, put, DbError, raw}
use c4isr_systems.Platform.Freshness.{
  State, live, delayed, stale, unavailable, unknown, Policy, normalized, for_asset, for_track,
  trustworthy,
}
use c4isr_systems.Platform.Metrics.{Gauge, observe_stale_entity}

pub record FreshnessSignal : Type 0 where
  pub asset_id : String
  pub status : String
  pub connection_state : String
  pub last_seen_at : Option ℕ

pub record TrackFreshnessSignal : Type 0 where
  pub track_id : String
  pub status : String
  pub last_seen_at : ℕ

-- `entityKey`: entityType + ":" + id
unfoldable pub entity_key : String → String → String
entity_key String.[] id = String.◌∷◌ ":" id
entity_key (String.◌∷◌ c t) id = String.◌∷◌ c (entity_key t id)

abbrev pub entity_type_asset : String
entity_type_asset = "asset"

abbrev pub entity_type_track : String
entity_type_track = "track"

-- What is before and behind the first colon.
unfoldable pub cut_colon : String → Option (String × String)
cut_colon String.[] = none
cut_colon (String.◌∷◌ c s) =
    let rest = cut_colon s in
    if code c == b':'
    then some (String.[], s)
    else elim rest [ none ↦ none | some (t, id) ↦ some (String.◌∷◌ c t, id) ]

-- `splitEntityKey`
unfoldable pub split_entity_key : String → String × String
split_entity_key key = elim (cut_colon key) [ none ↦ (entity_type_asset, key) | some parts ↦ parts ]

-- events.EntityFreshnessChanged; a previous state that there is not is the empty text there.
pub record FreshnessChanged : Type 0 where
  pub at : ℕ
  pub entity_type : String
  pub entity_id : String
  pub freshness : State
  pub previous : Option State

-- The monitor, with the dispatcher and the metrics that it is wired to.
pub record Monitor : Type 0 where
  pub policy : Policy
  pub previous : Table State
  pub gauge : Gauge
  pub outbox : List FreshnessChanged

-- `NewFreshnessMonitor`
unfoldable pub new_monitor : Policy → Gauge → Monitor
new_monitor policy gauge = record {
  policy = normalized policy;
  previous = [];
  gauge = gauge;
  outbox = [];
}

-- What one tick finds: the answers of the two queries and the clock, taken to stand still.
pub record Tick : Type 0 where
  pub now : ℕ
  pub asset_fault : Option DbError
  pub track_fault : Option DbError
  pub assets : List FreshnessSignal
  pub tracks : List TrackFreshnessSignal

unfoldable pub add_assets : Policy → ℕ → List FreshnessSignal → Table State → Table State
add_assets p now [] t = t
add_assets p now (s ∷ ss) t = add_assets p now ss (
    put (entity_key entity_type_asset s.asset_id)
      (for_asset p
        (record {
          last_seen_at = s.last_seen_at;
          connection_state = s.connection_state;
          status = s.status;
        })
        now)
      t)

unfoldable pub add_tracks : Policy → ℕ → List TrackFreshnessSignal → Table State → Table State
add_tracks p now [] t = t
add_tracks p now (s ∷ ss) t = add_tracks p now ss (
    put (entity_key entity_type_track s.track_id)
      (for_track p (record { last_seen_at = s.last_seen_at; status = s.status }) now) t)

-- `current`
unfoldable pub classify : Policy → Tick → Table State
classify p tick = add_tracks p tick.now tick.tracks (add_assets p tick.now tick.assets [])

abbrev pub same_state : State → State → Bool
same_state live live = true
same_state delayed delayed = true
same_state stale stale = true
same_state unavailable unavailable = true
same_state unknown unknown = true
same_state _ _ = false

-- `previous[key] == state`
abbrev pub unchanged : Option State → State → Bool
unchanged none s = false
unchanged (some p) s = same_state p s

-- `report`
unfoldable pub report : ℕ → String → State → Option State → Monitor → Monitor
report now key state previous m =
    let parts = split_entity_key key in
    record m {
      gauge = observe_stale_entity key (not (trustworthy state)) m.gauge;
      outbox =
          m.outbox
          ++ record {
            at = now;
            entity_type = parts.0;
            entity_id = parts.1;
            freshness = state;
            previous = previous;
          }
            ∷ [];
    }

-- The first loop of Reconcile, over what is left of `current`.
unfoldable pub report_changes : ℕ → Table State → Table State → Monitor → Monitor
report_changes now previous [] m = m
report_changes now previous ((key, state) ∷ rest) m =
    report_changes now previous rest (
      if unchanged (find key previous) state then m else report now key state (find key previous) m)

abbrev pub is_some {ℓ} : {A : Type ℓ} → Option A → Bool
is_some none = false
is_some (some a) = true

-- The second loop, over what is left of `previous`.
unfoldable pub report_vanished : ℕ → Table State → Table State → Monitor → Monitor
report_vanished now current [] m = m
report_vanished now current ((key, state) ∷ rest) m =
    report_vanished now current rest
      (if is_some (find key current) then m else report now key unknown (some state) m)

-- `Reconcile`
unfoldable pub reconcile : Tick → Monitor → Option Error × Monitor
reconcile tick m = elim tick.asset_fault [
  | some e ↦ (some (raw e), m)
  | none ↦ elim tick.track_fault [
    | some e ↦ (some (raw e), m)
    | none ↦
        let current = classify m.policy tick in
        (
          none,
          report_vanished tick.now current m.previous
              (report_changes tick.now m.previous current (record m { previous = current })),
        )
  ]
]
