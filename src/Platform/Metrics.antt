-- ===== src/Platform/Metrics.antt =====
-- internal/platform/observability/metrics.go: the gauge of the entities that are not trustworthy.
use c4isr_systems.Prelude.{
  String, ◌≡◌, refl, Bool, true, false, ◌||◌, List, [], ◌∷◌, ℤ, pos, negsuc, zero, suc, length,
  str_eq, is_empty, trim_space, if◌then◌else◌, inl, inr, Bool-cases, arith,
}

-- The set of entities and the counter beside it, an int64.
pub record Gauge : Type 0 where
  pub held : List String
  pub count : ℤ

abbrev pub add_one : ℤ → ℤ
add_one (pos n) = pos (suc n)
add_one (negsuc zero) = pos zero
add_one (negsuc (suc n)) = negsuc n

abbrev pub sub_one : ℤ → ℤ
sub_one (pos zero) = negsuc zero
sub_one (pos (suc n)) = pos n
sub_one (negsuc n) = negsuc (suc n)

unfoldable pub holds : String → List String → Bool
holds k [] = false
holds k (j ∷ js) = str_eq j k || holds k js

-- `delete` on a set: the list has each entity once.
unfoldable pub remove : String → List String → List String
remove k [] = []
remove k (j ∷ js) = if str_eq j k then js else j ∷ remove k js

-- The entry is added or taken away, and counted, only where that changes the set.
abbrev observe_trimmed : String → Bool → Gauge → Gauge
observe_trimmed k true g =
    if holds k g.held then g else record g { held = k ∷ g.held; count = add_one g.count }
observe_trimmed k false g =
    if holds k g.held then record g { held = remove k g.held; count = sub_one g.count } else g

-- `ObserveStaleEntity`
unfoldable pub observe_stale_entity : String → Bool → Gauge → Gauge
unfolding trim_space holds remove
observe_stale_entity key stale g =
    if is_empty (trim_space key) then g else observe_trimmed (trim_space key) stale g

-- The case of events.TelemetryReceived in `ObserveDomainEvent`.
unfoldable pub observe_telemetry : String → Bool → Gauge → Gauge
observe_telemetry asset_id stale g = if stale then g else observe_stale_entity asset_id false g

remove-length :
    (k : String) (js : List String) → holds k js ≡ true → length js ≡ suc (length (remove k js))
unfolding holds remove
remove-length k [] h = cc
remove-length k (j ∷ js) h = elim (Bool-cases (str_eq j k)) [
  | inl same ↦ rw same refl
  | inr other ↦ rw other (ground (arith, remove-length k js (ground arith)))
]

-- The counter is the size of the set after every observation if it was before.
pub observe_stale_entity-length :
    (key : String) (stale : Bool) (g : Gauge)
    → g.count ≡ pos (length g.held)
    → (observe_stale_entity key stale g).count
      ≡ pos (length (observe_stale_entity key stale g).held)
unfolding observe_stale_entity
observe_stale_entity-length key true g h = ground arith
observe_stale_entity-length key false g h = ground (arith, remove-length (trim_space key) g.held)
