-- ===== src/Alerts.antt =====
-- internal/alerts/domain.go and internal/alerts/labels.go: alerts, and the words that they carry.
pub mod Store
pub mod Service
pub mod Calls
pub mod Rows
pub mod Count
pub mod Dedup
pub mod Lifecycle
pub mod Delivery
pub mod Final
pub use c4isr_systems.Platform.Geo.{Float64}
use c4isr_systems.Prelude.{
  ℕ, String, Bool, true, false, ◌&&◌, Option, none, some, trim_space, is_empty, leb, if◌then◌else◌,
  str_eq,
}
use c4isr_systems.Platform.Apperr.{Result, ok, err}

pub data State : Type 0 where
  active acknowledged resolved : State

pub data Severity : Type 0 where
  low medium high critical : Severity

-- `runctx.Scope`
pub record Scope : Type 0 where
  pub run_id : String
  pub resource_namespace : String

pub record Subject : Type 0 where
  pub label : String
  pub confirmed : Bool

-- A title or a message: the format of labels.go with its arguments. In the suspected forms the label
-- is shown in lower case, in the confirmed ones with a capital.
pub data Wording : Type 0 where
  entered : (confirmed : Bool) (label zone : String) → Wording
  entered_kind : (confirmed : Bool) (label kind zone : String) → Wording
  overlaps : (label zone : String) → Wording
  observed_overlap : (noun zone : String) → Wording

abbrev or_default : String → String → String
or_default s d = if is_empty s then d else s

-- `Subject.BreachTitle`
unfoldable pub breach_title : Subject → String → Wording
unfolding trim_space
breach_title s geofence_name =
    entered s.confirmed s.label (or_default (trim_space geofence_name) "a restricted zone")

-- `Subject.BreachMessage`
unfoldable pub breach_message : Subject → String → String → Wording
unfolding trim_space
breach_message s geofence_type geofence_name =
    entered_kind s.confirmed s.label (or_default (trim_space geofence_type) "restricted")
      (or_default (trim_space geofence_name) "a restricted zone")

-- `areaSubject`
unfoldable pub area_subject : String → Subject
area_subject kind =
    if str_eq kind "hazard"
    then record { label = "Hazard area"; confirmed = true }
    else if str_eq kind "weather"
    then record { label = "Weather cell"; confirmed = true }
    else if str_eq kind "environmental"
    then record { label = "Environmental condition"; confirmed = true }
    else if str_eq kind "infrastructure"
    then record { label = "Infrastructure disruption"; confirmed = true }
    else if str_eq kind "crowd"
    then record { label = "Crowd area"; confirmed = true }
    else record { label = "Unidentified area event"; confirmed = true }

-- `areaKindNoun`
unfoldable pub area_kind_noun : String → String
area_kind_noun kind =
    if str_eq kind "hazard"
    then "hazard"
    else if str_eq kind "weather"
    then "weather cell"
    else if str_eq kind "environmental"
    then "environmental condition"
    else if str_eq kind "infrastructure"
    then "infrastructure disruption"
    else if str_eq kind "crowd"
    then "crowd concentration"
    else "area event"

-- `Subject.OverlapTitle`
unfoldable pub overlap_title : Subject → String → Wording
unfolding trim_space
overlap_title s geofence_name =
    overlaps s.label (or_default (trim_space geofence_name) "a restricted zone")

-- `Subject.OverlapMessage`
unfoldable pub overlap_message : String → String → Wording
unfolding trim_space area_kind_noun
overlap_message area_kind geofence_name =
    observed_overlap (area_kind_noun area_kind)
      (or_default (trim_space geofence_name) "a restricted zone")

-- What the classifications module answers.
pub record Classification : Type 0 where
  pub label : String
  pub confidence : Option Float64

-- `c >= 0.8` on float64: the patterns from that of 0.8 up to that of +Inf.
abbrev pub settled : Option Float64 → Bool
settled none = false
settled (some c) = leb 0x3fe999999999999a c && leb c 0x7ff0000000000000

abbrev unidentified : Subject
unidentified = record { label = "Unidentified contact"; confirmed = false }

abbrev describe : Result (Option Classification) → Subject
describe (err e) = unidentified
describe (ok none) = unidentified
describe (ok (some c)) =
    if is_empty (trim_space c.label)
    then unidentified
    else record { label = trim_space c.label; confirmed = settled c.confidence }

-- `DescribeTrack`; the classifier may be nil.
unfoldable pub describe_track : String → Option (String → Result (Option Classification)) → Subject
unfolding trim_space
describe_track track_id none = unidentified
describe_track track_id (some latest_for_track) = describe (latest_for_track track_id)

-- The provenance that is stored with an alert.
pub record SourceReference : Type 0 where
  pub rule : String
  pub geofence_id : String
  pub geofence_name : String
  pub geofence_type : String
  pub track_id : String
  pub observation_id : String
  pub source_id : String
  pub area_kind : String
  pub overlap_m2 : Float64
  pub area_m2 : Float64
  pub subject_label : String
  pub subject_confirmed : Option Bool
  pub scope : Option Scope

-- A text column that is NULL is the empty text.
pub record Alert : Type 0 where
  pub id : String
  pub type : String
  pub severity : Severity
  pub state : State
  pub title : Wording
  pub message : Wording
  pub source_reference : SourceReference
  pub track_id : String
  pub asset_id : String
  pub geofence_id : String
  pub incident_id : String
  pub created_at : ℕ
  pub updated_at : ℕ
  pub acknowledged_at : Option ℕ
  pub acknowledged_by : String
  pub resolved_at : Option ℕ
  pub resolved_by : String

abbrev pub geofence_breach_type : String
geofence_breach_type = "geofence.breach"

abbrev pub area_overlap_type : String
area_overlap_type = "geofence.area.overlap"

-- `normalizeSeverity`
unfoldable pub normalize_severity : String → Severity
normalize_severity s =
    if str_eq s "low"
    then low
    else if str_eq s "medium"
    then medium
    else if str_eq s "high"
    then high
    else if str_eq s "critical"
    then critical
    else medium
