-- ===== src/Platform/Access/Routes.antt =====
-- What the routes ask for, and what roles may do (internal/platform/httpx/middleware.go).
use c4isr_systems.Prelude.{
  String, ◌≡◌, refl, sym, subst, inl, inr, Bool, true, false, ◌&&◌, ◌||◌, List, [], ◌∷◌, All,
  str_eq, eq_iff, is_empty, concat, ends_with, if◌then◌else◌, if_both, arith, Bool-cases,
}
use c4isr_systems.Platform.Access.{
  any_of, RoutePolicy, unknown_route, route, when, sized, is_at, get_policy, post_policy,
  is_plain_resource, is_read, known_permissions, valid_geospatial_get_path, valid_picture_get_path,
  valid_scenario_get_path, valid_scenario_post_path,
}

pub any_of-All {κ} :
    (P : String → Type κ) (s : String) (ws : List String) → All P ws → any_of s ws ≡ true → P s
unfolding any_of
any_of-All P s [] h e = cc
any_of-All P s (w ∷ ws) h e = elim (Bool-cases (str_eq s w)) [
  | inl same ↦ subst P (sym ((eq_iff s w).0 same)) h.0
  | inr other ↦ any_of-All P s ws h.1 (ground arith)
]

abbrev pub IsListed : String → Type 0
IsListed p = any_of p known_permissions ≡ true

-- A route of GET is unknown or asks for a permission to read.
pub data Reads (r : RoutePolicy) : Type 0 where
  unread : r.known ≡ false → Reads r
  reads : is_read r.permission ≡ true → IsListed r.permission → Reads r

-- A route that changes something is unknown or asks for another permission.
pub data Changes (r : RoutePolicy) : Type 0 where
  unchanged : r.known ≡ false → Changes r
  changes :
      is_empty r.permission ≡ false
      → is_read r.permission ≡ false
      → IsListed r.permission
      → Changes r

when-Reads : (b : Bool) (p : String) → is_read p ≡ true → IsListed p → Reads (when b p)
when-Reads b p h k = if_both Reads b (reads h k) (unread refl)

pub when-Changes :
    (b : Bool) (p : String)
    → is_empty p ≡ false
    → is_read p ≡ false
    → IsListed p
    → Changes (when b p)
when-Changes b p e h k = if_both Changes b (changes e h k) (unchanged refl)

-- One case before the others.
case-Reads :
    (c b : Bool) (p : String) {rest : RoutePolicy}
    → is_read p ≡ true
    → IsListed p
    → Reads rest
    → Reads (if c then when b p else rest)
case-Reads c b p h k rest = if_both Reads c (when-Reads b p h k) rest

case-Changes :
    (c b : Bool) (p : String) {rest : RoutePolicy}
    → is_empty p ≡ false
    → is_read p ≡ false
    → IsListed p
    → Changes rest
    → Changes (if c then when b p else rest)
case-Changes c b p e h k rest = if_both Changes c (when-Changes b p e h k) rest

abbrev PlainReads : String → Type 0
PlainReads r = (is_read (concat r ".read") ≡ true) × IsListed (concat r ".read")

plain_resource-PlainReads : (r : String) → is_plain_resource r ≡ true → PlainReads r
unfolding any_of ends_with concat
plain_resource-PlainReads r h =
    any_of-All PlainReads r
      ("sources" ∷ "observations" ∷ "geofences" ∷ "alerts" ∷ "incidents" ∷ "missions" ∷ "commands"
        ∷ "assessments" ∷ [])
      (
        (refl, refl),
        (
          (refl, refl),
          (
            (refl, refl),
            ((refl, refl), ((refl, refl), ((refl, refl), ((refl, refl), ((refl, refl), tt))))),
          ),
        ),
      )
      h

plain-Reads :
    (r : String) (b c : Bool) {rest : RoutePolicy}
    → is_plain_resource r ≡ c
    → Reads rest
    → Reads (if c then when b (concat r ".read") else rest)
plain-Reads r b false h rest = rest
plain-Reads r b true e rest =
    let (h, k) = plain_resource-PlainReads r e in when-Reads b (concat r ".read") h k

pub get_policy-Reads : (r : String) (s : List String) → Reads (get_policy r s)
unfolding get_policy any_of ends_with
get_policy-Reads r s =
    let one = sized 1 s || sized 2 s in
    case-Reads (str_eq r "audit") (sized 1 s) "audit.read" refl refl (
      case-Reads (str_eq r "geospatial") (valid_geospatial_get_path s) "geospatial.read" refl refl (
        case-Reads (str_eq r "operators") one "operators.read" refl refl (
          case-Reads (str_eq r "picture") (valid_picture_get_path s) "operational.read" refl refl (
            case-Reads (str_eq r "scenarios") (valid_scenario_get_path s) "scenarios.read" refl refl
              (if_both Reads (str_eq r "assets")
                (if_both Reads one (reads refl refl)
                  (when-Reads (sized 3 s && is_at 2 "telemetry" s) "telemetry.read" refl refl))
                (if_both Reads (str_eq r "tracks")
                  (if_both Reads one (reads refl refl) (
                    when-Reads (sized 3 s && (is_at 2 "history" s || is_at 2 "classifications" s))
                      "tracks.read" refl refl))
                  (plain-Reads r one (is_plain_resource r) refl (
                    case-Reads (str_eq r "classifications") (sized 2 s) "classifications.read" refl
                      refl (unread refl)))))))))

pub post_policy-Changes : (r : String) (s : List String) → Changes (post_policy r s)
unfolding post_policy any_of ends_with
post_policy-Changes r s =
    let one = sized 1 s in
    if_both Changes (str_eq r "incidents")
      (if_both Changes one (changes refl refl refl)
        (when-Changes _ "incidents.update" refl refl refl))
      (if_both Changes (str_eq r "missions")
        (if_both Changes one (changes refl refl refl)
          (when-Changes _ "missions.update" refl refl refl))
        (if_both Changes (str_eq r "commands")
          (if_both Changes one (changes refl refl refl)
            (when-Changes _ "commands.transition" refl refl refl))
          (case-Changes (str_eq r "assessments") one "assessments.create" refl refl refl (
            case-Changes (str_eq r "classifications") one "classifications.create" refl refl refl (
              case-Changes (str_eq r "observations") one "observations.ingest" refl refl refl (
                case-Changes (str_eq r "telemetry") one "telemetry.ingest" refl refl refl (
                  if_both Changes (str_eq r "alerts")
                    (if_both Changes (sized 3 s && is_at 2 "acknowledge" s)
                      {x = route "alerts.acknowledge"} (changes refl refl refl)
                      (when-Changes (sized 3 s && is_at 2 "resolve" s) "alerts.resolve" refl refl
                        refl))
                    (case-Changes (str_eq r "sources") (one || (sized 3 s && is_at 2 "status" s))
                      "sources.manage" refl refl refl
                      (case-Changes (str_eq r "assets") _ "assets.manage" refl refl refl (
                        case-Changes (str_eq r "geofences") _ "geofences.manage" refl refl refl (
                          case-Changes (str_eq r "operators") one "admin.manage" refl refl refl (
                            case-Changes (str_eq r "scenarios") (valid_scenario_post_path s)
                              "scenarios.control" {rest = unknown_route} refl refl refl
                              (unchanged refl)))))))))))))
