-- ===== src/Platform/Access.antt =====
-- internal/platform/httpx/middleware.go: which operator may send which request.
pub mod Login
pub mod Policy
pub mod Roles
pub mod Routes
pub mod Session
use Prim.Native.Char.{code}
use c4isr_systems.Prelude.{
  ℕ, zero, suc, String, Bool, true, false, ◌&&◌, ◌||◌, not, Option, none, some, List, [], ◌∷◌, ◌==◌,
  length, get_elem?, str_eq, is_empty, starts_with, ends_with, trim_prefix, contains, concat,
  if◌then◌else◌,
}
use c4isr_systems.Platform.Freshness.{normalizes_to}

-- Whether a text is one of several, as in the cases of a switch.
unfoldable pub any_of : String → List String → Bool
any_of s [] = false
any_of s (w ∷ ws) = str_eq s w || any_of s ws

-- `RoutePolicy`
pub record RoutePolicy : Type 0 where
  pub known : Bool
  pub permission : String

abbrev pub unknown_route : RoutePolicy
unknown_route = record { known = false; permission = "" }

abbrev pub route : String → RoutePolicy
route permission = record { known = true; permission = permission }

-- `strings.TrimSuffix(path, "/")`
unfoldable pub drop_slash : String → String
drop_slash String.[] = String.[]
drop_slash (String.◌∷◌ c s) =
    let rest = drop_slash s in if is_empty s && code c == b'/' then String.[] else String.◌∷◌ c rest

-- `strings.TrimLeft(path, "/")`
unfoldable pub skip_slashes : String → String
skip_slashes String.[] = String.[]
skip_slashes (String.◌∷◌ c s) =
    let rest = skip_slashes s in if code c == b'/' then rest else String.◌∷◌ c s

-- `strings.TrimRight(path, "/")`
unfoldable pub drop_slashes : String → String
drop_slashes String.[] = String.[]
drop_slashes (String.◌∷◌ c s) =
    let rest = drop_slashes s in
    if is_empty rest && code c == b'/' then String.[] else String.◌∷◌ c rest

abbrev extend_first : String → List String → List String
extend_first s [] = s ∷ []
extend_first s (t ∷ ts) = concat s t ∷ ts

-- `strings.Split(path, "/")`
unfoldable pub split_slash : String → List String
unfolding concat
split_slash String.[] = "" ∷ []
split_slash (String.◌∷◌ c s) =
    let rest = split_slash s in
    if code c == b'/' then "" ∷ rest else extend_first (String.◌∷◌ c "") rest

-- `pathSegments`
unfoldable pub path_segments : String → List String
unfolding skip_slashes drop_slashes split_slash
path_segments path =
    let trimmed = drop_slashes (skip_slashes path) in
    if is_empty trimmed then [] else split_slash trimmed

-- `len(segments) == n`
abbrev pub sized : ℕ → List String → Bool
sized n segments = length segments == n

-- `segments[i] == word`; false also where there is no such segment, which the code asks first.
abbrev pub is_at : ℕ → String → List String → Bool
is_at i word segments = elim (get_elem? segments i) [ none ↦ false | some s ↦ str_eq s word ]

-- `validScenarioGetPath`
unfoldable pub valid_scenario_get_path : List String → Bool
valid_scenario_get_path s =
    sized 1 s
    || sized 2 s
    || (sized 3 s && is_at 1 "runs" s)
    || (sized 4 s && is_at 1 "runs" s && is_at 3 "events" s)

-- `validScenarioPostPath`
unfoldable pub valid_scenario_post_path : List String → Bool
valid_scenario_post_path s =
    (sized 3 s && is_at 2 "start" s)
    || (sized 4 s && is_at 1 "definitions" s && is_at 3 "start" s)
    || (sized 4 s
        && is_at 1 "runs" s
        && (is_at 3 "pause" s
            || is_at 3 "resume" s
            || is_at 3 "stop" s
            || is_at 3 "restart" s
            || is_at 3 "speed" s))

-- `validGeospatialGetPath`
unfoldable pub valid_geospatial_get_path : List String → Bool
valid_geospatial_get_path s =
    sized 2 s
    && (is_at 1 "geofences-containing" s || is_at 1 "assets-within" s || is_at 1 "nearest-assets" s)

-- `validPictureGetPath`
unfoldable pub valid_picture_get_path : List String → Bool
valid_picture_get_path s = sized 1 s || (sized 2 s && is_at 1 "window" s)

-- One case of a switch: the permission where the shape fits, and no route otherwise.
abbrev pub when : Bool → String → RoutePolicy
when b permission = if b then route permission else unknown_route

-- The resources that are read by list and by id.
abbrev is_plain_resource : String → Bool
is_plain_resource r = any_of r (
    "sources" ∷ "observations" ∷ "geofences" ∷ "alerts" ∷ "incidents" ∷ "missions" ∷ "commands"
    ∷ "assessments" ∷ [])

-- The part of `PolicyFor` for GET, by the first segment.
unfoldable pub get_policy : String → List String → RoutePolicy
get_policy r s =
    if str_eq r "audit"
    then when (sized 1 s) "audit.read"
    else if str_eq r "geospatial"
    then when (valid_geospatial_get_path s) "geospatial.read"
    else if str_eq r "operators"
    then when (sized 1 s || sized 2 s) "operators.read"
    else if str_eq r "picture"
    then when (valid_picture_get_path s) "operational.read"
    else if str_eq r "scenarios"
    then when (valid_scenario_get_path s) "scenarios.read"
    else if str_eq r "assets"
    then if sized 1 s || sized 2 s
      then route "assets.read"
      else when (sized 3 s && is_at 2 "telemetry" s) "telemetry.read"
    else if str_eq r "tracks"
    then if sized 1 s || sized 2 s
      then route "tracks.read"
      else when (sized 3 s && (is_at 2 "history" s || is_at 2 "classifications" s)) "tracks.read"
    else if is_plain_resource r
    then when (sized 1 s || sized 2 s) (concat r ".read")
    else if str_eq r "classifications"
    then when (sized 2 s) "classifications.read"
    else unknown_route

-- The part for POST.
unfoldable pub post_policy : String → List String → RoutePolicy
post_policy r s =
    if str_eq r "incidents"
    then if sized 1 s
      then route "incidents.create"
      else when (sized 3 s && (is_at 2 "status" s || is_at 2 "relations" s)) "incidents.update"
    else if str_eq r "missions"
    then if sized 1 s
      then route "missions.create"
      else when
          ((sized 3 s && (is_at 2 "status" s || is_at 2 "assets" s || is_at 2 "tasks" s))
            || (sized 5 s && is_at 2 "tasks" s && is_at 4 "status" s))
          "missions.update"
    else if str_eq r "commands"
    then if sized 1 s
      then route "commands.issue"
      else when (sized 3 s && is_at 2 "transition" s) "commands.transition"
    else if str_eq r "assessments"
    then when (sized 1 s) "assessments.create"
    else if str_eq r "classifications"
    then when (sized 1 s) "classifications.create"
    else if str_eq r "observations"
    then when (sized 1 s) "observations.ingest"
    else if str_eq r "telemetry"
    then when (sized 1 s) "telemetry.ingest"
    else if str_eq r "alerts"
    then if sized 3 s && is_at 2 "acknowledge" s
      then route "alerts.acknowledge"
      else when (sized 3 s && is_at 2 "resolve" s) "alerts.resolve"
    else if str_eq r "sources"
    then when (sized 1 s || (sized 3 s && is_at 2 "status" s)) "sources.manage"
    else if str_eq r "assets"
    then when (sized 1 s || (sized 3 s && is_at 2 "status" s)) "assets.manage"
    else if str_eq r "geofences"
    then when (sized 1 s || (sized 3 s && is_at 2 "active" s)) "geofences.manage"
    else if str_eq r "operators"
    then when (sized 1 s) "admin.manage"
    else if str_eq r "scenarios"
    then when (valid_scenario_post_path s) "scenarios.control"
    else unknown_route

abbrev by_first : (String → List String → RoutePolicy) → List String → RoutePolicy
by_first policy [] = unknown_route
by_first policy (r ∷ rest) = policy r (r ∷ rest)

-- The part for the other methods.
abbrev pub patch_policy : String → List String → RoutePolicy
patch_policy method s =
    when (str_eq method "PATCH" && sized 2 s && is_at 0 "incidents" s) "incidents.update"

-- What follows once the path is cut to what is behind the prefix.
unfoldable pub mounted_policy : String → String → RoutePolicy
mounted_policy method path =
    if str_eq path "/auth/me"
    then record { known = str_eq method "GET"; permission = "" }
    else if str_eq path "/realtime"
    then when (str_eq method "GET") "operational.read"
    else if str_eq method "GET"
    then by_first get_policy (path_segments path)
    else if str_eq method "POST"
    then by_first post_policy (path_segments path)
    else patch_policy method (path_segments path)

-- `PolicyFor`
unfoldable pub policy_for : String → String → RoutePolicy
unfolding starts_with trim_prefix contains drop_slash
policy_for method raw_path =
    let path = trim_prefix "/api/v1" raw_path in
    if not (str_eq raw_path "/api/v1") && not (starts_with "/api/v1/" raw_path)
    then unknown_route
    else if is_empty path
    then unknown_route
    else if contains "//" path
    then unknown_route
    else mounted_policy method (drop_slash path)

-- The role, trimmed and in lower case, is this one.
abbrev pub has_role : String → String → Bool
has_role role word = normalizes_to role word

-- What an operator may beyond reading.
abbrev is_operational : String → Bool
is_operational p = any_of p (
    "alerts.acknowledge" ∷ "alerts.resolve" ∷ "incidents.create" ∷ "incidents.update"
    ∷ "missions.create" ∷ "missions.update" ∷ "commands.issue" ∷ "commands.transition"
    ∷ "scenarios.control" ∷ [])

-- What only a supervisor may of the rest.
abbrev is_supervisory : String → Bool
is_supervisory p = any_of p (
    "observations.ingest" ∷ "telemetry.ingest" ∷ "sources.manage" ∷ "assets.manage"
    ∷ "geofences.manage" ∷ "assessments.create" ∷ "classifications.create" ∷ "operators.read" ∷ [])

abbrev pub is_read : String → Bool
is_read p = ends_with ".read" p || str_eq p "operational.read" || str_eq p "geospatial.read"

-- `Allows`
unfoldable pub allows : String → String → Bool
unfolding normalizes_to ends_with
allows role p =
    if has_role role "administrator"
    then true
    else if str_eq p "operators.read"
    then has_role role "supervisor"
    else if has_role role "analyst"
    then is_read p || str_eq p "assessments.create" || str_eq p "classifications.create"
    else if not (has_role role "operator") && not (has_role role "supervisor")
    then false
    else if is_read p
    then true
    else if is_operational p
    then true
    else if is_supervisory p
    then has_role role "supervisor"
    else false

abbrev pub known_permissions : List String
known_permissions =
    "operational.read" ∷ "sources.read" ∷ "observations.read" ∷ "assets.read" ∷ "telemetry.read"
    ∷ "tracks.read" ∷ "classifications.read" ∷ "geofences.read" ∷ "alerts.read" ∷ "incidents.read"
    ∷ "missions.read" ∷ "commands.read" ∷ "assessments.read" ∷ "geospatial.read" ∷ "audit.read"
    ∷ "scenarios.read" ∷ "operators.read" ∷ "sources.manage" ∷ "assets.manage" ∷ "geofences.manage"
    ∷ "observations.ingest" ∷ "telemetry.ingest" ∷ "alerts.acknowledge" ∷ "alerts.resolve"
    ∷ "incidents.create" ∷ "incidents.update" ∷ "missions.create" ∷ "missions.update"
    ∷ "commands.issue" ∷ "commands.transition" ∷ "assessments.create" ∷ "classifications.create"
    ∷ "scenarios.control" ∷ "admin.manage" ∷ []

unfoldable pub allowed_of : String → List String → List String
allowed_of role [] = []
allowed_of role (p ∷ ps) = let rest = allowed_of role ps in if allows role p then p ∷ rest else rest

-- `PermissionsForRole`
unfoldable pub permissions_for_role : String → List String
permissions_for_role role = allowed_of role known_permissions

-- `IsPublicRequest`
unfoldable pub is_public_request : String → String → Bool
is_public_request method path =
    str_eq method "OPTIONS" || str_eq path "/health" || str_eq path "/metrics"

pub data Decision : Type 0 where
  served unauthorized forbidden : Decision

-- `Authorization`, by the method, the path, and the operator and the role in the context.
unfoldable pub authorization : String → String → String → String → Decision
authorization method path operator role =
    if is_public_request method path
    then served
    else if is_empty operator
    then unauthorized
    else if (policy_for method path).known
        && (is_empty (policy_for method path).permission
            || allows role (policy_for method path).permission)
    then served
    else forbidden
