-- ===== src/Examples/Access.antt =====
-- Concrete requests for the permissions of internal/platform/httpx/middleware.go.
use c4isr_systems.Prelude.{String, some, trim_space, ◌≡◌, refl, true, ◌||◌, [], ◌∷◌, str_eq}
use c4isr_systems.Platform.Freshness.{normalizes_to, lowers_to}
use c4isr_systems.Platform.Access.{
  mounted_policy, get_policy, served, is_public_request, post_policy, policy_for, path_segments,
  authorization, allows, forbidden, unauthorized,
}
use c4isr_systems.Platform.Access.Login.{
  Identity, AuthOptions, Request, fields, lowers_to_part, raw_token, bearer_subject, authenticate,
  admit, admit_registered,
}
use c4isr_systems.Platform.Table.{find}
use c4isr_systems.Platform.Apperr.{ok}
use c4isr_systems.Platform.Access.Policy.{Guarded, policy_for-Guarded}
use c4isr_systems.Platform.Access.Roles.{analyst_writes}
use c4isr_systems.Platform.Access.Session.{is_served, is_told, is_served-authorization}

segments_are_cut : path_segments "/alerts/7/resolve" ≡ ("alerts" ∷ "7" ∷ "resolve" ∷ [])
unfolding path_segments
segments_are_cut = refl

resolving_is_asked : (policy_for "POST" "/api/v1/alerts/7/resolve/").permission ≡ "alerts.resolve"
unfolding policy_for mounted_policy post_policy path_segments
resolving_is_asked = refl

analyst_is_refused : authorization "POST" "/api/v1/alerts/7/resolve" "op-1" "Analyst" ≡ forbidden
unfolding authorization is_public_request policy_for mounted_policy post_policy path_segments allows
analyst_is_refused = refl

nobody_is_asked_to_log_in : authorization "GET" "/api/v1/tracks" "" "" ≡ unauthorized
unfolding authorization is_public_request
nobody_is_asked_to_log_in = refl

policy_for-Guarded_example : Guarded "POST" (policy_for "POST" "/api/v1/alerts/7/resolve")
policy_for-Guarded_example = policy_for-Guarded "POST" "/api/v1/alerts/7/resolve"

is_served-authorization_example :
    is_served (authorization "POST" "/api/v1/alerts/7/resolve" "op-1" "operator")
    ≡ is_told "operator" (policy_for "POST" "/api/v1/alerts/7/resolve")
unfolding is_public_request
is_served-authorization_example =
    is_served-authorization "POST" "/api/v1/alerts/7/resolve" "op-1" "operator" refl refl

analyst_writes_example :
    (str_eq (policy_for "POST" "/api/v1/assessments").permission "assessments.create"
      || str_eq (policy_for "POST" "/api/v1/assessments").permission "classifications.create")
    ≡ true
unfolding authorization is_public_request policy_for mounted_policy post_policy path_segments allows
    normalizes_to
analyst_writes_example =
    analyst_writes "POST" "/api/v1/assessments" "op-1" " Analyst" refl refl refl refl

-- One configured token, whose operator is an analyst.
abbrev secured : AuthOptions
secured = record {
  required = true;
  tokens = ("s3cret", "op-7") ∷ [];
  default_operator = "op-0";
  lookup = some (λ id. ok record { id = id; name = "Noor"; role = "analyst" });
}

abbrev reading_tracks : Request
reading_tracks = record {
  method = "GET";
  path = "/api/v1/tracks";
  bearer = " Bearer  s3cret";
  upgrade = "";
  operator = "op-1";
  access_token = "";
}

stranger_is_refused :
    admit secured (record reading_tracks { bearer = "Bearer guess" }) ≡ unauthorized
unfolding admit is_public_request authenticate bearer_subject raw_token fields trim_space lowers_to
    lowers_to_part find
stranger_is_refused = refl

admit_registered_example :
    (operator : String) × (who : Identity) × (find (raw_token reading_tracks) secured.tokens
      ≡ some operator)
    × (ok record { id = operator; name = "Noor"; role = "analyst" } ≡ ok who)
    × (authorization "GET" "/api/v1/tracks" who.id who.role ≡ served)
unfolding admit authorization is_public_request authenticate bearer_subject raw_token fields
    trim_space lowers_to lowers_to_part find policy_for mounted_policy get_policy path_segments
    allows normalizes_to
admit_registered_example =
    admit_registered secured reading_tracks
      (λ id. ok record { id = id; name = "Noor"; role = "analyst" }) refl refl refl refl
