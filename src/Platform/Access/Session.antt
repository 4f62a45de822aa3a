-- ===== src/Platform/Access/Session.antt =====
-- What `Authorization` serves, against what a session is told of (internal/platform/httpx/middleware.go).
use c4isr_systems.Prelude.{
  String, ◌≡◌, refl, ◌∙◌, ap, inl, inr, Bool, true, false, List, [], ◌∷◌, ◌&&◌, ◌||◌, str_eq,
  eq_iff, is_empty, arith, Bool-cases, if◌then◌else◌, if-false,
}
use c4isr_systems.Platform.Access.{
  any_of, RoutePolicy, policy_for, allows, known_permissions, allowed_of, permissions_for_role,
  Decision, served, unauthorized, forbidden, is_public_request, authorization,
}
use c4isr_systems.Platform.Access.Policy.{
  Guarded, closed, session, reading, changing, policy_for-Guarded,
}

abbrev pub is_served : Decision → Bool
is_served served = true
is_served unauthorized = false
is_served forbidden = false

-- What a session is told of is what is listed and allowed.
any_of-allowed_of :
    (role p : String) (ps : List String)
    → any_of p (allowed_of role ps) ≡ (any_of p ps && allows role p)
unfolding any_of allowed_of
any_of-allowed_of role p [] = refl
any_of-allowed_of role p (w ∷ ws) =
    let rest = any_of-allowed_of role p ws in
    elim (Bool-cases (str_eq p w)) [
      | inl same ↦ let agree = ap (allows role) ((eq_iff p w).0 same) in ground arith
      | inr other ↦ ground arith
    ]

-- The permission is in the list that the session is told of, or there is none to ask for.
abbrev pub is_told : String → RoutePolicy → Bool
is_told role r =
    r.known && (is_empty r.permission || any_of r.permission (permissions_for_role role))

Guarded-is_told :
    (role : String) {m : String} (r : RoutePolicy)
    → Guarded m r
    → (r.known && (is_empty r.permission || allows role r.permission)) ≡ is_told role r
unfolding permissions_for_role
Guarded-is_told role r (closed h) = rw (h) refl
Guarded-is_told role r (session e h) = rw (h) refl
Guarded-is_told role r (reading e h k) =
    rw (any_of-allowed_of role r.permission known_permissions, k) refl
Guarded-is_told role r (changing e x h k) =
    rw (any_of-allowed_of role r.permission known_permissions, k) refl

-- A request that is not public and comes with an operator is served if and only if the table
-- knows its route and the route asks for no permission or for one in the list that the session of
-- that role is told of.
pub is_served-authorization :
    (m path operator role : String)
    → is_public_request m path ≡ false
    → is_empty operator ≡ false
    → is_served (authorization m path operator role) ≡ is_told role (policy_for m path)
unfolding authorization
is_served-authorization m path operator role h k =
    let asks = policy_for m path in
    let open_route = asks.known && (is_empty asks.permission || allows role asks.permission) in
    ap is_served (if-false (is_public_request m path) served h)
    ∙ ap is_served (if-false (is_empty operator) unauthorized k)
    ∙ served_if open_route
    ∙ Guarded-is_told role asks (policy_for-Guarded m path)
  where
    served_if : (b : Bool) → is_served (if b then served else forbidden) ≡ b
    served_if true = refl
    served_if false = refl
