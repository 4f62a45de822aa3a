-- ===== src/Platform/Access/Roles.antt =====
-- What each role may send (internal/platform/httpx/middleware.go).
use c4isr_systems.Prelude.{
  String, ◌≡◌, ap, inl, inr, true, false, ◌||◌, str_eq, eq_iff, is_empty, arith, Bool-cases,
  trim_space, ends_with,
}
use c4isr_systems.Platform.Freshness.{lowers_to, normalizes_to}
use c4isr_systems.Platform.Access.{
  policy_for, is_read, allows, has_role, served, is_public_request, authorization,
}
use c4isr_systems.Platform.Access.Policy.{
  Guarded, closed, session, reading, changing, policy_for-Guarded,
}

-- An analyst is not an administrator.
analyst_apart : (s : String) → lowers_to s "analyst" ≡ true → lowers_to s "administrator" ≡ false
unfolding lowers_to
analyst_apart String.[] h = cc
analyst_apart (String.◌∷◌ c String.[]) h = ground arith
analyst_apart (String.◌∷◌ c (String.◌∷◌ d s)) h = ground arith

-- An operator is neither an administrator nor an analyst, and a supervisor is none of the three.
operator_apart :
    (s : String)
    → lowers_to s "operator" ≡ true
    → (lowers_to s "administrator" || lowers_to s "analyst") ≡ false
unfolding lowers_to
operator_apart String.[] h = cc
operator_apart (String.◌∷◌ c s) h = ground arith

supervisor_apart :
    (s : String)
    → lowers_to s "supervisor" ≡ true
    → (lowers_to s "administrator" || lowers_to s "analyst") ≡ false
unfolding lowers_to
supervisor_apart String.[] h = cc
supervisor_apart (String.◌∷◌ c s) h = ground arith

not_operators_read : (p : String) → is_read p ≡ false → str_eq p "operators.read" ≡ false
unfolding ends_with
not_operators_read p k = elim (Bool-cases (str_eq p "operators.read")) [
  | inl same ↦ let read = ap is_read ((eq_iff p "operators.read").0 same) in cc
  | inr other ↦ other
]

analyst_allows :
    (role p : String)
    → has_role role "analyst" ≡ true
    → is_read p ≡ false
    → allows role p ≡ true
    → (str_eq p "assessments.create" || str_eq p "classifications.create") ≡ true
unfolding allows normalizes_to ends_with
analyst_allows role p h k e =
    let apart = analyst_apart (trim_space role) h in
    let other = not_operators_read p k in ground arith

served_allowed :
    (m path operator role : String)
    → is_public_request m path ≡ false
    → authorization m path operator role ≡ served
    → is_empty (policy_for m path).permission ≡ false
    → allows role (policy_for m path).permission ≡ true
unfolding authorization
served_allowed m path operator role h e k = ground arith

served_known :
    (m path operator role : String)
    → is_public_request m path ≡ false
    → authorization m path operator role ≡ served
    → (policy_for m path).known ≡ true
unfolding authorization
served_known m path operator role h e = ground arith

-- A request that is served to an analyst, that is not public and not a GET, goes to a route that
-- asks to create an assessment or a classification; so an analyst changes nothing else.
pub analyst_writes :
    (m path operator role : String)
    → has_role role "analyst" ≡ true
    → is_public_request m path ≡ false
    → str_eq m "GET" ≡ false
    → authorization m path operator role ≡ served
    → (str_eq (policy_for m path).permission "assessments.create"
        || str_eq (policy_for m path).permission "classifications.create")
      ≡ true
analyst_writes m path operator role a h g e = go (policy_for-Guarded m path)
  where
    go :
        Guarded m (policy_for m path)
        → (str_eq (policy_for m path).permission "assessments.create"
            || str_eq (policy_for m path).permission "classifications.create")
          ≡ true
    go (closed x) = let known = served_known m path operator role h e in cc
    go (session x y) = cc
    go (reading x y z) = cc
    go (changing x full other z) =
        analyst_allows role (policy_for m path).permission a other
          (served_allowed m path operator role h e full)

-- What an operator may, a supervisor may.
operator_within_supervisor :
    (junior senior p : String)
    → has_role junior "operator" ≡ true
    → has_role senior "supervisor" ≡ true
    → allows junior p ≡ true
    → allows senior p ≡ true
unfolding allows normalizes_to
operator_within_supervisor junior senior p h k e =
    let a = operator_apart (trim_space junior) h in
    let b = supervisor_apart (trim_space senior) k in ground arith
