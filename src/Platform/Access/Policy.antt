-- ===== src/Platform/Access/Policy.antt =====
-- What the table of routes promises to `Authorization` (internal/platform/httpx/middleware.go).
use c4isr_systems.Prelude.{
  String, ◌≡◌, refl, inl, inr, true, false, List, [], ◌∷◌, ◌&&◌, not, str_eq, is_empty, starts_with,
  contains, trim_prefix, if_both, ends_with, Bool-cases,
}
use c4isr_systems.Platform.Access.{
  any_of, RoutePolicy, by_first, sized, is_at, drop_slash, path_segments, get_policy, post_policy,
  patch_policy, mounted_policy, policy_for, is_read,
}
use c4isr_systems.Platform.Access.Routes.{
  IsListed, Reads, unread, reads, Changes, unchanged, changes, get_policy-Reads,
  post_policy-Changes, when-Changes,
}

-- A route is closed; or it is open to a session that reads, without a permission; or it reads and
-- asks for a permission to read; or it changes something and asks for another permission.
pub data Guarded (method : String) (r : RoutePolicy) : Type 0 where
  closed : r.known ≡ false → Guarded method r
  session : str_eq method "GET" ≡ true → is_empty r.permission ≡ true → Guarded method r
  reading :
      str_eq method "GET" ≡ true
      → is_read r.permission ≡ true
      → IsListed r.permission
      → Guarded method r
  changing :
      str_eq method "GET" ≡ false
      → is_empty r.permission ≡ false
      → is_read r.permission ≡ false
      → IsListed r.permission
      → Guarded method r

Reads-Guarded : {m : String} {r : RoutePolicy} → str_eq m "GET" ≡ true → Reads r → Guarded m r
Reads-Guarded e (unread h) = closed h
Reads-Guarded e (reads h k) = reading e h k

Changes-Guarded : {m : String} {r : RoutePolicy} → str_eq m "GET" ≡ false → Changes r → Guarded m r
Changes-Guarded e (unchanged h) = closed h
Changes-Guarded e (changes x h k) = changing e x h k

by_first-Reads : (s : List String) → Reads (by_first get_policy s)
by_first-Reads [] = unread refl
by_first-Reads (r ∷ s) = get_policy-Reads r (r ∷ s)

by_first-Changes : (s : List String) → Changes (by_first post_policy s)
by_first-Changes [] = unchanged refl
by_first-Changes (r ∷ s) = post_policy-Changes r (r ∷ s)

patch_policy-Changes : (m : String) (s : List String) → Changes (patch_policy m s)
unfolding any_of ends_with
patch_policy-Changes m s =
    when-Changes (str_eq m "PATCH" && sized 2 s && is_at 0 "incidents" s) "incidents.update" refl
      refl refl

get_mounted-Guarded : (m p : String) → str_eq m "GET" ≡ true → Guarded m (mounted_policy m p)
unfolding mounted_policy any_of ends_with
get_mounted-Guarded m p e = if_both (Guarded m) (str_eq p "/auth/me") (session e refl) (
    if_both (Guarded m) (str_eq p "/realtime")
      (if_both (Guarded m) (str_eq m "GET") (reading e refl refl) (closed refl))
      (rw (e) (Reads-Guarded e (by_first-Reads (path_segments p)))))

other_mounted-Guarded : (m p : String) → str_eq m "GET" ≡ false → Guarded m (mounted_policy m p)
unfolding mounted_policy any_of ends_with
other_mounted-Guarded m p e = if_both (Guarded m) (str_eq p "/auth/me") (closed e) (
    rw (e) (
      if_both (Guarded m) (str_eq p "/realtime") (closed refl) (
        if_both (Guarded m) (str_eq m "POST")
          (Changes-Guarded e (by_first-Changes (path_segments p)))
          (Changes-Guarded e (patch_policy-Changes m (path_segments p))))))

mounted_policy-Guarded : (m p : String) → Guarded m (mounted_policy m p)
mounted_policy-Guarded m p = elim (Bool-cases (str_eq m "GET")) [
  | inl e ↦ get_mounted-Guarded m p e
  | inr e ↦ other_mounted-Guarded m p e
]

-- For every method and path, the route that the table names is unknown, or is a GET without a
-- permission, or is a GET whose permission is one to read, or is not a GET and its permission is
-- neither empty nor one to read; and every permission it names is one of the list that a session
-- is told of.
pub policy_for-Guarded : (m raw : String) → Guarded m (policy_for m raw)
unfolding policy_for
policy_for-Guarded m raw =
    let path = trim_prefix "/api/v1" raw in
    if_both (Guarded m) (not (str_eq raw "/api/v1") && not (starts_with "/api/v1/" raw))
      (closed refl)
      (if_both (Guarded m) (is_empty path) (closed refl) (
        if_both (Guarded m) (contains "//" path) (closed refl)
          (mounted_policy-Guarded m (drop_slash path))))
