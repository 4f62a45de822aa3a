-- ===== src/Alerts/Dedup.antt =====
-- At most one unresolved alert per geofence and track, and per geofence and area observation
-- (internal/alerts, db/migrations/00017 and 00018).
use c4isr_systems.Prelude.{
  ℕ, ◌≤◌, String, ◌≡◌, Bool, true, false, Option, none, some, List, [], ◌∷◌, arith, str_eq, eq_iff,
  Bool-cases, inl, inr, All, subst,
}
use c4isr_systems.Platform.Table.{Table, find, put, update_where, update_where-eq-some, DbError}
use c4isr_systems.Alerts.{Alert, geofence_breach_type, area_overlap_type}
use c4isr_systems.Alerts.Store.{
  Env, is_active, find_unresolved, any_row, newest, breach_key, overlap_key, open_for_track,
  unresolved, index_conflict, inserted, acknowledged_row, resolved_row, linked_row,
}
use c4isr_systems.Alerts.Service.{
  Db, raise_unless, breach_alert, overlap_alert, handle_geofence_breached,
  handle_area_geofence_overlapped,
}
use c4isr_systems.Alerts.Calls.{
  Call, breached, overlapped, acknowledging, resolving, linking, apply, apply_all,
}
use c4isr_systems.Alerts.Rows.{raise_rows, acknowledge_rows, resolve_rows, link_rows}
use c4isr_systems.Alerts.Count.{bit, count, count_no_row, count-put_new, count-put_old}

-- What the unique indexes promise.
pub record IsDeduplicated (t : Table Alert) : Type 0 where
  pub per_track : (geofence track : String) → count (breach_key geofence track) t ≤ 1
  pub per_observation :
      (geofence observation : String) → count (overlap_key geofence observation) t ≤ 1

breach_key_same :
    (g tr : String) (now : ℕ) (a : Alert)
    → breach_key g tr (inserted now a) ≡ true
    → (str_eq a.type geofence_breach_type ≡ true) × (a.geofence_id ≡ g) × (a.track_id ≡ tr)
unfolding breach_key inserted
breach_key_same g tr now a h = ground (arith, eq_iff a.geofence_id g, eq_iff a.track_id tr)

overlap_key_same :
    (g o : String) (now : ℕ) (a : Alert)
    → overlap_key g o (inserted now a) ≡ true
    → (str_eq a.type area_overlap_type ≡ true)
      × (a.geofence_id ≡ g)
      × (a.source_reference.observation_id ≡ o)
unfolding overlap_key inserted
overlap_key_same g o now a h =
    ground (arith, eq_iff a.geofence_id g, eq_iff a.source_reference.observation_id o)

breach_free :
    (a : Alert) (t : Table Alert)
    → index_conflict a t ≡ none
    → str_eq a.type geofence_breach_type ≡ true
    → any_row (breach_key a.geofence_id a.track_id) t ≡ false
unfolding index_conflict
breach_free a t h same = ground arith

overlap_free :
    (a : Alert) (t : Table Alert)
    → index_conflict a t ≡ none
    → str_eq a.type area_overlap_type ≡ true
    → any_row (overlap_key a.geofence_id a.source_reference.observation_id) t ≡ false
unfolding index_conflict
overlap_free a t h same = ground arith

-- An insert that the indexes let through.
inserted-IsDeduplicated :
    (now : ℕ) (a : Alert) (t : Table Alert)
    → find a.id t ≡ none
    → index_conflict a t ≡ none
    → IsDeduplicated t
    → IsDeduplicated (put a.id (inserted now a) t)
inserted-IsDeduplicated now a t fresh free inv = record {
  per_track = λ g tr.
      rw (count-put_new (breach_key g tr) a.id (inserted now a) t fresh)
        (elim (Bool-cases (breach_key g tr (inserted now a))) [
          | inr other ↦ rw other (omega (arith, inv.per_track g tr))
          | inl same ↦
              let (type, eq_g, eq_tr) = breach_key_same g tr now a same in
              let empty : count (breach_key g tr) t ≡ 0 =
                subst (λ x. count (breach_key x tr) t ≡ 0) eq_g
                  (subst (λ x. count (breach_key a.geofence_id x) t ≡ 0) eq_tr
                    (count_no_row (breach_key a.geofence_id a.track_id) t
                      (breach_free a t free type))) in
              rw same (omega arith)
        ]);
  per_observation = λ g o.
      rw (count-put_new (overlap_key g o) a.id (inserted now a) t fresh)
        (elim (Bool-cases (overlap_key g o (inserted now a))) [
          | inr other ↦ rw other (omega (arith, inv.per_observation g o))
          | inl same ↦
              let (type, eq_g, eq_o) = overlap_key_same g o now a same in
              let empty : count (overlap_key g o) t ≡ 0 =
                subst (λ x. count (overlap_key x o) t ≡ 0) eq_g
                  (subst (λ x. count (overlap_key a.geofence_id x) t ≡ 0) eq_o
                    (count_no_row (overlap_key a.geofence_id a.source_reference.observation_id) t
                      (overlap_free a t free type))) in
              rw same (omega arith)
        ]);
}

-- A new version of a row that is in no index where the old one was not.
pub record IsNarrower (r' r : Alert) : Type 0 where
  pub breach : (g tr : String) → bit (breach_key g tr r') ≤ bit (breach_key g tr r)
  pub overlap : (g o : String) → bit (overlap_key g o r') ≤ bit (overlap_key g o r)

updated-IsDeduplicated :
    (k : String) (p : Alert → Bool) (f : Alert → Alert) (t : Table Alert) {r : Alert}
    {t' : Table Alert}
    → ((a : Alert) → p a ≡ true → IsNarrower (f a) a)
    → update_where k p f t ≡ some (r, t')
    → IsDeduplicated t
    → IsDeduplicated t'
updated-IsDeduplicated k p f t narrow h inv =
    let (q, found, passes, eq, table) = update_where-eq-some k p f t h in
    rw table (record {
      per_track = λ g tr. omega (
        arith,
        count-put_old (breach_key g tr) k (f q) q t found,
        (narrow q passes).breach g tr,
        inv.per_track g tr,
      );
      per_observation = λ g o. omega (
        arith,
        count-put_old (overlap_key g o) k (f q) q t found,
        (narrow q passes).overlap g o,
        inv.per_observation g o,
      );
    })

acknowledged-IsNarrower :
    (now : ℕ) (operator : String) (a : Alert)
    → is_active a.state ≡ true
    → IsNarrower (acknowledged_row now operator a) a
unfolding breach_key overlap_key acknowledged_row
acknowledged-IsNarrower now operator a h = record {
  breach = λ g tr. ground arith;
  overlap = λ g o. ground arith;
}

resolved-IsNarrower :
    (now : ℕ) (operator : String) (a : Alert) → IsNarrower (resolved_row now operator a) a
unfolding breach_key overlap_key resolved_row
resolved-IsNarrower now operator a = record {
  breach = λ g tr. ground arith;
  overlap = λ g o. ground arith;
}

linked-IsNarrower :
    (now : ℕ) (incident : String) (a : Alert) → IsNarrower (linked_row now incident a) a
unfolding breach_key overlap_key linked_row
linked-IsNarrower now incident a = record {
  breach = λ g tr. omega arith;
  overlap = λ g o. omega arith;
}

-- Other writers keep the promise too.
abbrev pub KeepsIndexes : Env → Type 0
KeepsIndexes env = (t : Table Alert) → IsDeduplicated t → IsDeduplicated (env.others t)

raised-IsDeduplicated :
    (env : Env) (a : Alert) (fault : Option DbError) (existing : Option Alert) (db : Db)
    → KeepsIndexes env
    → IsDeduplicated db.rows
    → IsDeduplicated (raise_unless env a fault existing db).rows
raised-IsDeduplicated env a fault existing db keep inv =
    raise_rows IsDeduplicated env a fault existing db inv (keep db.rows inv) (λ fresh free.
      inserted-IsDeduplicated env.now a (env.others db.rows) fresh free (keep db.rows inv))

apply-IsDeduplicated :
    (c : Env × Call) (db : Db)
    → KeepsIndexes c.0
    → IsDeduplicated db.rows
    → IsDeduplicated (apply c db).rows
unfolding apply handle_geofence_breached handle_area_geofence_overlapped
apply-IsDeduplicated (env, breached ev) db keep inv =
    raised-IsDeduplicated env (breach_alert env ev) (env.fault find_unresolved)
      (newest (open_for_track ev.geofence_id ev.track_id) db.rows) db keep inv
apply-IsDeduplicated (env, overlapped ev) db keep inv =
    raised-IsDeduplicated env (overlap_alert env ev) (env.fault find_unresolved)
      (newest (overlap_key ev.geofence_id ev.observation_id) db.rows) db keep inv
apply-IsDeduplicated (env, acknowledging id operator) db keep inv =
    acknowledge_rows IsDeduplicated env id operator db inv (λ r t' h.
      updated-IsDeduplicated id (λ a. is_active a.state) (acknowledged_row env.now operator) db.rows
        (acknowledged-IsNarrower env.now operator) h inv)
apply-IsDeduplicated (env, resolving id operator) db keep inv =
    resolve_rows IsDeduplicated env id operator db inv (λ r t' h.
      updated-IsDeduplicated id (λ a. unresolved a.state) (resolved_row env.now operator) db.rows
        (λ a _. resolved-IsNarrower env.now operator a) h inv)
apply-IsDeduplicated (env, linking id incident) db keep inv =
    link_rows IsDeduplicated env id incident db inv (λ r t' h.
      updated-IsDeduplicated id (λ a. true) (linked_row env.now incident) db.rows
        (λ a _. linked-IsNarrower env.now incident a) h inv)

-- Whatever calls are made, in whatever order and with whatever failures, if the other writers keep
-- the indexes then there is at most one unresolved alert for each geofence and track, and for each
-- geofence and area observation.
pub apply_all-IsDeduplicated :
    (cs : List (Env × Call)) (db : Db)
    → All (λ c. KeepsIndexes c.0) cs
    → IsDeduplicated db.rows
    → IsDeduplicated (apply_all cs db).rows
unfolding apply_all
apply_all-IsDeduplicated [] db keep inv = inv
apply_all-IsDeduplicated (c ∷ cs) db keep inv =
    apply_all-IsDeduplicated cs (apply c db) keep.1 (apply-IsDeduplicated c db keep.0 inv)
