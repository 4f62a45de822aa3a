-- ===== src/Alerts/Lifecycle.antt =====
-- How alerts move on under the calls of internal/alerts/service.go.
use c4isr_systems.Prelude.{
  ℕ, ◌≤◌, String, ◌≡◌, refl, Bool, true, false, Option, none, some, List, [], ◌∷◌, ◌∙◌, arith, sym,
  subst, str_eq, eq_iff, Bool-cases, inl, inr, All,
}
use c4isr_systems.Platform.Table.{
  Table, find, put, find-put, update_where, update_where-eq-some, DbError,
}
use c4isr_systems.Alerts.{Alert, State, active, acknowledged, resolved}
use c4isr_systems.Alerts.Store.{
  Env, is_active, unresolved, find_unresolved, newest, open_for_track, overlap_key, inserted,
  acknowledged_row, resolved_row, linked_row,
}
use c4isr_systems.Alerts.Service.{
  Db, raise_unless, breach_alert, overlap_alert, handle_geofence_breached,
  handle_area_geofence_overlapped,
}
use c4isr_systems.Alerts.Calls.{
  Call, breached, overlapped, acknowledging, resolving, linking, apply, apply_all,
}
use c4isr_systems.Alerts.Rows.{raise_rows, acknowledge_rows, resolve_rows, link_rows}

abbrev pub stage : State → ℕ
stage active = 0
stage acknowledged = 1
stage resolved = 2

-- One version of an alert and a later one.
pub record Later (r r' : Alert) : Type 0 where
  pub onward : stage r.state ≤ stage r'.state
  pub same_type : r'.type ≡ r.type
  pub same_geofence : r'.geofence_id ≡ r.geofence_id
  pub same_source : r'.source_reference ≡ r.source_reference
  pub same_created : r'.created_at ≡ r.created_at
  pub settled :
      unresolved r.state ≡ false
      → (r'.resolved_at ≡ r.resolved_at) × (r'.resolved_by ≡ r.resolved_by)

Later-refl : (r : Alert) → Later r r
Later-refl r = record {
  onward = omega arith;
  same_type = refl;
  same_geofence = refl;
  same_source = refl;
  same_created = refl;
  settled = λ _. (refl, refl);
}

-- Every alert of the first table is in the second, and no earlier in its life.
abbrev pub Advances : Table Alert → Table Alert → Type 0
Advances t u =
    (id : String) (r : Alert)
    → find id t ≡ some r
    → (r' : Alert) × (find id u ≡ some r') × Later r r'

pub Advances-refl : (t : Table Alert) → Advances t t
Advances-refl t id r e = (r, e, Later-refl r)

Later-trans : (a b c : Alert) → Later a b → Later b c → Later a c
Later-trans a b c h k = record {
  onward = omega (arith, h.onward, k.onward);
  same_type = k.same_type ∙ h.same_type;
  same_geofence = k.same_geofence ∙ h.same_geofence;
  same_source = k.same_source ∙ h.same_source;
  same_created = k.same_created ∙ h.same_created;
  settled = λ done.
      let still : unresolved b.state ≡ false = later_resolved a.state b.state h.onward done in
      ((k.settled still).0 ∙ (h.settled done).0, (k.settled still).1 ∙ (h.settled done).1);
}
  where
    later_resolved : (s t : State) → stage s ≤ stage t → unresolved s ≡ false → unresolved t ≡ false
    later_resolved s t h k = ground arith

Advances-trans : (t u v : Table Alert) → Advances t u → Advances u v → Advances t v
Advances-trans t u v h k id r e =
    let (r', e', l) = h id r e in
    let (r'', e'', l') = k id r' e' in (r'', e'', Later-trans r r' r'' l l')

Advances-insert :
    (k : String) (new : Alert) (t : Table Alert) → find k t ≡ none → Advances t (put k new t)
Advances-insert k new t absent id r e = elim (Bool-cases (str_eq k id)) [
  | inr other ↦ (r, rw (find-put k id new t) (rw other e), Later-refl r)
  | inl same ↦ absurd (ground (arith, eq_iff k id))
]

Advances-update :
    (k : String) (p : Alert → Bool) (f : Alert → Alert) (t : Table Alert) {r : Alert}
    {t' : Table Alert}
    → ((a : Alert) → p a ≡ true → Later a (f a))
    → update_where k p f t ≡ some (r, t')
    → Advances t t'
Advances-update k p f t later h id r e =
    let (q, found, passes, eq, table) = update_where-eq-some k p f t h in
    rw table (elim (Bool-cases (str_eq k id)) [
      | inr other ↦ (r, rw (find-put k id (f q) t) (rw other e), Later-refl r)
      | inl same ↦
          let here_q : r ≡ q = ground (arith, eq_iff k id) in
          (
            f q,
            rw (find-put k id (f q) t) (rw same refl),
            subst (λ x. Later x (f q)) (sym here_q) (later q passes),
          )
    ])

acknowledged-Later :
    (now : ℕ) (operator : String) (a : Alert)
    → is_active a.state ≡ true
    → Later a (acknowledged_row now operator a)
unfolding acknowledged_row
acknowledged-Later now operator a h = record {
  onward = ground arith;
  same_type = refl;
  same_geofence = refl;
  same_source = refl;
  same_created = refl;
  settled = λ _. (refl, refl);
}

resolved-Later :
    (now : ℕ) (operator : String) (a : Alert)
    → unresolved a.state ≡ true
    → Later a (resolved_row now operator a)
unfolding resolved_row
resolved-Later now operator a h = record {
  onward = ground arith;
  same_type = refl;
  same_geofence = refl;
  same_source = refl;
  same_created = refl;
  settled = λ done. absurd (ground arith);
}

linked-Later : (now : ℕ) (incident : String) (a : Alert) → Later a (linked_row now incident a)
unfolding linked_row
linked-Later now incident a = record {
  onward = omega arith;
  same_type = refl;
  same_geofence = refl;
  same_source = refl;
  same_created = refl;
  settled = λ _. (refl, refl);
}

raised-Advances :
    (env : Env) (a : Alert) (fault : Option DbError) (existing : Option Alert) (db : Db)
    → Advances db.rows (env.others db.rows)
    → Advances db.rows (raise_unless env a fault existing db).rows
raised-Advances env a fault existing db rely =
    raise_rows (Advances db.rows) env a fault existing db (Advances-refl db.rows) rely
      (λ fresh free.
        Advances-trans db.rows (env.others db.rows)
          (put a.id (inserted env.now a) (env.others db.rows)) rely
          (Advances-insert a.id (inserted env.now a) (env.others db.rows) fresh))

apply-Advances :
    (c : Env × Call) (db : Db)
    → ((t : Table Alert) → Advances t (c.0.others t))
    → Advances db.rows (apply c db).rows
unfolding apply handle_geofence_breached handle_area_geofence_overlapped
apply-Advances (env, breached ev) db rely =
    raised-Advances env (breach_alert env ev) (env.fault find_unresolved)
      (newest (open_for_track ev.geofence_id ev.track_id) db.rows) db (rely db.rows)
apply-Advances (env, overlapped ev) db rely =
    raised-Advances env (overlap_alert env ev) (env.fault find_unresolved)
      (newest (overlap_key ev.geofence_id ev.observation_id) db.rows) db (rely db.rows)
apply-Advances (env, acknowledging id operator) db rely =
    acknowledge_rows (Advances db.rows) env id operator db (Advances-refl db.rows) (λ r t' h.
      Advances-update id (λ a. is_active a.state) (acknowledged_row env.now operator) db.rows
        (acknowledged-Later env.now operator) h)
apply-Advances (env, resolving id operator) db rely =
    resolve_rows (Advances db.rows) env id operator db (Advances-refl db.rows) (λ r t' h.
      Advances-update id (λ a. unresolved a.state) (resolved_row env.now operator) db.rows
        (resolved-Later env.now operator) h)
apply-Advances (env, linking id incident) db rely =
    link_rows (Advances db.rows) env id incident db (Advances-refl db.rows) (λ r t' h.
      Advances-update id (λ a. true) (linked_row env.now incident) db.rows
        (λ a _. linked-Later env.now incident a) h)

-- Whatever calls are made, in whatever order and with whatever failures, if the other writers only
-- let alerts move on then no alert is lost or moves back, each keeps its type, geofence, provenance
-- and creation time, and a resolved one keeps who resolved it and when.
pub apply_all-Advances :
    (cs : List (Env × Call)) (db : Db)
    → All (λ c. (t : Table Alert) → Advances t (c.0.others t)) cs
    → Advances db.rows (apply_all cs db).rows
unfolding apply_all
apply_all-Advances [] db rely = Advances-refl db.rows
apply_all-Advances (c ∷ cs) db rely =
    Advances-trans db.rows (apply c db).rows (apply_all cs (apply c db)).rows
      (apply-Advances c db rely.0) (apply_all-Advances cs (apply c db) rely.1)
