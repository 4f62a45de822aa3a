-- ===== src/Incidents/Opening.antt =====
-- Opening an incident with its evidence: all of it or nothing (internal/incidents/service.go,
-- internal/incidents/postgres_repository.go).
use c4isr_systems.Prelude.{
  String, ◌≡◌, refl, sym, subst, ◌∙◌, true, Option, none, some, List, [], ◌∷◌, ◌++◌, arith, All,
  eq_refl, Option-cases, Bool-cases, inl, inr, trim_space, ◌||◌,
}
use c4isr_systems.Platform.Apperr.{Error, Result, ok, err, wrapped}
use c4isr_systems.Platform.Table.{find, put, update_where, DbError, raw}
use c4isr_systems.Incidents.{
  opened, Incident, Kind, alert, track, asset, observation, assessment, RelationIds, CreateInput,
  normalize_create, validate_create,
}
use c4isr_systems.Incidents.Store.{
  Env, Tables, Link, begin_transaction, create_incident, commit, same_kind, has_link, add_link,
  point_alert, relate_alerts, relate, and_then, relate_all, finish_tx, open_row,
  create_with_relations,
}
use c4isr_systems.Incidents.Service.{
  Db, incident_created, check_relations, draft, announce_created, open_incident,
}

-- The incidents are the same, and no link is lost.
record Grows (t t' : Tables) : Type 0 where
  same_incidents : t'.incidents ≡ t.incidents
  kept :
      (kind : Kind) (incident target : String)
      → has_link kind incident target t.links ≡ true
      → has_link kind incident target t'.links ≡ true

Grows-refl : (t : Tables) → Grows t t
Grows-refl t = record { same_incidents = refl; kept = λ k i x h. h }

Grows-trans : (t u v : Tables) → Grows t u → Grows u v → Grows t v
Grows-trans t u v g h = record {
  same_incidents = h.same_incidents ∙ g.same_incidents;
  kept = λ k i x e. h.kept k i x (g.kept k i x e);
}

same_kind_refl : (k : Kind) → same_kind k k ≡ true
unfolding same_kind
same_kind_refl alert = refl
same_kind_refl track = refl
same_kind_refl asset = refl
same_kind_refl observation = refl
same_kind_refl assessment = refl

has_link-append :
    (k : Kind) (i x : String) (ls ms : List Link)
    → has_link k i x (ls ++ ms) ≡ (has_link k i x ls || has_link k i x ms)
unfolding has_link
has_link-append k i x [] ms = refl
has_link-append k i x (l ∷ ls) ms = ground (arith, has_link-append k i x ls ms)

has_link-last :
    (k : Kind) (i x : String)
    → has_link k i x (record { kind = k; incident_id = i; target_id = x } ∷ []) ≡ true
unfolding has_link
has_link-last k i x = ground (arith, same_kind_refl k, eq_refl i, eq_refl x)

add_link-Grows : (k : Kind) (i x : String) (t : Tables) → Grows t (add_link k i x t)
unfolding add_link
add_link-Grows k i x t = elim (Bool-cases (has_link k i x t.links)) [
  | inl there ↦ rw there (Grows-refl t)
  | inr new ↦ rw new (record {
    same_incidents = refl;
    kept = λ k' i' x' h. ground (
      arith,
      has_link-append k' i' x' t.links (record { kind = k; incident_id = i; target_id = x } ∷ []),
    );
  })
]

add_link-has_link :
    (k : Kind) (i x : String) (t : Tables) → has_link k i x (add_link k i x t).links ≡ true
unfolding add_link
add_link-has_link k i x t = ground (
  arith,
  has_link-append k i x t.links (record { kind = k; incident_id = i; target_id = x } ∷ []),
  has_link-last k i x,
)

point_alert-Grows : (x i : String) (t : Tables) → Grows t (point_alert x i t)
unfolding point_alert
point_alert-Grows x i t =
    elim (Option-cases (update_where x (λ j. true) (λ j. i) t.alert_incident)) [
      | inl e ↦ rw (e, point_alert) (Grows-refl t)
      | inr ((j, rows), e) ↦
          rw (e, point_alert) (record { same_incidents = refl; kept = λ k i x h. h })
    ]

-- Each of the targets is linked.
abbrev pub AllLinked : Kind → String → List String → Tables → Type 0
AllLinked kind incident ids t =
    All (λ id. has_link kind incident (trim_space id) t.links ≡ true) ids

AllLinked-Grows :
    (k : Kind) (i : String) (ids : List String) (t t' : Tables)
    → Grows t t'
    → AllLinked k i ids t
    → AllLinked k i ids t'
AllLinked-Grows k i [] t t' g h = tt
AllLinked-Grows k i (x ∷ ids) t t' g h =
    (g.kept k i (trim_space x) h.0, AllLinked-Grows k i ids t t' g h.1)

relate-AllLinked :
    (env : Env) (k : Kind) (i : String) (ids : List String) (t : Tables)
    → (relate env k i ids t).0 ≡ none
    → Grows t (relate env k i ids t).1 × AllLinked k i ids (relate env k i ids t).1
unfolding relate
relate-AllLinked env k i [] t h = (Grows-refl t, tt)
relate-AllLinked env k i (x ∷ ids) t h = elim (Option-cases (env.link_fault k (trim_space x))) [
  | inr (e, f) ↦ absurd (ground arith)
  | inl f ↦
      let step = add_link k i (trim_space x) t in
      let runs : (relate env k i ids step).0 ≡ none = ground arith in
      let (grows, linked) = relate-AllLinked env k i ids step runs in
      let same : relate env k i (x ∷ ids) t ≡ relate env k i ids step = rw (f, relate) refl in
      subst (λ r. Grows t r.1 × AllLinked k i (x ∷ ids) r.1) (sym same)
        (
          Grows-trans t step (relate env k i ids step).1 (add_link-Grows k i (trim_space x) t)
              grows,
          (grows.kept k i (trim_space x) (add_link-has_link k i (trim_space x) t), linked),
        )
]

relate_alerts-AllLinked :
    (env : Env) (i : String) (ids : List String) (t : Tables)
    → (relate_alerts env i ids t).0 ≡ none
    → Grows t (relate_alerts env i ids t).1 × AllLinked alert i ids (relate_alerts env i ids t).1
unfolding relate_alerts
relate_alerts-AllLinked env i [] t h = (Grows-refl t, tt)
relate_alerts-AllLinked env i (x ∷ ids) t h =
    elim (Option-cases (env.link_fault alert (trim_space x))) [
      | inr (e, f) ↦ absurd (ground arith)
      | inl f ↦ elim (Option-cases (env.point_fault (trim_space x))) [
        | inr (e, g) ↦ absurd (ground arith)
        | inl g ↦
            let linked_t = add_link alert i (trim_space x) t in
            let step = point_alert (trim_space x) i linked_t in
            let runs : (relate_alerts env i ids step).0 ≡ none = ground arith in
            let (grows, linked) = relate_alerts-AllLinked env i ids step runs in
            let same : relate_alerts env i (x ∷ ids) t ≡ relate_alerts env i ids step =
              rw (f, g, relate_alerts) refl in
            subst (λ r. Grows t r.1 × AllLinked alert i (x ∷ ids) r.1) (sym same)
              (
                Grows-trans t step (relate_alerts env i ids step).1
                    (Grows-trans t linked_t step (add_link-Grows alert i (trim_space x) t)
                      (point_alert-Grows (trim_space x) i linked_t))
                    grows,
                (
                  grows.kept alert i (trim_space x) (
                      (point_alert-Grows (trim_space x) i linked_t).kept alert i (trim_space x)
                        (add_link-has_link alert i (trim_space x) t)),
                  linked,
                ),
              )
      ]
    ]

-- All of the evidence is linked to the incident.
pub record IsRelated (i : String) (r : RelationIds) (t : Tables) : Type 0 where
  pub alerts : AllLinked alert i r.alert_ids t
  pub tracks : AllLinked track i r.track_ids t
  pub assets : AllLinked asset i r.asset_ids t
  pub observations : AllLinked observation i r.observation_ids t
  pub assessments : AllLinked assessment i r.assessment_ids t

-- One part of the loop after the parts before it.
then-AllLinked :
    (env : Env) (k : Kind) (i : String) (ids : List String) (p : Option Error × Tables)
    → (and_then p (relate env k i ids)).0 ≡ none
    → (p.0 ≡ none)
      × Grows p.1 (and_then p (relate env k i ids)).1
      × AllLinked k i ids (and_then p (relate env k i ids)).1
then-AllLinked env k i ids (some e, t) h = cc
then-AllLinked env k i ids (none, t) h =
    let (grows, linked) = relate-AllLinked env k i ids t h in (refl, grows, linked)

relate_all-IsRelated :
    (env : Env) (i : String) (r : RelationIds) (t : Tables)
    → (relate_all env i r t).0 ≡ none
    → Grows t (relate_all env i r t).1 × IsRelated i r (relate_all env i r t).1
unfolding relate_all
relate_all-IsRelated env i r t h =
    let p1 = relate_alerts env i r.alert_ids t in
    let p2 = and_then p1 (relate env track i r.track_ids) in
    let p3 = and_then p2 (relate env asset i r.asset_ids) in
    let p4 = and_then p3 (relate env observation i r.observation_ids) in
    let p5 = and_then p4 (relate env assessment i r.assessment_ids) in
    let (h4, g5, l5) = then-AllLinked env assessment i r.assessment_ids p4 h in
    let (h3, g4, l4) = then-AllLinked env observation i r.observation_ids p3 h4 in
    let (h2, g3, l3) = then-AllLinked env asset i r.asset_ids p2 h3 in
    let (h1, g2, l2) = then-AllLinked env track i r.track_ids p1 h2 in
    let (g1, l1) = relate_alerts-AllLinked env i r.alert_ids t h1 in
    let g35 = Grows-trans p3.1 p4.1 p5.1 g4 g5 in
    let g25 = Grows-trans p2.1 p3.1 p5.1 g3 g35 in
    let g15 = Grows-trans p1.1 p2.1 p5.1 g2 g25 in
    (
      Grows-trans t p1.1 p5.1 g1 g15,
      record {
        alerts = AllLinked-Grows alert i r.alert_ids p1.1 p5.1 g15 l1;
        tracks = AllLinked-Grows track i r.track_ids p2.1 p5.1 g25 l2;
        assets = AllLinked-Grows asset i r.asset_ids p3.1 p5.1 g35 l3;
        observations = AllLinked-Grows observation i r.observation_ids p4.1 p5.1 g5 l4;
        assessments = l5;
      },
    )

-- What opening an incident can come to. On an error the database is as it was. On success the
-- incident is stored, OPEN, with all of its evidence, and one incident.created is published.
abbrev pub Opening : Env → CreateInput → Db → Result Incident × Db → Type 0
Opening env input db (err e, after) = after ≡ db
Opening env input db (ok i, after) =
    (i.status ≡ opened)
    × (after.tables.incidents ≡ put env.new_id i db.tables.incidents)
    × IsRelated env.new_id input.relations after.tables
    × (after.outbox
        ≡ db.outbox
          ++ incident_created i.id i.title i.priority i.status (normalize_create input).actor ∷ [])

finished-Opening :
    (env : Env) (input : CreateInput) (db : Db) (p : Option Error × Tables)
    → (p.0 ≡ none
        → (p.1.incidents
            ≡ put env.new_id
                (open_row env.now (draft env (normalize_create input)))
                db.tables.incidents)
          × IsRelated env.new_id input.relations p.1)
    → Opening env input db (
        announce_created
          (normalize_create input).actor
          db
          (finish_tx env (open_row env.now (draft env (normalize_create input))) db.tables p))
unfolding open_row
finished-Opening env input db (some e, t) h = refl
finished-Opening env input db (none, t) h =
    subst (λ r. Opening env input db (announce_created (normalize_create input).actor db r))
      (sym done) (committed (env.fault commit))
  where
    row : Incident
    row = open_row env.now (draft env (normalize_create input))

    answer : Option DbError → Result Incident × Tables
    answer f = elim f [
      | some e ↦ (err (wrapped "commit transaction: " (raw e)), db.tables)
      | none ↦ (ok row, t)
    ]

    done : finish_tx env row db.tables (none, t) ≡ answer (env.fault commit)
    done = refl

    committed :
        (f : Option DbError)
        → Opening env input db (announce_created (normalize_create input).actor db (answer f))
    committed (some e) = refl
    committed none = (refl, (h refl).0, (h refl).1, refl)

created-Opening :
    (env : Env) (input : CreateInput) (db : Db)
    → Opening env input db (
        announce_created (normalize_create input).actor db (
          create_with_relations env (draft env (normalize_create input)) input.relations db.tables))
unfolding create_with_relations
created-Opening env input db = elim (Option-cases (env.fault begin_transaction)) [
  | inr (e, f) ↦ rw (f, create_with_relations) refl
  | inl f ↦ elim (Option-cases (env.fault create_incident)) [
    | inr (e, g) ↦ rw (f, g, create_with_relations) refl
    | inl g ↦ elim (Option-cases (find env.new_id db.tables.incidents)) [
      | inr (old, taken) ↦ rw (f, g, taken, create_with_relations) refl
      | inl fresh ↦
          rw (f, g, fresh, create_with_relations)
            (finished-Opening env input db (relate_all env env.new_id input.relations with_row)
              filled)
    ]
  ]
]
  where
    row : Incident
    row = open_row env.now (draft env (normalize_create input))

    with_row : Tables
    with_row = record (db.tables) { incidents = put env.new_id row db.tables.incidents }

    filled :
        (relate_all env env.new_id input.relations with_row).0 ≡ none
        → ((relate_all env env.new_id input.relations with_row).1.incidents
            ≡ put env.new_id row db.tables.incidents)
          × IsRelated env.new_id input.relations
              (relate_all env env.new_id input.relations with_row).1
    filled h =
        let (grows, related) = relate_all-IsRelated env env.new_id input.relations with_row h in
        (grows.same_incidents, related)

-- Opening an incident is all or nothing, whatever queries fail: an error leaves the database and the
-- published events as they were; a success has stored the incident as OPEN under its new id, linked
-- every alert, track, asset, observation and assessment of the input to it, and published exactly one
-- incident.created.
pub open_incident-Opening :
    (env : Env) (input : CreateInput) (db : Db) → Opening env input db (open_incident env input db)
unfolding open_incident normalize_create
open_incident-Opening env input db =
    elim (Option-cases (validate_create (normalize_create input))) [
      | inr (e, invalid) ↦ rw (invalid, open_incident) refl
      | inl valid ↦ elim (Option-cases (check_relations (normalize_create input).relations)) [
        | inr (e, blank) ↦ rw (valid, blank, open_incident) refl
        | inl named ↦ rw (valid, named, open_incident) (created-Opening env input db)
      ]
    ]
