-- ===== src/Telemetry/Seen.antt =====
-- The last time at which an asset was seen, and what the queries of the telemetry make of it
-- (internal/telemetry/postgres_repository.go).
use c4isr_systems.Prelude.{
  ℕ, String, ◌≡◌, refl, sym, ◌∙◌, inl, inr, Bool, true, false, Option, none, some, str_eq, ltb,
  if◌then◌else◌, arith, Option-cases, eq_refl, eq_iff, ap, ◌&&◌, Bool-cases,
}
use c4isr_systems.Platform.Apperr.{Result, ok, err}
use c4isr_systems.Platform.Table.{find, put, find-put}
use c4isr_systems.Telemetry.{StateUpdate}
use c4isr_systems.Telemetry.Store.{
  Outside, Attempt, Tables, AssetState, ensure_state, unknown_state, apply_state, inserted_state,
  merged_state, is_newer, as_expected,
}

abbrev pub seen_at : Option AssetState → Option ℕ
seen_at none = none
seen_at (some row) = row.last_seen_at

-- The last_seen_at of an asset; none also where it has no row.
unfoldable pub last_seen : String → Tables → Option ℕ
last_seen asset t = seen_at (find asset t.states)

-- The later of two instants, none being before all.
abbrev pub later : Option ℕ → Option ℕ → Option ℕ
later none b = b
later (some a) none = some a
later (some a) (some b) = some (if ltb a b then b else a)

pub later_same : (a : Option ℕ) (b : ℕ) → later (later a (some b)) (some b) ≡ later a (some b)
later_same none b = ground arith
later_same (some a) b = ground arith

-- What a sample of an asset makes of the last time at which some asset was seen.
abbrev pub bump : String → ℕ → String → Option ℕ → Option ℕ
bump asset observed id old = if str_eq asset id then later old (some observed) else old

-- After the row of one asset is written.
pub put-last_seen :
    (asset id : String) (row : AssetState) (t : Tables)
    → last_seen id (record t { states = put asset row t.states })
      ≡ (if str_eq asset id then row.last_seen_at else last_seen id t)
unfolding last_seen
put-last_seen asset id row t = rw (find-put asset id row t.states) (if_at (str_eq asset id))
  where
    if_at :
        (b : Bool)
        → seen_at (if b then some row else find id t.states)
          ≡ (if b then row.last_seen_at else seen_at (find id t.states))
    if_at true = refl
    if_at false = refl

-- Where the row of that key is there already.
same_key :
    (asset id : String) (t : Tables) {old : Option ℕ}
    → last_seen asset t ≡ old
    → (if str_eq asset id then old else last_seen id t) ≡ last_seen id t
same_key asset id t e = elim (Bool-cases (str_eq asset id)) [
  | inl same ↦ rw same (sym e ∙ ap (λ k. last_seen k t) ((eq_iff asset id).0 same))
  | inr other ↦ rw other refl
]

-- Making sure of the row changes no last_seen_at, and the row is there.
pub ensure-last_seen :
    (clock : ℕ) (asset id : String) (t : Tables)
    → last_seen id (ensure_state clock asset t) ≡ last_seen id t
unfolding ensure_state last_seen
ensure-last_seen clock asset id t = elim (Option-cases (find asset t.states)) [
  | inl e ↦
      rw (e, ensure_state)
        (put-last_seen asset id (unknown_state clock asset) t ∙ same_key asset id t (rw e refl))
  | inr (row, e) ↦ rw (e, ensure_state) refl
]

pub ensure_samples :
    (clock : ℕ) (asset : String) (t : Tables) → (ensure_state clock asset t).samples ≡ t.samples
unfolding ensure_state
ensure_samples clock asset t = ground arith

pub ensure-find :
    (clock : ℕ) (asset : String) (t : Tables)
    → (row : AssetState) × (find asset (ensure_state clock asset t).states ≡ some row)
      × (row.last_seen_at ≡ last_seen asset t)
unfolding ensure_state last_seen
ensure-find clock asset t = elim (Option-cases (find asset t.states)) [
  | inl e ↦ (
    unknown_state clock asset,
    rw (e, ensure_state)
        (rw (find-put asset asset (unknown_state clock asset) t.states, eq_refl asset) refl),
    rw e refl,
  )
  | inr (row, e) ↦ (row, rw (e, ensure_state) e, rw e refl)
]

-- A write that has an effect writes a row, seen at that time and not before.
abbrev pub Written : Outside → StateUpdate → Tables → Result Bool × Tables → Type 0
Written o u t (ok true, after) =
    (row : AssetState) × (after ≡ record t { states = put u.asset_id row t.states })
    × (row.last_seen_at ≡ some (o.column_time u.observed_at))
    × (is_newer (o.column_time u.observed_at) (last_seen u.asset_id t) ≡ true)
Written o u t (ok false, after) = after ≡ t
Written o u t (err e, after) = after ≡ t

pub apply_state-Written :
    (o : Outside) (a : Attempt) (u : StateUpdate) (expected : Option ℕ) (t : Tables)
    → Written o u t (apply_state o a u expected t)
unfolding apply_state last_seen
apply_state-Written o a u expected t = elim (Option-cases a.apply_fault) [
  | inr (e, f) ↦ rw (f, apply_state) refl
  | inl f ↦ elim (Option-cases (find u.asset_id t.states)) [
    | inl e ↦
        rw (f, e, apply_state)
          (
            inserted_state a.clock (o.column_time u.observed_at) u,
            refl,
            refl,
            rw (e, last_seen) refl,
          )
    | inr (row, e) ↦
        guarded row e f
          (as_expected expected row.last_seen_at
            && is_newer (o.column_time u.observed_at) row.last_seen_at)
          refl
  ]
]
  where
    guarded :
        (row : AssetState)
        → find u.asset_id t.states ≡ some row
        → a.apply_fault ≡ none
        → (b : Bool)
        → (as_expected expected row.last_seen_at
            && is_newer (o.column_time u.observed_at) row.last_seen_at)
          ≡ b
        → Written o u t (apply_state o a u expected t)
    guarded row e f true g =
        rw (f, e, g, apply_state)
          (
            merged_state a.clock (o.column_time u.observed_at) u row,
            refl,
            refl,
            rw (e, last_seen) (ground arith),
          )
    guarded row e f false g = rw (f, e, g, apply_state) refl

newer_later : (old : Option ℕ) (at : ℕ) → is_newer at old ≡ true → later old (some at) ≡ some at
newer_later none at h = refl
newer_later (some b) at h = ground arith

older_later : (old : Option ℕ) (at : ℕ) → is_newer at old ≡ false → later old (some at) ≡ old
older_later none at h = ground arith
older_later (some b) at h = ground arith

-- A time that is no later than the last one changes nothing.
pub bump_older :
    (asset id : String) (at : ℕ) (t : Tables)
    → is_newer at (last_seen asset t) ≡ false
    → bump asset at id (last_seen id t) ≡ last_seen id t
bump_older asset id at t h = elim (Bool-cases (str_eq asset id)) [
  | inl same ↦ rw same (
      older_later (last_seen id t) at
        (ap (λ k. is_newer at (last_seen k t)) (sym ((eq_iff asset id).0 same)) ∙ h))
  | inr other ↦ rw other refl
]

-- A later one takes its place.
pub bump_newer :
    (asset id : String) (at : ℕ) (t : Tables)
    → is_newer at (last_seen asset t) ≡ true
    → (if str_eq asset id then some at else last_seen id t) ≡ bump asset at id (last_seen id t)
bump_newer asset id at t h = elim (Bool-cases (str_eq asset id)) [
  | inl same ↦ rw same (
      sym (
        newer_later (last_seen id t) at
          (ap (λ k. is_newer at (last_seen k t)) (sym ((eq_iff asset id).0 same)) ∙ h)))
  | inr other ↦ rw other refl
]
