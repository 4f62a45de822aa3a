-- ===== src/Tracks/Growth.antt =====
-- What happens to tracks, evidence and history over any sequence of calls
-- (internal/tracks/service.go).
use c4isr_systems.Prelude.{
  String, ◌≡◌, ◌≤◌, refl, sym, ◌∙◌, ap, Bool, true, false, Option, none, some, str_eq, eq_iff,
  arith, subst,
}
use c4isr_systems.Platform.Table.{Table, find, put, find-put}
use c4isr_systems.Tracks.{closed, Track}
use c4isr_systems.Tracks.Store.{Tables, StateRow}

-- The same row, later: nothing about its origin has changed, and it is closed if it was.
pub record Later (old new : Track) : Type 0 where
  pub same_reference : new.external_ref ≡ old.external_ref
  pub same_origin : new.metadata ≡ old.metadata
  pub same_start : new.first_seen_at ≡ old.first_seen_at
  pub stays_closed : old.status ≡ closed → new.status ≡ closed

pub Later-refl : (t : Track) → Later t t
Later-refl t = record {
  same_reference = refl;
  same_origin = refl;
  same_start = refl;
  stays_closed = λ h. h;
}

Later-trans : (a b c : Track) → Later a b → Later b c → Later a c
Later-trans a b c g h = record {
  same_reference = h.same_reference ∙ g.same_reference;
  same_origin = h.same_origin ∙ g.same_origin;
  same_start = h.same_start ∙ g.same_start;
  stays_closed = λ e. h.stays_closed (g.stays_closed e);
}

-- Every row of the first table is in the second, as it was.
abbrev pub Keeps {ℓ} : {R : Type ℓ} → Table R → Table R → Type ℓ
Keeps {R = R} t t' = (k : String) (r : R) → find k t ≡ some r → find k t' ≡ some r

pub Keeps-put {ℓ} :
    {R : Type ℓ} (k : String) (r : R) (t : Table R) → find k t ≡ none → Keeps t (put k r t)
Keeps-put k r t free j q e = rw (find-put k j r t) (ground (arith, eq_iff k j))

abbrev pub is_there : Option StateRow → Bool
is_there none = false
is_there (some state) = true

-- Whether a track has a state.
abbrev pub is_projected : String → Tables → Bool
is_projected id t = is_there (find id t.states)

-- Once a track has a state, it keeps having one, and its time does not go back.
abbrev pub MovesOn : String → Tables → Tables → Track → Track → Type 0
MovesOn id t t' old new =
    is_projected id t ≡ true → (is_projected id t' ≡ true) × (old.last_seen_at ≤ new.last_seen_at)

-- No track is lost and each one is only later; no observation changes its track; no point of the
-- history is lost or changed.
pub record Grows (t t' : Tables) : Type 0 where
  pub tracks :
      (id : String) (old : Track)
      → find id t.tracks ≡ some old
      → (new : Track) × (find id t'.tracks ≡ some new) × Later old new × MovesOn id t t' old new
  pub links : Keeps t.links t'.links
  pub history : Keeps t.history t'.history

-- Where the tracks and their states are the same.
pub aside-Grows :
    (t t' : Tables)
    → t'.tracks ≡ t.tracks
    → t'.states ≡ t.states
    → Keeps t.links t'.links
    → Keeps t.history t'.history
    → Grows t t'
aside-Grows t t' tracks states links history = record {
  tracks =
      λ id old e. (old, ap (find id) tracks ∙ e, Later-refl old, λ p. (rw states p, omega arith));
  links = links;
  history = history;
}

pub Grows-refl : (t : Tables) → Grows t t
Grows-refl t = aside-Grows t t refl refl (λ k r e. e) (λ k r e. e)

pub Grows-trans : (t u v : Tables) → Grows t u → Grows u v → Grows t v
Grows-trans t u v g h = record {
  tracks = λ id old e.
      let (mid, f, l, m) = g.tracks id old e in
      let (new, e', l', m') = h.tracks id mid f in
      (new, e', Later-trans old mid new l l', λ p. moved id old mid new m m' p);
  links = λ k r e. h.links k r (g.links k r e);
  history = λ k r e. h.history k r (g.history k r e);
}
  where
    moved :
        (id : String) (old mid new : Track)
        → MovesOn id t u old mid
        → MovesOn id u v mid new
        → MovesOn id t v old new
    moved id old mid new m m' p =
        let (q, le) = m p in let (r, le') = m' q in (r, omega (arith, le, le'))

-- A track under a free id.
pub new_track-Grows :
    (id : String) (row : Track) (t : Tables)
    → find id t.tracks ≡ none
    → Grows t (record t { tracks = put id row t.tracks })
new_track-Grows id row t free = record {
  tracks = λ k old e.
      (old, Keeps-put id row t.tracks free k old e, Later-refl old, λ p. (p, omega arith));
  links = λ k r e. e;
  history = λ k r e. e;
}

-- A row that is replaced by a later one, and the states with it.
pub replaced-Grows :
    (id : String) (old new : Track) (states : Table StateRow) (t : Tables)
    → find id t.tracks ≡ some old
    → Later old new
    → MovesOn id t (record t { states = states }) old new
    → ((k : String)
        → is_projected k t ≡ true
        → is_projected k (record t { states = states }) ≡ true)
    → Grows t (record t { tracks = put id new t.tracks; states = states })
replaced-Grows id old new states t there later moves stay = record {
  tracks = λ k row e. moved k row e (str_eq id k) refl;
  links = λ k r e. e;
  history = λ k r e. e;
}
  where
    after : Tables
    after = record t { tracks = put id new t.tracks; states = states }

    moved :
        (k : String) (row : Track)
        → find k t.tracks ≡ some row
        → (b : Bool) → str_eq id k ≡ b
        → (x : Track) × (find k (put id new t.tracks) ≡ some x)
          × Later row x
          × MovesOn k t after row x
    moved k row e true h =
        let eq = (eq_iff id k).0 h in
        let found : some old ≡ some row = sym there ∙ ap (λ j. find j t.tracks) eq ∙ e in
        let same : old ≡ row = cc in
        (
          new,
          rw (find-put id k new t.tracks, h) refl,
          subst (λ r. Later r new) same later,
          subst (λ r. MovesOn k t after r new) same
              (subst (λ j. MovesOn j t after old new) eq moves),
        )
    moved k row e false h =
        (row, rw (find-put id k new t.tracks, h) e, Later-refl row, λ p. (stay k p, omega arith))
