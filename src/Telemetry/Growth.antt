-- ===== src/Telemetry/Growth.antt =====
-- The tables of the telemetry grow: samples are only added, and times only move on
-- (internal/telemetry/postgres_repository.go).
use c4isr_systems.Prelude.{
  ℕ, String, ◌≡◌, ◌≤◌, refl, sym, ◌∙◌, subst, Bool, true, false, Option, none, some, str_eq,
  if◌then◌else◌, arith, eq_iff,
}
use c4isr_systems.Platform.Table.{Table, find, put, find-put}
use c4isr_systems.Telemetry.{Sample}
use c4isr_systems.Telemetry.Store.{Outside, Tables, AssetState, ensure_state, is_newer, stored}
use c4isr_systems.Telemetry.Seen.{last_seen, put-last_seen, ensure-last_seen, ensure_samples}

-- The first instant is not after the second.
abbrev pub NotBack : Option ℕ → Option ℕ → Type 0
NotBack none b = Unit
NotBack (some a) none = ⊥
NotBack (some a) (some b) = a ≤ b

pub NotBack-refl : (a : Option ℕ) → NotBack a a
NotBack-refl none = tt
NotBack-refl (some a) = omega arith

NotBack-trans : (a b c : Option ℕ) → NotBack a b → NotBack b c → NotBack a c
NotBack-trans none b c h k = tt
NotBack-trans (some a) none c h k = elim h [ ]
NotBack-trans (some a) (some b) none h k = elim k [ ]
NotBack-trans (some a) (some b) (some c) h k = omega (arith, h, k)

NotBack-newer : (seen : Option ℕ) (at : ℕ) → is_newer at seen ≡ true → NotBack seen (some at)
NotBack-newer none at h = tt
NotBack-newer (some b) at h = ground arith

-- A stored sample of that asset, observed at that time.
pub record Reported (asset : String) (at : ℕ) (t : Table Sample) : Type 0 where
  pub key : String
  pub sample : Sample
  pub is_stored : find key t ≡ some sample
  pub of_asset : sample.asset_id ≡ asset
  pub observed : sample.observed_at ≡ at

-- Every time at which an asset was seen is that of a stored sample.
abbrev pub IsSourced : Tables → Type 0
IsSourced t = (asset : String) (at : ℕ) → last_seen asset t ≡ some at → Reported asset at t.samples

-- No sample is lost or changed, no asset's time goes back, and times stay sourced.
pub record Grows (t t' : Tables) : Type 0 where
  pub keeps : (k : String) (s : Sample) → find k t.samples ≡ some s → find k t'.samples ≡ some s
  pub not_back : (asset : String) → NotBack (last_seen asset t) (last_seen asset t')
  pub sourced : IsSourced t → IsSourced t'

pub Grows-refl : (t : Tables) → Grows t t
Grows-refl t = record {
  keeps = λ k s h. h;
  not_back = λ asset. NotBack-refl (last_seen asset t);
  sourced = λ h. h;
}

pub Grows-trans : (t u v : Tables) → Grows t u → Grows u v → Grows t v
Grows-trans t u v g h = record {
  keeps = λ k s e. h.keeps k s (g.keeps k s e);
  not_back = λ asset.
      NotBack-trans (last_seen asset t) (last_seen asset u) (last_seen asset v) (g.not_back asset)
        (h.not_back asset);
  sourced = λ e. h.sourced (g.sourced e);
}

-- Where only something else than samples and times has changed.
Grows-same :
    (t t' : Tables)
    → t'.samples ≡ t.samples
    → ((asset : String) → last_seen asset t' ≡ last_seen asset t)
    → Grows t t'
Grows-same t t' rows times = record {
  keeps = λ k s e. rw rows e;
  not_back = λ asset. rw (times asset) (NotBack-refl (last_seen asset t));
  sourced = λ h asset at e. rw rows (h asset at (sym (times asset) ∙ e));
}

pub ensure_state-Grows :
    (clock : ℕ) (asset : String) (t : Tables) → Grows t (ensure_state clock asset t)
ensure_state-Grows clock asset t =
    Grows-same t (ensure_state clock asset t) (ensure_samples clock asset t)
      (λ id. ensure-last_seen clock asset id t)

-- A row of the state that is written with the later time of a stored sample.
pub put-Grows :
    (asset : String) (row : AssetState) (at : ℕ) (t : Tables)
    → row.last_seen_at ≡ some at
    → is_newer at (last_seen asset t) ≡ true
    → Reported asset at t.samples
    → Grows t (record t { states = put asset row t.states })
put-Grows asset row at t eq newer known = record {
  keeps = λ k s e. e;
  not_back = λ id. rw (put-last_seen asset id row t) (moved id (str_eq asset id) refl);
  sourced =
      λ h id x e. source h id x (str_eq asset id) refl (sym (put-last_seen asset id row t) ∙ e);
}
  where
    moved :
        (id : String) (b : Bool)
        → str_eq asset id ≡ b
        → NotBack (last_seen id t) (if b then row.last_seen_at else last_seen id t)
    moved id true e =
        rw (sym ((eq_iff asset id).0 e), eq) (NotBack-newer (last_seen asset t) at newer)
    moved id false e = NotBack-refl (last_seen id t)

    source :
        IsSourced t
        → (id : String) (x : ℕ) (b : Bool) → str_eq asset id ≡ b
        → (if b then row.last_seen_at else last_seen id t) ≡ some x
        → Reported id x t.samples
    source h id x true e f =
        subst (λ k. Reported k x t.samples) ((eq_iff asset id).0 e)
          (subst (λ y. Reported asset y t.samples) (ground arith) known)
    source h id x false e f = h id x f

-- A new sample, whose id is free.
pub insert-Grows :
    (o : Outside) (db_now : ℕ) (s : Sample) (t : Tables)
    → find s.id t.samples ≡ none
    → Grows t (record t { samples = put s.id (stored o db_now s) t.samples })
unfolding last_seen
insert-Grows o db_now s t free = record {
  keeps = λ k q e. kept k q e;
  not_back = λ id. NotBack-refl (last_seen id t);
  sourced = λ h id at e. source (h id at e);
}
  where
    kept :
        (k : String) (q : Sample)
        → find k t.samples ≡ some q
        → find k (put s.id (stored o db_now s) t.samples) ≡ some q
    kept k q e = rw (find-put s.id k (stored o db_now s) t.samples) (ground (arith, eq_iff s.id k))

    source :
        {id : String} {at : ℕ}
        → Reported id at t.samples
        → Reported id at (put s.id (stored o db_now s) t.samples)
    source r = record {
      key = r.key;
      sample = r.sample;
      is_stored = kept r.key r.sample r.is_stored;
      of_asset = r.of_asset;
      observed = r.observed;
    }
