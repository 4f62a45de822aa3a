-- ===== src/Telemetry/Keys.antt =====
-- The keys of the freshness monitor (internal/telemetry/freshness_monitor.go).
use c4isr_systems.Prelude.{
  ℕ, String, ◌≡◌, refl, ap, ◌==◌, Bool, false, ◌||◌, none, some, List, [], ◌∷◌, inl, inr,
  Bool-cases, arith, str_eq, eq_iff, subst,
}
use Prim.Native.Char.{code}
use c4isr_systems.Platform.Table.{Table, find, put, find-put}
use c4isr_systems.Platform.Freshness.{State, Policy}
use c4isr_systems.Telemetry.Monitor.{
  entity_key, cut_colon, split_entity_key, entity_type_asset, entity_type_track, FreshnessSignal,
  TrackFreshnessSignal, Tick, add_assets, add_tracks, classify,
}

unfoldable pub has_colon : String → Bool
has_colon String.[] = false
has_colon (String.◌∷◌ c s) = code c == b':' || has_colon s

cut_colon-entity_key :
    (kind id : String) → has_colon kind ≡ false → cut_colon (entity_key kind id) ≡ some (kind, id)
unfolding cut_colon entity_key has_colon
cut_colon-entity_key String.[] id h = refl
cut_colon-entity_key (String.◌∷◌ c s) id h =
    ground (arith, cut_colon-entity_key s id (ground arith))

-- A key splits into the type and the id that it was made of, whatever the id, if the type has no
-- colon.
pub split_entity_key-entity_key :
    (kind id : String) → has_colon kind ≡ false → split_entity_key (entity_key kind id) ≡ (kind, id)
unfolding split_entity_key
split_entity_key-entity_key kind id h = rw (cut_colon-entity_key kind id h, split_entity_key) refl

-- A key that its parts give back.
abbrev pub IsNamespaced : String → Type 0
IsNamespaced key = entity_key (split_entity_key key).0 (split_entity_key key).1 ≡ key

entity_key-IsNamespaced :
    (kind id : String) → has_colon kind ≡ false → IsNamespaced (entity_key kind id)
entity_key-IsNamespaced kind id h =
    ap (λ (p : String × String). entity_key p.0 p.1) (split_entity_key-entity_key kind id h)

-- Every key of a table gives itself back, and no key is there twice.
abbrev pub IsKeyed : Table State → Type 0
IsKeyed [] = Unit
IsKeyed ((k, s) ∷ t) = IsNamespaced k × (find k t ≡ none) × IsKeyed t

find_other :
    (k j : String) (s : State) (t : Table State)
    → str_eq j k ≡ false
    → find j t ≡ none
    → find j (put k s t) ≡ none
find_other k j s t other h = rw (find-put k j s t) (ground (arith, eq_iff k j, eq_iff j k))

IsKeyed-put :
    (k : String) (s : State) (t : Table State) → IsNamespaced k → IsKeyed t → IsKeyed (put k s t)
unfolding put find
IsKeyed-put k s [] h hs = (h, refl, tt)
IsKeyed-put k s ((j, q) ∷ t) h (named, free, rest) = elim (Bool-cases (str_eq j k)) [
  | inl same ↦ rw same (h, subst (λ i. find i t ≡ none) ((eq_iff j k).0 same) free, rest)
  | inr other ↦ rw other (named, find_other k j s t other free, IsKeyed-put k s t h rest)
]

add_assets-IsKeyed :
    (p : Policy) (now : ℕ) (ss : List FreshnessSignal) (t : Table State)
    → IsKeyed t
    → IsKeyed (add_assets p now ss t)
unfolding add_assets
add_assets-IsKeyed p now [] t h = h
add_assets-IsKeyed p now (s ∷ ss) t h = add_assets-IsKeyed p now ss _ (
    IsKeyed-put (entity_key entity_type_asset s.asset_id) _ t
      (entity_key-IsNamespaced entity_type_asset s.asset_id (unfold has_colon in refl)) h)

add_tracks-IsKeyed :
    (p : Policy) (now : ℕ) (ss : List TrackFreshnessSignal) (t : Table State)
    → IsKeyed t
    → IsKeyed (add_tracks p now ss t)
unfolding add_tracks
add_tracks-IsKeyed p now [] t h = h
add_tracks-IsKeyed p now (s ∷ ss) t h = add_tracks-IsKeyed p now ss _ (
    IsKeyed-put (entity_key entity_type_track s.track_id) _ t
      (entity_key-IsNamespaced entity_type_track s.track_id (unfold has_colon in refl)) h)

pub classify-IsKeyed : (p : Policy) (tick : Tick) → IsKeyed (classify p tick)
unfolding classify
classify-IsKeyed p tick =
    add_tracks-IsKeyed p tick.now tick.tracks (add_assets p tick.now tick.assets [])
      (add_assets-IsKeyed p tick.now tick.assets [] tt)
