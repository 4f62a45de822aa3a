-- ===== src/Platform/Freshness/Bands.antt =====
-- The age bands (freshness.go, `forAge`, `ForAsset`, `ForTrack`).
use c4isr_systems.Prelude.{
  ℕ, ◌≤◌, ◌<◌, ◌≡◌, Option-cases, inl, inr, ◌⊎◌, ◌≢◌, arith, some, ℤ, pos, ◌<ℤ◌, ◌≤ℤ◌, sub_time,
  true, false,
}
use c4isr_systems.Platform.Freshness.{
  State, live, delayed, stale, unavailable, unknown, trustworthy, Policy, AssetSignal, TrackSignal,
  normalized, normalizes_to, for_age, for_asset, for_track,
}
use c4isr_systems.Platform.Freshness.Thresholds.{IsModerate, IsOrdered, normalized-IsOrdered}

-- How much is lost: the larger, the older.
abbrev pub rank : State → ℕ
rank live = 0
rank delayed = 1
rank stale = 2
rank unavailable = 3
rank unknown = 4

-- An entity that keeps silent never looks fresher: over ages that are not negative, the band never
-- improves as the age grows, whatever the configured thresholds.
pub for_age_mono :
    (p : Policy) (a b : ℤ) → pos 0 ≤ℤ a → a ≤ℤ b → rank (for_age p a) ≤ rank (for_age p b)
unfolding for_age
for_age_mono p a b h k = ground arith

for_age_boundaries_lem :
    (p : Policy)
    → IsOrdered (normalized p)
    → (for_age p (pos 0) ≡ live)
      × (for_age p (normalized p).delayed_after ≡ delayed)
      × (for_age p (normalized p).stale_after ≡ stale)
      × (for_age p (normalized p).unavailable_after ≡ unavailable)
unfolding for_age
for_age_boundaries_lem p h = ground arith

-- With a moderate stale threshold each of the four bands is entered exactly at its threshold: age 0
-- is live, and at the delayed, stale and unavailable thresholds the state is that of their names.
pub for_age_boundaries :
    (p : Policy)
    → IsModerate p
    → (for_age p (pos 0) ≡ live)
      × (for_age p (normalized p).delayed_after ≡ delayed)
      × (for_age p (normalized p).stale_after ≡ stale)
      × (for_age p (normalized p).unavailable_after ≡ unavailable)
for_age_boundaries p h = for_age_boundaries_lem p (normalized-IsOrdered p h)

for_age_trusted :
    (p : Policy) (age : ℤ)
    → IsOrdered (normalized p)
    → trustworthy (for_age p age) ≡ true
    → age <ℤ (normalized p).stale_after
unfolding for_age
for_age_trusted p age s h = ground arith

-- An asset that the operator may trust has reported, its last report is younger than the stale
-- threshold, and neither its status nor its connection declares it lost. The stale threshold is
-- moderate.
pub for_asset_trusted :
    (p : Policy) (signal : AssetSignal) (now : ℕ)
    → IsModerate p
    → trustworthy (for_asset p signal now) ≡ true
    → (normalizes_to signal.status "unavailable" ≡ false)
      × (normalizes_to signal.status "offline" ≡ false)
      × (normalizes_to signal.connection_state "disconnected" ≡ false)
      × ((seen : ℕ) × (signal.last_seen_at ≡ some seen)
          × (sub_time now seen <ℤ (normalized p).stale_after))
unfolding for_asset
for_asset_trusted p signal now m h = elim (Option-cases signal.last_seen_at) [
  | inl e ↦ ground arith
  | inr (seen, e) ↦
      let current : trustworthy (for_age p (sub_time now seen)) ≡ true = ground arith in
      (
        ground arith,
        ground arith,
        ground arith,
        (seen, e, for_age_trusted p (sub_time now seen) (normalized-IsOrdered p m) current),
      )
]

-- A track that the operator may trust is not declared lost, has been seen, and was last seen less
-- than the stale threshold ago. The stale threshold is moderate.
pub for_track_trusted :
    (p : Policy) (signal : TrackSignal) (now : ℕ)
    → IsModerate p
    → trustworthy (for_track p signal now) ≡ true
    → (normalizes_to signal.status "lost" ≡ false)
      × (signal.last_seen_at ≢ 0)
      × (sub_time now signal.last_seen_at <ℤ (normalized p).stale_after)
unfolding for_track
for_track_trusted p signal now m h =
    let current : trustworthy (for_age p (sub_time now signal.last_seen_at)) ≡ true =
      ground arith in
    (
      ground arith,
      ground arith,
      for_age_trusted p (sub_time now signal.last_seen_at) (normalized-IsOrdered p m) current,
    )

-- A report from the future is never shown as live: where neither a declaration nor a missing report
-- decides, a last report after `now` gives delayed.
pub for_asset_future :
    (p : Policy) (signal : AssetSignal) (now : ℕ) {seen : ℕ}
    → signal.last_seen_at ≡ some seen
    → now < seen
    → (for_asset p signal now ≡ delayed) ⊎ (for_asset p signal now ≡ unavailable)
unfolding for_asset for_age
for_asset_future p signal now e h = ground arith
