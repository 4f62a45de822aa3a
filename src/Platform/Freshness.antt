-- ===== src/Platform/Freshness.antt =====
-- internal/platform/freshness/freshness.go: how current the information on an entity is.
-- Durations are int64 nanoseconds; an instant is a number of nanoseconds and 0 is Go's zero time.
pub mod Thresholds
pub mod Bands
use Prim.Native.Char.{code}
use c4isr_systems.Prelude.{
  ℕ, String, ◌+◌, ◌*◌, ◌/◌, Bool, true, false, ◌&&◌, ◌||◌, Option, none, some, List, [], ◌∷◌, ◌==◌,
  leb, ltb, if◌then◌else◌, ℤ, pos, negsuc, pos_part, neg_part, ltb_ℤ, leb_ℤ, wrap_int64, sub_time,
  trim_space, is_empty,
}

pub data State : Type 0 where
  live delayed stale unavailable unknown : State

unfoldable pub all_states : List State
all_states = live ∷ delayed ∷ stale ∷ unavailable ∷ unknown ∷ []

-- `State.Trustworthy`
abbrev pub trustworthy : State → Bool
trustworthy live = true
trustworthy delayed = true
trustworthy _ = false

pub record Policy : Type 0 where
  pub delayed_after : ℤ
  pub stale_after : ℤ
  pub unavailable_after : ℤ

abbrev pub second : ℕ
second = 1000000000

abbrev pub minute : ℕ
minute = 60000000000

-- `DefaultPolicy`
unfoldable pub default_policy : Policy
default_policy = record {
  delayed_after = pos minute;
  stale_after = pos (5 * minute);
  unavailable_after = pos (30 * minute);
}

-- `d <= 0`
abbrev pub unset : ℤ → Bool
unset d = leb_ℤ d (pos 0)

-- The four repairs of `Normalized`, in the order of the source.
abbrev repair_stale : Policy → Policy
repair_stale p = if unset p.stale_after then record p { stale_after = pos (5 * minute) } else p

-- Go's `/` on a positive duration.
abbrev repair_delayed : Policy → Policy
repair_delayed p =
    if unset p.delayed_after || leb_ℤ p.stale_after p.delayed_after
    then record p { delayed_after = pos (pos_part p.stale_after / 4) }
    else p

abbrev repair_zero : Policy → Policy
repair_zero p = if unset p.delayed_after then record p { delayed_after = pos second } else p

-- The product wraps.
abbrev repair_unavailable : Policy → Policy
repair_unavailable p =
    if leb_ℤ p.unavailable_after p.stale_after
    then record p { unavailable_after = wrap_int64 (pos_part p.stale_after * 6) }
    else p

unfoldable pub normalized : Policy → Policy
unfolding default_policy
normalized p =
    if unset p.delayed_after && (unset p.stale_after && unset p.unavailable_after)
    then default_policy
    else repair_unavailable (repair_zero (repair_delayed (repair_stale p)))

-- `strings.ToLower` on one character, as far as it can give an ASCII letter: the capitals, and
-- U+0130 and U+212A, whose lower case is i and k.
unfoldable pub lower : ℕ → ℕ
lower c =
    if leb b'A' c && leb c b'Z'
    then c + 32
    else if c == 0x130
    then b'i'
    else if c == 0x212a
    then b'k'
    else c

-- Whether the lower case of the first text is the second, an ASCII text.
unfoldable pub lowers_to : String → String → Bool
unfolding lower
lowers_to String.[] w = is_empty w
lowers_to (String.◌∷◌ c s) String.[] = false
lowers_to (String.◌∷◌ c s) (String.◌∷◌ d w) = lower (code c) == code d && lowers_to s w

-- `normalize(value) == word`
unfoldable pub normalizes_to : String → String → Bool
unfolding trim_space lowers_to
normalizes_to value word = lowers_to (trim_space value) word

pub record AssetSignal : Type 0 where
  pub last_seen_at : Option ℕ
  pub connection_state : String
  pub status : String

pub record TrackSignal : Type 0 where
  pub last_seen_at : ℕ
  pub status : String

unfoldable pub for_age : Policy → ℤ → State
for_age p age =
    let policy = normalized p in
    if ltb_ℤ age (pos 0)
    then delayed
    else if leb_ℤ policy.unavailable_after age
    then unavailable
    else if leb_ℤ policy.stale_after age
    then stale
    else if leb_ℤ policy.delayed_after age
    then delayed
    else live

abbrev pub age_at : Policy → ℕ → Option ℕ → State
age_at p now none = unknown
age_at p now (some seen) = for_age p (sub_time now seen)

-- `Policy.ForAsset`
unfoldable pub for_asset : Policy → AssetSignal → ℕ → State
for_asset p signal now =
    if normalizes_to signal.status "unavailable" || normalizes_to signal.status "offline"
    then unavailable
    else if normalizes_to signal.connection_state "disconnected"
    then unavailable
    else age_at p now signal.last_seen_at

-- `Policy.ForTrack`
unfoldable pub for_track : Policy → TrackSignal → ℕ → State
for_track p signal now =
    if normalizes_to signal.status "lost"
    then unavailable
    else if signal.last_seen_at == 0
    then unknown
    else for_age p (sub_time now signal.last_seen_at)
