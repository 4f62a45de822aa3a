-- ===== src/Prelude/Text.antt =====
-- Go's `strings.TrimSpace`, on the characters of a text.
use Prim.Native.Nat.{ℕ}
use Prim.Native.Char.{Char, code}
use Prim.Native.String.{String}
use mathlib.Core.Path.{◌≡◌, refl}
use mathlib.Core.Bool.{Bool, true, false, ◌&&◌, ◌||◌}
use native.Mathlib.Omega.{arith}
use c4isr_systems.Prelude.Tests.{leb, ◌==◌, if◌then◌else◌, str_eq}

-- `unicode.IsSpace`: Unicode's White_Space.
unfoldable pub is_space : ℕ → Bool
is_space c =
    (leb 9 c && leb c 13)
    || c == 32
    || c == 0x85
    || c == 0xa0
    || c == 0x1680
    || (leb 0x2000 c && leb c 0x200a)
    || c == 0x2028
    || c == 0x2029
    || c == 0x202f
    || c == 0x205f
    || c == 0x3000

-- `s == ""`
abbrev pub is_empty : String → Bool
is_empty String.[] = true
is_empty (String.◌∷◌ c s) = false

unfoldable pub trim_left : String → String
trim_left String.[] = String.[]
trim_left (String.◌∷◌ c s) = if is_space (code c) then trim_left s else String.◌∷◌ c s

unfoldable pub trim_right : String → String
trim_right String.[] = String.[]
trim_right (String.◌∷◌ c s) =
    let rest = trim_right s in
    if is_empty rest && is_space (code c) then String.[] else String.◌∷◌ c rest

-- `strings.TrimSpace`
unfoldable pub trim_space : String → String
unfolding trim_left trim_right is_space
trim_space s = trim_right (trim_left s)

trim_right-cons :
    (c : Char) (s : String)
    → is_space (code c) ≡ false
    → trim_right (String.◌∷◌ c s) ≡ String.◌∷◌ c (trim_right s)
unfolding trim_right
trim_right-cons c s h = ground arith

trim_right_idem : (s : String) → trim_right (trim_right s) ≡ trim_right s
unfolding trim_right
trim_right_idem String.[] = refl
trim_right_idem (String.◌∷◌ c s) = ground (arith, trim_right_idem s)

trim_left-trim_right-cons :
    (c : Char) (s : String)
    → is_space (code c) ≡ false
    → trim_left (trim_right (String.◌∷◌ c s)) ≡ trim_right (String.◌∷◌ c s)
unfolding trim_left trim_right
trim_left-trim_right-cons c s h = ground arith

trim_left-trim_right :
    (s : String) → trim_left (trim_right (trim_left s)) ≡ trim_right (trim_left s)
unfolding trim_left
trim_left-trim_right String.[] = unfold trim_right in refl
trim_left-trim_right (String.◌∷◌ c s) =
    ground (arith, trim_left-trim_right s, trim_left-trim_right-cons c s)

-- Trimming a trimmed text changes nothing.
pub trim_space_idem : (s : String) → trim_space (trim_space s) ≡ trim_space s
unfolding trim_space
trim_space_idem s = ground (arith, trim_left-trim_right s, trim_right_idem (trim_left s))

-- `strings.HasPrefix(s, prefix)`, the prefix first.
unfoldable pub starts_with : String → String → Bool
starts_with String.[] s = true
starts_with (String.◌∷◌ c p) String.[] = false
starts_with (String.◌∷◌ c p) (String.◌∷◌ d s) = code c == code d && starts_with p s

-- `strings.Contains(s, part)`, the part first.
unfoldable pub contains : String → String → Bool
contains part String.[] = starts_with part String.[]
contains part (String.◌∷◌ c s) = starts_with part (String.◌∷◌ c s) || contains part s

-- `strings.HasSuffix(s, suffix)`, the suffix first.
unfoldable pub ends_with : String → String → Bool
ends_with suffix String.[] = is_empty suffix
ends_with suffix (String.◌∷◌ c s) =
    let rest = ends_with suffix s in str_eq suffix (String.◌∷◌ c s) || rest

-- `strings.TrimPrefix(s, prefix)`, the prefix first.
unfoldable pub trim_prefix : String → String → String
unfolding starts_with
trim_prefix String.[] s = s
trim_prefix (String.◌∷◌ c p) String.[] = String.[]
trim_prefix (String.◌∷◌ c p) (String.◌∷◌ d s) =
    if code c == code d && starts_with p s then trim_prefix p s else String.◌∷◌ d s

-- `s + t`
unfoldable pub concat : String → String → String
concat String.[] t = t
concat (String.◌∷◌ c s) t = String.◌∷◌ c (concat s t)
