-- ===== src/Platform/Apperr.antt =====
-- Application errors: internal/platform/apperr/apperr.go. A Go `error` is a chain that
-- `errors.As` walks; formatted messages are kept as their parts.
use c4isr_systems.Prelude.{String, Bool, true, false, ◌≡◌, refl}

pub data Code : Type 0 where
  bad_request validation not_found conflict unauthorized forbidden internal : Code

pub data Message : Type 0 where
  -- a fixed text
  text : String → Message
  -- `fmt.Sprintf("%s %q not found", kind, id)`
  missing : String → String → Message
  -- a prefix and the value that follows it, as in "unknown asset: " + id
  labelled : String → String → Message
  -- `fmt.Sprintf("invalid %s transition %s -> %s", kind, from, to)`
  transition : String → String → String → Message

-- `app` is an *apperr.Error with no cause, `app_from` one that wraps a cause, `plain` any other
-- error, and `wrapped` one that `fmt.Errorf` wraps by %w.
pub data Error : Type 0 where
  app : Code → Message → Error
  app_from : Code → Message → Error → Error
  plain : String → Error
  wrapped : String → Error → Error

pub data Result {ℓ} (A : Type ℓ) : Type ℓ where
  ok : A → Result A
  err : Error → Result A

abbrev pub bad_request_error : Message → Error
bad_request_error m = app bad_request m

abbrev pub validation_error : Message → Error
validation_error m = app validation m

abbrev pub not_found_error : String → String → Error
not_found_error kind id = app not_found (missing kind id)

abbrev pub conflict_error : Message → Error
conflict_error m = app conflict m

-- `apperr.Internal`
abbrev pub internal_error : Error → Error
internal_error cause = app_from internal (text "internal error") cause

abbrev pub same_code : Code → Code → Bool
same_code bad_request bad_request = true
same_code validation validation = true
same_code not_found not_found = true
same_code conflict conflict = true
same_code unauthorized unauthorized = true
same_code forbidden forbidden = true
same_code internal internal = true
same_code _ _ = false

-- `Is`: the first application error of the chain decides.
unfoldable pub is_code : Error → Code → Bool
is_code (app c m) code = same_code c code
is_code (app_from c m e) code = same_code c code
is_code (plain s) code = false
is_code (wrapped s e) code = is_code e code

-- `CodeOf`
unfoldable pub code_of : Error → Code
code_of (app c m) = c
code_of (app_from c m e) = c
code_of (plain s) = internal
code_of (wrapped s e) = code_of e

-- `apperr.Is(err, c)` implies `apperr.CodeOf(err) == c`, for every chain and code.
pub code_of-is_code : (e : Error) (c : Code) → is_code e c ≡ true → code_of e ≡ c
unfolding is_code code_of
code_of-is_code (app bad_request m) bad_request h = refl
code_of-is_code (app validation m) validation h = refl
code_of-is_code (app not_found m) not_found h = refl
code_of-is_code (app conflict m) conflict h = refl
code_of-is_code (app unauthorized m) unauthorized h = refl
code_of-is_code (app forbidden m) forbidden h = refl
code_of-is_code (app internal m) internal h = refl
code_of-is_code (app _ m) _ h = cc
code_of-is_code (app_from bad_request m e) bad_request h = refl
code_of-is_code (app_from validation m e) validation h = refl
code_of-is_code (app_from not_found m e) not_found h = refl
code_of-is_code (app_from conflict m e) conflict h = refl
code_of-is_code (app_from unauthorized m e) unauthorized h = refl
code_of-is_code (app_from forbidden m e) forbidden h = refl
code_of-is_code (app_from internal m e) internal h = refl
code_of-is_code (app_from _ m e) _ h = cc
code_of-is_code (plain s) c h = cc
code_of-is_code (wrapped s e) c h = code_of-is_code e c h
