-- ===== src/Platform/Access/Login.antt =====
-- internal/platform/httpx/middleware.go: who sends a request, and the way through both middlewares
-- as internal/app/app.go chains them.
use Prim.Native.Char.{code}
use c4isr_systems.Prelude.{
  String, ◌≡◌, refl, Bool, true, false, ◌&&◌, ◌||◌, ◌==◌, Option, none, some, List, [], ◌∷◌,
  is_empty, trim_space, is_space, if◌then◌else◌, inl, inr, Option-cases, arith,
}
use c4isr_systems.Platform.Apperr.{Error, Result, ok, err}
use c4isr_systems.Platform.Table.{Table, find}
use c4isr_systems.Platform.Freshness.{lower, lowers_to}
use c4isr_systems.Platform.Access.{Decision, served, unauthorized, is_public_request, authorization}

-- `Identity`
pub record Identity : Type 0 where
  pub id : String
  pub name : String
  pub role : String

-- `AuthOptions`; a look-up that is nil is none, and `OnFailure`, which counts, is left out.
pub record AuthOptions : Type 0 where
  pub required : Bool
  pub tokens : Table String
  pub default_operator : String
  pub lookup : Option (String → Result Identity)

-- What is read of a request: the method, the path, three headers, and a parameter of the query.
pub record Request : Type 0 where
  pub method : String
  pub path : String
  pub bearer : String
  pub upgrade : String
  pub operator : String
  pub access_token : String

abbrev close_word : String → List String → List String
close_word w ws = if is_empty w then ws else w ∷ ws

-- The word that the text begins with, which may be empty, and those that follow.
unfoldable split_words : String → String × List String
unfolding is_space
split_words String.[] = ("", [])
split_words (String.◌∷◌ c s) =
    let rest = split_words s in
    if is_space (code c) then ("", close_word rest.0 rest.1) else (String.◌∷◌ c rest.0, rest.1)

-- `strings.Fields`
unfoldable pub fields : String → List String
unfolding split_words
fields s = let words = split_words s in close_word words.0 words.1

-- `strings.HasPrefix(strings.ToLower(s), word)` for an ASCII word.
unfoldable pub lowers_to_start : String → String → Bool
unfolding lower
lowers_to_start s String.[] = true
lowers_to_start String.[] (String.◌∷◌ d w) = false
lowers_to_start (String.◌∷◌ c s) (String.◌∷◌ d w) = lower (code c) == code d && lowers_to_start s w

-- `strings.Contains(strings.ToLower(s), word)`
unfoldable pub lowers_to_part : String → String → Bool
unfolding lowers_to_start
lowers_to_part String.[] w = is_empty w
lowers_to_part (String.◌∷◌ c s) w =
    let rest = lowers_to_part s w in lowers_to_start (String.◌∷◌ c s) w || rest

-- The second of two words, where the first is the scheme.
abbrev credential : List String → String
credential (scheme ∷ token ∷ []) = if lowers_to scheme "bearer" then token else ""
credential _ = ""

-- The token that a request brings; empty if it brings none.
unfoldable pub raw_token : Request → String
unfolding fields lowers_to lowers_to_part trim_space
raw_token r =
    if is_empty (trim_space r.bearer) && lowers_to_part r.upgrade "websocket"
    then trim_space r.access_token
    else credential (fields (trim_space r.bearer))

-- `bearerSubject`: a token that is equal to the one brought gives its operator.
unfoldable pub bearer_subject : Request → Table String → Option String
bearer_subject r tokens = if is_empty (raw_token r) then none else find (raw_token r) tokens

abbrev non_empty : String → Option String
non_empty s = if is_empty s then none else some s

-- Without a token, and where none is required, the operator is the one of the header, or the default.
abbrev stated_operator : AuthOptions → Request → Option String
stated_operator o r =
    if is_empty (trim_space r.operator)
    then non_empty o.default_operator
    else some (trim_space r.operator)

abbrev or_stated : AuthOptions → Request → Option String → Option String
or_stated o r (some operator) = some operator
or_stated o r none = if o.required then none else stated_operator o r

abbrev registered : Result Identity → Option Identity
registered (err e) = none
registered (ok i) = if is_empty i.id then none else some i

abbrev look_up : Option (String → Result Identity) → String → Option Identity
look_up none operator = some record { id = operator; name = ""; role = "operator" }
look_up (some look) operator = registered (look operator)

abbrev identified : AuthOptions → Option String → Option Identity
identified o none = none
identified o (some operator) = look_up o.lookup operator

-- `Authenticate`: who sends a request that is not public.
unfoldable pub authenticate : AuthOptions → Request → Option Identity
unfolding trim_space
authenticate o r = identified o (or_stated o r (bearer_subject r o.tokens))

abbrev authorized : Request → Option Identity → Decision
authorized r none = unauthorized
authorized r (some who) = authorization r.method r.path who.id who.role

-- The two in their order.
unfoldable pub admit : AuthOptions → Request → Decision
unfolding is_public_request
admit o r = if is_public_request r.method r.path then served else authorized r (authenticate o r)

-- Where tokens are required and operators are looked up, a request that is served and not public
-- has brought a configured token, the operator of that token is registered, and the role of the
-- record, which nothing in the request can set, is served.
pub admit_registered :
    (o : AuthOptions) (r : Request) (look : String → Result Identity)
    → o.required ≡ true
    → o.lookup ≡ some look
    → is_public_request r.method r.path ≡ false
    → admit o r ≡ served
    → (operator : String) × (who : Identity) × (find (raw_token r) o.tokens ≡ some operator)
      × (look operator ≡ ok who)
      × (authorization r.method r.path who.id who.role ≡ served)
unfolding admit authenticate bearer_subject
admit_registered o r look required looked closed e =
    elim (Option-cases (find (raw_token r) o.tokens)) [
      | inl none_is ↦ elim (stuck none_is) [ ]
      | inr (operator, is) ↦ go operator is (look operator) refl
    ]
  where
    stuck : find (raw_token r) o.tokens ≡ none → ⊥
    stuck none_is = ground arith

    go :
        (operator : String)
        → find (raw_token r) o.tokens ≡ some operator
        → (x : Result Identity) → look operator ≡ x
        → (operator : String) × (who : Identity) × (find (raw_token r) o.tokens ≡ some operator)
          × (look operator ≡ ok who)
          × (authorization r.method r.path who.id who.role ≡ served)
    go operator is (err x) answer = elim (refused x answer) [ ]
      where
        refused : (x : Error) → look operator ≡ err x → ⊥
        refused x answer = ground arith
    go operator is (ok who) answer = (operator, who, is, answer, ground arith)
