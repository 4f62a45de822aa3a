-- ===== src/Scenarios/Timeline/Order.antt =====
-- The order of actions and the sort by it (internal/scenarios/engine.go).
use mathlib.Core.List.{Perm}
use mathlib.Core.List.Perm
use c4isr_systems.Prelude.{
  ℕ, ◌+◌, ◌≤◌, ◌≡◌, ◌↔◌, refl, true, false, some, List, [], ◌∷◌, arith, All, Bool-cases, inl, inr,
  ℤ, pos, negsuc, max_int64, suc, length,
}
use c4isr_systems.Scenarios.Timeline.{Action, action_before, add_milliseconds, insert, sort}

-- No later element comes before an earlier one.
abbrev pub IsSorted : List Action → Type 0
IsSorted [] = Unit
IsSorted (a ∷ rest) = All (λ b. action_before b a ≡ false) rest × IsSorted rest

not_before_trans :
    (a b c : Action)
    → action_before c b ≡ false
    → action_before b a ≡ false
    → action_before c a ≡ false
not_before_trans a b c h k = ground arith

pub All-not_before_trans :
    (a b : Action) (rest : List Action)
    → action_before b a ≡ false
    → All (λ c. action_before c b ≡ false) rest
    → All (λ c. action_before c a ≡ false) rest
All-not_before_trans a b [] h hs = tt
All-not_before_trans a b (c ∷ rest) h hs =
    (not_before_trans a b c hs.0 h, All-not_before_trans a b rest h hs.1)

before_asym : (a b : Action) → action_before b a ≡ true → action_before a b ≡ false
before_asym a b h = ground arith

pub All-insert {κ} :
    (P : Action → Type κ) (a : Action) (rest : List Action)
    → P a
    → All P rest
    → All P (insert a rest)
unfolding insert
All-insert P a [] h hs = (h, tt)
All-insert P a (b ∷ bs) h hs = elim (Bool-cases (action_before b a)) [
  | inl before ↦ rw before (hs.0, All-insert P a bs h hs.1)
  | inr after ↦ rw after (h, hs)
]

pub insert-IsSorted : (a : Action) (rest : List Action) → IsSorted rest → IsSorted (insert a rest)
unfolding insert
insert-IsSorted a [] s = (tt, tt)
insert-IsSorted a (b ∷ bs) s = elim (Bool-cases (action_before b a)) [
  | inl before ↦ rw before (
    All-insert (λ c. action_before c b ≡ false) a bs (before_asym a b before) s.0,
    insert-IsSorted a bs s.1,
  )
  | inr after ↦ rw after ((after, All-not_before_trans a b bs after s.0), s)
]

insert-perm : (a : Action) (rest : List Action) → Perm (insert a rest) (a ∷ rest)
unfolding insert
insert-perm a [] = Perm.refl (a ∷ [])
insert-perm a (b ∷ bs) = elim (Bool-cases (action_before b a)) [
  | inl before ↦ rw before (Perm.trans (Perm.cons b (insert-perm a bs)) (Perm.swap a b bs))
  | inr after ↦ rw after (Perm.refl (a ∷ b ∷ bs))
]

pub sort-IsSorted : (xs : List Action) → IsSorted (sort xs)
unfolding sort
sort-IsSorted [] = tt
sort-IsSorted (a ∷ rest) = insert-IsSorted a (sort rest) (sort-IsSorted rest)

pub sort-perm : (xs : List Action) → Perm (sort xs) xs
unfolding sort
sort-perm [] = Perm.refl []
sort-perm (a ∷ rest) = Perm.trans (insert-perm a (sort rest)) (Perm.cons a (sort-perm rest))

pub All-sort {κ} : (P : Action → Type κ) (xs : List Action) → All P xs → All P (sort xs)
unfolding sort
All-sort P [] hs = tt
All-sort P (a ∷ rest) hs = All-insert P a (sort rest) hs.0 (All-sort P rest hs.1)

length-insert : (a : Action) (rest : List Action) → length (insert a rest) ≡ suc (length rest)
unfolding insert
length-insert a [] = refl
length-insert a (b ∷ bs) = ground (arith, length-insert a bs)

pub length-sort : (xs : List Action) → length (sort xs) ≡ length xs
unfolding sort
length-sort [] = refl
length-sort (a ∷ rest) = omega (arith, length-insert a (sort rest), length-sort rest)

-- `addMilliseconds` answers exactly when both operands are not negative and their sum is an int64,
-- and then with the sum.
pub add_milliseconds_exact :
    (base delta : ℤ) (r : ℕ)
    → (add_milliseconds base delta ≡ some r)
      ↔ ((b : ℕ) × (d : ℕ) × (base ≡ pos b) × (delta ≡ pos d) × (b + d ≤ max_int64) × (r ≡ b + d))
unfolding add_milliseconds
add_milliseconds_exact (pos b) (pos d) r =
    (λ h. (b, d, refl, refl, ground arith, ground arith), λ (b', d', eb, ed, le, er). ground arith)
add_milliseconds_exact (pos b) (negsuc d) r = (λ h. ground arith, λ (b', d', eb, ed, le, er). cc)
add_milliseconds_exact (negsuc b) delta r = (λ h. ground arith, λ (b', d', eb, ed, le, er). cc)
