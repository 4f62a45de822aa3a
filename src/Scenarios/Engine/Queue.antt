-- ===== src/Scenarios/Engine/Queue.antt =====
-- The two queues of a run: the static timeline and the dynamic actions
-- (internal/scenarios/engine.go: peekNext, popNext, scheduleAfterMany).
use c4isr_systems.Prelude.{
  ℕ, zero, suc, ◌≤◌, ◌<◌, ◌≡◌, ◌⊎◌, inl, inr, refl, sym, subst, false, Option, none, some, List, [],
  ◌∷◌, arith, All, drop, head?, get_elem?, drop-get_elem?, Option-cases, Bool-cases, ◌==◌,
}
use c4isr_systems.Scenarios.Timeline.{Action, action_before}
use c4isr_systems.Scenarios.Timeline.Order.{IsSorted, All-not_before_trans}
use c4isr_systems.Scenarios.Engine.{Engine, candidate, earlier, peek_next, pop_next, pop_pending}

-- What is left of the static timeline.
abbrev pub upcoming : Engine → List Action
upcoming e = drop e.next_static e.static

-- Both queues are sorted, a number parts the sequence numbers of the static actions from those of the
-- dynamic ones, and the counter has passed every number that is in use.
pub record IsQueue (bound : ℕ) (e : Engine) : Type 0 where
  pub static_sorted : IsSorted (upcoming e)
  pub pending_sorted : IsSorted e.pending
  pub static_low : All (λ a. a.seq ≤ bound) (upcoming e)
  pub pending_high : All (λ a. bound < a.seq) e.pending
  pub parted : bound ≤ e.next_seq
  pub numbered : All (λ x. x.sequence ≤ e.next_seq) e.event_states

-- Nothing that waits comes before the action.
abbrev pub IsFirst : Action → Engine → Type 0
IsFirst a e =
    All (λ b. action_before b a ≡ false) (upcoming e)
    × All (λ b. action_before b a ≡ false) e.pending

not_before_self : (a : Action) → action_before a a ≡ false
not_before_self a = ground arith

head_first :
    (a : Action) (rest : List Action)
    → IsSorted (a ∷ rest)
    → All (λ b. action_before b a ≡ false) (a ∷ rest)
head_first a rest s = (not_before_self a, s.0)

-- Nothing in either list comes before the action.
abbrev Leads : List Action → List Action → Action → Type 0
Leads ss ps a = All (λ b. action_before b a ≡ false) ss × All (λ b. action_before b a ≡ false) ps

-- The choice between two sorted queues.
earlier_first :
    (ss ps : List Action) {a : Action}
    → IsSorted ss
    → IsSorted ps
    → earlier (head? ss) (head? ps) ≡ some a
    → Leads ss ps a
earlier_first [] [] sorted_s sorted_p h = cc
earlier_first (s ∷ ss) [] {a} sorted_s sorted_p h =
    let same : s ≡ a = ground arith in subst (Leads (s ∷ ss) []) same (head_first s ss sorted_s, tt)
earlier_first [] (p ∷ ps) {a} sorted_s sorted_p h =
    let same : p ≡ a = ground arith in subst (Leads [] (p ∷ ps)) same (tt, head_first p ps sorted_p)
earlier_first (s ∷ ss) (p ∷ ps) {a} sorted_s sorted_p h = elim (Bool-cases (action_before p s)) [
  | inl before ↦
      let same : p ≡ a = ground arith in
      let after : action_before s p ≡ false = ground arith in
      subst (Leads (s ∷ ss) (p ∷ ps)) same
        ((after, All-not_before_trans p s ss after sorted_s.0), head_first p ps sorted_p)
  | inr after ↦
      let same : s ≡ a = ground arith in
      subst (Leads (s ∷ ss) (p ∷ ps)) same
        (head_first s ss sorted_s, (after, All-not_before_trans s p ps after sorted_p.0))
]

head?-drop : (xs : List Action) (i : ℕ) → head? (drop i xs) ≡ get_elem? xs i
head?-drop [] zero = refl
head?-drop [] (suc i) = refl
head?-drop (x ∷ xs) zero = refl
head?-drop (x ∷ xs) (suc i) = head?-drop xs i

-- `peekNext` picks an action before which nothing waits, and leaves the engine as it is.
pub peek_next-IsFirst :
    (bound : ℕ) (e : Engine) {a : Action}
    → IsQueue bound e
    → (peek_next e).0 ≡ some a
    → IsFirst a e × ((peek_next e).1 ≡ e)
unfolding peek_next
peek_next-IsFirst bound e {a} q h =
    let chosen : candidate e ≡ some a = ground arith in
    let by_heads : earlier (head? (upcoming e)) (head? e.pending) ≡ some a =
      rw (head?-drop e.static e.next_static) chosen in
    (earlier_first (upcoming e) e.pending q.static_sorted q.pending_sorted by_heads, ground arith)

-- What the two queues hold, before and after an action is taken out.
abbrev pub Takes : Action → Engine → Engine → Type 0
Takes a e e' =
    ((upcoming e ≡ a ∷ upcoming e') × (e'.pending ≡ e.pending))
    ⊎ ((upcoming e' ≡ upcoming e) × (e.pending ≡ a ∷ e'.pending))

static_head_low :
    (bound : ℕ) (e : Engine) {a : Action}
    → IsQueue bound e
    → get_elem? e.static e.next_static ≡ some a
    → a.seq ≤ bound
static_head_low bound e {a} q h =
    (subst (All (λ b. b.seq ≤ bound)) (drop-get_elem? e.static e.next_static h) q.static_low).0

pop_static :
    (e : Engine) {a : Action}
    → get_elem? e.static e.next_static ≡ some a
    → pop_next a.seq e ≡ (some a, record e { next_static = suc e.next_static })
unfolding pop_next
pop_static e h = ground arith

pop_dynamic :
    (bound : ℕ) (e : Engine) (p : Action) (ps : List Action)
    → IsQueue bound e
    → e.pending ≡ p ∷ ps
    → pop_next p.seq e ≡ (some p, record e { pending = ps })
unfolding pop_next
pop_dynamic bound e p ps q h =
    let high : bound < p.seq = (subst (All (λ b. bound < b.seq)) h q.pending_high).0 in
    elim (Option-cases (get_elem? e.static e.next_static)) [
      | inl gone ↦ ground arith
      | inr (s, there) ↦ ground (arith, static_head_low bound e q there)
    ]

Taken : Action → Engine → Option Action × Engine → Type 0
Taken a e r = (r.0 ≡ some a) × Takes a e r.1

take_static :
    (e : Engine) {a : Action}
    → get_elem? e.static e.next_static ≡ some a
    → Taken a e (pop_next a.seq e)
unfolding Taken
take_static e {a} h =
    subst (Taken a e) (sym (pop_static e h))
      (refl, inl (drop-get_elem? e.static e.next_static h, refl))

take_dynamic :
    (bound : ℕ) (e : Engine) (p : Action) (ps : List Action)
    → IsQueue bound e
    → e.pending ≡ p ∷ ps
    → Taken p e (pop_next p.seq e)
unfolding Taken
take_dynamic bound e p ps q h =
    subst (Taken p e) (sym (pop_dynamic bound e p ps q h)) (refl, inr (refl, h))

-- The picked action is the head of one of the queues.
earlier-cases :
    (s p : Option Action) {a : Action} → earlier s p ≡ some a → (s ≡ some a) ⊎ (p ≡ some a)
earlier-cases none none h = cc
earlier-cases (some s) none h = inl h
earlier-cases none (some p) h = inr h
earlier-cases (some s) (some p) h = ground arith

head?-cons :
    (xs : List Action) {a : Action} → head? xs ≡ some a → (rest : List Action) × (xs ≡ a ∷ rest)
head?-cons [] h = cc
head?-cons (x ∷ xs) h = (xs, ground arith)

-- If nothing has changed since `peekNext`, `popNext` takes out the action that it picked, from one
-- queue, and leaves the other as it is.
pub pop_next-peek_next :
    (bound : ℕ) (e : Engine) {a : Action}
    → IsQueue bound e
    → (peek_next e).0 ≡ some a
    → ((pop_next a.seq e).0 ≡ some a) × Takes a e (pop_next a.seq e).1
unfolding peek_next Taken
pop_next-peek_next bound e {a} q h =
    let chosen : candidate e ≡ some a = ground arith in
    elim (earlier-cases (get_elem? e.static e.next_static) (head? e.pending) chosen) [
      | inl s ↦ take_static e s
      | inr p ↦ let (rest, at) = head?-cons e.pending p in take_dynamic bound e a rest q at
    ]

TakesIf : Engine → Option Action × Engine → Type 0
TakesIf e r = (b : Action) → r.0 ≡ some b → Takes b e r.1

-- Whatever number it is asked for, what `popNext` hands out it has taken from the head of a queue.
pub pop_next-Takes :
    (seq : ℕ) (e : Engine) {b : Action} → (pop_next seq e).0 ≡ some b → Takes b e (pop_next seq e).1
unfolding TakesIf pop_next
pop_next-Takes seq e {b} h = statics (get_elem? e.static e.next_static) refl b h
  where
    dynamics :
        (ps : List Action)
        → e.pending ≡ ps
        → (pop_next seq e ≡ pop_pending seq e.pending e)
        → TakesIf e (pop_next seq e)
    dynamics [] ep eq b h = absurd (ground arith)
    dynamics (p ∷ ps) ep eq b h =
        let same : p ≡ b = ground arith in
        let left : (pop_next seq e).1 ≡ record e { pending = ps } = ground arith in
        subst (λ g. Takes b e g) (sym left) (inr (refl, rw (← same) ep))

    statics :
        (s : Option Action) → get_elem? e.static e.next_static ≡ s → TakesIf e (pop_next seq e)
    statics none es b h = dynamics e.pending refl (ground arith) b h
    statics (some s) es b h = elim (Bool-cases (s.seq == seq)) [
      | inr other ↦ dynamics e.pending refl (ground arith) b h
      | inl fits ↦
          let same : s ≡ b = ground arith in
          let left : (pop_next seq e).1 ≡ record e { next_static = suc e.next_static } =
            ground arith in
          subst (λ g. Takes b e g) (sym left)
            (inl (rw (← same) (drop-get_elem? e.static e.next_static es), refl))
    ]
