-- ===== src/Commands/Graph.antt =====
-- The diagram of the command lifecycle (internal/commands/domain.go).
use c4isr_systems.Prelude.{
  ℕ, zero, suc, ◌+◌, ◌≤◌, ◌<◌, ◌≡◌, ap, ◌↔◌, true, false, arith, refl, eq_iff,
}
use c4isr_systems.Commands.{
  State, created, queued, sent, acknowledged, completed, rejected, failed, timed_out, cancelled,
  other, can_transition, is_terminal, valid_state,
}
use c4isr_systems.Commands.Store.{same_state}

-- The comparison of states decides their equality.
pub same_state_sound : (a b : State) → same_state a b ≡ true → a ≡ b
unfolding same_state
same_state_sound (other s) (other t) h = ap other ((eq_iff s t).0 h)
same_state_sound created created h = refl
same_state_sound queued queued h = refl
same_state_sound sent sent h = refl
same_state_sound acknowledged acknowledged h = refl
same_state_sound completed completed h = refl
same_state_sound rejected rejected h = refl
same_state_sound failed failed h = refl
same_state_sound timed_out timed_out h = refl
same_state_sound cancelled cancelled h = refl
same_state_sound _ _ h = cc

pub same_state_refl : (a : State) → same_state a a ≡ true
unfolding same_state
same_state_refl (other s) = (eq_iff s s).1 refl
same_state_refl created = refl
same_state_refl _ = refl

-- A way of n moves in the diagram.
pub data Route : State → State → ℕ → Type 0 where
  here : {s : State} → Route s s zero
  move : {s t u : State} {n : ℕ} → can_transition s t ≡ true → Route t u n → Route s u (suc n)

-- How far a state stands from the start.
abbrev depth : State → ℕ
depth created = 0
depth queued = 1
depth sent = 2
depth acknowledged = 3
depth _ = 4

can_transition-depth : (s t : State) → can_transition s t ≡ true → depth s < depth t
unfolding can_transition
can_transition-depth s t h = ground arith

depth-le : (s : State) → depth s ≤ 4
depth-le created = omega arith
depth-le _ = omega arith

Route-depth : {s t : State} {n : ℕ} → Route s t n → depth s + n ≤ depth t
Route-depth here = omega arith
Route-depth (move {s = a} {t = b} h r) = omega (arith, can_transition-depth a b h, Route-depth r)

-- The lifecycle ends: no command, from whatever state, makes more than four moves.
pub Route-bounded : {s t : State} {n : ℕ} → Route s t n → n ≤ 4
Route-bounded {s} {t} r = omega (arith, Route-depth r, depth-le t)

-- A valid state is terminal exactly if no move leaves it.
pub is_terminal_iff :
    (s : State)
    → valid_state s ≡ true
    → (is_terminal s ≡ true) ↔ ((t : State) → can_transition s t ≡ false)
unfolding is_terminal can_transition valid_state
is_terminal_iff created v = (λ h. cc, λ h. cc (h queued))
is_terminal_iff queued v = (λ h. cc, λ h. cc (h sent))
is_terminal_iff sent v = (λ h. cc, λ h. cc (h acknowledged))
is_terminal_iff acknowledged v = (λ h. cc, λ h. cc (h completed))
is_terminal_iff (other s) v = cc
is_terminal_iff completed v = (λ h t. refl, λ h. refl)
is_terminal_iff rejected v = (λ h t. refl, λ h. refl)
is_terminal_iff failed v = (λ h t. refl, λ h. refl)
is_terminal_iff timed_out v = (λ h t. refl, λ h. refl)
is_terminal_iff cancelled v = (λ h t. refl, λ h. refl)

-- From a terminal state nothing moves.
pub terminal_stuck : (s t : State) → is_terminal s ≡ true → can_transition s t ≡ false
unfolding is_terminal can_transition
terminal_stuck s t h = ground arith
