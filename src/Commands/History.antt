-- ===== src/Commands/History.antt =====
-- What holds over any sequence of calls of the command service, each under its own failures and
-- interference (internal/commands/service.go).
use c4isr_systems.Prelude.{
  ℕ, suc, String, ◌≡◌, inl, inr, refl, Bool, true, false, none, some, List, [], ◌∷◌, ◌∙◌, arith,
  Bool-cases, Option-cases, All, str_eq, eq_iff, sym, subst,
}
use c4isr_systems.Platform.Apperr.{Result, ok, err}
use c4isr_systems.Platform.Table.{Table, find, put, find-put}
use c4isr_systems.Commands.{
  State, Command, IssueInput, acknowledged, completed, sent, rejected, failed, timed_out, cancelled,
  can_transition, is_terminal, normalize, validate,
}
use c4isr_systems.Commands.Store.{
  Env, create_command, same_state, moved, inserted, create, transition_row, insert_row,
}
use c4isr_systems.Commands.Service.{
  Db, draft, issue, issue_known, announce_issued, transition, acknowledge, complete, reject, fail,
  timeout, cancel, reason_or,
}
use c4isr_systems.Commands.Graph.{Route, here, move, terminal_stuck}
use c4isr_systems.Commands.Safety.{
  Outcome, transition_outcome, transition_row_ok, transition_row_err,
}

-- One version of a command and a later one.
pub record Evolved (r r' : Command) : Type 0 where
  pub way : (n : ℕ) × Route r.state r'.state n
  pub same_id : r'.id ≡ r.id
  pub same_asset : r'.asset_id ≡ r.asset_id
  pub same_payload : r'.payload ≡ r.payload
  pub same_created : r'.created_at ≡ r.created_at
  pub frozen : is_terminal r.state ≡ true → r' ≡ r

Evolved-refl : (r : Command) → Evolved r r
Evolved-refl r = record {
  way = (0, here);
  same_id = refl;
  same_asset = refl;
  same_payload = refl;
  same_created = refl;
  frozen = λ _. refl;
}

Route-snoc : {s t u : State} {n : ℕ} → Route s t n → can_transition t u ≡ true → Route s u (suc n)
Route-snoc here h = move h here
Route-snoc (move g r) h = move g (Route-snoc r h)

-- A move of the diagram carries the evolution on.
Evolved-moved :
    (now : ℕ) (to : State) (reason : String) (r q : Command)
    → Evolved r q
    → can_transition q.state to ≡ true
    → Evolved r (moved now to reason q)
unfolding moved
Evolved-moved now to reason r q e allowed = record {
  way = (suc e.way.0, Route-snoc e.way.1 allowed);
  same_id = e.same_id;
  same_asset = e.same_asset;
  same_payload = e.same_payload;
  same_created = e.same_created;
  frozen = λ t.
      let still : is_terminal q.state ≡ true =
        subst (λ x. is_terminal x.state ≡ true) (sym (e.frozen t)) t in
      let stuck : can_transition q.state to ≡ false = terminal_stuck q.state to still in cc;
}

-- Every command of the first table is in the second, evolved.
abbrev pub Evolves : Table Command → Table Command → Type 0
Evolves t u =
    (id : String) (r : Command)
    → find id t ≡ some r
    → (r' : Command) × (find id u ≡ some r') × Evolved r r'

pub Evolves-refl : (t : Table Command) → Evolves t t
Evolves-refl t id r e = (r, e, Evolved-refl r)

Evolves-put :
    (k : String) (q new : Command) (t u : Table Command)
    → Evolves t u
    → find k u ≡ some q
    → ((r : Command) → Evolved r q → Evolved r new)
    → Evolves t (put k new u)
Evolves-put k q new t u ev found step id r e = elim (Bool-cases (str_eq k id)) [
  | inr other ↦
      let (r', at, since) = ev id r e in (r', rw (find-put k id new u) (rw other at), since)
  | inl same ↦
      let (r', at, since) = ev id r e in
      let here_q : r' ≡ q = ground (arith, eq_iff k id) in
      (new, rw (find-put k id new u) (rw same refl), step r (subst (Evolved r) here_q since))
]

Evolves-insert :
    (k : String) (new : Command) (t : Table Command) → find k t ≡ none → Evolves t (put k new t)
Evolves-insert k new t absent id r e = elim (Bool-cases (str_eq k id)) [
  | inr other ↦ (r, rw (find-put k id new t) (rw other e), Evolved-refl r)
  | inl same ↦ absurd (ground (arith, eq_iff k id))
]

-- Under any failures, if the other writers only let commands evolve between the read and the write,
-- then so does the call: no command is lost, each follows a way of the diagram, and a terminal one
-- is not touched.
pub transition-Evolves :
    (env : Env) (id : String) (to : State) (reason actor : String) (db : Db)
    → Evolves db.rows (env.others db.rows)
    → Evolves db.rows (transition env id to reason actor db).1.rows
transition-Evolves env id to reason actor db rely =
    go (transition env id to reason actor db) (transition_outcome env id to reason actor db)
  where
    go : (r : Result Command × Db) → Outcome env id to reason actor db r → Evolves db.rows r.1.rows
    go (err e, after) (inl same, _) = rw same (Evolves-refl db.rows)
    go (err e, after) (inr same, _) = rw same rely
    go (ok c, after) (q, found, allowed, eq, table, out) = rw table (
        Evolves-put id q c db.rows (env.others db.rows) rely found
          (λ r e. rw eq (Evolved-moved env.now to reason r q e allowed)))

Evolves-insert_stamped :
    (k : String) (new stamped : Command) (t : Table Command)
    → find k t ≡ none
    → Evolves t (put k stamped (put k new t))
Evolves-insert_stamped k new stamped t absent id r e = elim (Bool-cases (str_eq k id)) [
  | inr other ↦ (
    r,
    rw (find-put k id stamped (put k new t)) (rw other (rw (find-put k id new t) (rw other e))),
    Evolved-refl r,
  )
  | inl same ↦ absurd (ground (arith, eq_iff k id))
]

stamp-Evolves :
    (env : Env) (k : String) (row : Command) (t : Table Command)
    → find k t ≡ none
    → Evolves t (transition_row env k sent sent "" (put k row t)).1
stamp-Evolves env k row t absent = go (transition_row env k sent sent "" (put k row t)) refl
  where
    go :
        (w : Result Command × Table Command)
        → transition_row env k sent sent "" (put k row t) ≡ w
        → Evolves t w.1
    go (err e, t') h =
        rw (transition_row_err env k sent sent "" (put k row t) h) (Evolves-insert k row t absent)
    go (ok s, t') h =
        let (q, found, state, eq, table) = transition_row_ok env k sent sent "" (put k row t) h in
        rw table (Evolves-insert_stamped k row (moved env.now sent "" q) t absent)

-- A command that is SENT is inserted, and stamped by the second query.
insert_row-sent :
    (env : Env) (c : Command) (t : Table Command)
    → c.state ≡ sent
    → insert_row env c t none
      ≡ transition_row env c.id sent sent "" (put c.id (inserted env.now c) t)
unfolding inserted same_state
insert_row-sent env c t h = ground arith

create-Evolves :
    (env : Env) (c : Command) (t : Table Command) → c.state ≡ sent → Evolves t (create env c t).1
unfolding create
create-Evolves env c t at_sent = elim (Option-cases (env.fault create_command)) [
  | inr (e, fault) ↦ rw (fault, create) (Evolves-refl t)
  | inl runs ↦
      rw (runs, create)
        (elim (Option-cases (find c.id t)) [
          | inr (old, present) ↦ rw present (Evolves-refl t)
          | inl absent ↦ rw absent (
              subst (λ w. Evolves t w.1) (sym (insert_row-sent env c t at_sent))
                (stamp-Evolves env c.id (inserted env.now c) t absent))
        ])
]

announce_issued-rows :
    (actor : String) (db : Db) (w : Result Command × Table Command)
    → (announce_issued actor db w).1.rows ≡ w.1
announce_issued-rows actor db (err e, t) = refl
announce_issued-rows actor db (ok c, t) = refl

-- Issuing a command, under any failures, changes no command that is there.
pub issue-Evolves :
    (env : Env) (input : IssueInput) (db : Db) → Evolves db.rows (issue env input db).1.rows
unfolding issue
issue-Evolves env input db = elim (Option-cases (validate (normalize input))) [
  | inr (e, invalid) ↦ rw (invalid, issue) (Evolves-refl db.rows)
  | inl valid ↦ rw (valid, issue) (known (env.asset_exists (normalize input).asset_id))
]
  where
    known : (r : Result Bool) → Evolves db.rows (issue_known env (normalize input) db r).1.rows
    known (err e) = Evolves-refl db.rows
    known (ok false) = Evolves-refl db.rows
    known (ok true) =
        rw
          (announce_issued-rows (normalize input).actor db
            (create env (draft env (normalize input)) db.rows))
          (create-Evolves env (draft env (normalize input)) db.rows refl)

-- The calls of the service that write.
pub data Call : Type 0 where
  issues : IssueInput → Call
  transitions : (id : String) (to : State) (reason actor : String) → Call
  acknowledges : (id actor : String) → Call
  completes : (id actor : String) → Call
  rejects : (id reason actor : String) → Call
  fails : (id reason actor : String) → Call
  times_out : (id reason actor : String) → Call
  cancels : (id actor : String) → Call

unfoldable pub apply : Env → Call → Db → Result Command × Db
apply env (issues i) db = issue env i db
apply env (transitions id to reason actor) db = transition env id to reason actor db
apply env (acknowledges id actor) db = acknowledge env id actor db
apply env (completes id actor) db = complete env id actor db
apply env (rejects id reason actor) db = reject env id reason actor db
apply env (fails id reason actor) db = fail env id reason actor db
apply env (times_out id reason actor) db = timeout env id reason actor db
apply env (cancels id actor) db = cancel env id actor db

-- The calls one after the other, each with what it finds outside.
unfoldable pub run : List (Env × Call) → Db → Db
run [] db = db
run ((env, call) ∷ calls) db = run calls (apply env call db).1

-- Other writers, too, only let commands evolve.
abbrev pub IsOrderly : Env × Call → Type 0
IsOrderly (env, call) = (t : Table Command) → Evolves t (env.others t)

apply-Evolves :
    (env : Env) (call : Call) (db : Db)
    → ((t : Table Command) → Evolves t (env.others t))
    → Evolves db.rows (apply env call db).1.rows
unfolding apply acknowledge complete reject fail timeout cancel
apply-Evolves env (issues i) db rely = issue-Evolves env i db
apply-Evolves env (transitions id to reason actor) db rely =
    transition-Evolves env id to reason actor db (rely db.rows)
apply-Evolves env (acknowledges id actor) db rely =
    transition-Evolves env id acknowledged "" actor db (rely db.rows)
apply-Evolves env (completes id actor) db rely =
    transition-Evolves env id completed "" actor db (rely db.rows)
apply-Evolves env (rejects id reason actor) db rely =
    transition-Evolves env id rejected (reason_or reason "rejected by asset") actor db
      (rely db.rows)
apply-Evolves env (fails id reason actor) db rely =
    transition-Evolves env id failed (reason_or reason "command execution failed") actor db
      (rely db.rows)
apply-Evolves env (times_out id reason actor) db rely =
    transition-Evolves env id timed_out (reason_or reason "command timed out") actor db
      (rely db.rows)
apply-Evolves env (cancels id actor) db rely =
    transition-Evolves env id cancelled "" actor db (rely db.rows)

Route-append : {s t u : State} {n m : ℕ} → Route s t n → Route t u m → (k : ℕ) × Route s u k
Route-append {m = m} here r = (m, r)
Route-append (move h r) q = let (k, w) = Route-append r q in (suc k, move h w)

Evolved-trans : (a b c : Command) → Evolved a b → Evolved b c → Evolved a c
Evolved-trans a b c e f = record {
  way = Route-append e.way.1 f.way.1;
  same_id = f.same_id ∙ e.same_id;
  same_asset = f.same_asset ∙ e.same_asset;
  same_payload = f.same_payload ∙ e.same_payload;
  same_created = f.same_created ∙ e.same_created;
  frozen =
      λ t. f.frozen (subst (λ x. is_terminal x.state ≡ true) (sym (e.frozen t)) t) ∙ e.frozen t;
}

Evolves-trans : (t u v : Table Command) → Evolves t u → Evolves u v → Evolves t v
Evolves-trans t u v e f id r h =
    let (r1, h1, s1) = e id r h in
    let (r2, h2, s2) = f id r1 h1 in (r2, h2, Evolved-trans r r1 r2 s1 s2)

-- Over any sequence of calls, under any failures and orderly interference, every command that is in
-- the table stays there with its id, asset, payload and time of creation; its states follow a way
-- of the lifecycle diagram; and once it is terminal, no field of it ever changes.
pub run-Evolves :
    (calls : List (Env × Call)) (db : Db)
    → All IsOrderly calls
    → Evolves db.rows (run calls db).rows
unfolding run
run-Evolves [] db rely = Evolves-refl db.rows
run-Evolves ((env, call) ∷ calls) db rely =
    Evolves-trans db.rows (apply env call db).1.rows (run calls (apply env call db).1).rows
      (apply-Evolves env call db rely.0) (run-Evolves calls (apply env call db).1 rely.1)
