-- ===== src/Relay/Projection/Returns.antt =====
-- Without a fault of the database `project` returns
-- (apps/outbox-relay/src/relay/projection.service.ts).
use mathlib.Core.List.{append-nil}
use adaptive_financial_os.Common.{
  ℕ, ◌+◌, ◌≡◌, refl, ◌∙◌, ap, text, Option, none, some, List, [], ◌∷◌, ◌++◌, Bool, true, false,
  Bool-cases, inl, inr, ◌==◌, text_eq, arith,
}
use adaptive_financial_os.Db.{EntryRow, LineRow, balanced_entries}
use adaptive_financial_os.Db.Session.{
  no_faults, Session, Outcome, value, pure, ◌>>=◌, statement, query, begin, rollback, commit,
}
use adaptive_financial_os.Db.Ensures.{Returns, Returns-bind}
use adaptive_financial_os.Relay.Envelope.{OutboxEnvelope}
use adaptive_financial_os.Relay.Projection.{
  find_entry, entry_lines, is_projected, projection_row, select_projection, insert_projection,
  upsert_balance, upsert_balances, after_insert, after_guard, project_body, settle, project_entry,
  project_aggregate, project,
}

upsert_balances-value :
    (ls : List LineRow) (s : Session)
    → s.touched ≡ []
    → (s' : Session) × (upsert_balances no_faults ls s ≡ (value tt, s')) × (s'.touched ≡ [])
unfolding upsert_balances upsert_balance statement
upsert_balances-value [] s t = (s, refl, t)
upsert_balances-value (l ∷ ls) s t = upsert_balances-value ls _ (append-nil s.touched ∙ t)

commit-Returns : (s : Session) → s.touched ≡ [] → Returns ((commit no_faults >>= λ _. pure true) s)
unfolding commit
commit-Returns s t =
    let passes : balanced_entries s.touched s.work.lines ≡ true =
      ap (λ ids. balanced_entries ids s.work.lines) t in
    (
      true,
      record s { committed = s.work; touched = []; count = s.count + 1 },
      ground (arith, passes),
    )

after_insert-Returns :
    (ls : List LineRow) (b : Bool) (s : Session)
    → s.touched ≡ []
    → Returns (after_insert no_faults ls b s)
unfolding after_insert rollback
after_insert-Returns ls false s t = (true, _, refl)
after_insert-Returns ls true s t =
    let (s', e, t') = upsert_balances-value ls s t in
    Returns-bind (upsert_balances no_faults ls) (λ _. commit no_faults >>= λ _. pure true) s s' tt e
      (commit-Returns s' t')

insert_projection-value :
    (id : ℕ) (entry : EntryRow) (ls : List LineRow) (s : Session)
    → s.touched ≡ []
    → (b : Bool) × (s' : Session) × (insert_projection no_faults id entry ls s ≡ (value b, s'))
      × (s'.touched ≡ [])
unfolding insert_projection statement
insert_projection-value id entry ls s t = elim (Bool-cases (is_projected id s.work.projections)) [
  | inl e ↦ (
    false,
    record s { touched = s.touched ++ []; count = s.count + 1 },
    ground (arith, e),
    append-nil s.touched ∙ t,
  )
  | inr e ↦ (
    true,
    record s {
      work = record s.work { projections = s.work.projections ++ projection_row id entry ls ∷ [] };
      touched = s.touched ++ [];
      count = s.count + 1;
    },
    ground (arith, e),
    append-nil s.touched ∙ t,
  )
]

after_guard-Returns :
    (id : ℕ) (entry : EntryRow) (ls : List LineRow) (b : Bool) (s : Session)
    → s.touched ≡ []
    → Returns (after_guard no_faults id entry ls b s)
unfolding after_guard rollback
after_guard-Returns id entry ls true s t = (true, _, refl)
after_guard-Returns id entry ls false s t =
    let (b, s', e, t') = insert_projection-value id entry ls s t in
    Returns-bind (insert_projection no_faults id entry ls) (after_insert no_faults ls) s s' b e
      (after_insert-Returns ls b s' t')

project_body-Returns :
    (id : ℕ) (entry : EntryRow) (ls : List LineRow) (s : Session)
    → Returns (project_body no_faults id entry ls s)
unfolding project_body begin select_projection statement
project_body-Returns id entry ls s =
    after_guard-Returns id entry ls (is_projected id s.committed.projections) _ refl

settle-Returns : (r : Outcome Bool × Session) → Returns r → Returns (settle no_faults r)
settle-Returns r (b, s, e) = (b, _, ap (settle no_faults) e)

project_entry-Returns :
    (id : ℕ) (o : Option EntryRow) (s : Session) → Returns (project_entry no_faults id o s)
unfolding project_entry query
project_entry-Returns id none s = (false, s, refl)
project_entry-Returns id (some entry) s =
    settle-Returns _ (project_body-Returns id entry (entry_lines id s.committed.lines) _)

project_aggregate-Returns : (o : Option ℕ) (s : Session) → Returns (project_aggregate no_faults o s)
unfolding project_aggregate query
project_aggregate-Returns none s = (false, s, refl)
project_aggregate-Returns (some id) s =
    project_entry-Returns id (find_entry id s.committed.entries) _

pub project-Returns : (e : OutboxEnvelope) (s : Session) → Returns (project no_faults e s)
unfolding project
project-Returns e s = elim (Bool-cases (e.event_type == text "journal_entry.posted")) [
  | inl t ↦ rw t (project_aggregate-Returns e.aggregate_id s)
  | inr f ↦ rw f (false, s, refl)
]
