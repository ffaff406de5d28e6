-- ===== src/Relay/Projection/Reflects.antt =====
-- The balances reflect the projected entries, each of them once
-- (apps/outbox-relay/src/relay/projection.service.ts).
use adaptive_financial_os.Common.{
  ℕ, ◌+◌, ◌<◌, ◌≡◌, refl, sym, ap, ◌∙◌, subst, Text, text, ℤ, pos, ◌+ℤ◌, ◌-ℤ◌, int_laws, none, List,
  [], ◌∷◌, ◌++◌, All, Bool, true, false, arith, Bool-cases, inl, inr, ◌==◌, ◌&&◌, text_eq,
  text_beq_iff, nat_beq, if◌then◌else◌, Option-cases,
}
use adaptive_financial_os.Common.Double.{carried}
use adaptive_financial_os.Common.Double.Laws.{carried-small}
use adaptive_financial_os.Core.Types.{DebitCredit, debit, credit}
use adaptive_financial_os.Db.{Database, LineRow, ProjectionRow, BalanceRow, part}
use adaptive_financial_os.Db.Session.{Faults, Session, Outcome, value, throw}
use adaptive_financial_os.Db.Ensures.{Ends}
use adaptive_financial_os.Relay.Envelope.{OutboxEnvelope}
use adaptive_financial_os.Relay.Projection.{
  entry_lines, projection_row, is_row_of, delta, new_balance, raised_balance, upsert, project,
  project_aggregate,
}
use adaptive_financial_os.Relay.Projection.Atomic.{
  upsert_all, IsProjected, Projects, Throws, Answers, project-atomic,
}

abbrev pub total_on : DebitCredit → BalanceRow → ℕ
total_on debit r = r.debit_total
total_on credit r = r.credit_total

-- What the balances hold for an account of a tenant, on a side.
abbrev pub balance_total : DebitCredit → Text → ℕ → List BalanceRow → ℕ
balance_total k t a [] = 0
balance_total k t a (r ∷ rs) = if is_row_of t a r then total_on k r else balance_total k t a rs

-- What lines add up to for it, each amount as `read` gives it: `carried` as the relay stores it, or
-- `exact` as it stands in the line.
abbrev pub exact : ℕ → ℕ
exact n = n

abbrev pub is_line_of : Text → ℕ → LineRow → Bool
is_line_of t a l = l.tenant_id == t && nat_beq l.account_id a

abbrev pub account_total : (ℕ → ℕ) → DebitCredit → Text → ℕ → List LineRow → ℕ
account_total read k t a [] = 0
account_total read k t a (l ∷ ls) =
    (if is_line_of t a l then part k l.direction (read l.amount) else 0)
    + account_total read k t a ls

-- What the lines of all projected entries add up to for it.
abbrev pub projected_total :
    (ℕ → ℕ) → DebitCredit → Text → ℕ → List ProjectionRow → List LineRow → ℕ
projected_total read k t a [] lines = 0
projected_total read k t a (p ∷ ps) lines =
    account_total read k t a (entry_lines p.entry_id lines) + projected_total read k t a ps lines

abbrev pub IsNet : BalanceRow → Type 0
IsNet r = r.net_balance ≡ pos r.debit_total -ℤ pos r.credit_total

-- Each account's balance is the sum of the lines of the projected entries, on both sides, each
-- amount as `read` gives it, and the net balance is the difference of the two.
pub record IsReflected (read : ℕ → ℕ) (db : Database) : Type 0 where
  pub totals :
      (k : DebitCredit) (t : Text) (a : ℕ)
      → balance_total k t a db.balances ≡ projected_total read k t a db.projections db.lines
  pub nets : All IsNet db.balances

pub total_on-new : (k : DebitCredit) (l : LineRow) → total_on k (new_balance l) ≡ delta k l
total_on-new debit l = refl
total_on-new credit l = refl

pub total_on-raised :
    (k : DebitCredit) (l : LineRow) (r : BalanceRow)
    → total_on k (raised_balance l r) ≡ total_on k r + delta k l
total_on-raised debit l r = refl
total_on-raised credit l r = refl

balance_total-upsert :
    (k : DebitCredit) (t : Text) (a : ℕ) (l : LineRow) (bs : List BalanceRow)
    → balance_total k t a (upsert l bs)
      ≡ balance_total k t a bs + (if is_line_of t a l then delta k l else 0)
unfolding upsert
balance_total-upsert k t a l [] = ground (arith, total_on-new k l)
balance_total-upsert k t a l (r ∷ bs) = ground (
  arith,
  total_on-raised k l r,
  balance_total-upsert k t a l bs,
  text_beq_iff l.tenant_id t,
  text_beq_iff r.tenant_id t,
  text_beq_iff r.tenant_id l.tenant_id,
)

pub balance_total-upsert_all :
    (k : DebitCredit) (t : Text) (a : ℕ) (ls : List LineRow) (bs : List BalanceRow)
    → balance_total k t a (upsert_all ls bs)
      ≡ balance_total k t a bs + account_total carried k t a ls
balance_total-upsert_all k t a [] bs = omega arith
balance_total-upsert_all k t a (l ∷ ls) bs =
    omega (arith, balance_total-upsert_all k t a ls (upsert l bs), balance_total-upsert k t a l bs)

raised-IsNet :
    (d c x y : ℕ) (n : ℤ) → n ≡ pos d -ℤ pos c → n +ℤ (pos x -ℤ pos y) ≡ pos (d + x) -ℤ pos (c + y)
raised-IsNet d c x y n h = rw h (omega int_laws)

upsert-IsNet : (l : LineRow) (bs : List BalanceRow) → All IsNet bs → All IsNet (upsert l bs)
unfolding upsert
upsert-IsNet l [] h = (refl, tt)
upsert-IsNet l (r ∷ bs) h = elim (Bool-cases (is_row_of l.tenant_id l.account_id r)) [
  | inl e ↦ rw e (raised-IsNet r.debit_total r.credit_total _ _ r.net_balance h.0, h.1)
  | inr e ↦ rw e (h.0, upsert-IsNet l bs h.1)
]

upsert_all-IsNet :
    (ls : List LineRow) (bs : List BalanceRow) → All IsNet bs → All IsNet (upsert_all ls bs)
upsert_all-IsNet [] bs h = h
upsert_all-IsNet (l ∷ ls) bs h = upsert_all-IsNet ls (upsert l bs) (upsert-IsNet l bs h)

projected_total-append :
    (k : DebitCredit) (t : Text) (a : ℕ) (ps : List ProjectionRow) (p : ProjectionRow)
    (lines : List LineRow)
    → projected_total carried k t a (ps ++ p ∷ []) lines
      ≡ projected_total carried k t a ps lines
        + account_total carried k t a (entry_lines p.entry_id lines)
projected_total-append k t a [] p lines = omega arith
projected_total-append k t a (q ∷ ps) p lines =
    omega (arith, projected_total-append k t a ps p lines)

module _ (c db : Database) (id : ℕ) where
  projected-IsReflected : IsProjected c db id → IsReflected carried c → IsReflected carried db
  projected-IsReflected p h = rw p.stored (record {
    totals = λ k t a. omega (
      arith,
      balance_total-upsert_all k t a (entry_lines id c.lines) c.balances,
      h.totals k t a,
      projected_total-append k t a c.projections
          (projection_row id p.entry (entry_lines id c.lines)) c.lines,
    );
    nets = upsert_all-IsNet (entry_lines id c.lines) c.balances h.nets;
  })

  same-IsReflected : db ≡ c → IsReflected carried c → IsReflected carried db
  same-IsReflected e h = subst (IsReflected carried) (sym e) h

  Throws-IsReflected : Throws c id db → IsReflected carried c → IsReflected carried db
  Throws-IsReflected (inl e) h = same-IsReflected e h
  Throws-IsReflected (inr p) h = projected-IsReflected p h

  Projects-IsReflected : Projects c id true db → IsReflected carried c → IsReflected carried db
  Projects-IsReflected (inl e) h = same-IsReflected e.0 h
  Projects-IsReflected (inr p) h = projected-IsReflected p h

Ends-IsReflected :
    (c : Database) (envelope : OutboxEnvelope) (id : ℕ) (r : Outcome Bool × Session)
    → Ends (Answers c envelope id) (Throws c id) r
    → IsReflected carried c
    → IsReflected carried r.1.committed
Ends-IsReflected c envelope id (value true, s) f h = Projects-IsReflected c s.committed id f.0 h
Ends-IsReflected c envelope id (value false, s) f h = same-IsReflected c s.committed id f.0 h
Ends-IsReflected c envelope id (throw e, s) f h = Throws-IsReflected c s.committed id f h

pub project-no_aggregate :
    (faults : Faults) (envelope : OutboxEnvelope) (s : Session)
    → envelope.aggregate_id ≡ none
    → project faults envelope s ≡ (value false, s)
unfolding project project_aggregate
project-no_aggregate faults envelope s e =
    elim (Bool-cases (envelope.event_type == text "journal_entry.posted")) [
      | inl k ↦ rw (k, e)
      | inr k ↦ rw k
    ]

pub project-IsReflected-carried :
    (faults : Faults) (envelope : OutboxEnvelope) (s : Session)
    → IsReflected carried s.committed
    → IsReflected carried (project faults envelope s).1.committed
project-IsReflected-carried faults envelope s h = elim (Option-cases envelope.aggregate_id) [
  | inl e ↦ rw (project-no_aggregate faults envelope s e) h
  | inr (id, e) ↦
      Ends-IsReflected s.committed envelope id (project faults envelope s)
        (project-atomic faults envelope id s e) h
]

-- The lines stay.
pub project-lines :
    (faults : Faults) (envelope : OutboxEnvelope) (s : Session)
    → (project faults envelope s).1.committed.lines ≡ s.committed.lines
project-lines faults envelope s = elim (Option-cases envelope.aggregate_id) [
  | inl e ↦ rw (project-no_aggregate faults envelope s e) refl
  | inr (id, e) ↦
      Ends-lines s.committed envelope id (project faults envelope s)
        (project-atomic faults envelope id s e)
]
  where
    either : (c db : Database) (id : ℕ) → Throws c id db → db.lines ≡ c.lines
    either c db id (inl e) = ap (λ (d : Database). d.lines) e
    either c db id (inr p) = ap (λ (d : Database). d.lines) p.stored

    answered : (c db : Database) (id : ℕ) → Projects c id true db → db.lines ≡ c.lines
    answered c db id (inl e) = ap (λ (d : Database). d.lines) e.0
    answered c db id (inr p) = ap (λ (d : Database). d.lines) p.stored

    Ends-lines :
        (c : Database) (envelope : OutboxEnvelope) (id : ℕ) (r : Outcome Bool × Session)
        → Ends (Answers c envelope id) (Throws c id) r
        → r.1.committed.lines ≡ c.lines
    Ends-lines c envelope id (value true, s) f = answered c s.committed id f.0
    Ends-lines c envelope id (value false, s) f = ap (λ (d : Database). d.lines) f.0
    Ends-lines c envelope id (throw e, s) f = either c s.committed id f

-- Amounts that doubles carry without a change: below 10^11 units of the currency.
abbrev pub AreSmall : List LineRow → Type 0
AreSmall = All (λ (l : LineRow). l.amount < 1000000000000000)

pub entry_lines-AreSmall : (id : ℕ) (ls : List LineRow) → AreSmall ls → AreSmall (entry_lines id ls)
entry_lines-AreSmall id [] h = tt
entry_lines-AreSmall id (l ∷ ls) h = elim (Bool-cases (nat_beq l.entry_id id)) [
  | inl e ↦ rw e (h.0, entry_lines-AreSmall id ls h.1)
  | inr e ↦ rw e (entry_lines-AreSmall id ls h.1)
]

account_total-small :
    (k : DebitCredit) (t : Text) (a : ℕ) (ls : List LineRow)
    → AreSmall ls
    → account_total carried k t a ls ≡ account_total exact k t a ls
account_total-small k t a [] h = refl
account_total-small k t a (l ∷ ls) h =
    rw (carried-small l.amount h.0) (rw (account_total-small k t a ls h.1) refl)

projected_total-small :
    (k : DebitCredit) (t : Text) (a : ℕ) (ps : List ProjectionRow) (ls : List LineRow)
    → AreSmall ls
    → projected_total carried k t a ps ls ≡ projected_total exact k t a ps ls
projected_total-small k t a [] ls h = refl
projected_total-small k t a (p ∷ ps) ls h = omega (
  arith,
  account_total-small k t a (entry_lines p.entry_id ls) (entry_lines-AreSmall p.entry_id ls h),
  projected_total-small k t a ps ls h,
)

module _ (db : Database) (small : AreSmall db.lines) where
  pub carried-IsReflected : IsReflected exact db → IsReflected carried db
  carried-IsReflected h = record {
    totals =
        λ k t a. h.totals k t a ∙ sym (projected_total-small k t a db.projections db.lines small);
    nets = h.nets;
  }

  pub exact-IsReflected : IsReflected carried db → IsReflected exact db
  exact-IsReflected h = record {
    totals = λ k t a. h.totals k t a ∙ projected_total-small k t a db.projections db.lines small;
    nets = h.nets;
  }

-- While the amounts of the lines are below 10^11: if the balances are the exact sums of the lines
-- of the projected entries, each entry counted once, and each net balance is the difference of the
-- two sums, they are so after any delivery of any envelope, a redelivery or one that fails at any
-- statement included.
pub project-IsReflected :
    (faults : Faults) (envelope : OutboxEnvelope) (s : Session)
    → AreSmall s.committed.lines
    → IsReflected exact s.committed
    → IsReflected exact (project faults envelope s).1.committed
project-IsReflected faults envelope s small h =
    exact-IsReflected (project faults envelope s).1.committed
      (subst AreSmall (sym (project-lines faults envelope s)) small)
      (project-IsReflected-carried faults envelope s (carried-IsReflected s.committed small h))
