-- ===== src/System/Sound.antt =====
-- What holds of the database of both applications in every order of their steps.
use adaptive_financial_os.Common.{
  ℕ, ◌≡◌, refl, sym, ◌∙◌, subst, Text, Option, List, [], ◌∷◌, ◌++◌, All, Bool, true, false, ◌⊎◌,
  inl, inr, nat_beq, arith, Option-cases,
}
use adaptive_financial_os.Common.Double.{carried}
use adaptive_financial_os.Core.Types.{DebitCredit, debit, credit}
use adaptive_financial_os.Db.{Database, AccountRow, LineRow, ProjectionRow, EventRow}
use adaptive_financial_os.Db.Session.{Faults, Session, Outcome, value, throw}
use adaptive_financial_os.Db.Ensures.{Ends}
use adaptive_financial_os.Api.Ledger.{
  JournalLineDto, PostEntryDto, Response, posted, bad_request, conflict, internal_server_error,
  uncaught, post_entry,
}
use adaptive_financial_os.Api.Ledger.Steps.{AreLinesOf}
use adaptive_financial_os.Api.Ledger.Spec.{IsPosted, Fulfils}
use adaptive_financial_os.Api.Ledger.Atomic.{post_entry-atomic}
use adaptive_financial_os.Api.Ledger.Balanced.{IsBalanced, post_entry-IsBalanced}
use adaptive_financial_os.Relay.Envelope.{OutboxEnvelope}
use adaptive_financial_os.Relay.Projection.{entry_lines, is_projected, projection_row, project}
use adaptive_financial_os.Relay.Projection.Atomic.{
  IsProjected, Projects, Throws, Answers, project-atomic,
}
use adaptive_financial_os.Relay.Projection.Reflects.{
  IsReflected, project-IsReflected-carried, project-no_aggregate, AreSmall, exact,
  exact-IsReflected,
}
use adaptive_financial_os.System.{initial, Step, post, deliver, mark, give_up, Reach, here, next}
use adaptive_financial_os.System.Sums.{
  grand_total, projected_sum, projected_sum-balanced, projected_sum-append, projected_sum-small,
  grand_total-upsert_all, projected_total-kept, projected_sum-kept, KeepsLines, KeepsLines-new,
  IsOf, IsOf-append, find_entry-is_entry,
}

-- No entry is projected twice.
abbrev pub AreOnce : List ProjectionRow → Type 0
AreOnce [] = Unit
AreOnce (p ∷ ps) = (is_projected p.entry_id ps ≡ false) × AreOnce ps

-- The lines of every entry are balanced; the balances are those of the projected entries, account
-- by account and in all, each amount as `read` gives it; and each projection is of an entry that is there, and of no other
-- projection's.
pub record IsSound (read : ℕ → ℕ) (db : Database) : Type 0 where
  pub balanced : IsBalanced db
  pub reflected : IsReflected read db
  pub sums :
      (k : DebitCredit) → grand_total k db.balances ≡ projected_sum read k db.projections db.lines
  pub entries : All (IsOf db.entries) db.projections
  pub once : AreOnce db.projections

initial-IsSound : (accounts : List AccountRow) → IsSound carried (initial accounts)
initial-IsSound accounts = record {
  balanced = λ id. refl;
  reflected = record { totals = λ k t a. refl; nets = tt };
  sums = λ k. refl;
  entries = tt;
  once = tt;
}

-- A change to the outbox alone.
outbox-IsSound :
    (c : Database) (events : List EventRow)
    → IsSound carried c
    → IsSound carried (record c { outbox = events })
outbox-IsSound c events h = record {
  balanced = h.balanced;
  reflected = record { totals = h.reflected.totals; nets = h.reflected.nets };
  sums = h.sums;
  entries = h.entries;
  once = h.once;
}

lines_of-ids :
    (num : Text → Option ℕ) (accounts : List AccountRow) (tenant : Text) (id : ℕ)
    (ls : List JournalLineDto) (rows : List LineRow)
    → AreLinesOf num accounts tenant id ls rows
    → All (λ (r : LineRow). r.entry_id ≡ id) rows
lines_of-ids num accounts tenant id [] [] h = tt
lines_of-ids num accounts tenant id [] (r ∷ rows) h = absurd h
lines_of-ids num accounts tenant id (l ∷ ls) [] h = absurd h
lines_of-ids num accounts tenant id (l ∷ ls) (r ∷ rows) h =
    (h.0.entry, lines_of-ids num accounts tenant id ls rows h.1)

module _ (numeric_in : Text → Option ℕ) (dto : PostEntryDto) (c : Database) where
  -- What a posted request leaves of the projections and the balances.
  posted-IsSound :
      (db : Database) (id : ℕ)
      → IsPosted numeric_in dto c db id
      → IsBalanced db
      → IsSound carried c
      → IsSound carried db
  posted-IsSound db id p b h =
      let kept : All (KeepsLines c.lines (c.lines ++ p.rows)) c.projections =
        KeepsLines-new id c.entries c.projections c.lines p.rows h.entries p.new_entry
          (lines_of-ids numeric_in c.accounts dto.tenant_id id dto.lines p.rows p.lines_of) in
      subst (IsSound carried) (sym p.stored) (record {
        balanced = subst IsBalanced p.stored b;
        reflected = record {
          totals = λ k t a.
              h.reflected.totals k t a
              ∙ sym (projected_total-kept k t a c.projections c.lines (c.lines ++ p.rows) kept);
          nets = h.reflected.nets;
        };
        sums = λ k.
            h.sums k ∙ sym (projected_sum-kept k c.projections c.lines (c.lines ++ p.rows) kept);
        entries = IsOf-append c.entries _ c.projections h.entries;
        once = h.once;
      })

  either-IsSound :
      (db : Database)
      → (db ≡ c) ⊎ ((id : ℕ) × IsPosted numeric_in dto c db id)
      → IsBalanced db
      → IsSound carried c
      → IsSound carried db
  either-IsSound db (inl e) b h = subst (IsSound carried) (sym e) h
  either-IsSound db (inr (id, p)) b h = posted-IsSound db id p b h

  Fulfils-IsSound :
      (r : Response) (db : Database)
      → Fulfils numeric_in dto c r db
      → IsBalanced db
      → IsSound carried c
      → IsSound carried db
  Fulfils-IsSound (posted id true) db f b h = subst (IsSound carried) (sym f.0) h
  Fulfils-IsSound (posted id false) db f b h = posted-IsSound db id f b h
  Fulfils-IsSound bad_request db f b h = subst (IsSound carried) (sym f) h
  Fulfils-IsSound uncaught db f b h = subst (IsSound carried) (sym f) h
  Fulfils-IsSound conflict db f b h = either-IsSound db f b h
  Fulfils-IsSound internal_server_error db f b h = either-IsSound db f b h

AreOnce-append :
    (ps : List ProjectionRow) (p : ProjectionRow)
    → AreOnce ps
    → is_projected p.entry_id ps ≡ false
    → AreOnce (ps ++ p ∷ [])
AreOnce-append [] p h k = (refl, tt)
AreOnce-append (q ∷ ps) p h k =
    (apart q.entry_id ps (ground arith) h.0, AreOnce-append ps p h.1 (ground arith))
  where
    apart :
        (n : ℕ) (ps : List ProjectionRow)
        → nat_beq p.entry_id n ≡ false
        → is_projected n ps ≡ false
        → is_projected n (ps ++ p ∷ []) ≡ false
    apart n [] d h = ground arith
    apart n (r ∷ ps) d h = ground (arith, apart n ps)

module _ (c db : Database) (id : ℕ) where
  IsOf-new :
      (ps : List ProjectionRow) (p : ProjectionRow)
      → All (IsOf c.entries) ps
      → IsOf c.entries p
      → All (IsOf c.entries) (ps ++ p ∷ [])
  IsOf-new [] p h k = (k, tt)
  IsOf-new (q ∷ ps) p h k = (h.0, IsOf-new ps p h.1 k)

  projected-IsSound :
      IsProjected c db id → IsReflected carried db → IsSound carried c → IsSound carried db
  projected-IsSound p r h =
      let row : ProjectionRow = projection_row id p.entry (entry_lines id c.lines) in
      subst (IsSound carried) (sym p.stored) (record {
        balanced = h.balanced;
        reflected = subst (IsReflected carried) p.stored r;
        sums = λ k. omega (
          arith,
          grand_total-upsert_all k (entry_lines id c.lines) c.balances,
          h.sums k,
          projected_sum-append k c.projections row c.lines,
        );
        entries =
            IsOf-new c.projections row h.entries (find_entry-is_entry id c.entries p.entry p.found);
        once = AreOnce-append c.projections row h.once p.was_new;
      })

  Throws-IsSound : Throws c id db → IsReflected carried db → IsSound carried c → IsSound carried db
  Throws-IsSound (inl e) r h = subst (IsSound carried) (sym e) h
  Throws-IsSound (inr p) r h = projected-IsSound p r h

  Projects-IsSound :
      Projects c id true db → IsReflected carried db → IsSound carried c → IsSound carried db
  Projects-IsSound (inl e) r h = subst (IsSound carried) (sym e.0) h
  Projects-IsSound (inr p) r h = projected-IsSound p r h

Ends-IsSound :
    (c : Database) (envelope : OutboxEnvelope) (id : ℕ) (r : Outcome Bool × Session)
    → Ends (Answers c envelope id) (Throws c id) r
    → IsReflected carried r.1.committed
    → IsSound carried c
    → IsSound carried r.1.committed
Ends-IsSound c envelope id (value true, s) f r h = Projects-IsSound c s.committed id f.0 r h
Ends-IsSound c envelope id (value false, s) f r h = subst (IsSound carried) (sym f.0) h
Ends-IsSound c envelope id (throw e, s) f r h = Throws-IsSound c s.committed id f r h

pub project-IsSound :
    (faults : Faults) (envelope : OutboxEnvelope) (s : Session)
    → IsSound carried s.committed
    → IsSound carried (project faults envelope s).1.committed
project-IsSound faults envelope s h = elim (Option-cases envelope.aggregate_id) [
  | inl e ↦ rw (project-no_aggregate faults envelope s e) h
  | inr (id, e) ↦
      Ends-IsSound s.committed envelope id (project faults envelope s)
        (project-atomic faults envelope id s e)
        (project-IsReflected-carried faults envelope s h.reflected) h
]

exact-IsSound : (db : Database) → AreSmall db.lines → IsSound carried db → IsSound exact db
exact-IsSound db small h = record {
  balanced = h.balanced;
  reflected = exact-IsReflected db small h.reflected;
  sums = λ k. h.sums k ∙ projected_sum-small k db.projections db.lines small;
  entries = h.entries;
  once = h.once;
}

module _ (numeric_in : Text → Option ℕ) (new_id : Database → ℕ) where
  post_entry-IsSound :
      (faults : Faults) (dto : PostEntryDto) (s : Session)
      → IsSound carried s.committed
      → IsSound carried (post_entry faults numeric_in new_id dto s).1.committed
  post_entry-IsSound faults dto s h =
      let (r, s') = post_entry faults numeric_in new_id dto s in
      Fulfils-IsSound numeric_in dto s.committed r s'.committed
        (post_entry-atomic faults numeric_in new_id dto s)
        (post_entry-IsBalanced faults numeric_in new_id dto s h.balanced) h

  Step-IsSound :
      {c d : Database} → Step numeric_in new_id c d → IsSound carried c → IsSound carried d
  Step-IsSound (post faults dto s e f) h =
      subst (IsSound carried) (sym f)
        (post_entry-IsSound faults dto s (subst (IsSound carried) (sym e) h))
  Step-IsSound (deliver faults envelope s e f) h =
      subst (IsSound carried) (sym f)
        (project-IsSound faults envelope s (subst (IsSound carried) (sym e) h))
  Step-IsSound (mark ids f) h = subst (IsSound carried) (sym f) (outbox-IsSound _ _ h)
  Step-IsSound (give_up id f) h = subst (IsSound carried) (sym f) (outbox-IsSound _ _ h)

  initial-Reach-IsSound :
      (accounts : List AccountRow) {db : Database}
      → Reach numeric_in new_id (initial accounts) db
      → IsSound carried db
  initial-Reach-IsSound accounts here = initial-IsSound accounts
  initial-Reach-IsSound accounts (next r st) = Step-IsSound st (initial-Reach-IsSound accounts r)

  -- Whatever requests and workers take turns on a database that starts without entries, and
  -- whatever statements fail, as long as the amounts of the lines are below 10^11: the lines of
  -- every entry are balanced, the balances are the exact sums of the projected entries, each of
  -- these is there and projected once, and the debits of all balances add up to their credits,
  -- however far the worker has come.
  pub Reach-IsSound :
      (accounts : List AccountRow) {db : Database}
      → Reach numeric_in new_id (initial accounts) db
      → AreSmall db.lines
      → IsSound exact db × (grand_total debit db.balances ≡ grand_total credit db.balances)
  Reach-IsSound accounts {db} r small =
      let h = exact-IsSound db small (initial-Reach-IsSound accounts r) in
      (
        h,
        h.sums debit
            ∙ projected_sum-balanced db.projections db.lines h.balanced
            ∙ sym (h.sums credit),
      )
