-- ===== src/Api/Ledger/Steps.antt =====
-- What the statements of `postEntry` do to the open transaction
-- (apps/api/src/ledger/ledger.service.ts).
use mathlib.Core.List.{append-nil, append_assoc, map-append}
use adaptive_financial_os.Common.{
  ℕ, zero, suc, ◌<◌, ◌≡◌, refl, ◌∙◌, sym, ap, subst, Text, Option, none, some, List, [], ◌∷◌, ◌++◌,
  map, arith,
}
use adaptive_financial_os.Db.{Database, AccountRow, LineRow, done, find_account}
use adaptive_financial_os.Db.Session.{Faults, Session}
use adaptive_financial_os.Db.Ensures.{Ensures, Ran, Ensures-bind, Ensures-statement, Ensures-weaken}
use adaptive_financial_os.Api.Ledger.{
  JournalLineDto, select_account, insert_line, store_line, line_row, post_line, post_lines,
}

-- The row that stands for a line of the request.
pub record IsLineOf (numeric_in : Text → Option ℕ) (accounts : List AccountRow) (tenant : Text)
    (entry_id : ℕ) (l : JournalLineDto) (r : LineRow) : Type 0 where
  pub tenant_id : r.tenant_id ≡ tenant
  pub entry : r.entry_id ≡ entry_id
  pub account : find_account tenant l.account_code accounts ≡ some r.account_id
  pub amount : numeric_in l.amount ≡ some r.amount
  pub positive : 0 < r.amount
  pub direction : r.direction ≡ l.direction
  pub currency : r.currency ≡ l.currency

abbrev pub AreLinesOf :
    (Text → Option ℕ) → List AccountRow → Text → ℕ → List JournalLineDto → List LineRow → Type 0
AreLinesOf num accounts tenant id [] [] = Unit
AreLinesOf num accounts tenant id [] (r ∷ rs) = ⊥
AreLinesOf num accounts tenant id (l ∷ ls) [] = ⊥
AreLinesOf num accounts tenant id (l ∷ ls) (r ∷ rs) =
    IsLineOf num accounts tenant id l r × AreLinesOf num accounts tenant id ls rs

-- The transaction has gone on by some new lines of an entry, and by nothing else.
pub record AddsLines (numeric_in : Text → Option ℕ) (tenant : Text) (entry_id : ℕ)
    (ls : List JournalLineDto) (s s' : Session) : Type 0 where
  pub rows : List LineRow
  pub work : s'.work ≡ record s.work { lines = s.work.lines ++ rows }
  pub lines_of : AreLinesOf numeric_in s.work.accounts tenant entry_id ls rows
  pub touched : s'.touched ≡ s.touched ++ map (λ (r : LineRow). r.entry_id) rows

module _ (faults : Faults) (numeric_in : Text → Option ℕ) (new_id : Database → ℕ) where
  stored :
      (tenant : Text) (id account : ℕ) (l : JournalLineDto) (s s' : Session) (o : Option ℕ)
      → numeric_in l.amount ≡ o
      → find_account tenant l.account_code s.work.accounts ≡ some account
      → Ran (store_line faults numeric_in new_id tenant id account l o s.work) s tt s'
      → AddsLines numeric_in tenant id (l ∷ []) s s'
  stored tenant id account l s s' none e found (ids, h, t) = cc
  stored tenant id account l s s' (some zero) e found (ids, h, t) = cc
  stored tenant id account l s s' (some (suc n)) e found (ids, h, t) = record {
    rows = line_row faults numeric_in new_id tenant id account l (suc n) ∷ [];
    work = ground arith;
    lines_of = (
      record {
        tenant_id = refl;
        entry = refl;
        account = found;
        amount = e;
        positive = omega arith;
        direction = refl;
        currency = refl;
      },
      tt,
    );
    touched = ground (arith, t);
  }

  Ensures-insert_line :
      (tenant : Text) (id account : ℕ) (l : JournalLineDto) (s : Session) (c : Database)
      → s.committed ≡ c
      → find_account tenant l.account_code s.work.accounts ≡ some account
      → Ensures c
          (λ _ s'. AddsLines numeric_in tenant id (l ∷ []) s s')
          (insert_line faults numeric_in new_id tenant id account l s)
  unfolding insert_line
  Ensures-insert_line tenant id account l s c e found =
      Ensures-weaken c _ (λ _ s'. AddsLines numeric_in tenant id (l ∷ []) s s') _
        (Ensures-statement faults
          (store_line faults numeric_in new_id tenant id account l (numeric_in l.amount)) s c e)
        (λ a s' ran. stored tenant id account l s s' (numeric_in l.amount) refl found ran)

  pub same_touched :
      (s s' : Session) (ids : List ℕ)
      → ids ≡ []
      → s'.touched ≡ s.touched ++ ids
      → s'.touched ≡ s.touched
  same_touched s s' ids e t = t ∙ ap (λ xs. s.touched ++ xs) e ∙ append-nil s.touched

  -- A SELECT leaves the transaction as it is.
  pub Ensures-select_account :
      (tenant code : Text) (s : Session) (c : Database)
      → s.committed ≡ c
      → Ensures c
          (λ found s'.
            (found ≡ find_account tenant code s.work.accounts)
            × (s'.work ≡ s.work)
            × (s'.touched ≡ s.touched))
          (select_account faults numeric_in new_id tenant code s)
  unfolding select_account
  Ensures-select_account tenant code s c e =
      Ensures-weaken c _ _ _
        (Ensures-statement faults (λ db. done (find_account tenant code db.accounts, db, [])) s c e)
        (λ a s' ran. (ground arith, ground arith, same_touched s s' ran.0 (ground arith) ran.2))

  adds_none : (tenant : Text) (id : ℕ) (s : Session) → AddsLines numeric_in tenant id [] s s
  adds_none tenant id s = record {
    rows = [];
    work = rw append-nil;
    lines_of = tt;
    touched = sym (append-nil s.touched);
  }

  Found : Text → JournalLineDto → Session → Option ℕ → Session → Type 0
  Found tenant l s found s' =
      (found ≡ find_account tenant l.account_code s.work.accounts)
      × (s'.work ≡ s.work)
      × (s'.touched ≡ s.touched)

  Ensures-post_line :
      (tenant : Text) (id : ℕ) (l : JournalLineDto) (found : Option ℕ) (s s' : Session)
      (c : Database)
      → s'.committed ≡ c
      → Found tenant l s found s'
      → Ensures c
          (λ _ s''. AddsLines numeric_in tenant id (l ∷ []) s s'')
          (post_line faults numeric_in new_id tenant id l found s')
  unfolding post_line Found
  Ensures-post_line tenant id l none s s' c e h = e
  Ensures-post_line tenant id l (some a) s s' c e (here, same, t) =
      Ensures-weaken c _ _ _
        (Ensures-insert_line tenant id a l s' c e
          (ap (λ (d : Database). find_account tenant l.account_code d.accounts) same ∙ sym here))
        (λ _ s'' r. record {
          rows = r.rows;
          work = r.work ∙ ap (λ (d : Database). record d { lines = d.lines ++ r.rows }) same;
          lines_of =
              subst (λ (d : Database). AreLinesOf numeric_in d.accounts tenant id (l ∷ []) r.rows)
                same r.lines_of;
          touched = r.touched ∙ ap (λ ts. ts ++ map (λ (x : LineRow). x.entry_id) r.rows) t;
        })

  AreLinesOf-append :
      (accounts : List AccountRow) (tenant : Text) (id : ℕ) (l : JournalLineDto)
      (ls : List JournalLineDto) (xs ys : List LineRow)
      → AreLinesOf numeric_in accounts tenant id (l ∷ []) xs
      → AreLinesOf numeric_in accounts tenant id ls ys
      → AreLinesOf numeric_in accounts tenant id (l ∷ ls) (xs ++ ys)
  AreLinesOf-append accounts tenant id l ls [] ys h k = absurd h
  AreLinesOf-append accounts tenant id l ls (x ∷ []) ys h k = (h.0, k)
  AreLinesOf-append accounts tenant id l ls (x ∷ y ∷ xs) ys h k = absurd h.1

  adds_more :
      (tenant : Text) (id : ℕ) (l : JournalLineDto) (ls : List JournalLineDto) (s s' s'' : Session)
      → AddsLines numeric_in tenant id (l ∷ []) s s'
      → AddsLines numeric_in tenant id ls s' s''
      → AddsLines numeric_in tenant id (l ∷ ls) s s''
  adds_more tenant id l ls s s' s'' p q = record {
    rows = p.rows ++ q.rows;
    work =
        q.work
        ∙ ap (λ (d : Database). record d { lines = d.lines ++ q.rows }) p.work
        ∙ ap (λ xs. record s.work { lines = xs }) (append_assoc s.work.lines p.rows q.rows);
    lines_of = AreLinesOf-append s.work.accounts tenant id l ls p.rows q.rows p.lines_of (
        subst (λ (d : Database). AreLinesOf numeric_in d.accounts tenant id ls q.rows) p.work
          q.lines_of);
    touched =
        q.touched
        ∙ ap (λ ts. ts ++ map (λ (x : LineRow). x.entry_id) q.rows) p.touched
        ∙ append_assoc s.touched (map (λ (x : LineRow). x.entry_id) p.rows)
            (map (λ (x : LineRow). x.entry_id) q.rows)
        ∙ ap (λ xs. s.touched ++ xs) (sym (map-append (λ (x : LineRow). x.entry_id) p.rows q.rows));
  }

  pub Ensures-post_lines :
      (tenant : Text) (id : ℕ) (ls : List JournalLineDto) (s : Session) (c : Database)
      → s.committed ≡ c
      → Ensures c
          (λ _ s'. AddsLines numeric_in tenant id ls s s')
          (post_lines faults numeric_in new_id tenant id ls s)
  unfolding post_lines
  Ensures-post_lines tenant id [] s c e = (e, adds_none tenant id s)
  Ensures-post_lines tenant id (l ∷ ls) s c e =
      Ensures-bind c (Found tenant l s) _
        (select_account faults numeric_in new_id tenant l.account_code) _ s
        (unfold Found in Ensures-select_account tenant l.account_code s c e)
        (λ found s1 e1 f1.
          Ensures-bind c (λ _ s2. AddsLines numeric_in tenant id (l ∷ []) s s2) _
            (post_line faults numeric_in new_id tenant id l found) _ s1
            (Ensures-post_line tenant id l found s s1 c e1 f1)
            (λ _ s2 e2 f2.
              Ensures-weaken c _ _ _ (Ensures-post_lines tenant id ls s2 c e2)
                (λ _ s3 f3. adds_more tenant id l ls s s2 s3 f2 f3)))
