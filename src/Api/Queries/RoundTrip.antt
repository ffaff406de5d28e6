-- ===== src/Api/Queries/RoundTrip.antt =====
-- What `postEntry` has posted, `getEntry` returns (apps/api/src/ledger/ledger.service.ts).
use adaptive_financial_os.Common.{
  ℕ, ◌+◌, if◌then◌else◌, ◌≡◌, refl, sym, ◌∙◌, ap, subst, Text, Option, some, List, [], ◌∷◌, ◌++◌,
  keep, All, keep-append, Bool, true, false, nat_beq, ◌==◌, ◌&&◌, text_eq, text_beq_iff, arith,
  Bool-cases, inl, inr,
}
use adaptive_financial_os.Db.{Database, AccountRow, EntryRow, LineRow, is_entry, find_account}
use adaptive_financial_os.Db.Session.{no_faults, Faults, Session, Outcome, value, ◌>>=◌, query}
use adaptive_financial_os.Api.Ledger.{JournalLineDto, PostEntryDto, posted, post_entry}
use adaptive_financial_os.Api.Ledger.Steps.{AreLinesOf}
use adaptive_financial_os.Api.Ledger.Spec.{IsPosted, Fulfils}
use adaptive_financial_os.Api.Ledger.Atomic.{post_entry-atomic}
use adaptive_financial_os.Api.Queries.{
  LineDetail, EntryView, Orders, join, line_detail, line_details, released, first_row, set_config,
  select_entry, entry_view, view_entry, get_entry,
}

-- The primary key of `accounts`, and the foreign key of `journal_lines`.
abbrev is_account : ℕ → List AccountRow → Bool
is_account id [] = false
is_account id (a ∷ accounts) = if nat_beq a.id id then true else is_account id accounts

abbrev pub AreDistinct : List AccountRow → Type 0
AreDistinct [] = Unit
AreDistinct (a ∷ accounts) = (is_account a.id accounts ≡ false) × AreDistinct accounts

abbrev pub IsOfEntry : List EntryRow → LineRow → Type 0
IsOfEntry entries l = is_entry l.entry_id entries ≡ true

-- The detail that stands for a line of the request.
pub record IsDetailOf (numeric_in : Text → Option ℕ) (l : JournalLineDto) (d : LineDetail)
    : Type 0 where
  pub account_code : d.account_code ≡ l.account_code
  pub amount : numeric_in l.amount ≡ some d.line.amount
  pub direction : d.line.direction ≡ l.direction
  pub currency : d.line.currency ≡ l.currency

abbrev pub AreDetailsOf : (Text → Option ℕ) → List JournalLineDto → List LineDetail → Type 0
AreDetailsOf num [] [] = Unit
AreDetailsOf num [] (d ∷ ds) = ⊥
AreDetailsOf num (l ∷ ls) [] = ⊥
AreDetailsOf num (l ∷ ls) (d ∷ ds) = IsDetailOf num l d × AreDetailsOf num ls ds

join-none :
    (l : LineRow) (accounts : List AccountRow)
    → is_account l.account_id accounts ≡ false
    → join l.account_id (line_detail l) accounts ≡ []
unfolding join
join-none l [] h = refl
join-none l (a ∷ accounts) h = ground (arith, join-none l accounts)

find_account-is_account :
    (tenant code : Text) (id : ℕ) (accounts : List AccountRow)
    → find_account tenant code accounts ≡ some id
    → is_account id accounts ≡ true
find_account-is_account tenant code id [] h = cc
find_account-is_account tenant code id (a ∷ accounts) h =
    ground (arith, find_account-is_account tenant code id accounts)

-- The account that the code was looked up to is the one that the join finds.
join-one :
    (tenant code : Text) (l : LineRow) (accounts : List AccountRow)
    → AreDistinct accounts
    → find_account tenant code accounts ≡ some l.account_id
    → (name : Text) × (join l.account_id (line_detail l) accounts
        ≡ record { line = l; account_code = code; account_name = name } ∷ [])
unfolding join
join-one tenant code l [] h e = cc
join-one tenant code l (a ∷ accounts) h e =
    elim (Bool-cases (a.tenant_id == tenant && a.code == code)) [
      | inl t ↦
          let id : a.id ≡ l.account_id = ground (arith, e, t) in
          let none_left : join l.account_id (line_detail l) accounts ≡ [] =
            join-none l accounts (subst (λ n. is_account n accounts ≡ false) id h.0) in
          let same : a.code ≡ code = (text_beq_iff a.code code).0 (ground (arith, t)) in
          (a.name, ground (arith, id, none_left, same))
      | inr f ↦
          let found : find_account tenant code accounts ≡ some l.account_id =
            ground (arith, e, f) in
          let (name, j) = join-one tenant code l accounts h.1 found in
          let there = find_account-is_account tenant code l.account_id accounts found in
          let other : nat_beq a.id l.account_id ≡ false =
            elim (Bool-cases (nat_beq a.id l.account_id)) [
              | inl i ↦ cc (
                there,
                h.0,
                ap (λ n. is_account n accounts) {x = a.id} {y = l.account_id} (ground (arith, i)),
              )
              | inr i ↦ i
            ] in
          (name, ground (arith, other, j))
    ]

find_rows :
    (tenant : Text) (id : ℕ) (entries : List EntryRow)
    → is_entry id entries ≡ false
    → keep (λ (e : EntryRow). nat_beq e.id id && e.tenant_id == tenant) entries ≡ []
find_rows tenant id [] h = refl
find_rows tenant id (e ∷ entries) h = ground (arith, h, find_rows tenant id entries)

other_lines :
    (id : ℕ) (entries : List EntryRow) (lines : List LineRow)
    → All (IsOfEntry entries) lines
    → is_entry id entries ≡ false
    → keep (λ (l : LineRow). nat_beq l.entry_id id) lines ≡ []
other_lines id entries [] h k = refl
other_lines id entries (l ∷ lines) h k =
    let other : nat_beq l.entry_id id ≡ false = elim (Bool-cases (nat_beq l.entry_id id)) [
      | inl i ↦
          cc (h.0, k, ap (λ n. is_entry n entries) {x = l.entry_id} {y = id} (ground (arith, i)))
      | inr i ↦ i
    ] in
    ground (arith, other, other_lines id entries lines h.1 k)

module _ (numeric_in : Text → Option ℕ) (accounts : List AccountRow) (tenant : Text) (id : ℕ) where
  own_lines :
      (ls : List JournalLineDto) (rows : List LineRow)
      → AreLinesOf numeric_in accounts tenant id ls rows
      → keep (λ (l : LineRow). nat_beq l.entry_id id) rows ≡ rows
  own_lines [] [] h = refl
  own_lines [] (r ∷ rows) h = absurd h
  own_lines (l ∷ ls) [] h = absurd h
  own_lines (l ∷ ls) (r ∷ rows) h = ground (arith, h.0.entry, own_lines ls rows h.1)

  details_of :
      (ls : List JournalLineDto) (rows : List LineRow)
      → AreDistinct accounts
      → AreLinesOf numeric_in accounts tenant id ls rows
      → AreDetailsOf numeric_in ls (line_details accounts rows)
  details_of [] [] a h = tt
  details_of [] (r ∷ rows) a h = absurd h
  details_of (l ∷ ls) [] a h = absurd h
  details_of (l ∷ ls) (r ∷ rows) a h =
      let (name, j) = join-one tenant l.account_code r accounts a h.0.account in
      subst (λ ds. AreDetailsOf numeric_in (l ∷ ls) (ds ++ line_details accounts rows)) (sym j)
        (
          record {
            account_code = refl;
            amount = h.0.amount;
            direction = h.0.direction;
            currency = h.0.currency;
          },
          details_of ls rows a h.1,
        )

module _ (orders : Orders) where
  -- What `getEntry` answers if one entry is found.
  abbrev viewed : EntryRow → ℕ → Database → Outcome EntryView
  viewed entry id db = value (record {
    entry = entry;
    lines = orders.details (line_details db.accounts (keep (λ l. nat_beq l.entry_id id) db.lines));
  })

  get_entry-found :
      (tenant : Text) (id : ℕ) (entry : EntryRow) (s : Session)
      → keep (λ (e : EntryRow). nat_beq e.id id && e.tenant_id == tenant) s.committed.entries
        ≡ entry ∷ []
      → (get_entry no_faults orders tenant id s).0 ≡ viewed entry id s.committed
  unfolding get_entry set_config view_entry select_entry entry_view query
  get_entry-found tenant id entry s h =
      let asked : Session = record s {
        touched = (s.touched ++ []) ++ [];
        count = s.count + 1 + 1;
      } in
      ap (λ rows. (released ((first_row rows >>= entry_view no_faults orders id) asked)).0) h

  module _ (numeric_in : Text → Option ℕ) (new_id : Database → ℕ) where
    -- An entry that `postEntry` answers as posted, whatever statements failed, `getEntry` returns
    -- if none fails: under the tenant and with the description of the request, and with one line
    -- for each of its lines, of the same account code, amount, direction and currency, in the order
    -- that ORDER BY gives them. The tables are as their keys say: no two accounts have one id, and
    -- every line is of an entry.
    pub get_entry-posted :
        (faults : Faults) (dto : PostEntryDto) (s : Session) (id : ℕ)
        → AreDistinct s.committed.accounts
        → All (IsOfEntry s.committed.entries) s.committed.lines
        → (post_entry faults numeric_in new_id dto s).0 ≡ posted id false
        → (details : List LineDetail) × ((get_entry no_faults orders dto.tenant_id id
              (post_entry faults numeric_in new_id dto s).1).0
            ≡ value (record {
              entry = record { id = id; tenant_id = dto.tenant_id; description = dto.description };
              lines = orders.details details;
            }))
          × AreDetailsOf numeric_in dto.lines details
    get_entry-posted faults dto s id distinct keyed answered =
        let after = (post_entry faults numeric_in new_id dto s).1 in
        let entry : EntryRow = record {
          id = id;
          tenant_id = dto.tenant_id;
          description = dto.description;
        } in
        let p : IsPosted numeric_in dto s.committed after.committed id =
          subst (λ r. Fulfils numeric_in dto s.committed r after.committed) answered
            (post_entry-atomic faults numeric_in new_id dto s) in
        let c = s.committed in
        let this : nat_beq id id && dto.tenant_id == dto.tenant_id ≡ true =
          ground (arith, (text_beq_iff dto.tenant_id dto.tenant_id).1 refl) in
        let found : keep (λ (e : EntryRow). nat_beq e.id id && e.tenant_id == dto.tenant_id)
              after.committed.entries
            ≡ entry ∷ [] =
          ap
            (λ (d : Database).
              keep (λ (e : EntryRow). nat_beq e.id id && e.tenant_id == dto.tenant_id) d.entries)
            p.stored
          ∙ keep-append _ c.entries (entry ∷ [])
          ∙ ap
              (λ es.
                es
                ++ keep (λ (e : EntryRow). nat_beq e.id id && e.tenant_id == dto.tenant_id)
                    (entry ∷ []))
              (find_rows dto.tenant_id id c.entries p.new_entry)
          ∙ ground (arith, this) in
        let lines : keep (λ (l : LineRow). nat_beq l.entry_id id) (c.lines ++ p.rows) ≡ p.rows =
          keep-append _ c.lines p.rows
          ∙ ap (λ ls. ls ++ keep (λ (l : LineRow). nat_beq l.entry_id id) p.rows)
              (other_lines id c.entries c.lines keyed p.new_entry)
          ∙ own_lines numeric_in c.accounts dto.tenant_id id dto.lines p.rows p.lines_of in
        (
          line_details c.accounts p.rows,
          get_entry-found dto.tenant_id id entry after found
              ∙ ap (viewed entry id) p.stored
              ∙ ap
                  (λ ls.
                    value (record {
                      entry = entry;
                      lines = orders.details (line_details c.accounts ls);
                    }))
                  lines,
          details_of numeric_in c.accounts dto.tenant_id id dto.lines p.rows distinct p.lines_of,
        )
