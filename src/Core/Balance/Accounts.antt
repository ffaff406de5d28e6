-- ===== src/Core/Balance/Accounts.antt =====
-- What `balancePerAccount` computes for an account (packages/accounting-core/src/balance.ts).
use mathlib.Core.Option
use adaptive_financial_os.Common.{
  ◌≡◌, refl, sym, ◌∙◌, ap, inl, inr, Text, ℤ, ◌+ℤ◌, ◌-ℤ◌, Option, none, some, List, [], ◌∷◌, ◌==◌,
  text_eq, text_beq, text_beq_iff, if◌then◌else◌, true, arith, Bool-cases, +ℤ_assoc, +ℤ-zero,
  zero-+ℤ,
}
use adaptive_financial_os.Common.JsMap.{JsMap, get, get-set}
use adaptive_financial_os.Core.Types.{
  ok, ◌>>=◌, bind-ok, DebitCredit, debit, credit, JournalLineInput,
}
use adaptive_financial_os.Core.Money.{money, currency_re}
use adaptive_financial_os.Core.Posting.Spec.{side_total, amount_on}
use adaptive_financial_os.Core.Balance.{
  AccountBalance, Sums, bump, sums_or_new, add_line, add_lines, to_balance, to_balances,
  balance_per_account,
}

-- The lines of one account.
abbrev pub lines_of : Text → List JournalLineInput → List JournalLineInput
lines_of id [] = []
lines_of id (l ∷ ls) = if l.account_id == id then l ∷ lines_of id ls else lines_of id ls

-- The sums of an account that has lines in `ls` beside those that `o` counts.
abbrev pub tally : Option Sums → List JournalLineInput → Option Sums
tally o [] = o
tally o (l ∷ ls) = tally (some (bump l.side l.amount.amount (sums_or_new l.amount.currency o))) ls

get-add_line :
    (id : Text) (m m' : JsMap Text Sums) (l : JournalLineInput)
    → add_line m l ≡ ok m'
    → get id m' ≡ (
        if l.account_id == id
        then some (bump l.side l.amount.amount (sums_or_new l.amount.currency (get l.account_id m)))
        else get id m)
unfolding add_line
get-add_line id m m' l h = ground (
  arith,
  get-set l.account_id id
      (bump l.side l.amount.amount (sums_or_new l.amount.currency (get l.account_id m))) m,
)

pub get-add_lines :
    (id : Text) (m m' : JsMap Text Sums) (ls : List JournalLineInput)
    → add_lines m ls ≡ ok m'
    → get id m' ≡ tally (get id m) (lines_of id ls)
unfolding add_lines
get-add_lines id m m' [] h = ground arith
get-add_lines id m m' (l ∷ ls) h =
    let (next, p, q) = bind-ok (add_line m l) (λ n. add_lines n ls) h in
    let later : get id m' ≡ tally (get id next) (lines_of id ls) = get-add_lines id next m' ls q in
    let now : _ = get-add_line id m next l p in
    elim (Bool-cases (text_beq l.account_id id)) [
      | inl e ↦ rw e (
          later
          ∙ ap (λ o. tally o (lines_of id ls))
              (rw e at now
                ∙ ap
                    (λ (x : Text).
                      some (bump l.side l.amount.amount (sums_or_new l.amount.currency (get x m))))
                    ((text_beq_iff l.account_id id).0 e)))
      | inr e ↦ rw e (later ∙ ap (λ o. tally o (lines_of id ls)) (rw e at now))
    ]

pub tally-some :
    (s : Sums) (ls : List JournalLineInput)
    → tally (some s) ls
      ≡ some (record s {
        debit = s.debit +ℤ side_total debit ls;
        credit = s.credit +ℤ side_total credit ls;
      })
tally-some s [] = ground (arith, +ℤ-zero s.debit, +ℤ-zero s.credit)
tally-some s (l ∷ ls) =
    tally-some (bump l.side l.amount.amount s) ls ∙ ap some (regroup l.side l.amount.amount)
  where
    regroup :
        (side : DebitCredit) (n : ℤ)
        → ◌≡◌ {A = Sums}
            (record (bump side n s) {
              debit = (bump side n s).debit +ℤ side_total debit ls;
              credit = (bump side n s).credit +ℤ side_total credit ls;
            })
            (record s {
              debit = s.debit +ℤ (amount_on debit side n +ℤ side_total debit ls);
              credit = s.credit +ℤ (amount_on credit side n +ℤ side_total credit ls);
            })
    regroup debit n =
        ground (arith, +ℤ_assoc s.debit n (side_total debit ls), zero-+ℤ (side_total credit ls))
    regroup credit n =
        ground (arith, +ℤ_assoc s.credit n (side_total credit ls), zero-+ℤ (side_total debit ls))

-- The balance that sums amount to.
abbrev pub balance_of : Text → Sums → AccountBalance
balance_of id s = record {
  account_id = id;
  currency = s.currency;
  debit_total = record { amount = s.debit; currency = s.currency };
  credit_total = record { amount = s.credit; currency = s.currency };
  net = record { amount = s.debit -ℤ s.credit; currency = s.currency };
}

abbrev pub balances_of : JsMap Text Sums → JsMap Text AccountBalance
balances_of [] = []
balances_of ((id, s) ∷ m) = (id, balance_of id s) ∷ balances_of m

to_balance-ok :
    (id : Text) (s : Sums) (b : AccountBalance) → to_balance id s ≡ ok b → b ≡ balance_of id s
unfolding to_balance money
to_balance-ok id s b h = ground arith

pub to_balance_valid :
    (id : Text) (s : Sums) → currency_re s.currency ≡ true → to_balance id s ≡ ok (balance_of id s)
unfolding to_balance money
to_balance_valid id s h = ground arith

pub get-to_balances :
    (id : Text) (m : JsMap Text Sums) (bs : JsMap Text AccountBalance)
    → to_balances m ≡ ok bs
    → get id bs ≡ Option.map (balance_of id) (get id m)
unfolding to_balances
get-to_balances id [] bs h = ground arith
get-to_balances id ((j, s) ∷ m) bs h =
    let (bal, p, q) =
      bind-ok (to_balance j s) (λ b. to_balances m >>= λ rest. ok ((j, b) ∷ rest)) h in
    let (rest, r, e) = bind-ok (to_balances m) (λ rest. ok ((j, bal) ∷ rest)) q in
    ground (arith, e, get-to_balances id m rest r, to_balance-ok j s bal p, text_beq_iff j id)

-- The balance of an account, from its lines: in the currency of the first, each side added up, and
-- their difference.
abbrev pub account_balance : Text → List JournalLineInput → Option AccountBalance
account_balance id [] = none
account_balance id (l ∷ ls) = some (
    balance_of id (record {
      currency = l.amount.currency;
      debit = side_total debit (l ∷ ls);
      credit = side_total credit (l ∷ ls);
    }))

tally-none :
    (id : Text) (ls : List JournalLineInput)
    → Option.map (balance_of id) (tally none ls) ≡ account_balance id ls
tally-none id [] = refl
tally-none id (l ∷ ls) = rw tally-some (start l.side l.amount.amount)
  where
    start :
        (side : DebitCredit) (n : ℤ)
        → ◌≡◌ {A = Option AccountBalance}
            (some (
              balance_of id (record (bump side n (sums_or_new l.amount.currency none)) {
                debit =
                    (bump side n (sums_or_new l.amount.currency none)).debit +ℤ side_total debit ls;
                credit =
                    (bump side n (sums_or_new l.amount.currency none)).credit
                    +ℤ side_total credit ls;
              })))
            (some (
              balance_of id (record {
                currency = l.amount.currency;
                debit = amount_on debit side n +ℤ side_total debit ls;
                credit = amount_on credit side n +ℤ side_total credit ls;
              })))
    start debit n = simp zero-+ℤ
    start credit n = simp zero-+ℤ

pub balance_per_account-cons :
    (l : JournalLineInput) (ls : List JournalLineInput)
    → balance_per_account (l ∷ ls) ≡ (add_lines [] (l ∷ ls) >>= to_balances)
unfolding balance_per_account
balance_per_account-cons l ls = ground arith

-- Whenever the balances are computed, the balance found for an account is what its own lines add
-- up to, on each side and net; an account with no lines has none.
pub balance_per_account-account :
    (ls : List JournalLineInput) (bs : JsMap Text AccountBalance) (id : Text)
    → balance_per_account ls ≡ ok bs
    → get id bs ≡ account_balance id (lines_of id ls)
unfolding balance_per_account
balance_per_account-account [] bs id h = cc
balance_per_account-account (l ∷ ls) bs id h =
    let (m, p, q) =
      bind-ok (add_lines [] (l ∷ ls)) to_balances (sym (balance_per_account-cons l ls) ∙ h) in
    get-to_balances id m bs q
    ∙ ap (Option.map (balance_of id)) (get-add_lines id [] m (l ∷ ls) p)
    ∙ tally-none id (lines_of id (l ∷ ls))
