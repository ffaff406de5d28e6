-- ===== src/Core/Balance.antt =====
-- packages/accounting-core/src/balance.ts, without the projection helper.
pub mod Accounts
pub mod Single
pub mod Trial
pub mod Entry
use Prim.Native.Nat.{Ordering}
use adaptive_financial_os.Common.{
  ℕ, Text, ℤ, pos, ◌+ℤ◌, ◌-ℤ◌, eqb_ℤ, Option, none, some, List, [], ◌∷◌, ◌++◌, length, Bool, true,
  false, not, ◌||◌, nat_beq, ltb, ◌==◌, text_eq, if◌then◌else◌, is_empty,
}
use adaptive_financial_os.Common.JsMap.{JsMap, get, set}
use adaptive_financial_os.Common.Sort.{sort}
use adaptive_financial_os.Core.Types.{
  Result, ok, err, ◌>>=◌, ◌>>◌, throw_if, invalid_input, currency_mismatch, DebitCredit, debit,
  credit, Money, JournalLineInput,
}
use adaptive_financial_os.Core.Money.{money, bigint}

pub record AccountBalance : Type 0 where
  pub account_id : Text
  pub currency : Text
  pub debit_total : Money
  pub credit_total : Money
  pub net : Money

pub record TrialBalanceRow : Type 0 where
  pub account_id : Text
  pub currency : Text
  pub debit : Money
  pub credit : Money

pub record TrialBalance : Type 0 where
  pub rows : List TrialBalanceRow
  pub total_debit : Money
  pub total_credit : Money
  pub balanced : Bool

-- The running sums of an account, a value of the map `byAccount`.
pub record Sums : Type 0 where
  pub currency : Text
  pub debit : ℤ
  pub credit : ℤ

-- `acc.debit += amount` or `acc.credit += amount`
abbrev pub bump : DebitCredit → ℤ → Sums → Sums
bump debit n acc = record acc { debit = acc.debit +ℤ n }
bump credit n acc = record acc { credit = acc.credit +ℤ n }

-- The entry of the account: the one that is there, or the new one that is set before it is read.
abbrev pub sums_or_new : Text → Option Sums → Sums
sums_or_new currency none = record { currency = currency; debit = pos 0; credit = pos 0 }
sums_or_new currency (some acc) = acc

-- The body of the loop over the lines.
unfoldable pub add_line : JsMap Text Sums → JournalLineInput → Result (JsMap Text Sums)
add_line by_account line = do
  let acc = sums_or_new line.amount.currency (get line.account_id by_account)
  throw_if (not (acc.currency == line.amount.currency)) currency_mismatch
  ok (set line.account_id (bump line.side line.amount.amount acc) by_account)

unfoldable pub add_lines : JsMap Text Sums → List JournalLineInput → Result (JsMap Text Sums)
add_lines by_account [] = ok by_account
add_lines by_account (line ∷ lines) = add_line by_account line >>= λ next. add_lines next lines

unfoldable pub to_balance : Text → Sums → Result AccountBalance
to_balance account_id s = do
  debit_total ← money (bigint s.debit) s.currency
  credit_total ← money (bigint s.credit) s.currency
  net ← money (bigint (s.debit -ℤ s.credit)) s.currency
  ok (record {
    account_id = account_id;
    currency = s.currency;
    debit_total = debit_total;
    credit_total = credit_total;
    net = net;
  })

-- The second loop. The keys of `byAccount` differ, so `result.set` adds at the end.
unfoldable pub to_balances : JsMap Text Sums → Result (JsMap Text AccountBalance)
unfolding to_balance
to_balances [] = ok []
to_balances ((account_id, s) ∷ m) = do
  bal ← to_balance account_id s
  rest ← to_balances m
  ok ((account_id, bal) ∷ rest)

unfoldable pub balance_per_account : List JournalLineInput → Result (JsMap Text AccountBalance)
balance_per_account lines = do
  throw_if (nat_beq (length lines) 0) invalid_input
  by_account ← add_lines [] lines
  to_balances by_account

unfoldable pub get_account_balance : List JournalLineInput → Text → Result (Option AccountBalance)
get_account_balance lines account_id = do
  balances ← balance_per_account lines
  ok (get account_id balances)

-- `Set.add`
abbrev pub contains : Text → List Text → Bool
contains c [] = false
contains c (d ∷ cs) = c == d || contains c cs

abbrev pub add_to_set : List Text → Text → List Text
add_to_set cs c = if contains c cs then cs else cs ++ c ∷ []

unfoldable pub currencies : List Text → JsMap Text AccountBalance → List Text
currencies seen [] = seen
currencies seen ((id, bal) ∷ m) = currencies (add_to_set seen bal.currency) m

abbrev pub to_row : AccountBalance → TrialBalanceRow
to_row bal = record {
  account_id = bal.account_id;
  currency = bal.currency;
  debit = bal.debit_total;
  credit = bal.credit_total;
}

-- The loop over the balances, one function for each variable that it fills.
unfoldable pub debits_of : ℤ → JsMap Text AccountBalance → ℤ
debits_of total [] = total
debits_of total ((id, bal) ∷ m) = debits_of (total +ℤ bal.debit_total.amount) m

unfoldable pub credits_of : ℤ → JsMap Text AccountBalance → ℤ
credits_of total [] = total
credits_of total ((id, bal) ∷ m) = credits_of (total +ℤ bal.credit_total.amount) m

unfoldable pub rows_of : JsMap Text AccountBalance → List TrialBalanceRow
rows_of [] = []
rows_of ((id, bal) ∷ m) = to_row bal ∷ rows_of m

abbrev pub first_or_empty : List Text → Text
first_or_empty [] = []
first_or_empty (c ∷ cs) = c

module _ (locale_compare : Text → Text → Ordering) where
  unfoldable pub trial_balance_from_map : JsMap Text AccountBalance → Result TrialBalance
  unfolding currencies debits_of credits_of rows_of
  trial_balance_from_map per_account = do
    throw_if (nat_beq (length per_account) 0) invalid_input
    let codes = currencies [] per_account
    throw_if (ltb 1 (length codes)) currency_mismatch
    let currency = first_or_empty codes
    let total_debit = debits_of (pos 0) per_account
    let total_credit = credits_of (pos 0) per_account
    let rows =
        sort (λ (a b : TrialBalanceRow). locale_compare a.account_id b.account_id)
          (rows_of per_account)
    debit_money ← money (bigint total_debit) currency
    credit_money ← money (bigint total_credit) currency
    ok (record {
      rows = rows;
      total_debit = debit_money;
      total_credit = credit_money;
      balanced = eqb_ℤ total_debit total_credit;
    })

  unfoldable pub trial_balance_from_lines : List JournalLineInput → Result TrialBalance
  trial_balance_from_lines lines = do
    per_account ← balance_per_account lines
    trial_balance_from_map per_account
