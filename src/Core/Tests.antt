-- ===== src/Core/Tests.antt =====
-- Concrete runs of packages/accounting-core, an entry of two lines.
use Prim.Native.Nat.{Ordering}
use mathlib.Core.List.{Perm, Permᴰ}
use adaptive_financial_os.Common.{
  keep, ℕ, ◌*◌, ◌≡◌, ◌≢◌, ◌↔◌, refl, Text, text, ℤ, pos, negsuc, ◌+ℤ◌, ◌-ℤ◌, none, List, [], ◌∷◌,
  All, true, false, arith, text_beq, text_eq, matches_classes,
}
use adaptive_financial_os.Common.JsMap.{JsMap, get}
use adaptive_financial_os.Common.Sort.{IsComparator, sort, IsSorted, Alike}
use adaptive_financial_os.Common.BigInt.Laws.{IsDigit}
use adaptive_financial_os.Core.Types.{
  ok, err, negative_amount, unbalanced_entry, invalid_input, debit, credit, Money, JournalLineInput,
  JournalEntryInput,
}
use adaptive_financial_os.Core.Money.{
  currency_re, money, add_money, assert_same_currency, sum_from, sum_money, is_unsafe, to_bigint,
}
use adaptive_financial_os.Core.Posting.{
  ValidatedEntry, date_re, check_line, check_lines, line_compare, validate_entry,
}
use adaptive_financial_os.Core.Posting.Spec.{IsPostable, IsLine, posted, side_total}
use adaptive_financial_os.Core.Posting.Valid.{validate_entry_iff}
use adaptive_financial_os.Common.Sort.Laws.{is_eq}
use adaptive_financial_os.Core.Posting.Order.{AreOrdered, validate_entry-sorts}
use adaptive_financial_os.Core.Posting.Reorder.{validate_entry-reorder}
use adaptive_financial_os.Core.Posting.Errors.{
  IsHeader, validate_entry-first_bad, validate_entry-unbalanced,
}
use adaptive_financial_os.Core.Balance.{
  TrialBalance, TrialBalanceRow, AccountBalance, balance_per_account, add_lines, add_line,
  to_balances, to_balance, trial_balance_from_lines,
}
use adaptive_financial_os.Core.Balance.Accounts.{
  balance_per_account-account, lines_of, account_balance,
}
use adaptive_financial_os.Core.Balance.Single.{LineIn}
use adaptive_financial_os.Core.Balance.Trial.{trial_balance_from_lines_totals}
use adaptive_financial_os.Core.Balance.Entry.{validated_trial_balance, validated_bad_currency}
use adaptive_financial_os.Core.Deltas.{DbLine, amount_minor}
use adaptive_financial_os.Core.Deltas.Amounts.{amount_minor-decimal, amount_minor-scale}

-- A comparison that does not tell accounts apart; any comparator will do.
abbrev pub same : Text → Text → Ordering
same a b = Ordering.eq

pub same-IsComparator : IsComparator same
same-IsComparator = record { flips = λ a b. refl; chains = λ a b c p q r. ground arith }

abbrev pub eur : ℤ → Money
eur n = record { amount = n; currency = text "EUR" }

abbrev pub cash : JournalLineInput
cash = record { account_id = text "cash"; side = debit; amount = eur (pos 250); memo = none }

abbrev pub sales : JournalLineInput
sales = record { account_id = text "sales"; side = credit; amount = eur (pos 250); memo = none }

abbrev pub refund : JournalLineInput
refund = record { account_id = text "sales"; side = credit; amount = eur (pos 90); memo = none }

abbrev pub entry_of : List JournalLineInput → JournalEntryInput
entry_of ls = record {
  tenant_id = text "t1";
  idempotency_key = text "k1";
  booking_date = text "2024-05-17";
  currency = text "EUR";
  memo = none;
  lines = ls;
}

abbrev pub sale : JournalEntryInput
sale = entry_of (sales ∷ cash ∷ [])

-- The debit line comes first.
pub sale-accepted : validate_entry same sale ≡ ok (posted same sale)
unfolding validate_entry check_lines check_line date_re matches_classes sum_money sum_from add_money
    assert_same_currency line_compare sort text_beq ◌+ℤ◌
sale-accepted = refl

sale-lines : (posted same sale).lines ≡ cash ∷ sales ∷ []
unfolding line_compare sort
sale-lines = refl

pub eur-valid : currency_re (text "EUR") ≡ true
unfolding currency_re matches_classes
eur-valid = refl

validate_entry_iff_example :
    (validate_entry same sale ≡ ok (posted same sale))
    ↔ (IsPostable sale × (posted same sale ≡ posted same sale))
validate_entry_iff_example = validate_entry_iff same sale (posted same sale)

validate_entry-sorts_example :
    Perm (posted same sale).lines sale.lines
    × AreOrdered same (posted same sale).lines
    × ((l : JournalLineInput)
        → keep (λ z. is_eq (line_compare same l z)) (posted same sale).lines
          ≡ keep (λ z. is_eq (line_compare same l z)) sale.lines)
validate_entry-sorts_example =
    validate_entry-sorts same same-IsComparator sale (posted same sale) sale-accepted

validate_entry-reorder_example :
    (again : ValidatedEntry) × (validate_entry same (entry_of (cash ∷ sales ∷ [])) ≡ ok again)
    × (again.total_debit ≡ (posted same sale).total_debit)
    × (again.total_credit ≡ (posted same sale).total_credit)
    × Alike (line_compare same) (posted same sale).lines again.lines
validate_entry-reorder_example =
    validate_entry-reorder same same-IsComparator sale (posted same sale) (cash ∷ sales ∷ [])
      sale-accepted (Permᴰ.swap refl refl)

-- A first line that passes, a second of a negative amount, and a third in another currency.
abbrev owing : JournalLineInput
owing = record { account_id = text "bank"; side = debit; amount = eur (negsuc 4); memo = none }

abbrev foreign : JournalLineInput
foreign = record {
  account_id = text "bank";
  side = credit;
  amount = record { amount = pos 5; currency = text "USD" };
  memo = none;
}

abbrev spoilt : JournalEntryInput
spoilt = entry_of (cash ∷ owing ∷ foreign ∷ [])

spoilt-IsHeader : IsHeader spoilt
unfolding date_re matches_classes
spoilt-IsHeader = record {
  tenant = cc;
  key = cc;
  key_bound = ground arith;
  date = refl;
  two_lines = ground arith;
}

cash-IsLine : IsLine (text "EUR") cash
cash-IsLine = record { account = cc; positive = ground arith; same_currency = refl }

refund-IsLine : IsLine (text "EUR") refund
refund-IsLine = record { account = cc; positive = ground arith; same_currency = refl }

owing-refused : check_line (text "EUR") owing ≡ err negative_amount
unfolding check_line text_beq
owing-refused = refl

validate_entry-first_bad_example : validate_entry same spoilt ≡ err negative_amount
validate_entry-first_bad_example =
    validate_entry-first_bad same spoilt spoilt-IsHeader (cash ∷ []) (foreign ∷ []) owing
      negative_amount refl (cash-IsLine, tt) owing-refused

abbrev short_sale : JournalEntryInput
short_sale = entry_of (cash ∷ refund ∷ [])

short_sale-IsHeader : IsHeader short_sale
unfolding date_re matches_classes
short_sale-IsHeader = record {
  tenant = cc;
  key = cc;
  key_bound = ground arith;
  date = refl;
  two_lines = ground arith;
}

short_sale-differs : side_total debit short_sale.lines ≢ side_total credit short_sale.lines
unfolding ◌+ℤ◌
short_sale-differs = λ e. ground arith

validate_entry-unbalanced_example : validate_entry same short_sale ≡ err unbalanced_entry
validate_entry-unbalanced_example =
    validate_entry-unbalanced same short_sale short_sale-IsHeader (cash-IsLine, (refund-IsLine, tt))
      tt tt short_sale-differs

validated_trial_balance_example :
    (tb : TrialBalance) × (trial_balance_from_lines same (posted same sale).lines ≡ ok tb)
    × (tb.balanced ≡ true)
    × (tb.total_debit ≡ (posted same sale).total_debit)
    × (tb.total_credit ≡ (posted same sale).total_credit)
validated_trial_balance_example =
    validated_trial_balance same same-IsComparator sale (posted same sale) sale-accepted eur-valid

-- The sale again, in a currency that is no three capital letters.
abbrev in_euro : JournalLineInput → JournalLineInput
in_euro l = record l { amount = record { amount = l.amount.amount; currency = text "euro" } }

abbrev euro_sale : JournalEntryInput
euro_sale = record (entry_of (in_euro sales ∷ in_euro cash ∷ [])) { currency = text "euro" }

euro_sale-accepted : validate_entry same euro_sale ≡ ok (posted same euro_sale)
unfolding validate_entry check_lines check_line date_re matches_classes sum_money sum_from add_money
    assert_same_currency line_compare sort text_beq ◌+ℤ◌
euro_sale-accepted = refl

euro-invalid : currency_re (text "euro") ≡ false
unfolding currency_re matches_classes
euro-invalid = refl

validated_bad_currency_example :
    trial_balance_from_lines same (posted same euro_sale).lines ≡ err invalid_input
validated_bad_currency_example =
    validated_bad_currency same same-IsComparator euro_sale (posted same euro_sale)
      euro_sale-accepted euro-invalid

abbrev three : List JournalLineInput
three = cash ∷ sales ∷ refund ∷ []

three-ne-nil : three ≢ []
three-ne-nil = cc

three-LineIn : All (LineIn (text "EUR")) three
three-LineIn = (refl, (refl, (refl, tt)))

trial_balance_from_lines_totals_example :
    (tb : TrialBalance) × (trial_balance_from_lines same three ≡ ok tb)
    × (tb.total_debit ≡ eur (side_total debit three))
    × (tb.total_credit ≡ eur (side_total credit three))
    × ((tb.balanced ≡ true) ↔ (side_total debit three ≡ side_total credit three))
    × IsSorted (λ (a b : TrialBalanceRow). same a.account_id b.account_id) tb.rows
trial_balance_from_lines_totals_example =
    trial_balance_from_lines_totals same (text "EUR") three same-IsComparator three-ne-nil
      three-LineIn eur-valid

abbrev three_balances : JsMap Text AccountBalance
three_balances =
    (
      text "cash",
      record {
        account_id = text "cash";
        currency = text "EUR";
        debit_total = eur (pos 250);
        credit_total = eur (pos 0);
        net = eur (pos 250);
      },
    )
    ∷ (
      text "sales",
      record {
        account_id = text "sales";
        currency = text "EUR";
        debit_total = eur (pos 0);
        credit_total = eur (pos 340);
        net = eur (negsuc 339);
      },
    )
    ∷ []

three-balances : balance_per_account three ≡ ok three_balances
unfolding balance_per_account add_lines add_line to_balances to_balance money is_unsafe to_bigint
    currency_re matches_classes text_beq ◌+ℤ◌ ◌-ℤ◌
three-balances = refl

balance_per_account-account_example :
    get (text "sales") three_balances
    ≡ account_balance (text "sales") (lines_of (text "sales") three)
balance_per_account-account_example =
    balance_per_account-account three three_balances (text "sales") three-balances

abbrev row_of : JournalLineInput → Text → DbLine
row_of l amount = record {
  account_id = l.account_id;
  direction = l.side;
  amount = amount;
  currency = l.amount.currency;
}

abbrev three_rows : List DbLine
three_rows =
    row_of cash (text "250") ∷ row_of sales (text "0.0250") ∷ row_of refund (text "90") ∷ []

amount_minor-decimal_example : amount_minor (text "12.3450") ≡ ok (pos 123450)
amount_minor-decimal_example =
    amount_minor-decimal (text "12") b'3' b'4' b'5' b'0' (refl, (refl, tt))
      (refl, (refl, (refl, (refl, tt))))

ten-ne-nil : text "10" ≢ []
ten-ne-nil = cc

ten-digits : All IsDigit (text "10")
ten-digits = (refl, (refl, tt))

amount_minor-scale_example :
    (n : ℕ) × (amount_minor (text "10") ≡ ok (pos n))
    × (amount_minor (text "10.0000") ≡ ok (pos (n * 10000)))
amount_minor-scale_example = amount_minor-scale (text "10") ten-ne-nil ten-digits
