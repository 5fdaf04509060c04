-- ===== src/Commission/Tests.antt =====
-- A week's two entries, and the theorems of the weekly statement at them.
use print_q.Base.{◌≡◌, refl, map, sum_by, true, none, some, [], ◌∷◌, ◌++◌, pos, negsuc, min, ok}
use print_q.Base.Sorting.{sort}
use print_q.Fees.{
  Books, Entry, Statement, FeeConfig, print_commission, refund_credit, left_over, frozen,
  due_at_for,
}
use print_q.Fees.Account.{sum_entries}
use print_q.Commission.{
  StatementPeriod, freeze_weekly_commission_statement, entries_to_freeze, line_of, statement_of,
  freeze_entries, derive_statement_amounts, sum_amounts, has_unapplied_credit, write_statement,
  with_prepaid,
}
use print_q.Commission.Freeze.{Leaves}
use print_q.Commission.Kept.{IsBilledOnce, freeze-IsBilledOnce}
use print_q.Commission.Once.{
  freeze_weekly_commission_statement-again, freeze_weekly_commission_statement-exact,
}
use print_q.Fees.Prepaid.{apply_prepaid_to_statement, prepaid_loop, prepaid_payments}

abbrev terms : FeeConfig
terms = record { enabled = true; payment_terms_days = 7; overdue_block_after_days = 0 }

abbrev week : StatementPeriod
week = record { start = 10; end = 20 }

abbrev printed : Entry
printed = record {
  id = 1;
  kind = print_commission;
  amount_paise = pos 500;
  fee_payment_id = none;
  created_at = 12;
}

abbrev refunded : Entry
refunded = record {
  id = 2;
  kind = refund_credit;
  amount_paise = negsuc 99;
  fee_payment_id = none;
  created_at = 15;
}

abbrev week_books : Books
week_books = record {
  fee_blocked_at = none;
  fee_block_reason = none;
  fee_block_override_until = none;
  statements = [];
  lines = [];
  entries = refunded ∷ printed ∷ [];
  payments = [];
  allocations = [];
  events = [];
}

abbrev week_statement : Statement
week_statement = record {
  id = 5;
  period_start = 10;
  period_end = 20;
  gross_commission_paise = 500;
  credit_paise = 100;
  amount_due_paise = 400;
  paid_paise = 0;
  status = frozen;
  due_at = some 604_800_025;
  frozen_at = some 25;
  settled_at = none;
}

abbrev frozen_books : Books
frozen_books = record week_books {
  statements = week_statement ∷ [];
  lines = line_of 5 printed ∷ line_of 5 refunded ∷ [];
}

week_freezes :
    freeze_weekly_commission_statement terms 25 5 week week_books
    ≡ ok (some week_statement, frozen_books)
unfolding freeze_weekly_commission_statement statement_of freeze_entries entries_to_freeze sort
    derive_statement_amounts sum_amounts has_unapplied_credit write_statement with_prepaid
    apply_prepaid_to_statement prepaid_loop prepaid_payments due_at_for
week_freezes = refl

freeze_weekly_commission_statement-again_example :
    freeze_weekly_commission_statement terms 30 6 week frozen_books
    ≡ ok (some week_statement, frozen_books)
freeze_weekly_commission_statement-again_example =
    freeze_weekly_commission_statement-again terms terms 25 30 5 6 week week_statement week_books
      frozen_books week_freezes

no_statement : statement_of week [] ≡ none
unfolding statement_of
no_statement = refl

freeze_weekly_commission_statement-exact_example :
    (sum_entries (entries_to_freeze week week_books) ≡ pos 400)
    × (frozen_books.lines ≡ [] ++ map (line_of 5) (entries_to_freeze week week_books))
    × (0 ≡ min 400 (sum_by left_over []))
freeze_weekly_commission_statement-exact_example =
    freeze_weekly_commission_statement-exact terms 25 5 week week_statement week_books frozen_books
      tt no_statement week_freezes

freeze-IsBilledOnce_example :
    Leaves (λ s c. IsBilledOnce c) (freeze_weekly_commission_statement terms 25 5 week week_books)
freeze-IsBilledOnce_example = freeze-IsBilledOnce terms 25 5 week week_books (refl, (refl, tt)) tt
