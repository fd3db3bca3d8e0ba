-- ===== src/Examples/Report.antt =====
-- The summary of a customer with a failed message, and the witness of its theorem.
use sms_gateway.Common.{ℕ, ◌≡◌, refl, some, [], ◌∷◌, keep, arith}
use sms_gateway.Common.Int.{pos, ◌+ℤ◌}
use sms_gateway.Message.{failed, rejected}
use sms_gateway.Store.Tables.{refund, Db, has_customer, has_message}
use sms_gateway.Store.Ids.{lower_bound, uuid_v7}
use sms_gateway.Invariant.{Inv, times_violated}
use sms_gateway.Invariant.Sums.{sum_amounts, count_kind, amount_kind}
use sms_gateway.Queries.Summary.{
  summarize, reported, empty_summary, groups, keys, joined_rows, refund_amounts,
}
use sms_gateway.Queries.Summary.Totals.{AddsUp, summarize_exact}
use sms_gateway.Examples.Rows.{sample_customer, sample_message, sample_charge, sample_debit}

-- The identifier has the timestamp of two milliseconds.
abbrev failed_id : ℕ
failed_id = uuid_v7 2 1 1

abbrev failed_tables : Db
failed_tables = record {
  customers = record sample_customer { balance = 100 } ∷ [];
  messages =
      record sample_message {
        id = failed_id;
        status = failed;
        failure_reason = some rejected;
        completed_at = some 45;
      }
      ∷ [];
  transactions =
      record sample_debit { id = 3; kind = refund; amount = pos 10; message_id = some failed_id }
      ∷ record sample_debit { message_id = some failed_id }
      ∷ sample_charge
      ∷ [];
  queue = [];
}

failed_tables-Inv : Inv 50 failed_tables
unfolding sum_amounts count_kind amount_kind has_message has_customer times_violated ◌+ℤ◌
failed_tables-Inv = record {
  balanced = (refl, tt);
  settled = (
    record {
      debit_once = refl;
      debit_cost = refl;
      refund_due = refl;
      refund_cost = refl;
      waiting = λ e. absurd (ground (arith, e));
      unsent = λ e. refl;
      timely = refl;
      past = omega arith;
      costly = omega arith;
    },
    tt,
  );
  distinct = (refl, tt);
  known_message = λ i e. (ground arith, ground arith);
  known_customer = λ k e. ground arith;
}

summarize_exact_example :
    AddsUp
      (summarize 1 1000000 3000000 failed_tables)
      (keep (reported 1 1000000 3000000) failed_tables.messages)
summarize_exact_example = summarize_exact 1 1000000 3000000 50 failed_tables failed_tables-Inv

-- The refund of the failed message is in the summary.
refunded_ten : (summarize 1 1000000 3000000 failed_tables).credits_refunded ≡ pos 10
unfolding summarize empty_summary groups keys joined_rows reported lower_bound refund_amounts ◌+ℤ◌
refunded_ten = refl
