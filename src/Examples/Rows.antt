-- ===== src/Examples/Rows.antt =====
-- One customer with one accepted message, claimed by a worker.
use sms_gateway.Common.{ℕ, ◌+◌, refl, true, false, none, some, [], ◌∷◌, arith}
use sms_gateway.Common.Int.{pos, neg, ◌+ℤ◌}
use sms_gateway.Common.Text.{Text, codes}
use sms_gateway.Segment.{gsm7}
use sms_gateway.Message.{Message, express, accepted, rejected}
use sms_gateway.Store.Tables.{
  Customer, charge, debit, Transaction, QueueRow, Db, has_customer, has_message, queued,
}
use sms_gateway.Invariant.{Inv, times_violated}
use sms_gateway.Invariant.Sums.{sum_amounts, count_kind, amount_kind}
use sms_gateway.Dispatch.Job.{Job, Outcome, outcome_failed}

abbrev pub worker : Text
worker = codes "w1"

abbrev pub sample_customer : Customer
sample_customer = record {
  id = 1;
  name = codes "Acme";
  api_key_hash = codes "h";
  api_key_prefix = codes "p";
  balance = 90;
  rate_limit_rps = 5;
  created_at = 0;
  updated_at = 40;
}

abbrev pub sample_message : Message
sample_message = record {
  id = 5;
  customer_id = 1;
  message_type = express;
  recipient = codes "+15550100";
  body = codes "hi";
  encoding = gsm7;
  segments = 1;
  cost = 10;
  status = accepted;
  attempts = 0;
  provider = none;
  provider_ref = none;
  last_error = none;
  failure_reason = none;
  sla_breached = false;
  client_ref = none;
  accepted_at = 40;
  expires_at = 4000;
  sent_at = none;
  completed_at = none;
  updated_at = 40;
}

abbrev pub sample_charge : Transaction
sample_charge = record {
  id = 1;
  customer_id = 1;
  kind = charge;
  amount = pos 100;
  message_id = none;
  client_ref = none;
  created_at = 30;
}

abbrev pub sample_debit : Transaction
sample_debit = record {
  id = 2;
  customer_id = 1;
  kind = debit;
  amount = neg 10;
  message_id = some 5;
  client_ref = none;
  created_at = 40;
}

abbrev pub sample_queued : QueueRow
sample_queued = record {
  message_id = 5;
  lane = codes "express";
  next_attempt_at = 45;
  lease_owner = some worker;
  lease_version = 3;
  expires_at = 4000;
}

abbrev pub tables : Db
tables = record {
  customers = sample_customer ∷ [];
  messages = sample_message ∷ [];
  transactions = sample_debit ∷ sample_charge ∷ [];
  queue = sample_queued ∷ [];
}

abbrev pub claimed_job : Job
claimed_job = record {
  id = 5;
  customer_id = 1;
  message_type = express;
  recipient = codes "+15550100";
  body = codes "hi";
  attempts = 0;
  accepted_at = 40;
  expires_at = 4000;
  lease_version = 3;
  claim_time = 42;
}

abbrev pub ends_rejected : Outcome
ends_rejected = record {
  kind = outcome_failed;
  job = claimed_job;
  provider = codes "a";
  provider_ref = [];
  error = codes "400";
  delay = 0;
  reason = some rejected;
  attempted = true;
}

abbrev pub of_id : ℕ → ℕ
of_id n = 100 + n

pub tables-Inv : Inv 50 tables
unfolding sum_amounts count_kind amount_kind has_message has_customer queued times_violated ◌+ℤ◌
tables-Inv = record {
  balanced = (refl, tt);
  settled = (
    record {
      debit_once = refl;
      debit_cost = refl;
      refund_due = refl;
      refund_cost = refl;
      waiting = λ e. refl;
      unsent = λ e. refl;
      timely = refl;
      past = omega arith;
      costly = omega arith;
    },
    tt,
  );
  distinct = (refl, tt);
  known_message = λ i e. (ground arith, ground arith);
  known_customer = λ k e. ground arith;
}
