-- ===== src/Examples/Submit.antt =====
-- Submissions of requests, and the witnesses of the theorems about them.
use sms_gateway.Common.{
  ℕ, ◌+◌, ◌*◌, ◌≡◌, refl, true, false, ◌&&◌, some, List, [], ◌∷◌, length, arith, All,
}
use sms_gateway.Common.Text.{Text, codes}
use sms_gateway.Segment.{gsm7, count, detect, width, total_width, gsm7_basic, gsm7_extension}
use sms_gateway.Message.{normal, express, parse_type, per_segment, message_cost}
use sms_gateway.Invariant.{Inv}
use sms_gateway.Accept.{Item, AcceptConfig, refused}
use sms_gateway.Accept.Validate.{
  Request, prepared, prepare, prepare_from, check, check_recipient, check_text, problem,
  valid_recipient, all_digits, valid_client_ref, all_ref_chars, valid_text, segments_of, item_of,
}
use sms_gateway.Accept.Validate.Laws.{prepare_iff, is_prepared, size_ok, all_valid, refs_differ}
use sms_gateway.Accept.Validate.Priced.{Matches, prepare-Matches, prepared_fit}
use sms_gateway.Accept.Submit.{submit, settled_submission, submit_settles, submit-Inv}
use sms_gateway.Examples.Rows.{tables, tables-Inv}

abbrev cfg : AcceptConfig
cfg = record {
  prices = record { normal_price = 7; express_price = 10 };
  max_segments = 10;
  normal_lanes = 4;
  normal_ttl = 3000000;
  express_ttl = 2000000;
}

abbrev request : Request
request = record {
  recipient = codes "+15550101";
  text = codes "ho";
  type_name = [];
  client_ref = some (codes "r1");
}

abbrev other_request : Request
other_request = record request { type_name = codes "express"; client_ref = some (codes "r2") }

abbrev requests : List Request
requests = request ∷ other_request ∷ []

abbrev first_item : Item
first_item = record {
  recipient = codes "+15550101";
  text = codes "ho";
  message_type = normal;
  ref = codes "r1";
  seg = record { encoding = gsm7; units = 2; segments = 1 };
  cost = 7;
}

abbrev items : List Item
items = first_item ∷ record first_item { message_type = express; ref = codes "r2"; cost = 10 } ∷ []

abbrev hash : ℕ → ℕ
hash n = n

abbrev itoa : ℕ → Text
itoa n = (48 + n) ∷ []

abbrev new_id : ℕ → ℕ → ℕ
new_id n i = 200 + n * 10 + i

abbrev new_tx : ℕ → ℕ → ℕ
new_tx n i = 300 + n * 10 + i

requests-prepared : prepare cfg itoa true requests ≡ prepared items
unfolding prepare prepare_from check check_recipient check_text problem valid_recipient all_digits
    valid_client_ref all_ref_chars valid_text segments_of item_of count detect width total_width
    gsm7_basic gsm7_extension parse_type message_cost per_segment
requests-prepared = refl

prepare_iff_example :
    is_prepared (prepare cfg itoa true requests)
    ≡ (size_ok true (length requests) && (all_valid cfg requests && refs_differ [] requests))
prepare_iff_example = prepare_iff cfg itoa true requests

prepare-Matches_example : Matches cfg requests items
prepare-Matches_example = prepare-Matches cfg itoa true requests items requests-prepared

prepared_fit_example : All (λ x. refused x ≡ false) items
prepared_fit_example =
    prepared_fit cfg itoa true requests items (omega arith) (omega arith) (omega arith)
      requests-prepared

submit_settles_example :
    settled_submission (submit 60 cfg hash itoa new_id new_tx 1 true requests tables).0 ≡ true
submit_settles_example = submit_settles 60 cfg hash itoa new_id new_tx 1 true requests tables

submit-Inv_example : Inv 60 (submit 60 cfg hash itoa new_id new_tx 1 true requests tables).1
submit-Inv_example =
    submit-Inv 50 60 cfg hash itoa new_id new_tx 1 true requests tables (omega arith) tables-Inv
