-- ===== src/Dlr/Examples.antt =====
-- A batch of delivery reports, and the witnesses of their theorems.
use sms_gateway.Common.{◌≡◌, refl, List, [], ◌∷◌, map}
use sms_gateway.Common.Text.{codes}
use sms_gateway.Message.{Message, delivered, undelivered}
use sms_gateway.Store.Tables.{mem_id}
use sms_gateway.Dlr.{
  Report, applied, duplicate, unknown, ignored_terminal, apply, unique, insert_report, sort_reports,
  find_report, report_row, update_report, updated_ids, current_status, classify,
}
use sms_gateway.Dlr.Laws.{apply_first, apply_again}
use sms_gateway.Examples.Rows.{tables}

abbrev good : Report
good = record { message_id = 5; provider = codes "a"; provider_ref = codes "r"; status = delivered }

abbrev reports : List Report
reports = record good { message_id = 9 } ∷ good ∷ record good { status = undelivered } ∷ []

apply-outcomes : (apply 60 reports tables).0 ≡ unknown ∷ applied ∷ duplicate ∷ []
unfolding apply unique insert_report sort_reports find_report report_row update_report updated_ids
    current_status classify mem_id
apply-outcomes = refl

apply-later :
    (apply 70 reports (apply 60 (record good { status = undelivered } ∷ []) tables).1).0
    ≡ unknown ∷ ignored_terminal ∷ duplicate ∷ []
unfolding apply unique insert_report sort_reports find_report report_row update_report updated_ids
    current_status classify mem_id
apply-later = refl

apply_first_example : (apply 60 reports tables).1 ≡ record tables {
  messages = map (λ (m : Message). report_row 60 (find_report m.id reports) m) tables.messages;
}
apply_first_example = apply_first 60 reports tables

apply_again_example : (apply 70 reports (apply 60 reports tables).1).1 ≡ (apply 60 reports tables).1
apply_again_example = apply_again 60 70 reports tables (refl, (refl, (refl, tt)))
