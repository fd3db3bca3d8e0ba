-- ===== src/Dlr.antt =====
-- internal/dlr: delivery reports and how a batch of them is applied (apply.go). `status` is one of the
-- two that the callback handler lets through.
pub mod Laws
pub mod Batcher
pub mod Examples
use sms_gateway.Common.{
  ℕ, ◌+◌, Bool, true, false, ◌&&◌, ◌||◌, not, Option, none, some, List, [], ◌∷◌, map, leb, ◌==◌,
  length, if◌then◌else◌, keep,
}
use sms_gateway.Common.Text.{Text}
use sms_gateway.Message.{
  Message, Status, accepted, sent, delivered, undelivered, failed, expired, is_accepted, is_sent,
}
use sms_gateway.Store.Tables.{Db, is_null, coalesce, mem_id}

pub record Report : Type 0 where
  pub message_id : ℕ
  pub provider : Text
  pub provider_ref : Text
  pub status : Status

-- What applying a report did.
pub data ReportOutcome : Type 0 where
  applied duplicate ignored_terminal unknown : ReportOutcome

abbrev pub same_status : Status → Status → Bool
same_status accepted accepted = true
same_status sent sent = true
same_status delivered delivered = true
same_status undelivered undelivered = true
same_status failed failed = true
same_status expired expired = true
same_status _ _ = false

-- `unique`, where `seen` is the key set of `first`
unfoldable pub unique : List ℕ → List Report → List Report
unique seen [] = []
unique seen (r ∷ rs) =
    let rest = unique (r.message_id ∷ seen) rs in
    let same = unique seen rs in if mem_id r.message_id seen then same else r ∷ rest

-- `slices.SortFunc(unique, compareIDs)`
unfoldable pub insert_report : Report → List Report → List Report
insert_report r [] = r ∷ []
insert_report r (x ∷ xs) =
    if leb r.message_id x.message_id then r ∷ x ∷ xs else x ∷ insert_report r xs

unfoldable pub sort_reports : List Report → List Report
sort_reports [] = []
sort_reports (r ∷ rs) = insert_report r (sort_reports rs)

-- The row of `unnest(...)` that joins a message.
unfoldable pub find_report : ℕ → List Report → Option Report
find_report i [] = none
find_report i (r ∷ rs) = if r.message_id == i then some r else find_report i rs

-- status IN ('accepted', 'sent')
abbrev pub is_open : Message → Bool
is_open m = is_accepted m.status || is_sent m.status

unfoldable pub report_row : ℕ → Option Report → Message → Message
report_row now none m = m
report_row now (some r) m =
    if is_open m
    then record m {
      status = r.status;
      completed_at = some now;
      provider = coalesce m.provider (some r.provider);
      provider_ref = coalesce m.provider_ref (some r.provider_ref);
      updated_at = now;
    }
    else m

unfoldable pub update_report : ℕ → List Report → Message → Message
unfolding report_row
update_report now rs m = report_row now (find_report m.id rs) m

-- The rows that the UPDATE returns.
unfoldable pub updated_ids : List Report → List Message → List ℕ
updated_ids rs ms =
    map (λ m. m.id) (keep (λ m. not (is_null (find_report m.id rs)) && is_open m) ms)

-- `current[id]`, after the SELECT of the messages in `rest`
unfoldable pub current_status : List ℕ → ℕ → List Message → Option Status
current_status rest i [] = none
current_status rest i (m ∷ ms) =
    if m.id == i && mem_id i rest then some m.status else current_status rest i ms

abbrev pub classify_rest : Report → Option Status → ReportOutcome
classify_rest r none = unknown
classify_rest r (some s) = if same_status s r.status then duplicate else ignored_terminal

unfoldable pub classify : List ℕ → (ℕ → Option Status) → List ℕ → List Report → List ReportOutcome
classify changed current seen [] = []
classify changed current seen (r ∷ rs) =
    (if mem_id r.message_id changed
      then (if mem_id r.message_id seen then duplicate else applied)
      else classify_rest r (current r.message_id))
    ∷ classify changed current (r.message_id ∷ seen) rs

-- `Apply`: an outcome for each report, and the tables afterwards.
unfoldable pub apply : ℕ → List Report → Db → List ReportOutcome × Db
unfolding unique sort_reports update_report updated_ids current_status classify
apply now reports d =
    let firsts = sort_reports (unique [] reports) in
    let changed = updated_ids firsts d.messages in
    let ms = map (update_report now firsts) d.messages in
    let rest = keep (λ i. not (mem_id i changed)) (map (λ r. r.message_id) firsts) in
    let current : ℕ → Option Status =
      λ i. if length changed == length firsts then none else current_status rest i ms in
    (classify changed current [] reports, record d { messages = ms })
