-- ===== src/Dlr/Laws.antt =====
-- Applying delivery reports: the first report decides, and applying is idempotent.
use sms_gateway.Common.{
  ℕ, ◌≤◌, ◌≡◌, refl, ap, ◌∙◌, subst, Bool, true, false, Option, none, some, List, [], ◌∷◌, map,
  ◌==◌, if◌then◌else◌, arith, All, All-imp, Bool-cases, inl, inr,
}
use sms_gateway.Message.{Message, Status, delivered, undelivered}
use sms_gateway.Store.Tables.{Transaction, QueueRow, Db, mem_id}
use sms_gateway.Invariant.{Settled, Inv, times_violated}
use sms_gateway.Invariant.Update.{Change, Change-same, Inv-map}
use sms_gateway.Dlr.{
  Report, unique, insert_report, sort_reports, find_report, is_open, report_row, update_report,
  apply,
}

-- The handler lets only these two through.
abbrev pub is_reported : Status → Bool
is_reported delivered = true
is_reported undelivered = true
is_reported _ = false

abbrev pub IsReported : Report → Type 0
IsReported r = is_reported r.status ≡ true

abbrev pub AllReported : List Report → Type 0
AllReported = All IsReported

find-insert_report :
    (i : ℕ) (r : Report) (rs : List Report)
    → find_report i (insert_report r rs) ≡ find_report i (r ∷ rs)
unfolding find_report insert_report
find-insert_report i r [] = refl
find-insert_report i r (x ∷ xs) = ground (arith, find-insert_report i r xs)

find-sort_reports : (i : ℕ) (rs : List Report) → find_report i (sort_reports rs) ≡ find_report i rs
unfolding sort_reports find_report
find-sort_reports i [] = refl
find-sort_reports i (r ∷ rs) =
    find-insert_report i r (sort_reports rs) ∙ rw (find-sort_reports i rs)

find-unique :
    (i : ℕ) (seen : List ℕ) (rs : List Report)
    → find_report i (unique seen rs) ≡ (if mem_id i seen then none else find_report i rs)
unfolding unique find_report mem_id
find-unique i seen [] = ground arith
find-unique i seen (r ∷ rs) = ground (
  arith,
  find-unique i seen rs,
  find-unique i (r.message_id ∷ seen) rs,
  ap (λ j. mem_id j seen) {x = r.message_id} {y = i},
)

-- The row that joins a message is the first report that names it.
first_joins :
    (i : ℕ) (rs : List Report) → find_report i (sort_reports (unique [] rs)) ≡ find_report i rs
unfolding mem_id
first_joins i rs = find-sort_reports i (unique [] rs) ∙ find-unique i [] rs

map_same :
    (f g : Message → Message) (ms : List Message)
    → ((m : Message) → f m ≡ g m)
    → map f ms ≡ map g ms
map_same f g [] h = refl
map_same f g (m ∷ ms) h = rw (h m, map_same f g ms h)

-- A batch updates every message by the first report in it that names the message, whatever the
-- batch's order of ids and however often a message is named; messages that no report names, and
-- those in a terminal status, stay as they are.
pub apply_first :
    (now : ℕ) (rs : List Report) (d : Db)
    → (apply now rs d).1
      ≡ record d { messages = map (λ m. report_row now (find_report m.id rs) m) d.messages }
unfolding apply update_report
apply_first now rs d =
    ap (λ ms. record d { messages = ms })
      (map_same _ _ d.messages (λ m. ap (λ o. report_row now o m) (first_joins m.id rs)))

report_row-Change :
    (now now' : ℕ) (txs : List Transaction) (q : List QueueRow) (o : Option Report) (m : Message)
    → now ≤ now'
    → ((r : Report) → o ≡ some r → IsReported r)
    → Settled txs q now m
    → Change q false m (report_row now' o m)
unfolding report_row times_violated
report_row-Change now now' txs q none m late h s = Change-same txs q q now m s s.waiting
report_row-Change now now' txs q (some r) m late h s = elim (Bool-cases (is_open m)) [
  | inl e ↦
      let ok = h r refl in
      rw (e, report_row)
        (record {
          same_id = refl;
          same_cost = refl;
          same_accepted = refl;
          refundable = ground (arith, ok, e);
          first_time = λ k. cc;
          still_waiting = λ k. ground (arith, ok, k);
          still_unsent = λ k. ground (arith, ok, k);
          in_time = ground (arith, ok, e, s.timely, s.past, late, s.unsent);
        })
  | inr e ↦ rw (e, report_row) (Change-same txs q q now m s s.waiting)
]

find_report-All :
    (P : Report → Type 0) (i : ℕ) (rs : List Report) (r : Report)
    → All P rs
    → find_report i rs ≡ some r
    → P r
unfolding find_report
find_report-All P i [] r h e = cc
find_report-All P i (x ∷ xs) r h e = elim (Bool-cases (x.message_id == i)) [
  | inl hit ↦ found (ground (arith, hit, e)) h.0
  | inr miss ↦ find_report-All P i xs r h.1 (ground (arith, miss, e))
]
  where
    the_report : Option Report → Report
    the_report none = x
    the_report (some y) = y

    found : some x ≡ some r → P x → P r
    found same p = subst P (ap the_report same) p

report_row_id : (now : ℕ) (o : Option Report) (m : Message) → (report_row now o m).id ≡ m.id
unfolding report_row
report_row_id now none m = refl
report_row_id now (some r) m = ground arith

-- Applying any batch of the handler's reports keeps the invariant.
pub apply-Inv :
    (now now' : ℕ) (rs : List Report) (d : Db)
    → now ≤ now'
    → All IsReported rs
    → Inv now d
    → Inv now' (apply now' rs d).1
apply-Inv now now' rs d late h v = rw (apply_first now' rs d) (
    Inv-map now now' (λ m. report_row now' (find_report m.id rs) m) d.queue d late v
      (λ m. report_row_id now' (find_report m.id rs) m)
      (All-imp _ _ d.messages
        (λ m s.
          report_row-Change now now' d.transactions d.queue (find_report m.id rs) m late
            (λ r e. find_report-All IsReported m.id rs r h e) s)
        v.settled))

report_row_again :
    (now now' : ℕ) (o : Option Report) (m : Message)
    → ((r : Report) → o ≡ some r → IsReported r)
    → report_row now' o (report_row now o m) ≡ report_row now o m
unfolding report_row
report_row_again now now' none m h = refl
report_row_again now now' (some r) m h = elim (Bool-cases (is_open m)) [
  | inl e ↦ ground (arith, e, h r refl)
  | inr e ↦ ground (arith, e)
]

map_twice :
    (f g : Message → Message) (ms : List Message)
    → ((m : Message) → g (f m) ≡ f m)
    → map g (map f ms) ≡ map f ms
map_twice f g [] h = refl
map_twice f g (m ∷ ms) h = rw (h m, map_twice f g ms h)

-- A batch that is applied again, at any time, changes nothing.
pub apply_again :
    (now now' : ℕ) (rs : List Report) (d : Db)
    → All IsReported rs
    → (apply now' rs (apply now rs d).1).1 ≡ (apply now rs d).1
unfolding report_row
apply_again now now' rs d h =
    rw (apply_first now rs d, apply_first now' rs)
      (ap (λ ms. record d { messages = ms })
        (map_twice _ _ d.messages (λ m. rw (report_row_id now (find_report m.id rs) m) (
          report_row_again now now' (find_report m.id rs) m
            (λ r e. find_report-All IsReported m.id rs r h e)))))
