-- ===== src/Examples/Service.antt =====
-- Queries, customers and the sweeper on the tables of Rows, and the witnesses of their theorems.
use sms_gateway.Common.{
  ℕ, ◌≡◌, refl, true, false, ◌&&◌, Option, none, some, List, [], ◌∷◌, keep, leb, ltb, arith, All,
}
use sms_gateway.Common.Int.{ℤ, pos}
use sms_gateway.Common.Text.{Text, codes}
use sms_gateway.Store.Tables.{Db, has_message}
use sms_gateway.Store.Tx.{with_tx}
use sms_gateway.Store.Ids.{null_lower_bound, not_below, below, uuid_v7, in_time, time_filter_exact}
use sms_gateway.Store.Cursor.{encode_cursor, decode_cursor, decode_cursor-encode_cursor}
use sms_gateway.Store.Migrate.{
  Migration, Schema, applied_at, is_applied, apply_migration, up_from, up,
}
use sms_gateway.Store.Migrate.Again.{up_again}
use sms_gateway.Invariant.{Inv}
use sms_gateway.Paging.{sort_desc, read_pages}
use sms_gateway.Queries.Messages.{Filter, list, selects}
use sms_gateway.Queries.Pages.{list_complete}
use sms_gateway.Customers.{delete}
use sms_gateway.Customers.Delete.{Owned}
use sms_gateway.Customers.Delete.Keeps.{delete-Inv}
use sms_gateway.Sweeper.Lanes.{removed_lane, reassign_lanes}
use sms_gateway.Sweeper.Reassign.{reassign_lanes_clears}
use sms_gateway.Examples.Rows.{tables, tables-Inv, sample_message, sample_queued}

-- Two messages, one of another customer.
abbrev more : Db
more = record tables {
  messages = record sample_message { id = 9; customer_id = 2 } ∷ sample_message ∷ [];
}

abbrev all : Filter
all = record {
  status = none;
  message_type = none;
  recipient = [];
  since = none;
  until = none;
  after = 0;
  limit = 1;
}

list_complete_example :
    read_pages (λ m. m.id) (λ after. list 1 (record all { after = after }) more) 3 0
    ≡ sort_desc (λ m. m.id) (keep (selects 1 all) more.messages)
list_complete_example = list_complete 1 0 3 all more (omega arith) refl (omega arith)

time_filter_exact_example :
    (not_below (null_lower_bound (some 5000000)) (uuid_v7 7 1 2)
      && below (null_lower_bound none) (uuid_v7 7 1 2))
    ≡ (in_time (some 5000000) (λ s. leb s 7) && in_time none (λ u. ltb 7 u))
time_filter_exact_example =
    time_filter_exact (some 5000000) none 7 1 2 (omega arith) tt (omega arith) (omega arith)

-- A printer of bytes that stands for base64.
abbrev encode : List ℕ → Text
encode bs = bs

abbrev decode : Text → Option (List ℕ)
decode s = some s

decode_cursor-encode_cursor_example : decode_cursor decode (encode_cursor encode 77) ≡ some 77
decode_cursor-encode_cursor_example =
    decode_cursor-encode_cursor encode decode (λ bs. refl) (λ bs e. e) 77 (omega arith)

tables-Owned : Owned tables
tables-Owned = omega arith

delete-Inv_example : Inv 60 (with_tx (delete 1) tables).1
delete-Inv_example = delete-Inv 50 60 1 tables (omega arith) tables-Owned tables-Inv

abbrev itoa : ℕ → Text
itoa n = n ∷ []

abbrev atoi : Text → Option ℤ
atoi [] = none
atoi (c ∷ s) = some (pos c)

-- The message in a normal lane that is no longer configured.
abbrev old_lane : Db
old_lane = record tables {
  queue = record sample_queued { lane = codes "normal-0" } ∷ sample_queued ∷ [];
}

reassign_lanes_clears_example :
    All
      (λ q. has_message q.message_id old_lane.messages ≡ true → removed_lane atoi 4 q.lane ≡ false)
      (with_tx (reassign_lanes atoi (λ n. n) itoa 4 (λ i. false) 10) old_lane).1.queue
reassign_lanes_clears_example =
    reassign_lanes_clears atoi (λ n. n) itoa 4 (λ i. refl) (omega arith) 10 old_lane (omega arith)

abbrev migrations : List Migration
migrations =
    record { version = 1; name = codes "init"; up_script = codes "a"; down_script = [] }
    ∷ record { version = 2; name = codes "more"; up_script = codes "b"; down_script = [] }
    ∷ []

abbrev run_script : Text → List Text → Option (List Text)
run_script s done = some (s ∷ done)

abbrev before : Schema (List Text)
before = record { tables = []; applied = (1, 5) ∷ [] }

migrated : (up run_script 60 migrations before).1 ≡ none
unfolding up up_from apply_migration applied_at is_applied
migrated = refl

up_again_example :
    All (λ m. is_applied m.version (up run_script 60 migrations before).2.applied ≡ true) migrations
    × ((v : ℕ)
        → is_applied v before.applied ≡ true
        → is_applied v (up run_script 60 migrations before).2.applied ≡ true)
    × (up run_script 60 migrations (up run_script 60 migrations before).2
        ≡ ([], none, (up run_script 60 migrations before).2))
up_again_example = up_again run_script 60 migrations before migrated
