-- ===== src/Sweeper/Lanes.antt =====
-- internal/sweeper/tasks.go: reassignLanes, which moves queue rows out of lanes that no longer exist, and
-- removeStaleWorkers. `atoi` is strconv.Atoi, and also the cast to int of the query, which succeeds on
-- every lane that `Lane` makes.
use sms_gateway.Common.{
  ℕ, ◌+◌, Bool, false, ◌&&◌, not, Option, none, some, List, [], ◌∷◌, ◌++◌, map, keep, take, ltb,
  leb, length, ◌==◌, if◌then◌else◌,
}
use sms_gateway.Common.Int.{ℤ, pos, negsuc}
use sms_gateway.Common.Text.{Text, codes}
use sms_gateway.Message.{Message, normal}
use sms_gateway.Store.Tables.{QueueRow, whole_ms}
use sms_gateway.Store.Tx.{Tx, ◌>>=◌, ◌>>◌, pure, gets, modify}
use sms_gateway.Accept.{lane_of}

-- strings.TrimPrefix, if the prefix is there
abbrev strip : Text → Text → Option Text
strip [] s = some s
strip (c ∷ p) [] = none
strip (c ∷ p) (d ∷ s) = if d == c then strip p s else none

abbrev index_of : Option ℤ → ℤ
index_of none = negsuc 0
index_of (some n) = n

abbrev index_after : (Text → Option ℤ) → Option Text → ℤ
index_after atoi none = negsuc 0
index_after atoi (some s) = index_of (atoi s)

-- `laneIndex`
unfoldable pub lane_index : (Text → Option ℤ) → Text → ℤ
lane_index atoi lane = index_after atoi (strip (codes "normal-") lane)

abbrev at_least : ℕ → ℤ → Bool
at_least n (pos k) = leb n k
at_least n (negsuc k) = false

-- laneIndex(lane) >= NormalLanes
abbrev pub removed_lane : (Text → Option ℤ) → ℕ → Text → Bool
removed_lane atoi n lane = at_least n (lane_index atoi lane)

pub record LaneMove : Type 0 where
  pub id : ℕ
  pub lane : Text

-- The message that a queue row joins.
unfoldable pub find_message : ℕ → List Message → Option Message
find_message i [] = none
find_message i (m ∷ ms) = if m.id == i then some m else find_message i ms

unfoldable pub find_move : ℕ → List LaneMove → Option Text
find_move i [] = none
find_move i (r ∷ rs) = if r.id == i then some r.lane else find_move i rs

abbrev pub with_lane : QueueRow → Option Text → QueueRow
with_lane q none = q
with_lane q (some l) = record q { lane = l }

unfoldable pub move_row : List LaneMove → QueueRow → QueueRow
unfolding find_move
move_row moves q = with_lane q (find_move q.message_id moves)

module _ (atoi : Text → Option ℤ) (hash : ℕ → ℕ) (itoa : ℕ → Text) (normal_lanes : ℕ) where
  abbrev pub new_lane : ℕ → Text
  new_lane customer = lane_of hash itoa normal customer normal_lanes

  abbrev pub move_of : ℕ → Option Message → List LaneMove
  move_of i none = []
  move_of i (some m) = record { id = i; lane = new_lane m.customer_id } ∷ []

  -- The rows of the query, with the lanes that they are moved to.
  unfoldable pub lane_moves : (ℕ → Bool) → List Message → List QueueRow → List LaneMove
  unfolding find_message
  lane_moves locked ms [] = []
  lane_moves locked ms (q ∷ qs) =
      let rest = lane_moves locked ms qs in
      if removed_lane atoi normal_lanes q.lane && not (locked q.message_id)
      then move_of q.message_id (find_message q.message_id ms) ++ rest
      else rest

  -- `reassignLanes`
  unfoldable pub reassign_lanes : (ℕ → Bool) → ℕ → Tx ℕ
  unfolding lane_moves
  reassign_lanes locked limit = do
    moves ← gets (λ d. take limit (lane_moves locked d.messages d.queue))
    modify (λ d. record d { queue = map (move_row moves) d.queue })
    pure (length moves)

-- A row of the table `workers`.
pub record Worker : Type 0 where
  pub id : Text
  pub role : Text
  pub started_at : ℕ
  pub last_seen : ℕ

abbrev pub stale_worker_age : ℕ
stale_worker_age = 3600000000000

-- last_seen < now() - age
abbrev pub is_stale : ℕ → Worker → Bool
is_stale now w = ltb (w.last_seen + whole_ms stale_worker_age) now

-- `removeStaleWorkers`: the number of rows and those that stay.
unfoldable pub remove_stale_workers : ℕ → List Worker → ℕ × List Worker
remove_stale_workers now ws = (length (keep (is_stale now) ws), keep (λ w. not (is_stale now w)) ws)
