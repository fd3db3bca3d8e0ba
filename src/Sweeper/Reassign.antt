-- ===== src/Sweeper/Reassign.antt =====
-- reassignLanes keeps the invariant and leaves no row in a lane that no longer exists.
use sms_gateway.Common.{
  ℕ, ◌⊎◌, zero, suc, ◌%◌, ◌≤◌, ◌<◌, ◌≡◌, refl, sym, ap, subst, ◌∙◌, Bool, true, false, ◌&&◌, Option,
  none, some, List, [], ◌∷◌, ◌++◌, map, take, any, length, ◌==◌, if◌then◌else◌, arith, All, All-imp,
  All-map, Bool-cases, inl, inr,
}
use sms_gateway.Common.Int.{ℤ, pos}
use sms_gateway.Common.Text.{Text}
use sms_gateway.Message.{Message}
use sms_gateway.Store.Tables.{QueueRow, Db, queued, has_message}
use sms_gateway.Store.Tx.{with_tx}
use sms_gateway.Accept.{lane_of}
use sms_gateway.Invariant.{Inv}
use sms_gateway.Invariant.Update.{Inv-queue}
use sms_gateway.Sweeper.Lanes.{
  lane_index, removed_lane, LaneMove, find_message, move_of, new_lane, lane_moves, find_move,
  with_lane, move_row, reassign_lanes,
}

move_row_id : (moves : List LaneMove) (q : QueueRow) → (move_row moves q).message_id ≡ q.message_id
unfolding move_row
move_row_id moves q = go (find_move q.message_id moves)
  where
    go : (o : Option Text) → (with_lane q o).message_id ≡ q.message_id
    go none = refl
    go (some l) = refl

queued-move_row :
    (moves : List LaneMove) (i : ℕ) (qs : List QueueRow)
    → queued i (map (move_row moves) qs) ≡ queued i qs
unfolding queued
queued-move_row moves i [] = refl
queued-move_row moves i (q ∷ qs) = ground (arith, move_row_id moves q, queued-move_row moves i qs)

module _ (atoi : Text → Option ℤ) (hash : ℕ → ℕ) (itoa : ℕ → Text) (n : ℕ) where
  -- Moving rows to other lanes keeps the invariant.
  pub reassign_lanes-Inv :
      (now now' : ℕ) (locked : ℕ → Bool) (limit : ℕ) (d : Db)
      → now ≤ now'
      → Inv now d
      → Inv now' (with_tx (reassign_lanes atoi hash itoa n locked limit) d).1
  unfolding with_tx reassign_lanes
  reassign_lanes-Inv now now' locked limit d late v = Inv-queue now now' _ d late v (λ i h.
      queued-move_row (take limit (lane_moves atoi hash itoa n locked d.messages d.queue)) i d.queue
      ∙ h)

  -- The number of a lane that `Lane` made is read back.
  kept_lane :
      ((i : ℕ) → atoi (itoa i) ≡ some (pos i))
      → 0 < n
      → (customer : ℕ) → removed_lane atoi n (new_lane atoi hash itoa n customer) ≡ false
  unfolding lane_index lane_of
  kept_lane reads h customer = rw (reads (hash customer % n)) (ground arith)

  has_move : ℕ → List LaneMove → Bool
  has_move i = any (λ r. r.id == i)

  found_move :
      (i : ℕ) (moves : List LaneMove)
      → All (λ r. removed_lane atoi n r.lane ≡ false) moves
      → ((find_move i moves ≡ none) × (has_move i moves ≡ false))
        ⊎ ((l : Text) × (find_move i moves ≡ some l) × (removed_lane atoi n l ≡ false))
  unfolding find_move has_move
  found_move i [] g = inl (refl, refl)
  found_move i (r ∷ rs) g = elim (Bool-cases (r.id == i)) [
    | inl e ↦ rw e (inr (r.lane, refl, g.0))
    | inr e ↦ rw e (found_move i rs g.1)
  ]

  -- A row is out of the removed lanes if it was before or is moved.
  moved_good :
      (moves : List LaneMove) (q : QueueRow)
      → All (λ r. removed_lane atoi n r.lane ≡ false) moves
      → (removed_lane atoi n q.lane ≡ true → has_move q.message_id moves ≡ true)
      → removed_lane atoi n (move_row moves q).lane ≡ false
  unfolding move_row
  moved_good moves q g h = elim (found_move q.message_id moves g) [
    | inl e ↦
        rw (e.0, with_lane) (stays (removed_lane atoi n q.lane) (has_move q.message_id moves) h e.1)
    | inr e ↦ rw (e.1, with_lane) e.2
  ]
    where
      stays : (r m : Bool) → (r ≡ true → m ≡ true) → m ≡ false → r ≡ false
      stays true m h e = sym (h refl) ∙ e
      stays false m h e = refl

  -- What one row adds to the moves.
  abbrev row_moves : Bool → ℕ → Option Message → List LaneMove → List LaneMove
  row_moves b i o rest = if b then move_of atoi hash itoa n i o ++ rest else rest

  row_good :
      ((customer : ℕ) → removed_lane atoi n (new_lane atoi hash itoa n customer) ≡ false)
      → (b : Bool) (i : ℕ) (o : Option Message) (rest : List LaneMove)
      → All (λ r. removed_lane atoi n r.lane ≡ false) rest
      → All (λ r. removed_lane atoi n r.lane ≡ false) (row_moves b i o rest)
  row_good k false i o rest h = h
  row_good k true i none rest h = h
  row_good k true i (some m) rest h = (k m.customer_id, h)

  row_few :
      (b : Bool) (i : ℕ) (o : Option Message) (rest : List LaneMove)
      → length (row_moves b i o rest) ≤ suc (length rest)
  row_few false i o rest = omega arith
  row_few true i none rest = omega arith
  row_few true i (some m) rest = omega arith

  row_keeps :
      (b : Bool) (i j : ℕ) (o : Option Message) (rest : List LaneMove)
      → has_move j rest ≡ true
      → has_move j (row_moves b i o rest) ≡ true
  unfolding has_move
  row_keeps false i j o rest h = h
  row_keeps true i j none rest h = h
  row_keeps true i j (some m) rest h = ground (arith, h)

  row_new :
      (b : Bool) (i : ℕ) (ms : List Message) (rest : List LaneMove)
      → has_message i ms ≡ true
      → b ≡ true
      → has_move i (row_moves b i (find_message i ms) rest) ≡ true
  unfolding has_move has_message find_message
  row_new false i ms rest h e = cc
  row_new true i [] rest h e = cc
  row_new true i (m ∷ ms) rest h e = elim (Bool-cases (m.id == i)) [
    | inl f ↦ rw f (ground arith)
    | inr f ↦ rw f (row_new true i ms rest (ground (arith, h, f)) e)
  ]

  module _ (ms : List Message) where
    moves_of : List QueueRow → List LaneMove
    moves_of = lane_moves atoi hash itoa n (λ i. false) ms

    moves_good :
        ((customer : ℕ) → removed_lane atoi n (new_lane atoi hash itoa n customer) ≡ false)
        → (qs : List QueueRow) → All (λ r. removed_lane atoi n r.lane ≡ false) (moves_of qs)
    unfolding moves_of lane_moves
    moves_good k [] = tt
    moves_good k (q ∷ qs) =
        row_good k (removed_lane atoi n q.lane && true) q.message_id (find_message q.message_id ms)
          (moves_of qs) (moves_good k qs)

    moves_complete :
        (qs : List QueueRow)
        → All
            (λ q.
              has_message q.message_id ms ≡ true
              → removed_lane atoi n q.lane ≡ true
              → has_move q.message_id (moves_of qs) ≡ true)
            qs
    unfolding moves_of lane_moves
    moves_complete [] = tt
    moves_complete (q ∷ qs) =
        let b = removed_lane atoi n q.lane && true in
        (
          (λ known out. row_new b q.message_id ms (moves_of qs) known (ground (arith, out))),
          All-imp _ _ qs
              (λ q' h known out.
                row_keeps b q.message_id q'.message_id (find_message q.message_id ms) (moves_of qs)
                  (h known out))
              (moves_complete qs),
        )

    moves_few : (qs : List QueueRow) → length (moves_of qs) ≤ length qs
    unfolding moves_of lane_moves
    moves_few [] = omega arith
    moves_few (q ∷ qs) = omega (
      arith,
      row_few (removed_lane atoi n q.lane && true) q.message_id (find_message q.message_id ms)
          (moves_of qs),
      moves_few qs,
    )

  take_few : {A : Type 0} (limit : ℕ) (xs : List A) → length xs ≤ limit → take limit xs ≡ xs
  take_few zero [] h = refl
  take_few zero (x ∷ xs) h = ground (arith, h)
  take_few (suc limit) [] h = refl
  take_few (suc limit) (x ∷ xs) h = ap (λ r. x ∷ r) (take_few limit xs (omega (arith, h)))

  -- If the batch size covers the queue and no row is locked, one pass leaves no queue row of a stored
  -- message in a normal lane whose number is not below the configured number of lanes; provided there is a
  -- lane, and Atoi reads what the printer of lane numbers prints.
  pub reassign_lanes_clears :
      ((i : ℕ) → atoi (itoa i) ≡ some (pos i))
      → 0 < n
      → (limit : ℕ) (d : Db) → length d.queue ≤ limit
      → All
          (λ q. has_message q.message_id d.messages ≡ true → removed_lane atoi n q.lane ≡ false)
          (with_tx (reassign_lanes atoi hash itoa n (λ i. false) limit) d).1.queue
  unfolding with_tx reassign_lanes moves_of
  reassign_lanes_clears reads h limit d few =
      let moves = moves_of d.messages d.queue in
      let all : take limit moves ≡ moves =
        take_few limit moves (omega (arith, moves_few d.messages d.queue, few)) in
      rw all (
        All-map _ (move_row moves) d.queue (
          All-imp _ _ d.queue
            (λ q c known.
              moved_good moves q (moves_good d.messages (kept_lane reads h) d.queue)
                (c (subst (λ i. has_message i d.messages ≡ true) (move_row_id moves q) known)))
            (moves_complete d.messages d.queue)))
