-- ===== src/Accept/Replay/Examples.antt =====
-- A replayed submission, and the witness of its theorem.
use sms_gateway.Common.{◌≡◌, refl, none, some, [], ◌∷◌, any, not, if◌then◌else◌}
use sms_gateway.Common.Text.{codes}
use sms_gateway.Segment.{gsm7}
use sms_gateway.Message.{Message, express}
use sms_gateway.Accept.{Item}
use sms_gateway.Accept.Replay.{
  existing_of, repeats, stored_all, sum_costs, resolve_existing, replay_of, is_conflict,
  resolve_existing-replay, same_request, stored_for, resolve_items, resolve_item, replayed,
}
use sms_gateway.Examples.Rows.{sample_message}

abbrev stored : Message
stored = record sample_message { client_ref = some (codes "r1") }

abbrev again : Item
again = record {
  recipient = codes "+15550100";
  text = codes "hi";
  message_type = express;
  ref = codes "r1";
  seg = record { encoding = gsm7; units = 2; segments = 1 };
  cost = 10;
}

resolve-again :
    resolve_existing 1 (again ∷ []) (stored ∷ [])
    ≡ replayed (record { messages = stored ∷ []; total_cost = 10 })
unfolding resolve_existing existing_of resolve_items resolve_item stored_for same_request
resolve-again = refl

resolve_existing-replay_example :
    (replay_of (resolve_existing 1 (again ∷ []) (stored ∷ [])) ≡ (
      if any (λ x. not (repeats (stored ∷ []) x)) (again ∷ [])
      then none
      else some (record {
        messages = stored_all (stored ∷ []) (again ∷ []);
        total_cost = sum_costs (stored_all (stored ∷ []) (again ∷ []));
      })))
    × (is_conflict (resolve_existing 1 (again ∷ []) (stored ∷ []))
        ≡ any (λ x. not (repeats (stored ∷ []) x)) (again ∷ []))
unfolding existing_of
resolve_existing-replay_example =
    resolve_existing-replay 1 (again ∷ []) (stored ∷ []) stored [] refl
