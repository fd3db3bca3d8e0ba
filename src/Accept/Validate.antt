-- ===== src/Accept/Validate.antt =====
-- internal/message/validate.go: validating and pricing the requests of a submission. `itoa` prints an
-- index. The English text of a FieldError is left out. A NUL or a byte that is no valid UTF-8 is the code
-- point 0 or a number from 0x110000 on.
pub mod Laws
pub mod Priced
use sms_gateway.Common.{
  ℕ, suc, ◌+◌, Bool, true, false, ◌&&◌, ◌||◌, not, Option, none, some, List, [], ◌∷◌, ◌++◌, ltb,
  leb, length, ◌==◌, if◌then◌else◌, any,
}
use sms_gateway.Common.Text.{Text, codes, text_eq}
use sms_gateway.Segment.{Result, gsm7, count}
use sms_gateway.Message.{MessageType, normal, express, parse_type, message_cost}
use sms_gateway.Accept.{Item, AcceptConfig}

pub data Code : Type 0 where
  required invalid_format too_many_items duplicate text_too_long invalid_text : Code

pub record FieldError : Type 0 where
  pub field : Text
  pub code : Code

pub record Request : Type 0 where
  pub recipient : Text
  pub text : Text
  -- empty for normal
  pub type_name : Text
  pub client_ref : Option Text

abbrev pub max_batch_size : ℕ
max_batch_size = 500

-- [lo-hi]
abbrev pub in_range : ℕ → ℕ → ℕ → Bool
in_range lo hi c = leb lo c && leb c hi

unfoldable pub all_digits : Text → Bool
all_digits [] = true
all_digits (c ∷ s) = in_range 48 57 c && all_digits s

-- [1-9][0-9]{7,14}$
abbrev pub national : Text → Bool
national [] = false
national (c ∷ s) = in_range 49 57 c && (all_digits s && (leb 7 (length s) && leb (length s) 14))

-- `ValidRecipient`: ^\+[1-9][0-9]{7,14}$
unfoldable pub valid_recipient : Text → Bool
valid_recipient [] = false
valid_recipient (c ∷ s) = c == 43 && national s

-- [A-Za-z0-9._:-]
abbrev pub ref_char : ℕ → Bool
ref_char c =
    in_range 65 90 c
    || (in_range 97 122 c || (in_range 48 57 c || (c == 46 || (c == 95 || (c == 58 || c == 45)))))

unfoldable pub all_ref_chars : Text → Bool
all_ref_chars [] = true
all_ref_chars (c ∷ s) = ref_char c && all_ref_chars s

-- `ValidClientRef`: ^[A-Za-z0-9._:-]{1,64}$
unfoldable pub valid_client_ref : Text → Bool
valid_client_ref s = all_ref_chars s && (leb 1 (length s) && leb (length s) 64)

-- utf8.ValidString, and no NUL
unfoldable pub valid_text : Text → Bool
valid_text [] = true
valid_text (c ∷ s) = ltb 0 c && (ltb c 0x110000 && valid_text s)

abbrev pub is_empty : Text → Bool
is_empty [] = true
is_empty (c ∷ s) = false

abbrev pub no_segments : Result
no_segments = record { encoding = gsm7; units = 0; segments = 0 }

-- The zero Type is replaced by Normal.
abbrev pub type_text : Text → Text
type_text [] = codes "normal"
type_text (c ∷ s) = c ∷ s

-- A type that is neither name has the price of normal, and its problem ends the submission.
abbrev pub type_or_normal : Option MessageType → MessageType
type_or_normal none = normal
type_or_normal (some t) = t

-- The segments that the switch on the text stores.
unfoldable pub segments_of : Text → Result
segments_of s = if is_empty s || not (valid_text s) then no_segments else count s

-- Whether the ref is stored, in `refs` and in the item.
abbrev pub takes_ref : List Text → Text → Bool
takes_ref refs ref = valid_client_ref ref && not (any (λ r. text_eq r ref) refs)

abbrev pub stored_ref : List Text → Option Text → Text
stored_ref refs none = []
stored_ref refs (some ref) = if takes_ref refs ref then ref else []

abbrev pub add_ref : List Text → Option Text → List Text
add_ref refs none = refs
add_ref refs (some ref) = if takes_ref refs ref then ref ∷ refs else refs

pub data Prepared : Type 0 where
  prepared : List Item → Prepared
  -- *ValidationError
  invalid : List FieldError → Prepared

-- The end of `prepare`: no problems, or all of them.
abbrev pub conclude : List FieldError → List Item → Prepared
conclude [] items = prepared items
conclude (p ∷ ps) items = invalid (p ∷ ps)

abbrev pub messages_error : Code → List FieldError
messages_error code = record { field = codes "messages"; code = code } ∷ []

unfoldable pub item_of : AcceptConfig → List Text → Request → Item
item_of cfg refs r =
    let t = type_or_normal (parse_type (type_text r.type_name)) in
    let seg = segments_of r.text in
    record {
      recipient = r.recipient;
      text = r.text;
      message_type = t;
      ref = stored_ref refs r.client_ref;
      seg = seg;
      cost = message_cost cfg.prices t seg.segments;
    }

module _ (cfg : AcceptConfig) (itoa : ℕ → Text) (batch : Bool) where
  -- The closure `add`.
  unfoldable pub problem : ℕ → Text → Code → List FieldError
  problem i field code =
      record {
        field = if batch then codes "messages[" ++ itoa i ++ codes "]." ++ field else field;
        code = code;
      }
      ∷ []

  unfoldable pub check_recipient : ℕ → Text → List FieldError
  check_recipient i s =
      if is_empty s
      then problem i (codes "to") required
      else if not (valid_recipient s)
      then problem i (codes "to") invalid_format
      else []

  abbrev pub check_type : ℕ → Option MessageType → List FieldError
  check_type i none = problem i (codes "type") invalid_format
  check_type i (some t) = []

  unfoldable pub check_text : ℕ → Text → List FieldError
  check_text i s =
      if is_empty s
      then problem i (codes "text") required
      else if not (valid_text s)
      then problem i (codes "text") invalid_text
      else if ltb cfg.max_segments (count s).segments
      then problem i (codes "text") text_too_long
      else []

  -- The keys of the map `refs`, the latest first.
  abbrev pub check_ref : ℕ → List Text → Option Text → List FieldError
  check_ref i refs none = []
  check_ref i refs (some ref) =
      if not (valid_client_ref ref)
      then problem i (codes "client_ref") invalid_format
      else if any (λ r. text_eq r ref) refs
      then problem i (codes "client_ref") duplicate
      else []

  -- The problems of one request, in the order in which they are found.
  unfoldable pub check : ℕ → List Text → Request → List FieldError
  check i refs r =
      check_recipient i r.recipient
      ++ (check_type i (parse_type (type_text r.type_name))
          ++ (check_text i r.text ++ check_ref i refs r.client_ref))

  -- The loop over the requests: the problems and the items.
  unfoldable pub prepare_from : ℕ → List Text → List Request → List FieldError × List Item
  prepare_from i refs [] = ([], [])
  prepare_from i refs (r ∷ rs) =
      let rest = prepare_from (i + 1) (add_ref refs r.client_ref) rs in
      (check i refs r ++ rest.0, item_of cfg refs r ∷ rest.1)

  -- `prepare`
  unfoldable pub prepare : List Request → Prepared
  prepare reqs =
      let run = prepare_from 0 [] reqs in
      if batch && length reqs == 0
      then invalid (messages_error required)
      else if batch && ltb max_batch_size (length reqs)
      then invalid (messages_error too_many_items)
      else conclude run.0 run.1
