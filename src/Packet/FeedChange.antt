-- ===== src/Packet/FeedChange.antt =====
-- The rows and changes of the feed of the site: `parseFeedChange`, `parseFeedRegistration`, `feedCursor`,
-- `feedEventID` and `validTimestamp` of internal/packetissuance/validation.go, and the feed's types in
-- internal/packetissuance/model.go.
use chrono_desk.Packet.ParseOperation.{recode}
use chrono_desk.Packet.Operation.{Operation, parse_registration}
use chrono_desk.Text.Date.{parse_date_codes}
use chrono_desk.Text.Chars.{canonical_cursor_pattern, codes, identifier_pattern, is_digit}
use chrono_desk.Prelude.{
  Bool, List, Option, String, [], all, any, false, if◌then◌else◌, is_some, ltb, none, not, some, ℕ,
  ◌&&◌, ◌*◌, ◌+◌, ◌-◌, ◌||◌, ◌∷◌,
}
use Prim.Native.Char.{code}
use Prim.Native.String.{◌∷◌ as char_cons}
use chrono_desk.Prelude.Classes.{string_eq, nat_eq, option_eq, bool_eq, ◌==◌}
use chrono_desk.Text.Decimal.{pos, negsuc, parse_int, ℤ}
use chrono_desk.Packet.Json.{
  string, object, get, field, boolean, Value, as_object, exact_keys, is_null, string_value,
}
use chrono_desk.Packet.Model.{
  registration_eq, ok, Registration, Result, fail_if, invalid, or_fail, ◌>>=◌, ◌>>◌,
}

pub record FeedChange : Type 0 where
  pub registration_id : String
  pub before : Option Registration
  pub after : Option Registration

pub record FeedAction : Type 0 where
  pub action_id : String
  pub kind : String
  pub sequence : String
  pub recorded_at : String
  pub source_code : String
  pub outcome : String
  pub code : Option String
  pub operation : Option Operation
  pub changes : List FeedChange
  pub canonical : List ℕ

pub record FeedCursor : Type 0 where
  pub after : String
  pub next : String
  pub head : String
  pub has_more : Bool

pub record FeedPage : Type 0 where
  pub scope_id : String
  pub cursor : FeedCursor
  pub actions : List FeedAction

unfoldable pub nonnegative : String → Option ℤ → Option (String × ℕ)
nonnegative s none = none
nonnegative s (some (negsuc n)) = none
nonnegative s (some (pos n)) = some (s, n)

-- The cursor's text and number; `none` where the third result is false. A text that has the form of a
-- cursor is never negative.
unfoldable pub feed_cursor : Value → Option (String × ℕ)
unfolding nonnegative
feed_cursor (string s) =
    if not (canonical_cursor_pattern s) then none else nonnegative s (parse_int 64 s)
feed_cursor _ = none

-- `strings.Split(s, ":")`
push_char : Prim.Native.Char.Char → List String → List String
push_char c [] = []
push_char c (s ∷ rest) = char_cons c s ∷ rest

unfoldable pub split_colon : String → List String
unfolding push_char
split_colon String.[] = "" ∷ []
split_colon (String.◌∷◌ c s) =
    let rest = split_colon s in if code c == b':' then "" ∷ rest else push_char c rest

event_of_parts : List String → String
event_of_parts (site ∷ middle ∷ event ∷ []) =
    if not (site == "site") || not (identifier_pattern event) then "" else event
event_of_parts _ = ""

unfoldable pub feed_event_id : String → String
unfolding split_colon event_of_parts
feed_event_id scope_id = event_of_parts (split_colon scope_id)

-- ^[0-9]{4}-[0-9]{2}-[0-9]{2}T[0-9]{2}:[0-9]{2}:[0-9]{2}\.[0-9]{3}Z$
time_codes : List ℕ → Bool
time_codes (t ∷ h1 ∷ h2 ∷ c1 ∷ m1 ∷ m2 ∷ c2 ∷ s1 ∷ s2 ∷ p ∷ f1 ∷ f2 ∷ f3 ∷ z ∷ []) =
    t == b'T'
    && all is_digit (h1 ∷ h2 ∷ m1 ∷ m2 ∷ s1 ∷ s2 ∷ f1 ∷ f2 ∷ f3 ∷ [])
    && c1 == b':'
    && c2 == b':'
    && p == b'.'
    && z == b'Z'
    && ltb ((h1 - b'0') * 10 + (h2 - b'0')) 24
    && ltb ((m1 - b'0') * 10 + (m2 - b'0')) 60
    && ltb ((s1 - b'0') * 10 + (s2 - b'0')) 60
time_codes _ = false

timestamp_codes : List ℕ → Bool
unfolding parse_date_codes time_codes
timestamp_codes (y1 ∷ y2 ∷ y3 ∷ y4 ∷ a ∷ m1 ∷ m2 ∷ b ∷ d1 ∷ d2 ∷ rest) =
    is_some (parse_date_codes (y1 ∷ y2 ∷ y3 ∷ y4 ∷ a ∷ m1 ∷ m2 ∷ b ∷ d1 ∷ d2 ∷ []))
    && time_codes rest
timestamp_codes _ = false

-- The form, and a time that `time.Parse` accepts.
unfoldable pub valid_timestamp : String → Bool
unfolding timestamp_codes
valid_timestamp value = timestamp_codes (codes value)

-- The row without its timing evidence, which a feed row does not carry.
unfoldable pub parse_feed_registration : Value → Result Registration
unfolding parse_registration exact_keys
parse_feed_registration value = do
  obj ← or_fail (as_object value) invalid
  fail_if
      (not (
        exact_keys obj (
          "id" ∷ "eventId" ∷ "raceId" ∷ "bib" ∷ "epc" ∷ "person" ∷ "reserve" ∷ "issued" ∷ "status"
          ∷ "transferredTo" ∷ [])))
      invalid
  parse_registration (object (field "hasTimingEvidence" (boolean false) obj))

parse_side : String → String → Value → Result (Option Registration)
unfolding parse_feed_registration
parse_side id event_id raw = if is_null raw then ok none else (do
  row ← recode invalid (parse_feed_registration raw)
  fail_if (not (row.id == id) || not (row.event_id == event_id)) invalid
  ok (some row))

unfoldable pub parse_feed_change : String → Value → Result FeedChange
unfolding parse_side identifier_pattern
parse_feed_change event_id value = do
  obj ← or_fail (as_object value) invalid
  fail_if (not (exact_keys obj ("registrationId" ∷ "before" ∷ "after" ∷ []))) invalid
  let id = string_value (get "registrationId" obj)
  fail_if (not (identifier_pattern id) || (is_null (get "before" obj) && is_null (get "after" obj)))
      invalid
  before ← parse_side id event_id (get "before" obj)
  after ← parse_side id event_id (get "after" obj)
  ok (record { registration_id = id; before = before; after = after })

unfoldable pub parse_feed_changes : String → List String → List Value → Result (List FeedChange)
unfolding parse_feed_change
parse_feed_changes event_id seen [] = ok []
parse_feed_changes event_id seen (raw ∷ rest) = do
  change ← parse_feed_change event_id raw
  fail_if (any (λ id. id == change.registration_id) seen) invalid
  changes ← parse_feed_changes event_id (change.registration_id ∷ seen) rest
  ok (change ∷ changes)
