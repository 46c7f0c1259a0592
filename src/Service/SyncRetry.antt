-- ===== src/Service/SyncRetry.antt =====
-- The repetition of rate-limited requests to the site: internal/service/sync_retry.go. The world `W` is what
-- the transport, the waiting and the reopening of the body act on; a delay is in nanoseconds.
pub mod Bounded
use chrono_desk.Text.Decimal.{parse_int, ℤ}
use chrono_desk.Prelude.{
  Bool, Option, String, false, if◌then◌else◌, leb, ltb, none, not, some, suc, true, zero, ℕ, ◌*◌,
  ◌+◌, ◌-◌, ◌||◌,
}
use chrono_desk.Text.Decimal.{pos}
use chrono_desk.Prelude.Classes.{nat_eq, ◌==◌}

pub record Response : Type 0 where
  pub status : ℕ
  pub retry_after : String

-- What `RoundTrip` returns: a response or the text of an error.
pub data Answer : Type 0 where
  response : Response → Answer
  failure : String → Answer

-- The body of a request: none, one that cannot be opened again, or one that can.
pub data Body : Type 0 where
  no_body single_use reopened : Body

-- `syncRetryTransport` with the clock, `http.ParseTime` and `request.GetBody`; an error is its text.
pub record Transport (W : Type 0) : Type 0 where
  pub base : W → Answer × W
  pub wait : ℕ → W → Option String × W
  pub reopen : W → Option String × W
  pub now : W → ℕ
  pub parse_time : String → Option ℕ

until : ℕ → Option ℕ → ℕ
until now none = 60 * 1000000000
until now (some date) = if ltb now date then date - now else 60 * 1000000000

delay_of : Option ℤ → Option ℕ → ℕ → ℕ
unfolding until
delay_of (some (pos seconds)) date now = seconds * 1000000000
delay_of _ date now = until now date

-- `syncRetryDelay`
unfoldable pub sync_retry_delay : (String → Option ℕ) → String → ℕ → ℕ
unfolding delay_of
sync_retry_delay parse_time value now = delay_of (parse_int 32 value) (parse_time value) now

is_single_use : Body → Bool
is_single_use single_use = true
is_single_use _ = false

-- The answer is returned as it is.
unfoldable pub is_final : Body → ℕ → Answer → Bool
unfolding is_single_use
is_final body attempt (failure e) = true
is_final body attempt (response r) = not (r.status == 429) || leb 3 attempt || is_single_use body

retry_after_of : Answer → String
retry_after_of (response r) = r.retry_after
retry_after_of (failure e) = ""

module _ {W : Type 0} (t : Transport W) where
  -- The error without the words that the code puts before it.
  unfoldable pub after_reopen : Option String × W → (W → Option (Answer × W)) → Option (Answer × W)
  after_reopen (none, w) next = next w
  after_reopen (some e, w) next = some (failure e, w)

  unfoldable pub after_body : Body → W → (W → Option (Answer × W)) → Option (Answer × W)
  unfolding after_reopen
  after_body reopened w next = after_reopen (t.reopen w) next
  after_body _ w next = next w

  unfoldable pub after_wait :
      Body → Option String × W → (W → Option (Answer × W)) → Option (Answer × W)
  unfolding after_body
  after_wait body (some e, w) next = some (failure e, w)
  after_wait body (none, w) next = after_body body w next

  unfoldable pub after_answer :
      Body → ℕ → Answer × W → (W → Option (Answer × W)) → Option (Answer × W)
  unfolding is_final after_wait sync_retry_delay retry_after_of
  after_answer body attempt (answer, w) next =
      if is_final body attempt answer
      then some (answer, w)
      else after_wait body
          (t.wait (sync_retry_delay t.parse_time (retry_after_of answer) (t.now w)) w) next

  -- The loop from an attempt on; `none` if the fuel runs out.
  unfoldable pub round_trip_from : Body → ℕ → ℕ → W → Option (Answer × W)
  unfolding after_answer
  round_trip_from body zero attempt w = none
  round_trip_from body (suc fuel) attempt w =
      after_answer body attempt (t.base w) (λ w2. round_trip_from body fuel (attempt + 1) w2)

  -- `RoundTrip`
  unfoldable pub round_trip : Body → W → Option (Answer × W)
  unfolding round_trip_from
  round_trip body w = round_trip_from body 4 0 w
