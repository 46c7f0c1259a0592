-- ===== src/Service/SyncRetryTests.antt =====
-- A site that answers every request with 429, and the theorem of Service/SyncRetry applied to it.
use chrono_desk.Service.SyncRetry.Bounded.{EndsWithin, round_trip-EndsWithin}
use chrono_desk.Service.SyncRetry.{
  reopened, response, single_use, Answer, Transport, round_trip, sync_retry_delay,
}
use chrono_desk.Text.Decimal.{parse_int}
use chrono_desk.Prelude.{none, arith, refl, some, ℕ, ◌+◌, ◌≡◌}

-- The world is the number of requests.
abbrev limited : Transport ℕ
limited = record {
  base = λ requests. (response (record { status = 429; retry_after = "5" }), requests + 1);
  wait = λ delay requests. (none, requests);
  reopen = λ requests. (none, requests);
  now = λ requests. 0;
  parse_time = λ text. none;
}

abbrev refused_answer : Answer
refused_answer = response (record { status = 429; retry_after = "5" })

limited_runs : round_trip limited reopened 0 ≡ some (refused_answer, 4)
unfolding round_trip
limited_runs = refl

single_use_runs : round_trip limited single_use 0 ≡ some (refused_answer, 1)
unfolding round_trip
single_use_runs = refl

delay_runs : sync_retry_delay (λ text. none) "5" 0 ≡ 5000000000
unfolding sync_retry_delay parse_int
delay_runs = refl

round_trip-EndsWithin_example :
    EndsWithin (λ (requests : ℕ). requests) 4 (round_trip limited reopened 0)
round_trip-EndsWithin_example =
    round_trip-EndsWithin limited (λ requests. requests) (λ w. omega arith) (λ delay w. omega arith)
      (λ w. omega arith) reopened 0
