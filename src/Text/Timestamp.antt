-- ===== src/Text/Timestamp.antt =====
-- The milliseconds of a timestamp of the site feed, as
-- `time.Parse("2006-01-02T15:04:05.000Z", s)` and `UnixMilli` give them for a text that
-- `validTimestamp` of internal/packetissuance/validation.go accepts. A time before 1970 is 0.
use chrono_desk.Text.Chars.{codes}
use chrono_desk.Packet.FeedChange.{valid_timestamp}
use chrono_desk.Text.Date.{Date, days_in, parse_date_codes}
use chrono_desk.Prelude.{
  [], List, Option, String, if◌then◌else◌, none, some, suc, zero, ℕ, ◌*◌, ◌+◌, ◌-◌, ◌/◌, ◌∷◌,
}

-- The days from the beginning of year 0 to that of the year.
unfoldable pub days_to_year : ℕ → ℕ
days_to_year zero = 0
days_to_year (suc n) = suc n * 365 + n / 4 - n / 100 + n / 400 + 1

-- The days of the first months of the year.
unfoldable pub days_of_months : ℕ → ℕ → ℕ
unfolding days_in
days_of_months year zero = 0
days_of_months year (suc months) = days_of_months year months + days_in (suc months) year

unfoldable pub days_of_date : Date → ℕ
unfolding days_to_year days_of_months
days_of_date d = days_to_year d.year + days_of_months d.year (d.month - 1) + (d.day - 1)

two : ℕ → ℕ → ℕ
two a b = (a - b'0') * 10 + (b - b'0')

-- The milliseconds of the day.
unfoldable pub time_of_day : List ℕ → Option ℕ
unfolding two
time_of_day (t ∷ h1 ∷ h2 ∷ c1 ∷ m1 ∷ m2 ∷ c2 ∷ s1 ∷ s2 ∷ p ∷ f1 ∷ f2 ∷ f3 ∷ z ∷ []) =
    some (((two h1 h2 * 60 + two m1 m2) * 60 + two s1 s2) * 1000 + (f1 - b'0') * 100 + two f2 f3)
time_of_day _ = none

since_epoch : Option Date → Option ℕ → Option ℕ
unfolding days_of_date
since_epoch (some d) (some time) = some (days_of_date d * 86400000 + time - 719528 * 86400000)
since_epoch _ _ = none

milli_codes : List ℕ → Option ℕ
unfolding since_epoch time_of_day
milli_codes (y1 ∷ y2 ∷ y3 ∷ y4 ∷ a ∷ m1 ∷ m2 ∷ b ∷ d1 ∷ d2 ∷ rest) =
    since_epoch (parse_date_codes (y1 ∷ y2 ∷ y3 ∷ y4 ∷ a ∷ m1 ∷ m2 ∷ b ∷ d1 ∷ d2 ∷ []))
      (time_of_day rest)
milli_codes _ = none

unfoldable pub unix_milli : String → Option ℕ
unfolding milli_codes valid_timestamp
unix_milli s = if valid_timestamp s then milli_codes (codes s) else none
