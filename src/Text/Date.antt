-- ===== src/Text/Date.antt =====
-- Calendar dates as `time.Parse("2006-01-02", s)` reads and `Format` writes them, and `validDate`
-- of internal/packetissuance/validation.go.
use chrono_desk.Prelude.{
  ℕ, ◌+◌, ◌-◌, ◌*◌, ◌/◌, ◌%◌, String, Bool, false, not, ◌&&◌, ◌||◌, Option, none, some, List, [],
  ◌∷◌, within, if◌then◌else◌,
}
use chrono_desk.Prelude.Classes.{◌==◌, nat_eq, list_eq}
use chrono_desk.Text.Chars.{codes, is_digit}

pub record Date : Type 0 where
  pub year : ℕ
  pub month : ℕ
  pub day : ℕ

-- ^[0-9]{4}-[0-9]{2}-[0-9]{2}$
unfoldable pub date_codes : List ℕ → Bool
date_codes (y1 ∷ y2 ∷ y3 ∷ y4 ∷ s1 ∷ m1 ∷ m2 ∷ s2 ∷ d1 ∷ d2 ∷ []) =
    is_digit y1
    && is_digit y2
    && is_digit y3
    && is_digit y4
    && s1 == b'-'
    && is_digit m1
    && is_digit m2
    && s2 == b'-'
    && is_digit d1
    && is_digit d2
date_codes _ = false

unfoldable pub date_pattern : String → Bool
unfolding date_codes
date_pattern s = date_codes (codes s)

is_leap : ℕ → Bool
is_leap year = year % 4 == 0 && (not (year % 100 == 0) || year % 400 == 0)

unfoldable pub days_in : ℕ → ℕ → ℕ
unfolding is_leap
days_in month year =
    if month == 2
    then (if is_leap year then 29 else 28)
    else if month == 4 || month == 6 || month == 9 || month == 11
    then 30
    else 31

two_digits : ℕ → ℕ → ℕ
two_digits a b = (a - b'0') * 10 + (b - b'0')

date_of : List ℕ → Date
unfolding two_digits
date_of (y1 ∷ y2 ∷ y3 ∷ y4 ∷ s1 ∷ m1 ∷ m2 ∷ s2 ∷ d1 ∷ d2 ∷ []) = record {
  year = two_digits y1 y2 * 100 + two_digits y3 y4;
  month = two_digits m1 m2;
  day = two_digits d1 d2;
}
date_of _ = record { year = 0; month = 0; day = 0 }

in_calendar : Date → Bool
unfolding days_in
in_calendar d = within 1 12 d.month && within 1 (days_in d.month d.year) d.day

unfoldable pub parse_date_codes : List ℕ → Option Date
unfolding date_codes date_of in_calendar
parse_date_codes s = if date_codes s && in_calendar (date_of s) then some (date_of s) else none

-- `none` where Parse returns an error: another shape, or a day that is not in the calendar.
unfoldable pub parse_date : String → Option Date
unfolding parse_date_codes
parse_date s = parse_date_codes (codes s)

write_two : ℕ → List ℕ → List ℕ
write_two n rest = (b'0' + n / 10 % 10) ∷ (b'0' + n % 10) ∷ rest

unfoldable pub format_date : Date → List ℕ
unfolding write_two
format_date d =
    write_two (d.year / 100)
      (write_two (d.year % 100) (b'-' ∷ write_two d.month (b'-' ∷ write_two d.day [])))

formats_back : Option Date → List ℕ → Bool
formats_back none s = false
formats_back (some d) s = format_date d == s

-- `parsed, err := time.Parse(…); err == nil && pattern.MatchString(s) && parsed.Format(…) == s`
unfoldable pub valid_date : String → Bool
unfolding date_pattern parse_date format_date formats_back
valid_date value =
    if not (date_pattern value) then false else formats_back (parse_date value) (codes value)
