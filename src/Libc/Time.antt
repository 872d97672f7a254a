-- ===== src/Libc/Time.antt =====
-- libpolyhedron/time/localtime.c: the calendar, and `mktime`, in 32-bit arithmetic. The fields of a date
-- are not negative, and `fill_time` stands for its part on times that are not.
pub mod Periods
pub mod Dates
mod Examples
use hexahedron.Base.{
  ℕ, zero, suc, ◌+◌, ◌-◌, ◌*◌, ◌/◌, ◌%◌, ◌^◌, Bool, Option, none, some, not, ◌&&◌, ◌||◌, ◌==◌, ltb,
  leb, if◌then◌else◌,
}

unfoldable pub is_year_leap : ℕ → Bool
is_year_leap year = (year % 4 == 0) && (not (year % 100 == 0) || (year % 400 == 0))

unfoldable pub get_days_in_month : ℕ → ℕ → ℕ
unfolding is_year_leap
get_days_in_month month year =
    if month == 1
    then 31
    else if month == 2
    then (if is_year_leap year then 29 else 28)
    else if month == 3
    then 31
    else if month == 4
    then 30
    else if month == 5
    then 31
    else if month == 6
    then 30
    else if month == 7
    then 31
    else if month == 8
    then 31
    else if month == 9
    then 30
    else if month == 10
    then 31
    else if month == 11
    then 30
    else if month == 12
    then 31
    else 0

-- the days of the months from `i` on, with the rounds left
unfoldable pub days_of_months : ℕ → ℕ → ℕ → ℕ
unfolding get_days_in_month
days_of_months zero i year = 0
days_of_months (suc r) i year = get_days_in_month i year + days_of_months r (i + 1) year

unfoldable pub get_seconds_of_months : ℕ → ℕ → ℕ
unfolding days_of_months
get_seconds_of_months months year = days_of_months (months - 1) 1 year * 86400

unfoldable pub days_of_years : ℕ → ℕ
unfolding is_year_leap
days_of_years zero = 0
days_of_years (suc y) =
    let rest = days_of_years y in
    if ltb 1969 (suc y) then (if is_year_leap (suc y) then 366 else 365) + rest else 0

unfoldable pub get_seconds_of_years : ℕ → ℕ
unfolding days_of_years
get_seconds_of_years years = days_of_years years * 86400 % 2 ^ 32

-- the fields of `struct tm` that `mktime` reads
pub record Tm : Type 0 where
  pub tm_sec : ℕ
  pub tm_min : ℕ
  pub tm_hour : ℕ
  pub tm_mday : ℕ
  pub tm_mon : ℕ
  pub tm_year : ℕ
  pub tm_zone_offset : ℕ

-- the bit pattern of the 32-bit result
unfoldable pub mktime : Tm → ℕ
unfolding get_seconds_of_years get_seconds_of_months
mktime tm =
    (get_seconds_of_years (tm.tm_year + 1899)
      + get_seconds_of_months (tm.tm_mon + 1) (tm.tm_year + 1900)
      + (tm.tm_mday + 2 ^ 32 - 1) * 86400
      + tm.tm_hour * 3600
      + tm.tm_min * 60
      + tm.tm_sec
      + (2 ^ 32 - tm.tm_zone_offset % 2 ^ 32))
    % 2 ^ 32

-- The loops of `fill_time`: the period that the time falls into, with the seconds before it. NULL is
-- `none` within the result; `none` is a sum that no signed `long` of 32 bits holds.
unfoldable pub find_period : (ℕ → ℕ) → ℕ → ℕ → ℕ → ℕ → Option (Option (ℕ × ℕ))
find_period secs zero i seconds time = some none
find_period secs (suc r) i seconds time =
    let next = find_period secs r (i + 1) (seconds + secs i) time in
    if leb (2 ^ 31) (seconds + secs i)
    then none
    else if ltb time (seconds + secs i)
    then some (some (i, seconds))
    else next

infixl 5 ◌>>=◌
abbrev ◌>>=◌ : {A B : Type 0} → Option (Option A) → (A → Option (Option B)) → Option (Option B)
none >>= f = none
some none >>= f = some none
some (some a) >>= f = f a

unfoldable pub year_secs : ℕ → ℕ
unfolding is_year_leap
year_secs year = (if is_year_leap year then 366 else 365) * 86400

unfoldable pub month_secs : ℕ → ℕ → ℕ
unfolding get_days_in_month
month_secs year month = get_days_in_month month year * 86400

unfoldable pub get_day_of_week : ℕ → ℕ
get_day_of_week seconds = (seconds / 86400 + 4) % 7

-- what `fill_time` stores
pub record Filled : Type 0 where
  pub tm : Tm
  pub tm_wday : ℕ
  pub tm_yday : ℕ
  pub tm_isdst : ℕ

-- `fill_time` with the offset 0 that its callers pass
unfoldable pub fill_time : ℕ → Option (Option Filled)
fill_time time = do
  (year, year_sec) ← find_period year_secs 130 1970 0 time
  (month, month_sec) ← find_period (month_secs year) 12 1 year_sec time
  (day, day_sec) ← find_period (λ _. 60 * 60 * 24) (get_days_in_month month year) 1 month_sec time
  (hour, seconds) ← find_period (λ _. 60 * 60) 24 1 day_sec time
  some (
      some (record {
        tm = record {
          tm_sec = (time - seconds) % 60;
          tm_min = (time - seconds) / 60;
          tm_hour = hour - 1;
          tm_mday = day;
          tm_mon = month - 1;
          tm_year = year - 1900;
          tm_zone_offset = 0;
        };
        tm_wday = get_day_of_week time;
        tm_yday = (time - year_sec) / 86400;
        tm_isdst = 0;
      }))
