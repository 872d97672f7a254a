-- ===== src/Libc/Time/Dates.antt =====
-- The dates that `fill_time` stores, against `mktime`.
use hexahedron.Base.{
  ℕ, zero, suc, ◌+◌, ◌-◌, ◌*◌, ◌/◌, ◌%◌, ◌^◌, ◌<◌, ◌≤◌, ◌≡◌, refl, ap, ◌∙◌, sym, true, some, arith,
  ltb, if◌then◌else◌, Bool-cases, inl, inr,
}
use hexahedron.Libc.Time.{
  is_year_leap, get_days_in_month, days_of_months, get_seconds_of_months, days_of_years,
  get_seconds_of_years, mktime, find_period, year_secs, month_secs, get_day_of_week, Filled,
  fill_time,
}
use hexahedron.Libc.Time.Periods.{total, total_last, total_times, total_const, find_period-total}

abbrev year_days : ℕ → ℕ
unfolding is_year_leap
year_days year = if is_year_leap year then 366 else 365

-- the loop of `get_seconds_of_years` counts the years from 1970 on
days_of_years-total : (k : ℕ) → days_of_years (1969 + k) ≡ total year_days k 1970
unfolding days_of_years total year_days
days_of_years-total zero = refl
days_of_years-total (suc k) =
    let e : 1969 + suc k ≡ suc (1969 + k) = omega arith in
    let e' : suc (1969 + k) ≡ 1970 + k = omega arith in
    let late : ltb 1969 (1970 + k) ≡ true = ground arith in
    rw (e, total_last year_days k 1970, sym (days_of_years-total k)) (rw (e', late) (omega arith))

-- the loop of `get_seconds_of_months` counts the months from January on
days_of_months-total :
    (r i year : ℕ) → days_of_months r i year ≡ total (λ m. get_days_in_month m year) r i
unfolding days_of_months total
days_of_months-total zero i year = refl
days_of_months-total (suc r) i year =
    ap (λ n. get_days_in_month i year + n) (days_of_months-total r (i + 1) year)

twelve_months : (year : ℕ) → total (month_secs year) 12 1 ≡ year_secs year
unfolding total month_secs year_secs get_days_in_month
twelve_months year = elim (Bool-cases (is_year_leap year)) [
  | inl leap ↦ rw leap refl
  | inr common ↦ rw common refl
]

years_to_2038 : total year_secs 68 1970 ≡ 2145916800
unfolding total year_secs is_year_leap
years_to_2038 = refl

total-year_secs : (k : ℕ) → total year_secs k 1970 ≡ days_of_years (1969 + k) * 86400
unfolding year_secs year_days
total-year_secs k =
    total_times year_days 86400 k 1970 ∙ ap (λ n. n * 86400) (sym (days_of_years-total k))

total-month_secs : (year k : ℕ) → total (month_secs year) k 1 ≡ get_seconds_of_months (suc k) year
unfolding month_secs get_seconds_of_months
total-month_secs year k =
    let e : suc k - 1 ≡ k = omega arith in
    total_times (λ m. get_days_in_month m year) 86400 k 1
    ∙ rw e (ap (λ n. n * 86400) (sym (days_of_months-total k 1 year)))

-- the sum of `mktime`, of the parts that the loops of `fill_time` have found
mktime_sum :
    (k m d h time rest : ℕ)
    → time
      ≡ days_of_years (1969 + k) * 86400
        + get_seconds_of_months (suc m) (1970 + k)
        + d * 86400
        + h * 3600
        + rest
    → time < 2 ^ 31
    → mktime (record {
      tm_sec = rest % 60;
      tm_min = rest / 60;
      tm_hour = 1 + h - 1;
      tm_mday = 1 + d;
      tm_mon = 1 + m - 1;
      tm_year = 1970 + k - 1900;
      tm_zone_offset = 0;
    })
      ≡ time
unfolding mktime get_seconds_of_years
mktime_sum k m d h time rest e b =
    let year : 1970 + k - 1900 + 1899 ≡ 1969 + k = omega arith in
    let year' : 1970 + k - 1900 + 1900 ≡ 1970 + k = omega arith in
    let month : 1 + m - 1 + 1 ≡ suc m = omega arith in
    let small : days_of_years (1969 + k) * 86400 % 2 ^ 32 ≡ days_of_years (1969 + k) * 86400 =
      omega arith in
    rw (year, year', month, small) (omega arith)

days_some : (month year : ℕ) → get_days_in_month month year ≤ 31
unfolding get_days_in_month
days_some month year = ground arith

-- what the loops store when they have found the year, the month, the day and the hour
abbrev stored : ℕ → ℕ → ℕ → ℕ → ℕ → ℕ → ℕ → Filled
stored time year year_sec month day hour seconds = record {
  tm = record {
    tm_sec = (time - seconds) % 60;
    tm_min = (time - seconds) / 60;
    tm_hour = hour - 1;
    tm_mday = day;
    tm_mon = month - 1;
    tm_year = year - 1900;
    tm_zone_offset = 0;
  };
  tm_wday = get_day_of_week time;
  tm_yday = (time - year_sec) / 86400;
  tm_isdst = 0;
}

fill_time-stored :
    (time year year_sec month month_sec day day_sec hour seconds : ℕ)
    → find_period year_secs 130 1970 0 time ≡ some (some (year, year_sec))
    → find_period (month_secs year) 12 1 year_sec time ≡ some (some (month, month_sec))
    → find_period (λ _. 60 * 60 * 24) (get_days_in_month month year) 1 month_sec time
      ≡ some (some (day, day_sec))
    → find_period (λ _. 60 * 60) 24 1 day_sec time ≡ some (some (hour, seconds))
    → fill_time time ≡ some (some (stored time year year_sec month day hour seconds))
unfolding fill_time
fill_time-stored time year year_sec month month_sec day day_sec hour seconds e1 e2 e3 e4 =
    rw (fill_time, e1, e2, e3, e4) refl

-- At every time from 1970 to the end of 2037 `fill_time` returns a date, which `mktime` takes back to
-- the time: the month is below 12, the day is one of the month's, the hour is below 24, and the minute
-- and the second are below 60.
pub mktime-fill_time :
    (time : ℕ)
    → time < 2145916800
    → (f : Filled) × (fill_time time ≡ some (some f))
      × (mktime f.tm ≡ time)
      × (f.tm.tm_mon < 12)
      × (0 < f.tm.tm_mday)
      × (f.tm.tm_mday ≤ get_days_in_month (f.tm.tm_mon + 1) (f.tm.tm_year + 1900))
      × (f.tm.tm_hour < 24)
      × (f.tm.tm_min < 60)
      × (f.tm.tm_sec < 60)
mktime-fill_time time b =
    let (k, k', year, y_low, y_high, y_end) =
      find_period-total year_secs 68 62 1970 0 time (omega arith) (omega (arith, years_to_2038))
        (omega (arith, years_to_2038)) in
    let s = 0 + total year_secs k 1970 in
    let (m, m', month, m_low, m_high, m_end) =
      find_period-total (month_secs (1970 + k)) 12 0 1 s time y_low
        (omega (arith, twelve_months (1970 + k), y_high))
        (omega (arith, twelve_months (1970 + k), y_end, years_to_2038)) in
    let s' = s + total (month_secs (1970 + k)) m 1 in
    let days = get_days_in_month (1 + m) (1970 + k) in
    let all_days : total (λ _. 86400) days 1 ≡ days * 86400 = total_const 86400 days 1 in
    let in_month : month_secs (1970 + k) (1 + m) ≡ days * 86400 = unfold month_secs in refl in
    let (d, d', day, d_low, d_high, d_end) =
      find_period-total (λ _. 86400) days 0 1 s' time m_low
        (omega (arith, all_days, in_month, m_high))
        (omega
          (arith, all_days, in_month, m_end, twelve_months (1970 + k), y_end, years_to_2038)) in
    let s2 = s' + total (λ _. 86400) d 1 in
    let all_hours : total (λ _. 3600) 24 1 ≡ 86400 = total_const 3600 24 1 in
    let (h, h', hour, h_low, h_high, h_end) =
      find_period-total (λ _. 3600) 24 0 1 s2 time d_low (omega (arith, all_hours, d_high))
        (omega (
          arith,
          all_hours,
          all_days,
          in_month,
          d_end,
          m_end,
          twelve_months (1970 + k),
          y_end,
          years_to_2038,
        )) in
    let seconds = s2 + total (λ _. 3600) h 1 in
    let rounds : days + 0 ≡ days = omega arith in
    let day' : find_period (λ _. 86400) days 1 s' time ≡ some (some (1 + d, s2)) =
      ap (λ n. find_period (λ _. 86400) n 1 s' time) (sym rounds) ∙ day in
    let year_number : 1970 + k - 1900 + 1900 ≡ 1970 + k = omega arith in
    let month_number : 1 + m - 1 + 1 ≡ 1 + m = omega arith in
    (
      stored time (1970 + k) s (1 + m) (1 + d) (1 + h) seconds,
      fill_time-stored time (1970 + k) s (1 + m) s' (1 + d) s2 (1 + h) seconds year month day' hour,
      mktime_sum k m d h time (time - seconds)
          (omega (
            arith,
            total-year_secs k,
            total-month_secs (1970 + k) m,
            total_const 86400 d 1,
            total_const 3600 h 1,
            h_low,
          ))
          (omega (arith, b)),
      omega arith,
      omega arith,
      rw (year_number, month_number) (omega (arith, d')),
      omega arith,
      omega (arith, h_high),
      omega arith,
    )
