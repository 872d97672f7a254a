-- ===== src/Libc/Time/Examples.antt =====
-- `mktime` and `fill_time` on a leap day.
use hexahedron.Base.{◌+◌, ◌≡◌, ◌<◌, ◌≤◌, refl, some, arith}
use hexahedron.Libc.Time.{mktime, get_days_in_month, Filled, fill_time}
use hexahedron.Libc.Time.Dates.{mktime-fill_time}

-- 29 February 2024, 12:30:15
leap_day :
    mktime (record {
      tm_sec = 15;
      tm_min = 30;
      tm_hour = 12;
      tm_mday = 29;
      tm_mon = 1;
      tm_year = 124;
      tm_zone_offset = 0;
    })
    ≡ 1709209815
unfolding mktime
leap_day = refl

mktime-fill_time_example :
    (f : Filled) × (fill_time 1709209815 ≡ some (some f))
    × (mktime f.tm ≡ 1709209815)
    × (f.tm.tm_mon < 12)
    × (0 < f.tm.tm_mday)
    × (f.tm.tm_mday ≤ get_days_in_month (f.tm.tm_mon + 1) (f.tm.tm_year + 1900))
    × (f.tm.tm_hour < 24)
    × (f.tm.tm_min < 60)
    × (f.tm.tm_sec < 60)
mktime-fill_time_example = mktime-fill_time 1709209815 (omega arith)
