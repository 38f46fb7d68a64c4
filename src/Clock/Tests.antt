-- ===== src/Clock/Tests.antt =====
-- src/kernel/arch/i386/datetime.c and src/libs/std/fslib.c at one date.
use cordell_os.Base.{◌≡◌, refl, false, some, arith, ltb, if◌then◌else◌}
use cordell_os.Fat.Change.{Datetime, date_of, time_of}
use cordell_os.Clock.{
  same_reading, stable_reading, from_bcd, hour_from_bcd, decimal, afternoon, full_year, converted,
  get_date, get_time,
}
use cordell_os.Clock.Decode.{registers, register_b, hour_kept, IsDate, converted-registers}
use cordell_os.Clock.Stamp.{get_date-date_of}

abbrev noon : Datetime
noon = record { hour = 12; minute = 34; second = 57; day = 26; month = 11; year = 2026 }

noon-IsDate : IsDate noon
noon-IsDate = record {
  second = omega arith;
  minute = omega arith;
  hour = omega arith;
  day = omega arith;
  month = omega arith;
  from_now = omega arith;
  before_next = omega arith;
}

converted-registers_example :
    converted (register_b false false) (registers false false noon)
    ≡ record noon { hour = hour_kept false 12 }
converted-registers_example = converted-registers false false noon noon-IsDate

-- Noon on the 12-hour clock is read as midnight.
noon_runs : (converted (register_b false false) (registers false false noon)).hour ≡ 0
unfolding converted decimal from_bcd hour_from_bcd afternoon full_year
noon_runs = refl

get_date-date_of_example :
    (get_date (date_of noon) ≡ (2026, 11, 26)) × (get_time (time_of noon) ≡ (12, 34, 56))
get_date-date_of_example =
    get_date-date_of noon (omega arith) (omega arith) (omega arith) (omega arith) (omega arith)
      (omega arith) (omega arith)

-- The second changes between the first two readings.
stable_runs :
    stable_reading (λ i. if ltb i 1 then noon else record noon { second = 58 }) 5 0
    ≡ some (record noon { second = 58 })
unfolding stable_reading same_reading
stable_runs = refl
