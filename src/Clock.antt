-- ===== src/Clock.antt =====
-- The date and time: the real-time clock of src/kernel/arch/i386/datetime.c, and `FSLIB_get_date` of
-- src/libs/std/fslib.c, which reads the stamps that src/kernel/filesystems/fat.c writes. What the
-- clock's registers hold at each reading is a parameter.
pub mod Decode
pub mod Stamp
mod Tests
use cordell_os.Base.{
  ℕ, zero, suc, ◌+◌, ◌-◌, ◌*◌, ◌/◌, ◌%◌, ◌^◌, Bool, true, false, not, ◌&&◌, ◌||◌, Option, none,
  some, bit_and, bit_or, ltb, ◌==◌, if◌then◌else◌, u8, u16, ◌>>◌,
}
use cordell_os.Fat.Change.{Datetime}

abbrev pub current_year : ℕ
current_year = 2026

-- `x & mask` as a test
abbrev pub has_bits : ℕ → ℕ → Bool
has_bits mask x = not (bit_and x mask == 0)

unfoldable pub same_reading : Datetime → Datetime → Bool
same_reading a b =
    a.second == b.second
    && (a.minute == b.minute
        && (a.hour == b.hour && (a.day == b.day && (a.month == b.month && a.year == b.year))))

-- The `do` loop of `DTM_datetime_read_rtc`: it ends at the first reading that is the one before it.
unfoldable pub stable_reading : (ℕ → Datetime) → ℕ → ℕ → Option Datetime
stable_reading clock zero i = none
stable_reading clock (suc fuel) i =
    let rest = stable_reading clock fuel (i + 1) in
    if same_reading (clock i) (clock (i + 1)) then some (clock (i + 1)) else rest

-- `(x & 0x0F) + ((x / 16) * 10)`
unfoldable pub from_bcd : ℕ → ℕ
from_bcd x = u8 (bit_and x 15 + x / 16 * 10)

-- The hour keeps its flag for the afternoon.
unfoldable pub hour_from_bcd : ℕ → ℕ
hour_from_bcd x = u8 (bit_or (bit_and x 15 + bit_and x 0x70 / 16 * 10) (bit_and x 0x80))

-- The branch for BCD.
unfoldable pub decimal : Datetime → Datetime
decimal t = record {
  second = from_bcd t.second;
  minute = from_bcd t.minute;
  hour = hour_from_bcd t.hour;
  day = from_bcd t.day;
  month = from_bcd t.month;
  year = bit_and t.year 15 + t.year / 16 * 10;
}

-- The branch for the 12-hour clock.
unfoldable pub afternoon : ℕ → ℕ
afternoon hour = if has_bits 0x80 hour then (bit_and hour 0x7f + 12) % 24 else hour

unfoldable pub full_year : ℕ → ℕ
full_year year =
    let whole = u16 (year + current_year / 100 * 100) in
    if ltb whole current_year then u16 (whole + 100) else whole

-- `DTM_datetime_read_rtc` from the end of the loop on, by register B.
unfoldable pub converted : ℕ → Datetime → Datetime
converted register_b t =
    let plain = if has_bits 4 register_b then t else decimal t in
    record plain {
      hour = if has_bits 2 register_b then plain.hour else afternoon plain.hour;
      year = full_year plain.year;
    }

-- `FSLIB_get_date` of type 1: year, month and day.
unfoldable pub get_date : ℕ → ℕ × ℕ × ℕ
get_date stamp = (bit_and (stamp >> 9) 0x7f + 1980, bit_and (stamp >> 5) 0xf, bit_and stamp 0x1f)

-- `FSLIB_get_date` of type 2: hour, minute and second.
unfoldable pub get_time : ℕ → ℕ × ℕ × ℕ
get_time stamp = (bit_and (stamp >> 11) 0x1f, bit_and (stamp >> 5) 0x3f, bit_and stamp 0x1f * 2)
