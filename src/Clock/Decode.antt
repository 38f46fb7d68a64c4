-- ===== src/Clock/Decode.antt =====
-- The registers of the clock as src/kernel/arch/i386/datetime.c decodes them.
use cordell_os.Base.{
  ℕ, ◌+◌, ◌-◌, ◌*◌, ◌/◌, ◌%◌, ◌<◌, ◌≤◌, ◌≡◌, refl, ap, ◌∙◌, Bool, true, false, arith, bit_and, ◌==◌,
  ==_iff, if◌then◌else◌, ltb, all_below_lem,
}
use cordell_os.Fat.Change.{Datetime}
use cordell_os.Clock.{from_bcd, hour_from_bcd, decimal, afternoon, full_year, converted}

-- Two decimal digits as a byte.
abbrev pub to_bcd : ℕ → ℕ
to_bcd n = n / 10 * 16 + n % 10

-- How the clock stores a number.
abbrev pub encoded : Bool → ℕ → ℕ
encoded binary n = if binary then n else to_bcd n

-- The hour on the 12-hour clock, where the flag of the afternoon is the highest bit.
abbrev pub encoded_hour : Bool → Bool → ℕ → ℕ
encoded_hour binary whole_day h =
    if whole_day
    then encoded binary h
    else if ltb h 12
    then encoded binary (if h == 0 then 12 else h)
    else 128 + encoded binary (if h == 12 then 12 else h - 12)

-- The registers for a date and time in the years 2000 to 2099.
abbrev pub registers : Bool → Bool → Datetime → Datetime
registers binary whole_day t = record {
  second = encoded binary t.second;
  minute = encoded binary t.minute;
  hour = encoded_hour binary whole_day t.hour;
  day = encoded binary t.day;
  month = encoded binary t.month;
  year = encoded binary (t.year % 100);
}

-- Register B for a format.
abbrev pub register_b : Bool → Bool → ℕ
register_b binary whole_day = (if binary then 4 else 0) + (if whole_day then 2 else 0)

from_bcd-to_bcd : (n : ℕ) → n < 100 → from_bcd (to_bcd n) ≡ n
unfolding from_bcd
from_bcd-to_bcd n lt =
    (==_iff (from_bcd (to_bcd n)) n).0 (all_below_lem 100 (λ k. from_bcd (to_bcd k) == k) n refl lt)

-- The hour that is read, for each format.
abbrev hour_read : Bool → Bool → ℕ → ℕ
hour_read binary whole_day h =
    let x = encoded_hour binary whole_day h in
    let plain = if binary then x else hour_from_bcd x in
    if whole_day then plain else afternoon plain

-- An hour other than 0 and 12 is read right on the 12-hour clock; those two are exchanged.
abbrev pub hour_kept : Bool → ℕ → ℕ
hour_kept whole_day h = if whole_day then h else if h == 0 then 12 else if h == 12 then 0 else h

hour_read-kept :
    (binary whole_day : Bool) (h : ℕ)
    → h < 24
    → hour_read binary whole_day h ≡ hour_kept whole_day h
unfolding hour_from_bcd afternoon
hour_read-kept true true h lt = refl
hour_read-kept false true h lt =
    (==_iff (hour_read false true h) h).0
      (all_below_lem 24 (λ k. hour_read false true k == k) h refl lt)
hour_read-kept true false h lt =
    (==_iff (hour_read true false h) (hour_kept false h)).0
      (all_below_lem 24 (λ k. hour_read true false k == hour_kept false k) h refl lt)
hour_read-kept false false h lt =
    (==_iff (hour_read false false h) (hour_kept false h)).0
      (all_below_lem 24 (λ k. hour_read false false k == hour_kept false k) h refl lt)

-- The two digits of the year, before the century is added.
abbrev year_read : Bool → ℕ → ℕ
year_read binary y = if binary then y else bit_and (to_bcd y) 15 + to_bcd y / 16 * 10

year_read-kept : (binary : Bool) (y : ℕ) → y < 100 → year_read binary y ≡ y
year_read-kept true y lt = refl
year_read-kept false y lt =
    (==_iff (year_read false y) y).0 (all_below_lem 100 (λ k. year_read false k == k) y refl lt)

full_year-digits : (y : ℕ) → 2026 ≤ y → y < 2126 → full_year (y % 100) ≡ y
unfolding full_year
full_year-digits y lo hi = ground arith

abbrev plain_read : Bool → ℕ → ℕ
plain_read binary n = if binary then n else from_bcd (to_bcd n)

plain_read-kept : (binary : Bool) (n : ℕ) → n < 100 → plain_read binary n ≡ n
plain_read-kept true n lt = refl
plain_read-kept false n lt = from_bcd-to_bcd n lt

-- A date and time whose two digits of the year are within its century or the next.
pub record IsDate (t : Datetime) : Type 0 where
  pub second : t.second < 60
  pub minute : t.minute < 60
  pub hour : t.hour < 24
  pub day : t.day < 32
  pub month : t.month < 13
  pub from_now : 2026 ≤ t.year
  pub before_next : t.year < 2126

fields_read :
    (binary whole_day : Bool) (t : Datetime)
    → converted (register_b binary whole_day) (registers binary whole_day t) ≡ record {
      second = plain_read binary t.second;
      minute = plain_read binary t.minute;
      hour = hour_read binary whole_day t.hour;
      day = plain_read binary t.day;
      month = plain_read binary t.month;
      year = full_year (year_read binary (t.year % 100));
    }
unfolding converted decimal
fields_read true true t = refl
fields_read true false t = refl
fields_read false true t = refl
fields_read false false t = refl

-- What the clock's registers hold for a date and time of the years 2026 to 2125, in either number
-- format, is decoded to that date and time on the 24-hour clock; on the 12-hour clock the hours 0 and
-- 12 are exchanged, and the others are right.
pub converted-registers :
    (binary whole_day : Bool) (t : Datetime)
    → IsDate t
    → converted (register_b binary whole_day) (registers binary whole_day t)
      ≡ record t { hour = hour_kept whole_day t.hour }
converted-registers binary whole_day t ok =
    let second' : plain_read binary t.second ≡ t.second =
      plain_read-kept binary t.second (omega (arith, ok.second)) in
    let minute' : plain_read binary t.minute ≡ t.minute =
      plain_read-kept binary t.minute (omega (arith, ok.minute)) in
    let day' : plain_read binary t.day ≡ t.day =
      plain_read-kept binary t.day (omega (arith, ok.day)) in
    let month' : plain_read binary t.month ≡ t.month =
      plain_read-kept binary t.month (omega (arith, ok.month)) in
    let hour' : hour_read binary whole_day t.hour ≡ hour_kept whole_day t.hour =
      hour_read-kept binary whole_day t.hour ok.hour in
    let year' : full_year (year_read binary (t.year % 100)) ≡ t.year =
      ap full_year (year_read-kept binary (t.year % 100) (omega arith))
      ∙ full_year-digits t.year ok.from_now ok.before_next in
    fields_read binary whole_day t ∙ simp (second', minute', day', month', hour', year') refl
