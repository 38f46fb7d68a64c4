-- ===== src/Clock/Stamp.antt =====
-- The stamps that src/kernel/filesystems/fat.c stores and `FSLIB_get_date` reads.
use cordell_os.Base.{
  ℕ, ◌+◌, ◌-◌, ◌*◌, ◌/◌, ◌<◌, ◌≤◌, ◌≡◌, ap, ap₂, ◌∙◌, arith, bit_and, bit_or, u16, sub32, ◌>>◌,
  ◌<<◌,
}
use cordell_os.Base.Bits.{bit_and_mask, bit_or_fields, bit_or_fields_below}
use cordell_os.Fat.Change.{Datetime, date_of, time_of}
use cordell_os.Clock.{get_date, get_time}

-- The fields of a stamp one above the other.
date_of-fields :
    (t : Datetime)
    → t.day < 32
    → t.month < 16
    → 1980 ≤ t.year
    → t.year < 2108
    → date_of t ≡ (t.year - 1980) * 512 + (t.month * 32 + t.day)
unfolding date_of
date_of-fields t day month lo hi =
    let year = t.year - 1980 in
    let day' : bit_and t.day 31 ≡ t.day = bit_and_mask 5 t.day ∙ omega arith in
    let month' : bit_and t.month 15 * 32 ≡ t.month * 32 =
      ap (λ n. n * 32) (bit_and_mask 4 t.month) ∙ omega arith in
    let year' : bit_and (sub32 t.year 1980) 127 * 512 ≡ year * 512 =
      ap (λ n. n * 512) (bit_and_mask 7 (sub32 t.year 1980)) ∙ omega arith in
    ap₂ bit_or (ap₂ bit_or day' month' ∙ bit_or_fields_below 5 t.month t.day (omega arith)) year'
    ∙ bit_or_fields_below 9 year (t.month * 32 + t.day) (omega arith)

time_of-fields :
    (t : Datetime)
    → t.hour < 24
    → t.minute < 60
    → t.second < 60
    → time_of t ≡ t.hour * 2048 + (t.minute * 32 + t.second / 2)
unfolding time_of
time_of-fields t hour minute second =
    let low : bit_or (t.hour << 11) (t.minute << 5) ≡ t.hour * 2048 + t.minute * 32 =
      bit_or_fields 11 t.hour (t.minute * 32) (omega arith) in
    let whole : bit_or (t.hour * 2048 + t.minute * 32) (t.second / 2)
        ≡ t.hour * 2048 + t.minute * 32 + t.second / 2 =
      ap (λ n. bit_or n (t.second / 2)) (omega arith)
      ∙ bit_or_fields 5 (t.hour * 64 + t.minute) (t.second / 2) (omega arith)
      ∙ omega arith in
    ap (λ n. u16 (bit_or n (t.second / 2))) low ∙ ap u16 whole ∙ omega arith

-- `FSLIB_get_date` reads back the date that `_current_date` stores, for the years 1980 to 2107, and
-- the time that `_current_time` stores, where an odd second is read as the one before it.
pub get_date-date_of :
    (t : Datetime)
    → t.day < 32
    → t.month < 16
    → 1980 ≤ t.year
    → t.year < 2108
    → t.hour < 24
    → t.minute < 60
    → t.second < 60
    → (get_date (date_of t) ≡ (t.year, t.month, t.day))
      × (get_time (time_of t) ≡ (t.hour, t.minute, t.second / 2 * 2))
unfolding get_date get_time
get_date-date_of t day month lo hi hour minute second =
    let d = date_of-fields t day month lo hi in
    let s = time_of-fields t hour minute second in
    let year' : bit_and (date_of t >> 9) 127 + 1980 ≡ t.year =
      ap (λ n. n + 1980) (bit_and_mask 7 (date_of t >> 9)) ∙ omega (arith, d) in
    let month' : bit_and (date_of t >> 5) 15 ≡ t.month =
      bit_and_mask 4 (date_of t >> 5) ∙ omega (arith, d) in
    let day' : bit_and (date_of t) 31 ≡ t.day = bit_and_mask 5 (date_of t) ∙ omega (arith, d) in
    let hour' : bit_and (time_of t >> 11) 31 ≡ t.hour =
      bit_and_mask 5 (time_of t >> 11) ∙ omega (arith, s) in
    let minute' : bit_and (time_of t >> 5) 63 ≡ t.minute =
      bit_and_mask 6 (time_of t >> 5) ∙ omega (arith, s) in
    let second' : bit_and (time_of t) 31 * 2 ≡ t.second / 2 * 2 =
      ap (λ n. n * 2) (bit_and_mask 5 (time_of t)) ∙ omega (arith, s) in
    (triple year' month' day', triple hour' minute' second')
  where
    triple :
        {a a' b b' c c' : ℕ} → a ≡ a' → b ≡ b' → c ≡ c' → ◌≡◌ {A = ℕ × ℕ × ℕ} (a, b, c) (a', b', c')
    triple p q r = ap₂ (λ x (y : ℕ × ℕ). (x, y.0, y.1)) p (ap₂ (λ y z. (y, z)) q r)
