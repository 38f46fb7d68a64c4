-- ===== src/Text/RoundTrip.antt =====
-- `itoa` and `atoi` one after the other.
use cordell_os.Base.{
  ℕ, zero, suc, ◌-◌, ◌/◌, ◌^◌, ◌<◌, ◌≤◌, ◌≡◌, refl, ap, ◌∙◌, some, List, [], ◌∷◌, ◌++◌, arith,
  length, length-append, replicate, ℤ, pos, negsuc, negated,
}
use cordell_os.Text.{skip_blanks, read_digits, read_signed, read_number, atoi, digits, itoa}
use cordell_os.Text.Number.{
  backwards, AllDigits, Fits, NoZero, digits-AllDigits, value-digits, read_digits-append,
  read_digits-backwards, read_digits-zeros, backwards-AllDigits, length-backwards,
  finish_itoa-backwards,
}

-- The integers that fit the ten bytes of `itoa`, sign and terminator included.
abbrev pub InBuffer : ℤ → Type 0
InBuffer (pos n) = n < 10 ^ 9
InBuffer (negsuc n) = suc n < 10 ^ 8

length-digits : (k fuel n : ℕ) → Fits (suc k) n → length (digits fuel n) ≤ suc k
unfolding digits
length-digits k zero n fits = omega arith
length-digits zero (suc fuel) n fits = ground arith
length-digits (suc k) (suc fuel) n fits = ground (arith, length-digits k fuel (n / 10))

AllDigits-NoZero : (xs : List ℕ) → AllDigits xs → NoZero xs
AllDigits-NoZero [] h = tt
AllDigits-NoZero (x ∷ xs) (lo, hi, h) = (λ e. omega arith, AllDigits-NoZero xs h)

append-NoZero : (xs ys : List ℕ) → NoZero xs → NoZero ys → NoZero (xs ++ ys)
append-NoZero [] ys h h' = h'
append-NoZero (x ∷ xs) ys (ne, h) h' = (ne, append-NoZero xs ys h h')

backwards-append_one : (xs : List ℕ) (x : ℕ) → backwards (xs ++ x ∷ []) ≡ x ∷ backwards xs
unfolding backwards
backwards-append_one [] x = refl
backwards-append_one (y ∷ ys) x = ap (λ t. t ++ y ∷ []) (backwards-append_one ys x)

skip_blanks-none : (c : ℕ) (s : List ℕ) → 33 ≤ c → c ≤ 127 → skip_blanks (c ∷ s) ≡ some (c ∷ s)
unfolding skip_blanks
skip_blanks-none c s lo hi = ground arith

read_signed-digit :
    (c : ℕ) (s : List ℕ) → 48 ≤ c → read_signed (c ∷ s) ≡ pos (read_digits (c ∷ s) 0)
unfolding read_signed
read_signed-digit c s lo = ground arith

read_signed-minus : (s : List ℕ) → read_signed (45 ∷ s) ≡ negated (read_digits s 0)
unfolding read_signed
read_signed-minus s = refl

-- Zeros behind the digits do not count.
read_digits_padded :
    (xs : List ℕ) (k : ℕ) → AllDigits xs → read_digits (xs ++ replicate k 0) 0 ≡ read_digits xs 0
read_digits_padded xs k h =
    read_digits-append xs (replicate k 0) 0 h ∙ read_digits-zeros k (read_digits xs 0)

-- Digits with zeros behind them are read as their number.
atoi-digits :
    (xs : List ℕ) (k : ℕ)
    → AllDigits xs
    → 0 < length xs
    → atoi (xs ++ replicate k 0) ≡ some (pos (read_digits xs 0))
unfolding atoi
atoi-digits [] k h some_digit = absurd (omega arith)
atoi-digits (x ∷ xs) k (lo, hi, h) some_digit =
    ap read_number (skip_blanks-none x (xs ++ replicate k 0) (omega arith) (omega arith))
    ∙ ap some (read_signed-digit x (xs ++ replicate k 0) lo)
    ∙ ap (λ n. some (pos n)) (read_digits_padded (x ∷ xs) k (lo, hi, h))

atoi-minus_digits :
    (xs : List ℕ) (k : ℕ)
    → AllDigits xs
    → atoi (45 ∷ xs ++ replicate k 0) ≡ some (negated (read_digits xs 0))
unfolding atoi
atoi-minus_digits xs k h =
    ap read_number (skip_blanks-none 45 (xs ++ replicate k 0) (omega arith) (omega arith))
    ∙ ap some (read_signed-minus (xs ++ replicate k 0))
    ∙ ap (λ n. some (negated n)) (read_digits_padded xs k h)

length-digits-pos : (fuel n : ℕ) → 0 < length (digits (suc fuel) n)
unfolding digits
length-digits-pos fuel n = omega arith

read-digits : (n : ℕ) → Fits 10 n → read_digits (backwards (digits 10 n)) 0 ≡ n
read-digits n fits =
    read_digits-backwards (digits 10 n) (digits-AllDigits 10 n) ∙ value-digits 10 n fits

negated-suc : (n : ℕ) → negated (suc n) ≡ negsuc n
negated-suc n = ground arith

-- For an integer whose text fits ten bytes, `atoi` reads back what `itoa` writes to ten zeroed
-- bytes.
pub atoi-itoa : (z : ℤ) → InBuffer z → atoi (itoa (replicate 10 0) z) ≡ some z
unfolding itoa
atoi-itoa (pos n) fits =
    let xs = digits 10 n in
    let all = digits-AllDigits 10 n in
    let short = length-digits 8 10 n (omega arith) in
    ap atoi (finish_itoa-backwards xs (AllDigits-NoZero xs all) (omega arith))
    ∙ atoi-digits (backwards xs) (10 - length xs) (backwards-AllDigits xs all)
        (omega (arith, length-backwards xs, length-digits-pos 9 n))
    ∙ ap (λ k. some (pos k)) (read-digits n (omega arith))
atoi-itoa (negsuc n) fits =
    let xs = digits 10 (suc n) in
    let all = digits-AllDigits 10 (suc n) in
    let short = length-digits 7 10 (suc n) (omega arith) in
    let len = length-append xs (45 ∷ []) in
    let clean = append-NoZero xs (45 ∷ []) (AllDigits-NoZero xs all) (λ e. omega arith, tt) in
    let pad = 10 - length (xs ++ 45 ∷ []) in
    ap atoi (
      finish_itoa-backwards (xs ++ 45 ∷ []) clean (omega arith)
      ∙ ap (λ t. t ++ replicate pad 0) (backwards-append_one xs 45))
    ∙ atoi-minus_digits (backwards xs) pad (backwards-AllDigits xs all)
    ∙ ap (λ k. some (negated k)) (read-digits (suc n) (omega arith))
    ∙ ap some (negated-suc n)
