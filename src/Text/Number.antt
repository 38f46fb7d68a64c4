-- ===== src/Text/Number.antt =====
-- Numbers as text: the digits of `itoa` and `atoi`.
use cordell_os.Base.{
  ℕ, zero, suc, ◌+◌, ◌-◌, ◌*◌, ◌/◌, ◌<◌, ◌≤◌, ◌≡◌, refl, sym, ap, ap₂, ◌∙◌, ◌≢◌, true, false, List,
  [], ◌∷◌, ◌++◌, arith, ltb, ◌==◌, if◌then◌else◌, Bool-cases, inl, inr, length, length-append,
  get_or, set, length-set, get_or_ext, replicate,
}
use cordell_os.Text.{
  isdigit, strlen, swapped, reverse, reverse_loop, read_digits, digits, overlay, finish_itoa,
}
use cordell_os.Text.Reverse.{reverse_lem}

-- The list backwards.
unfoldable pub backwards : List ℕ → List ℕ
backwards [] = []
backwards (x ∷ xs) = backwards xs ++ x ∷ []

-- The value of digits, the last one first.
unfoldable pub value : List ℕ → ℕ
value [] = 0
value (x ∷ xs) = value xs * 10 + (x - 48)

abbrev pub AllDigits : List ℕ → Type 0
AllDigits [] = Unit
AllDigits (x ∷ xs) = (48 ≤ x) × (x ≤ 57) × AllDigits xs

pub digits-AllDigits : (fuel n : ℕ) → AllDigits (digits fuel n)
unfolding digits
digits-AllDigits zero n = tt
digits-AllDigits (suc fuel) n = elim (Bool-cases (n / 10 == 0)) [
  | inl last ↦ simp last (omega arith, omega arith, tt)
  | inr more ↦ simp more (omega arith, omega arith, digits-AllDigits fuel (n / 10))
]

-- `fuel` digits are enough for a number.
abbrev pub Fits : ℕ → ℕ → Type 0
Fits zero n = n ≡ 0
Fits (suc fuel) n = Fits fuel (n / 10)

value-zero : (fuel : ℕ) → value (digits fuel 0) ≡ 0
unfolding value digits
value-zero zero = refl
value-zero (suc fuel) = refl

pub value-digits : (fuel n : ℕ) → Fits fuel n → value (digits fuel n) ≡ n
unfolding value digits
value-digits zero n fits = sym fits
value-digits (suc fuel) n fits = ground (arith, value-digits fuel (n / 10) fits)

pub read_digits-append :
    (xs ys : List ℕ) (num : ℕ)
    → AllDigits xs
    → read_digits (xs ++ ys) num ≡ read_digits ys (read_digits xs num)
unfolding read_digits
read_digits-append [] ys num h = refl
read_digits-append (x ∷ xs) ys num (lo, hi, h) =
    let digit : isdigit x ≡ true = ground arith in
    simp (digit, read_digits-append xs ys (num * 10 + (x - 48)) h)

append-AllDigits : (xs ys : List ℕ) → AllDigits xs → AllDigits ys → AllDigits (xs ++ ys)
append-AllDigits [] ys h h' = h'
append-AllDigits (x ∷ xs) ys (lo, hi, h) h' = (lo, hi, append-AllDigits xs ys h h')

pub backwards-AllDigits : (xs : List ℕ) → AllDigits xs → AllDigits (backwards xs)
unfolding backwards
backwards-AllDigits [] h = tt
backwards-AllDigits (x ∷ xs) (lo, hi, h) =
    append-AllDigits (backwards xs) (x ∷ []) (backwards-AllDigits xs h) (lo, hi, tt)

pub read_digits-backwards : (xs : List ℕ) → AllDigits xs → read_digits (backwards xs) 0 ≡ value xs
unfolding backwards value read_digits
read_digits-backwards [] h = refl
read_digits-backwards (x ∷ xs) (lo, hi, h) =
    let digit : isdigit x ≡ true = ground arith in
    read_digits-append (backwards xs) (x ∷ []) 0 (backwards-AllDigits xs h)
    ∙ simp (digit, read_digits-backwards xs h)

-- Zeros behind the digits end the number.
pub read_digits-zeros : (k num : ℕ) → read_digits (replicate k 0) num ≡ num
unfolding read_digits
read_digits-zeros zero num = refl
read_digits-zeros (suc k) num = refl

overlay-zeros :
    (xs : List ℕ) (n : ℕ)
    → length xs ≤ n
    → overlay xs (replicate n 0) ≡ xs ++ replicate (n - length xs) 0
unfolding overlay
overlay-zeros [] n le = ap (λ k. replicate k 0) (omega arith)
overlay-zeros (x ∷ xs) zero le = absurd (omega arith)
overlay-zeros (x ∷ xs) (suc n) le =
    ap (λ t. x ∷ t) (overlay-zeros xs n (omega arith) ∙ ap (λ k. xs ++ replicate k 0) (omega arith))

abbrev pub NoZero : List ℕ → Type 0
NoZero [] = Unit
NoZero (x ∷ xs) = (x ≢ 0) × NoZero xs

strlen-append : (xs : List ℕ) (k : ℕ) → NoZero xs → strlen (xs ++ replicate k 0) ≡ length xs
unfolding strlen
strlen-append [] zero h = refl
strlen-append [] (suc k) h = refl
strlen-append (x ∷ xs) k (ne, h) = ground (arith, ne, strlen-append xs k h)

get_or-append :
    (xs ys : List ℕ) (k : ℕ)
    → get_or (xs ++ ys) k 0
      ≡ (if ltb k (length xs) then get_or xs k 0 else get_or ys (k - length xs) 0)
get_or-append [] ys k = ground arith
get_or-append (x ∷ xs) ys zero = ground arith
get_or-append (x ∷ xs) ys (suc k) = ground (arith, get_or-append xs ys k)

pub length-backwards : (xs : List ℕ) → length (backwards xs) ≡ length xs
unfolding backwards
length-backwards [] = refl
length-backwards (x ∷ xs) =
    omega (arith, length-append (backwards xs) (x ∷ []), length-backwards xs)

get_or-backwards :
    (xs : List ℕ) (k : ℕ)
    → k < length xs
    → get_or (backwards xs) k 0 ≡ get_or xs (length xs - 1 - k) 0
unfolding backwards
get_or-backwards [] k lt = absurd (omega arith)
get_or-backwards (x ∷ xs) k lt =
    get_or-append (backwards xs) (x ∷ []) k ∙ elim (Bool-cases (ltb k (length xs))) [
      | inl inside ↦
          let index : suc (length xs - 1 - k) ≡ length (x ∷ xs) - 1 - k = ground arith in
          ground (arith, length-backwards xs, get_or-backwards xs k)
          ∙ ap (λ j. get_or (x ∷ xs) j 0) index
      | inr at_end ↦
          let index : 0 ≡ length (x ∷ xs) - 1 - k = ground arith in
          let zeroth : k - length (backwards xs) ≡ 0 = ground (arith, length-backwards xs) in
          let past : ltb k (length (backwards xs)) ≡ false = ground (arith, length-backwards xs) in
          rw past (ap (λ j. get_or (x ∷ []) j 0) zeroth ∙ ap (λ j. get_or (x ∷ xs) j 0) index)
    ]

length-reverse_loop :
    (fuel : ℕ) (s : List ℕ) (start end : ℕ) → length (reverse_loop fuel s start end) ≡ length s
unfolding reverse_loop
length-reverse_loop zero s start end = refl
length-reverse_loop (suc fuel) s start end = ground (
  arith,
  length-reverse_loop fuel (swapped s start end) (start + 1) (end - 1),
  length-set (set s start (get_or s end 0)) end (get_or s start 0),
  length-set s start (get_or s end 0),
)

reverse-backwards : (xs ys : List ℕ) → reverse (xs ++ ys) (length xs) ≡ backwards xs ++ ys
unfolding reverse
reverse-backwards xs ys =
    let len = length-append xs ys in
    let len' = length-append (backwards xs) ys in
    let kept = length-reverse_loop (length xs) (xs ++ ys) 0 (length xs - 1) in
    get_or_ext 0 (reverse (xs ++ ys) (length xs)) (backwards xs ++ ys)
      (omega (arith, length-backwards xs))
      (λ k lt.
        reverse_lem (xs ++ ys) (length xs) k (omega arith)
        ∙ ground (
          arith,
          length-backwards xs,
          get_or-append (backwards xs) ys k,
          get_or-append xs ys k,
          get_or-append xs ys (length xs - 1 - k),
          get_or-backwards xs k,
        ))

set-append_zero :
    (xs : List ℕ) (k : ℕ) → set (xs ++ replicate k 0) (length xs) 0 ≡ xs ++ replicate k 0
set-append_zero [] zero = refl
set-append_zero [] (suc k) = refl
set-append_zero (x ∷ xs) k = ap (λ t. x ∷ t) (set-append_zero xs k)

-- What `itoa` leaves in ten zeroed bytes: the characters in order, then zeros.
pub finish_itoa-backwards :
    (xs : List ℕ)
    → NoZero xs
    → length xs ≤ 10
    → finish_itoa (replicate 10 0) xs ≡ backwards xs ++ replicate (10 - length xs) 0
unfolding finish_itoa
finish_itoa-backwards xs h le =
    let zeros = replicate (10 - length xs) 0 in
    let buffer = overlay-zeros xs 10 le in
    let size = ap strlen buffer ∙ strlen-append xs (10 - length xs) h in
    ap₂ (λ b n. set (reverse b n) (length xs) 0) buffer size
    ∙ ap (λ b. set b (length xs) 0) (reverse-backwards xs zeros)
    ∙ ap (λ n. set (backwards xs ++ zeros) n 0) (sym (length-backwards xs))
    ∙ set-append_zero (backwards xs) (10 - length xs)
