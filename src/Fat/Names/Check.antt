-- ===== src/Fat/Names/Check.antt =====
-- Which names pass `_name_check` of src/kernel/filesystems/fat.c.
use cordell_os.Base.{
  all_below, all_below_lem, ℕ, zero, suc, ◌+◌, ◌<◌, ◌≡◌, ◌≢◌, refl, sym, ◌∙◌, inl, inr, Bool, true,
  false, not, ◌&&◌, ◌||◌, List, arith, ltb, ◌==◌, Bool-cases, get_or,
}
use cordell_os.Fat.Names.{
  is_control, is_listed, is_lowercase, check_flags, check_char, check_chars, name_check,
}

-- A result that is no longer 0 stays so, whatever the character is.
abbrev stays : Bool → Bool → Bool → Bool → ℕ → Bool
stays control dot listed lower ret =
    ret == 0
    || (not (check_flags ret control dot listed lower == 0)
        && ltb (check_flags ret control dot listed lower) 32)

stays-all : (control dot listed lower : Bool) → all_below 32 (stays control dot listed lower) ≡ true
unfolding check_flags
stays-all false false false false = refl
stays-all false false false true = refl
stays-all false false true false = refl
stays-all false false true true = refl
stays-all false true false false = refl
stays-all false true false true = refl
stays-all false true true false = refl
stays-all false true true true = refl
stays-all true false false false = refl
stays-all true false false true = refl
stays-all true false true false = refl
stays-all true false true true = refl
stays-all true true false false = refl
stays-all true true false true = refl
stays-all true true true false = refl
stays-all true true true true = refl

-- The characters of a name as it stands on the disk.
abbrev pub is_allowed : ℕ → Bool
is_allowed c =
    not (is_control c) && (not (c == 0x2e) && (not (is_listed c) && not (is_lowercase c)))

-- From 0, the result is 0 exactly for an allowed character, and has five bits.
check_flags-start :
    (control dot listed lower : Bool)
    → (check_flags 0 control dot listed lower == 0)
      ≡ (not control && (not dot && (not listed && not lower)))
unfolding check_flags
check_flags-start false false false false = refl
check_flags-start false false false true = refl
check_flags-start false false true false = refl
check_flags-start false false true true = refl
check_flags-start false true false false = refl
check_flags-start false true false true = refl
check_flags-start false true true false = refl
check_flags-start false true true true = refl
check_flags-start true false false false = refl
check_flags-start true false false true = refl
check_flags-start true false true false = refl
check_flags-start true false true true = refl
check_flags-start true true false false = refl
check_flags-start true true false true = refl
check_flags-start true true true false = refl
check_flags-start true true true true = refl

check_flags-small :
    (control dot listed lower : Bool) → ltb (check_flags 0 control dot listed lower) 32 ≡ true
unfolding check_flags
check_flags-small false false false false = refl
check_flags-small false false false true = refl
check_flags-small false false true false = refl
check_flags-small false false true true = refl
check_flags-small false true false false = refl
check_flags-small false true false true = refl
check_flags-small false true true false = refl
check_flags-small false true true true = refl
check_flags-small true false false false = refl
check_flags-small true false false true = refl
check_flags-small true false true false = refl
check_flags-small true false true true = refl
check_flags-small true true false false = refl
check_flags-small true true false true = refl
check_flags-small true true true false = refl
check_flags-small true true true true = refl

-- The characters from `i` on, as many as are left.
abbrev pub all_allowed : ℕ → List ℕ → ℕ → Bool
all_allowed zero input i = true
all_allowed (suc left) input i = is_allowed (get_or input i 0) && all_allowed left input (i + 1)

check_chars-bad :
    (left : ℕ) (input : List ℕ) (i ret : ℕ)
    → ret < 32
    → ret ≢ 0
    → (check_chars left input i ret == 0) ≡ false
unfolding check_chars check_char
check_chars-bad zero input i ret h bad = ground arith
check_chars-bad (suc left) input i ret h bad =
    let c = get_or input i 0 in
    let kept =
      all_below_lem 32 (stays (is_control c) (c == 0x2e) (is_listed c) (is_lowercase c)) ret
        (stays-all (is_control c) (c == 0x2e) (is_listed c) (is_lowercase c)) h in
    let next = check_flags ret (is_control c) (c == 0x2e) (is_listed c) (is_lowercase c) in
    check_chars-bad left input (i + 1) next (ground (arith, kept)) (ground (arith, kept))

check_chars-good :
    (left : ℕ) (input : List ℕ) (i : ℕ)
    → (check_chars left input i 0 == 0) ≡ all_allowed left input i
unfolding check_chars check_char
check_chars-good zero input i = refl
check_chars-good (suc left) input i =
    let c = get_or input i 0 in
    let start = check_flags-start (is_control c) (c == 0x2e) (is_listed c) (is_lowercase c) in
    let small = check_flags-small (is_control c) (c == 0x2e) (is_listed c) (is_lowercase c) in
    let next = check_flags 0 (is_control c) (c == 0x2e) (is_listed c) (is_lowercase c) in
    elim (Bool-cases (next == 0)) [
      | inl fine ↦
          let e : next ≡ 0 = ground arith in
          let allowed : is_allowed c ≡ true = sym start ∙ fine in
          rw (e, allowed) (check_chars-good left input (i + 1))
      | inr bad ↦
          let refused : is_allowed c ≡ false = sym start ∙ bad in
          rw refused
            (check_chars-bad left input (i + 1) next (ground (arith, small)) (ground arith))
    ]

-- `_name_check` gives 0 exactly where each of the first eleven characters is allowed on the disk:
-- none is a control character other than 5, a dot, one of the listed signs or a small letter.
pub name_check_lem : (input : List ℕ) → (name_check input == 0) ≡ all_allowed 11 input 0
unfolding name_check
name_check_lem input = check_chars-good 11 input 0
