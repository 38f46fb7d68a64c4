-- ===== src/Text/Tests.antt =====
-- src/libs/std/string.c on short strings.
use cordell_os.Base.{
  ℕ, ◌-◌, ◌≡◌, refl, ◌↔◌, if◌then◌else◌, some, none, List, [], ◌∷◌, ◌++◌, arith, get_or, ltb,
  replicate, take, pos, negsuc,
}
use cordell_os.Text.{
  strlen, strchr, strrchr_from, strrchr, starts_with, strstr_from, strstr, copy_string, strcpy,
  strcmp, strncmp, strcasecmp, strncasecmp, reverse_loop, reverse, strcat, strncpy, str2uppercase,
  skip_blanks, read_digits, read_signed, atoi, digits, overlay, finish_itoa, itoa,
}
use cordell_os.Text.Compare.{text, strcmp_lem, strncmp_lem, text-strcat}
use cordell_os.Text.Reverse.{reverse_lem}
use cordell_os.Text.RoundTrip.{atoi-itoa}

abbrev abc : List ℕ
abc = 97 ∷ 98 ∷ 99 ∷ 0 ∷ 55 ∷ []

abbrev ab : List ℕ
ab = 97 ∷ 98 ∷ 0 ∷ 99 ∷ []

run : Unit {0}
unfolding strlen strchr strrchr_from strrchr starts_with strstr_from strstr copy_string strcpy
    strcmp strncmp strcasecmp strncasecmp reverse_loop reverse strcat strncpy str2uppercase
    skip_blanks read_digits read_signed atoi digits overlay finish_itoa itoa
run = tt

compare_runs : strcmp abc ab ≡ pos 99
unfolding run
compare_runs = refl

compare_two : strncmp abc ab 2 ≡ pos 0
unfolding run
compare_two = refl

ignore_case : strcasecmp (65 ∷ 66 ∷ []) ab ≡ pos 0
unfolding run
ignore_case = refl

ignore_case_once : strncasecmp (65 ∷ 90 ∷ []) ab 2 ≡ pos 24
unfolding run
ignore_case_once = refl

-- The end of a string is not found.
no_end : strchr abc 0 ≡ none
unfolding run
no_end = refl

last_one : strrchr (97 ∷ 98 ∷ 97 ∷ []) 97 ≡ some 2
unfolding run
last_one = refl

find_text : strstr abc (98 ∷ 99 ∷ []) ≡ some (98 ∷ 99 ∷ 0 ∷ 55 ∷ [])
unfolding run
find_text = refl

-- The empty string is not copied: the destination keeps what it held.
empty_copy : strcpy abc [] ≡ none
unfolding run
empty_copy = refl

copy_runs : strcpy abc ab ≡ some (97 ∷ 98 ∷ 0 ∷ 0 ∷ 55 ∷ [])
unfolding run
copy_runs = refl

pad_runs : strncpy abc ab 4 ≡ 97 ∷ 98 ∷ 0 ∷ 0 ∷ 55 ∷ []
unfolding run
pad_runs = refl

upper_runs : str2uppercase abc ≡ 65 ∷ 66 ∷ 67 ∷ 0 ∷ 55 ∷ []
unfolding run
upper_runs = refl

blanks_and_sign : atoi (32 ∷ 45 ∷ 49 ∷ 50 ∷ 120 ∷ []) ≡ some (negsuc 11)
unfolding run
blanks_and_sign = refl

-- On memory that is not zeroed the characters behind the number are turned round with it.
stale_memory : itoa (replicate 10 55) (pos 12) ≡ 55 ∷ 55 ∷ 0 ∷ 55 ∷ 55 ∷ 55 ∷ 55 ∷ 55 ∷ 49 ∷ 50 ∷ []
unfolding run
stale_memory = refl

strcmp_example : (strcmp abc ab ≡ pos 0) ↔ (text abc ≡ text ab)
strcmp_example = strcmp_lem abc ab

strncmp_example : (strncmp abc ab 2 ≡ pos 0) ↔ (take 2 (text abc) ≡ take 2 (text ab))
strncmp_example = strncmp_lem abc ab 2

strcat_example : text (strcat abc ab) ≡ text abc ++ text ab
strcat_example = text-strcat abc ab

reverse_example :
    get_or (reverse abc 3) 0 0 ≡ (if ltb 0 3 then get_or abc (3 - 1 - 0) 0 else get_or abc 0 0)
reverse_example = reverse_lem abc 3 0 (omega arith)

atoi-itoa_example : atoi (itoa (replicate 10 0) (negsuc 1204)) ≡ some (negsuc 1204)
atoi-itoa_example = atoi-itoa (negsuc 1204) (omega arith)
