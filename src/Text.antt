-- ===== src/Text.antt =====
-- The strings of src/libs/std/string.c and the characters of src/libs/std/ctype.c. A string is the
-- list of bytes from its pointer on; it ends at the first byte 0, and past the list 0 is read.
pub mod Token
pub mod Compare
pub mod Reverse
pub mod Number
pub mod RoundTrip
mod Tests
use cordell_os.Base.{
  ℕ, zero, suc, ◌+◌, ◌-◌, ◌*◌, ◌/◌, ◌%◌, Bool, true, false, not, ◌&&◌, ◌||◌, Option, none, some,
  List, [], ◌∷◌, ◌++◌, ltb, leb, ◌==◌, if◌then◌else◌, length, get_or, set, drop, take, ℤ, pos,
  negsuc, minus, negated,
}

abbrev pub isdigit : ℕ → Bool
isdigit c = leb b'0' c && leb c b'9'

abbrev pub isspace : ℕ → Bool
isspace c = c == 32 || (c == 10 || (c == 13 || (c == 9 || (c == 11 || c == 8))))

abbrev pub islower : ℕ → Bool
islower c = leb b'a' c && leb c b'z'

abbrev pub tolower : ℕ → ℕ
tolower c = if leb b'A' c && leb c b'Z' then c - 65 + 97 else c

abbrev pub toupper : ℕ → ℕ
toupper c = if islower c then c - 97 + 65 else c

unfoldable pub strlen : List ℕ → ℕ
strlen [] = 0
strlen (c ∷ s) = let rest = strlen s in if c == 0 then 0 else suc rest

-- The result is the string from the character on; `none` is NULL.
unfoldable pub strchr : List ℕ → ℕ → Option (List ℕ)
strchr [] chr = none
strchr (c ∷ s) chr =
    let rest = strchr s chr in if c == 0 then none else if c == chr then some (c ∷ s) else rest

-- The loop of `strrchr` from index `i` down; the result is an index.
unfoldable pub strrchr_from : List ℕ → ℕ → ℕ → Option ℕ
strrchr_from s c zero = if get_or s 0 0 == c then some 0 else none
strrchr_from s c (suc i) =
    let rest = strrchr_from s c i in if get_or s (suc i) 0 == c then some (suc i) else rest

unfoldable pub strrchr : List ℕ → ℕ → Option ℕ
strrchr s c = strrchr_from s c (strlen s)

-- The inner loop of `strstr`: whether it ends at the end of the needle.
unfoldable pub starts_with : List ℕ → List ℕ → Bool
starts_with hay [] = true
starts_with [] (n ∷ needle) = n == 0
starts_with (h ∷ hay) (n ∷ needle) =
    let rest = starts_with hay needle in if n == 0 then true else if h == n then rest else false

unfoldable pub strstr_from : List ℕ → List ℕ → Option (List ℕ)
strstr_from [] needle = none
strstr_from (h ∷ hay) needle =
    let rest = strstr_from hay needle in
    if h == 0 then none else if starts_with (h ∷ hay) needle then some (h ∷ hay) else rest

unfoldable pub strstr : List ℕ → List ℕ → Option (List ℕ)
strstr hay needle = if get_or needle 0 0 == 0 then some hay else strstr_from hay needle

-- The copying loop of `strcpy` with its last store.
unfoldable pub copy_string : List ℕ → List ℕ → List ℕ
copy_string dst [] = 0 ∷ drop 1 dst
copy_string dst (c ∷ src) =
    let rest = copy_string (drop 1 dst) src in if c == 0 then 0 ∷ drop 1 dst else c ∷ rest

-- What `dst` holds afterwards; `none` is the result NULL, which leaves `dst` as it is.
unfoldable pub strcpy : List ℕ → List ℕ → Option (List ℕ)
strcpy dst src = if strlen src == 0 then none else some (copy_string dst src)

unfoldable pub strcmp : List ℕ → List ℕ → ℤ
strcmp [] t = minus 0 (get_or t 0 0)
strcmp (c ∷ s) [] = minus c 0
strcmp (c ∷ s) (d ∷ t) =
    let rest = strcmp s t in if not (c == 0) && (not (d == 0) && c == d) then rest else minus c d

-- `strncmp`, `n` characters at most.
unfoldable pub strncmp : List ℕ → List ℕ → ℕ → ℤ
strncmp s t zero = pos 0
strncmp s t (suc n) =
    let c = get_or s 0 0 in
    let d = get_or t 0 0 in
    let rest = strncmp (drop 1 s) (drop 1 t) n in
    if not (c == d) || (c == 0 || d == 0) then minus c d else rest

-- The loop of `strcasecmp`, which ends at the end of the first string at the latest.
unfoldable pub strcasecmp : List ℕ → List ℕ → ℤ
strcasecmp [] t = minus 0 (tolower (get_or t 0 0))
strcasecmp (c ∷ s) t =
    let d = tolower (get_or t 0 0) in
    let rest = strcasecmp s (drop 1 t) in
    if not (tolower c == 0) && tolower c == d then rest else minus (tolower c) d

unfoldable pub strncasecmp : List ℕ → List ℕ → ℕ → ℤ
strncasecmp s t zero = pos 0
strncasecmp s t (suc n) =
    let c = tolower (get_or s 0 0) in
    let d = tolower (get_or t 0 0) in
    let rest = strncasecmp (drop 1 s) (drop 1 t) n in
    if not (c == d) || (c == 0 || d == 0) then minus c d else rest

-- One round of `reverse`.
abbrev pub swapped : List ℕ → ℕ → ℕ → List ℕ
swapped s i j = set (set s i (get_or s j 0)) j (get_or s i 0)

-- Its loop; the distance from `start` to `end` bounds the rounds.
unfoldable pub reverse_loop : ℕ → List ℕ → ℕ → ℕ → List ℕ
reverse_loop zero s start end = s
reverse_loop (suc fuel) s start end =
    let rest = reverse_loop fuel (swapped s start end) (start + 1) (end - 1) in
    if ltb start end then rest else s

-- For a length of 0 the source has `end` = -1, and does nothing either.
unfoldable pub reverse : List ℕ → ℕ → List ℕ
reverse s len = reverse_loop len s 0 (len - 1)

-- `strcat`, by what `strcpy` to the end of `dest` gives.
abbrev pub after_end : List ℕ → Option (List ℕ) → List ℕ
after_end dest none = dest
after_end dest (some tail) = take (strlen dest) dest ++ tail

unfoldable pub strcat : List ℕ → List ℕ → List ℕ
strcat dest src = after_end dest (strcpy (drop (strlen dest) dest) src)

unfoldable pub strncpy : List ℕ → List ℕ → ℕ → List ℕ
strncpy dst src zero = dst
strncpy dst [] (suc n) = 0 ∷ strncpy (drop 1 dst) [] n
strncpy dst (c ∷ src) (suc n) =
    let stop = strncpy (drop 1 dst) [] n in
    let rest = strncpy (drop 1 dst) src n in if c == 0 then 0 ∷ stop else c ∷ rest

unfoldable pub str2uppercase : List ℕ → List ℕ
str2uppercase [] = []
str2uppercase (c ∷ s) = let rest = str2uppercase s in if c == 0 then c ∷ s else toupper c ∷ rest

-- `while (str[i] <= ' ') i++` on signed characters, which may run off the end of the buffer.
unfoldable pub skip_blanks : List ℕ → Option (List ℕ)
skip_blanks [] = none
skip_blanks (c ∷ s) =
    let rest = skip_blanks s in if leb c 32 || leb 128 c then rest else some (c ∷ s)

-- The last loop of `atoi`. A number that does not fit an `int` overflows it in C; here it does not.
unfoldable pub read_digits : List ℕ → ℕ → ℕ
read_digits [] num = num
read_digits (c ∷ s) num =
    let rest = read_digits s (num * 10 + (c - 48)) in if isdigit c then rest else num

-- `atoi` past the blanks.
unfoldable pub read_signed : List ℕ → ℤ
read_signed s =
    let c = get_or s 0 0 in
    if c == b'-'
    then negated (read_digits (drop 1 s) 0)
    else if c == b'+'
    then pos (read_digits (drop 1 s) 0)
    else pos (read_digits s 0)

abbrev pub read_number : Option (List ℕ) → Option ℤ
read_number none = none
read_number (some s) = some (read_signed s)

unfoldable pub atoi : List ℕ → Option ℤ
atoi str = read_number (skip_blanks str)

-- The digits that the loop of `itoa` stores, the last one first; an `int` has ten at most.
unfoldable pub digits : ℕ → ℕ → List ℕ
digits zero n = []
digits (suc fuel) n =
    let rest = digits fuel (n / 10) in (n % 10 + 48) ∷ (if n / 10 == 0 then [] else rest)

-- Stores at the front of a buffer.
unfoldable pub overlay : List ℕ → List ℕ → List ℕ
overlay [] buffer = buffer
overlay (x ∷ xs) buffer = x ∷ overlay xs (drop 1 buffer)

-- `itoa` from the digits and the sign on; `fresh` is what the memory from `malloc` holds. The
-- characters are put in order before the terminator is stored.
unfoldable pub finish_itoa : List ℕ → List ℕ → List ℕ
finish_itoa fresh written =
    let buffer = overlay written fresh in
    let ordered = reverse buffer (strlen buffer) in set ordered (length written) 0

unfoldable pub itoa : List ℕ → ℤ → List ℕ
itoa fresh (pos n) = finish_itoa fresh (digits 10 n)
itoa fresh (negsuc n) = finish_itoa fresh (digits 10 (suc n) ++ b'-' ∷ [])
