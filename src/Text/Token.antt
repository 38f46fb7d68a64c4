-- ===== src/Text/Token.antt =====
-- `strtok` of src/libs/std/string.c with a delimiter of one character.
use cordell_os.Base.{ℕ, Option, none, some, List, [], ◌∷◌, ◌==◌, if◌then◌else◌, get_or}

-- `strspn`: the string behind its leading delimiters.
unfoldable pub span : ℕ → List ℕ → List ℕ
span delim [] = []
span delim (c ∷ s) =
    let rest = span delim s in if c == 0 then c ∷ s else if c == delim then rest else c ∷ s

-- `strpbrk` and what is done at the place that it finds: the token, and the string that `olds` points
-- to.
unfoldable pub cut_token : ℕ → List ℕ → List ℕ × List ℕ
cut_token delim [] = ([], [])
cut_token delim (c ∷ s) =
    let (token, olds) = cut_token delim s in
    if c == 0 then ([], c ∷ s) else if c == delim then ([], s) else (c ∷ token, olds)

-- `strtok`; the string is the argument or, where that is NULL, `olds`. `none` is the result NULL.
unfoldable pub strtok : ℕ → List ℕ → Option (List ℕ × List ℕ)
strtok delim string =
    let start = span delim string in
    if get_or start 0 0 == 0 then none else some (cut_token delim start)
