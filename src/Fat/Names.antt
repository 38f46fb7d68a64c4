-- ===== src/Fat/Names.antt =====
-- The names of src/kernel/filesystems/fat.c: the check of a name and its form on the disk.
pub mod Check
pub mod Stored
use cordell_os.Base.{
  ℕ, zero, suc, ◌+◌, ◌-◌, Bool, true, false, not, ◌&&◌, ◌||◌, none, some, List, [], ◌∷◌, bit_and,
  bit_or, bit_xor, ltb, leb, ◌==◌, if◌then◌else◌, get_or, set, replicate,
}
use cordell_os.Text.{strcpy, str2uppercase}

abbrev pub lowercase_issue : ℕ
lowercase_issue = 0x01

abbrev pub bad_character : ℕ
bad_character = 0x02

abbrev pub not_converted_yet : ℕ
not_converted_yet = 0x08

abbrev pub too_many_dots : ℕ
too_many_dots = 0x10

abbrev pub has_bits : ℕ → ℕ → Bool
has_bits x mask = bit_and x mask == mask

-- `input[i] < 0x20 && input[i] != 0x05` on a signed character.
abbrev pub is_control : ℕ → Bool
is_control c = (ltb c 32 || leb 128 c) && not (c == 5)

-- The characters of the `switch` other than the dot.
abbrev pub is_listed : ℕ → Bool
is_listed c =
    c == 0x22
    || (leb 0x2a c && leb c 0x2c
        || (c == 0x2f || (leb 0x3a c && leb c 0x3f || (leb 0x5b c && leb c 0x5d || c == 0x7c))))

abbrev pub is_lowercase : ℕ → Bool
is_lowercase c = leb b'a' c && leb c b'z'

-- A round of `_name_check` by what holds of the character: a control character, a dot, a listed one,
-- a small letter.
unfoldable pub check_flags : ℕ → Bool → Bool → Bool → Bool → ℕ
check_flags ret control dot listed lower =
    let a = if control then bit_or ret bad_character else ret in
    let dots = if has_bits a not_converted_yet then bit_or a too_many_dots else a in
    let b =
      if dot
      then bit_xor dots not_converted_yet
      else if listed
      then bit_or a bad_character
      else a in
    if lower then bit_or b lowercase_issue else b

unfoldable pub check_char : ℕ → ℕ → ℕ
check_char ret c = check_flags ret (is_control c) (c == 0x2e) (is_listed c) (is_lowercase c)

-- Its loop over the characters left.
unfoldable pub check_chars : ℕ → List ℕ → ℕ → ℕ → ℕ
check_chars zero input i ret = ret
check_chars (suc left) input i ret =
    check_chars left input (i + 1) (check_char ret (get_or input i 0))

unfoldable pub name_check : List ℕ → ℕ
name_check input = check_chars 11 input 0 0

-- What the first loop of `_name2fatname` leaves: whether there is an extension, where the name ends,
-- where the loop has stopped, and the characters stored.
pub record Stem : Type 0 where
  pub have_ext : Bool
  pub dot_pos : ℕ
  pub counter : ℕ
  pub search_name : List ℕ

-- The first loop, over the rounds left.
unfoldable pub stem_loop : ℕ → List ℕ → ℕ → List ℕ → Stem
stem_loop zero input counter name = record {
  have_ext = false;
  dot_pos = 0;
  counter = counter;
  search_name = name;
}
stem_loop (suc left) input counter name =
    let c = get_or input counter 0 in
    let rest = stem_loop left input (counter + 1) (set name counter c) in
    if c == b'.' || c == 0
    then record {
      have_ext = c == b'.';
      dot_pos = counter;
      counter = counter + 1;
      search_name = name;
    }
    else rest

-- `if (counter > 9)`
abbrev pub clipped : Stem → Stem
clipped s = if ltb 9 s.counter then record s { counter = 8; dot_pos = 8 } else s

-- The second loop, over the characters of the extension left; what stands behind is `name`.
unfoldable pub extension_loop : ℕ → List ℕ → Bool → ℕ → ℕ → List ℕ → List ℕ
extension_loop zero input have_ext counter ext_count name = name
extension_loop (suc left) input have_ext counter ext_count name =
    let c = get_or input counter 0 in
    extension_loop left input have_ext (counter + 1) (ext_count + 1)
      (set name ext_count (if not (c == 0) && have_ext then c else 32))

-- The third loop, over the blanks left.
unfoldable pub blank_loop : ℕ → ℕ → List ℕ → List ℕ
blank_loop zero counter name = name
blank_loop (suc left) counter name = blank_loop left (counter + 1) (set name counter 32)

abbrev pub padded : List ℕ → Stem → List ℕ
padded input s =
    blank_loop (8 - s.dot_pos) s.dot_pos
      (extension_loop 3 input s.have_ext s.counter 8 s.search_name)

unfoldable pub name2fatname : List ℕ → List ℕ
name2fatname input =
    let upper = str2uppercase input in
    elim (strcpy upper (padded upper (clipped (stem_loop 9 upper 0 (replicate 13 0))))) [
      | none ↦ upper
      | some name ↦ name
    ]
