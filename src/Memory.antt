-- ===== src/Memory.antt =====
-- The memory functions of src/libs/std/memory.c. Memory is the byte at each address; a call returns
-- memory after it, and an object does not reach past the last address.
pub mod Copy
pub mod Fill
mod Tests
use cordell_os.Base.{
  ℕ, zero, suc, ◌+◌, ◌-◌, ◌*◌, ◌/◌, ◌%◌, ◌^◌, Bool, true, false, ◌&&◌, bit_and, bit_or, ltb, leb,
  ◌==◌, if◌then◌else◌, u8, u16, u32, ◌<<◌, ◌>>◌,
}

-- `dest[0] = source[0]` on bytes, and on 32-bit words.
abbrev pub move_byte : (ℕ → ℕ) → ℕ → ℕ → ℕ → ℕ
move_byte m dest source a = if a == dest then m source else m a

abbrev pub move_word : (ℕ → ℕ) → ℕ → ℕ → ℕ → ℕ
move_word m dest source a = if leb dest a && ltb a (dest + 4) then m (source + (a - dest)) else m a

-- The two loops of `memcpy`.
unfoldable pub copy_words : ℕ → (ℕ → ℕ) → ℕ → ℕ → ℕ → ℕ
copy_words zero m dest source a = m a
copy_words (suc left) m dest source a =
    copy_words left (move_word m dest source) (dest + 4) (source + 4) a

unfoldable pub copy_bytes : ℕ → (ℕ → ℕ) → ℕ → ℕ → ℕ → ℕ
copy_bytes zero m dest source a = m a
copy_bytes (suc left) m dest source a =
    copy_bytes left (move_byte m dest source) (dest + 1) (source + 1) a

unfoldable pub memcpy : (ℕ → ℕ) → ℕ → ℕ → ℕ → ℕ → ℕ
memcpy m dest source num a =
    copy_bytes (num % 4) (copy_words (num / 4) m dest source) (dest + num / 4 * 4)
      (source + num / 4 * 4) a

-- The loop of `memmove` from the last byte down.
unfoldable pub copy_back : ℕ → (ℕ → ℕ) → ℕ → ℕ → ℕ → ℕ
copy_back zero m dest source a = m a
copy_back (suc left) m dest source a =
    copy_back left (move_byte m (dest + left) (source + left)) dest source a

unfoldable pub memmove : (ℕ → ℕ) → ℕ → ℕ → ℕ → ℕ → ℕ
memmove m dest source len a =
    if ltb dest source then copy_bytes len m dest source a else copy_back len m dest source a

-- The stores of `memset`.
abbrev pub put_byte : (ℕ → ℕ) → ℕ → ℕ → ℕ → ℕ
put_byte m dest x a = if a == dest then x else m a

abbrev pub put_word : (ℕ → ℕ) → ℕ → ℕ → ℕ → ℕ
put_word m dest x a = if leb dest a && ltb a (dest + 4) then u8 (x >> (8 * (a - dest))) else m a

unfoldable pub fill_words : ℕ → (ℕ → ℕ) → ℕ → ℕ → ℕ → ℕ
fill_words zero m dest x a = m a
fill_words (suc left) m dest x a = fill_words left (put_word m dest x) (dest + 4) x a

unfoldable pub fill_bytes : ℕ → (ℕ → ℕ) → ℕ → ℕ → ℕ → ℕ
fill_bytes zero m dest x a = m a
fill_bytes (suc left) m dest x a = fill_bytes left (put_byte m dest x) (dest + 1) x a

-- `val32`, for a value that is a word.
unfoldable pub word_of_byte : ℕ → ℕ
word_of_byte value = u32 (bit_or (bit_or (bit_or value (value << 8)) (value << 16)) (value << 24))

unfoldable pub memset : (ℕ → ℕ) → ℕ → ℕ → ℕ → ℕ → ℕ
memset m dest value num a =
    fill_bytes (num % 4) (fill_words (num / 4) m dest (word_of_byte value)) (dest + num / 4 * 4)
      (u8 value) a

-- `memcmp` from index `i` on, over the bytes left: `true` is the result 1. The index has 16 bits, so
-- that in the source a comparison of more than 65535 equal bytes does not end; here it has fuel.
unfoldable pub memcmp : ℕ → (ℕ → ℕ) → ℕ → ℕ → Bool
memcmp zero m first second = false
memcmp (suc left) m first second =
    let rest = memcmp left m (first + 1) (second + 1) in if m first == m second then rest else true
