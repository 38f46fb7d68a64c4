-- ===== src/Memory/Fill.antt =====
-- What `memset` of src/libs/std/memory.c leaves in memory.
use cordell_os.Base.{
  ℕ, zero, suc, ◌+◌, ◌-◌, ◌*◌, ◌/◌, ◌%◌, ◌^◌, ◌<◌, ◌≡◌, inl, inr, ◌&&◌, bit_or, arith, ltb, leb,
  if◌then◌else◌, Bool-cases, u8, u32, ◌>>◌,
}
use cordell_os.Base.Bits.{bit_or_fields_below}
use cordell_os.Memory.{put_byte, put_word, fill_words, fill_bytes, word_of_byte, memset}

-- Memory with the same byte at `n` addresses.
abbrev filled : ℕ → (ℕ → ℕ) → ℕ → ℕ → ℕ → ℕ
filled n m dest x a = if leb dest a && ltb a (dest + n) then x else m a

fill_bytes-filled :
    (n : ℕ) (m : ℕ → ℕ) (dest x a : ℕ) → fill_bytes n m dest x a ≡ filled n m dest x a
unfolding fill_bytes
fill_bytes-filled zero m dest x a = ground arith
fill_bytes-filled (suc n) m dest x a =
    ground (arith, fill_bytes-filled n (put_byte m dest x) (dest + 1) x a)

-- Each byte of the word is the value.
word_of_byte_lem : (x k : ℕ) → x < 256 → k < 4 → u8 (word_of_byte x >> (8 * k)) ≡ x
unfolding word_of_byte
word_of_byte_lem x k h lt = byte_of k lt
  where
    word : u32 (bit_or (bit_or (bit_or x (x * 2 ^ 8)) (x * 2 ^ 16)) (x * 2 ^ 24)) ≡ x * 0x0101_0101
    word =
        let two = bit_or_fields_below 8 x x (omega arith) in
        let three = bit_or_fields_below 16 x (x * 2 ^ 8 + x) (omega arith) in
        let four = bit_or_fields_below 24 x (x * 2 ^ 16 + (x * 2 ^ 8 + x)) (omega arith) in
        rw (two, three, four) (omega arith)

    byte_of :
        (k : ℕ)
        → k < 4
        → u8 (u32 (bit_or (bit_or (bit_or x (x * 2 ^ 8)) (x * 2 ^ 16)) (x * 2 ^ 24)) / 2 ^ (8 * k))
          ≡ x
    byte_of zero lt = rw word (omega arith)
    byte_of (suc zero) lt = rw word (omega arith)
    byte_of (suc (suc zero)) lt = rw word (omega arith)
    byte_of (suc (suc (suc zero))) lt = rw word (omega arith)
    byte_of (suc (suc (suc (suc k)))) lt = absurd (omega arith)

fill_words-filled :
    (n : ℕ) (m : ℕ → ℕ) (dest x a : ℕ)
    → x < 256
    → fill_words n m dest (word_of_byte x) a ≡ filled (n * 4) m dest x a
unfolding fill_words
fill_words-filled zero m dest x a h = ground arith
fill_words-filled (suc n) m dest x a h = elim (Bool-cases (leb dest a && ltb a (dest + 4))) [
  | inl first ↦ ground (
    arith,
    fill_words-filled n (put_word m dest (word_of_byte x)) (dest + 4) x a h,
    word_of_byte_lem x (a - dest) h (ground arith),
  )
  | inr later ↦
      ground (arith, fill_words-filled n (put_word m dest (word_of_byte x)) (dest + 4) x a h)
]

-- For a value of one byte, `memset` stores it at each of the `num` addresses and leaves every other
-- byte as it is.
pub memset_lem :
    (m : ℕ → ℕ) (dest value num a : ℕ)
    → value < 256
    → memset m dest value num a ≡ (if leb dest a && ltb a (dest + num) then value else m a)
unfolding memset
memset_lem m dest value num a h =
    let tail =
      fill_bytes-filled (num % 4) (fill_words (num / 4) m dest (word_of_byte value))
        (dest + num / 4 * 4) (u8 value) a in
    let head = fill_words-filled (num / 4) m dest value a h in ground (arith, tail, head)
