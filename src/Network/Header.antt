-- ===== src/Network/Header.antt =====
-- The checksum of an IP header, `IP_calculate_checksum` of src/kernel/network/ip.c.
use cordell_os.Base.{
  ℕ, ◌+◌, ◌*◌, ◌/◌, ◌%◌, ◌^◌, ◌<◌, ◌≤◌, ◌≡◌, ap, ◌∙◌, inl, inr, List, [], ◌∷◌, length, bit_and,
  arith, ltb, if◌then◌else◌, Bool-cases, u16, u32, not32,
}
use cordell_os.Base.Bits.{bit_and_mask}
use cordell_os.Network.{flip_endian16, flipped_sum, calculate_checksum}

-- The sum of the words in the order of the network.
abbrev pub header_sum : List ℕ → ℕ
header_sum [] = 0
header_sum (w ∷ words) = flip_endian16 w + header_sum words

flip_endian16-small : (w : ℕ) → flip_endian16 w < 2 ^ 16
unfolding flip_endian16
flip_endian16-small w = omega arith

header_sum-le : (words : List ℕ) → header_sum words ≤ length words * 2 ^ 16
header_sum-le [] = omega arith
header_sum-le (w ∷ words) = omega (arith, header_sum-le words, flip_endian16-small w)

flipped_sum_lem :
    (words : List ℕ) (sum : ℕ)
    → sum + header_sum words < 2 ^ 32
    → flipped_sum words sum ≡ sum + header_sum words
unfolding flipped_sum
flipped_sum_lem [] sum h = omega arith
flipped_sum_lem (w ∷ words) sum h =
    let next : u32 (sum + flip_endian16 w) ≡ sum + flip_endian16 w = omega arith in
    rw next (flipped_sum_lem words (sum + flip_endian16 w) (omega arith) ∙ omega arith)

-- For the words of a header, of which there are fewer than 65536, the sum of the words and of the
-- result of `IP_calculate_checksum` is a multiple of 65535 where the last addition of the carry has
-- no carry of its own; where it has one, the sum exceeds a multiple of 65535 by 1, so that the packet
-- is refused.
pub calculate_checksum_lem :
    (words : List ℕ)
    → length words < 2 ^ 16
    → (header_sum words + calculate_checksum words) % 65535
      ≡ (if ltb (header_sum words % 2 ^ 16 + header_sum words / 2 ^ 16) (2 ^ 16) then 0 else 1)
unfolding calculate_checksum
calculate_checksum_lem words few =
    let s = header_sum words in
    let small : s < 2 ^ 32 = omega (arith, header_sum-le words) in
    let total : flipped_sum words 0 ≡ s = flipped_sum_lem words 0 (omega arith) ∙ omega arith in
    let low = bit_and_mask 16 s in
    ap (λ t. (s + u16 (not32 (u32 (bit_and t 0xffff + t / 2 ^ 16)))) % 65535) total
    ∙ (elim (Bool-cases (ltb (s % 2 ^ 16 + s / 2 ^ 16) (2 ^ 16))) [
      | inl fits ↦ rw fits (ground (arith, low))
      | inr over ↦ rw over (ground (arith, low))
    ])
