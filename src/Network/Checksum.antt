-- ===== src/Network/Checksum.antt =====
-- What the receiver of a checksum of src/libs/std/netutils.c relies on, and the byte orders undone.
use cordell_os.Base.{
  ℕ, ◌+◌, ◌*◌, ◌/◌, ◌%◌, ◌^◌, ◌<◌, ◌≤◌, ◌≡◌, refl, ap, ◌∙◌, true, List, [], ◌∷◌, length, bit_and,
  bit_or, arith, ◌==◌, ==_iff, all_below, all_below_lem, u16, u32, not32,
}
use cordell_os.Base.Bits.{bit_or_fields, bit_and_mask, bit_and_high}
use cordell_os.Network.{
  flip_endian16, swap_byte_parts, host2net8, net2host8, net2host16, net_checksum_acc,
  net_checksum_final, net_checksum,
}

-- The sum of the 16-bit words of some bytes, low byte first; a last byte alone is a word.
abbrev pub word_sum : List ℕ → ℕ
word_sum [] = 0
word_sum (a ∷ []) = a
word_sum (a ∷ b ∷ rest) = a + b * 2 ^ 8 + word_sum rest

abbrev pub AreBytes : List ℕ → Type 0
AreBytes [] = Unit
AreBytes (b ∷ bs) = (b < 2 ^ 8) × AreBytes bs

word_sum-le : (bytes : List ℕ) → AreBytes bytes → word_sum bytes ≤ length bytes * 2 ^ 16
word_sum-le [] h = omega arith
word_sum-le (a ∷ []) h = omega arith
word_sum-le (a ∷ b ∷ rest) (ha, (hb, h)) = omega (arith, word_sum-le rest h)

-- The sum does not wrap around.
net_checksum_acc_lem :
    (bytes : List ℕ) (sum : ℕ)
    → sum + word_sum bytes < 2 ^ 32
    → net_checksum_acc bytes sum ≡ sum + word_sum bytes
unfolding net_checksum_acc
net_checksum_acc_lem [] sum h = omega arith
net_checksum_acc_lem (a ∷ []) sum h = omega arith
net_checksum_acc_lem (a ∷ b ∷ rest) sum h =
    let next : u32 (sum + (a + b * 2 ^ 8)) ≡ sum + (a + b * 2 ^ 8) = omega arith in
    rw next (net_checksum_acc_lem rest (sum + (a + b * 2 ^ 8)) (omega arith) ∙ omega arith)

flip_endian16_lem : (x : ℕ) → x < 2 ^ 16 → flip_endian16 x ≡ x % 2 ^ 8 * 2 ^ 8 + x / 2 ^ 8
unfolding flip_endian16
flip_endian16_lem x h = omega (arith, bit_or_fields 8 (x % 2 ^ 8) (x / 2 ^ 8 % 2 ^ 8) (omega arith))

-- The folded and complemented sum, its bytes put back in order.
flip-net_checksum_final :
    (sum : ℕ) → sum < 2 ^ 32 → (sum + flip_endian16 (net_checksum_final sum)) % 65535 ≡ 0
unfolding net_checksum_final
flip-net_checksum_final sum h =
    let once = u32 (bit_and sum 0xffff + sum / 2 ^ 16) in
    let temp = u16 (not32 (u32 (once + once / 2 ^ 16))) in
    let low = bit_and_mask 16 sum in
    let first = bit_and_mask 8 temp in
    let second : bit_and temp 0xff00 ≡ temp / 2 ^ 8 * 2 ^ 8 =
      omega (arith, bit_and_high 8 temp 0xff, bit_and_mask 8 (temp / 2 ^ 8)) in
    let swapped : bit_or (bit_and temp 0x00ff * 2 ^ 8) (bit_and temp 0xff00 / 2 ^ 8)
        ≡ temp % 2 ^ 8 * 2 ^ 8 + temp / 2 ^ 8 =
      rw (first, second)
        (ap (bit_or (temp % 2 ^ 8 * 2 ^ 8)) (omega arith)
          ∙ bit_or_fields 8 (temp % 2 ^ 8) (temp / 2 ^ 8) (omega arith)) in
    let back : flip_endian16
          (u16 (bit_or (bit_and temp 0x00ff * 2 ^ 8) (bit_and temp 0xff00 / 2 ^ 8)))
        ≡ temp =
      omega (
        arith,
        swapped,
        flip_endian16_lem (u16 (bit_or (bit_and temp 0x00ff * 2 ^ 8) (bit_and temp 0xff00 / 2 ^ 8)))
            (omega arith),
      ) in
    ap (λ t. (sum + t) % 65535) back ∙ omega (arith, low)

-- For fewer than 65536 bytes, the sum of their 16-bit words and of the checksum, its bytes put back
-- in order, is a multiple of 65535: a receiver who adds up both finds no error.
pub net_checksum_lem :
    (bytes : List ℕ)
    → AreBytes bytes
    → length bytes < 2 ^ 16
    → (word_sum bytes + net2host16 (net_checksum bytes)) % 65535 ≡ 0
unfolding net_checksum
net_checksum_lem bytes h few =
    let small : word_sum bytes < 2 ^ 32 = omega (arith, word_sum-le bytes h) in
    let total : net_checksum_acc bytes 0 ≡ word_sum bytes =
      net_checksum_acc_lem bytes 0 (omega arith) ∙ omega arith in
    ap (λ t. (word_sum bytes + flip_endian16 (net_checksum_final t)) % 65535) total
    ∙ flip-net_checksum_final (word_sum bytes) small

swaps_back : all_below 9 (λ n. all_below 256 (λ b. net2host8 (host2net8 b n) n == b)) ≡ true
unfolding swap_byte_parts
swaps_back = refl

-- For a byte and a field of at most eight bits, `net2host8` undoes `host2net8`.
pub net2host8-host2net8 :
    (byte num_bits : ℕ)
    → byte < 256
    → num_bits ≤ 8
    → net2host8 (host2net8 byte num_bits) num_bits ≡ byte
net2host8-host2net8 byte num_bits h le =
    let for_bits =
      all_below_lem 9 (λ (n : ℕ). all_below 256 (λ b. net2host8 (host2net8 b n) n == b)) num_bits
        swaps_back (omega arith) in
    (==_iff (net2host8 (host2net8 byte num_bits) num_bits) byte).0 (
      all_below_lem 256 (λ (b : ℕ). net2host8 (host2net8 b num_bits) num_bits == b) byte for_bits h)
