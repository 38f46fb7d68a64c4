-- ===== src/Network.antt =====
-- The byte orders and the checksum of src/libs/std/netutils.c, and the checksum of
-- src/kernel/network/ip.c.
pub mod Checksum
pub mod Header
pub mod Arp
pub mod Udp
pub mod Dhcp
mod Tests
mod PacketTests
use cordell_os.Base.{
  ℕ, ◌+◌, ◌-◌, ◌*◌, ◌/◌, ◌%◌, ◌^◌, List, [], ◌∷◌, bit_and, bit_or, u8, u16, u32, not32, ◌<<◌, ◌>>◌,
}

-- The bytes of the argument in memory, lowest first.
unfoldable pub flip_endian16 : ℕ → ℕ
flip_endian16 x = u16 (bit_or (u8 x << 8) (u8 (x >> 8)))

unfoldable pub flip_endian32 : ℕ → ℕ
flip_endian32 x =
    u32
      (bit_or (bit_or (bit_or (u8 x << 24) (u8 (x >> 8) << 16)) (u8 (x >> 16) << 8)) (u8 (x >> 24)))

-- The number of bits is between 0 and 8.
unfoldable pub swap_byte_parts : ℕ → ℕ → ℕ
swap_byte_parts byte num_bits = u8 (bit_or (u8 (byte << (8 - num_bits))) (byte >> num_bits))

abbrev pub host2net8 : ℕ → ℕ → ℕ
host2net8 byte num_bits = swap_byte_parts byte num_bits

abbrev pub net2host8 : ℕ → ℕ → ℕ
net2host8 byte num_bits = swap_byte_parts byte (8 - num_bits)

abbrev pub host2net16 : ℕ → ℕ
host2net16 x = flip_endian16 x

abbrev pub net2host16 : ℕ → ℕ
net2host16 x = flip_endian16 x

abbrev pub host2net32 : ℕ → ℕ
host2net32 x = flip_endian32 x

abbrev pub net2host32 : ℕ → ℕ
net2host32 x = flip_endian32 x

-- The bytes from `data` to `end`, two at a time.
unfoldable pub net_checksum_acc : List ℕ → ℕ → ℕ
net_checksum_acc [] sum = sum
net_checksum_acc (a ∷ []) sum = u32 (sum + a)
net_checksum_acc (a ∷ b ∷ rest) sum = net_checksum_acc rest (u32 (sum + (a + b * 2 ^ 8)))

unfoldable pub net_checksum_final : ℕ → ℕ
net_checksum_final sum =
    let once = u32 (bit_and sum 0xffff + (sum >> 16)) in
    let twice = u32 (once + (once >> 16)) in
    let temp = u16 (not32 twice) in
    u16 (bit_or (bit_and temp 0x00ff << 8) (bit_and temp 0xff00 >> 8))

unfoldable pub net_checksum : List ℕ → ℕ
net_checksum bytes = net_checksum_final (net_checksum_acc bytes 0)

-- The loop of `IP_calculate_checksum` over the 16-bit words of the header.
unfoldable pub flipped_sum : List ℕ → ℕ → ℕ
flipped_sum [] sum = sum
flipped_sum (w ∷ words) sum = flipped_sum words (u32 (sum + flip_endian16 w))

unfoldable pub calculate_checksum : List ℕ → ℕ
calculate_checksum words =
    let sum = flipped_sum words 0 in
    let carry = sum >> 16 in u16 (not32 (u32 (bit_and sum 0xffff + carry)))
