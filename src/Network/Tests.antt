-- ===== src/Network/Tests.antt =====
-- src/libs/std/netutils.c on four bytes.
use cordell_os.Base.{ℕ, List, ◌/◌, ◌^◌, ltb, if◌then◌else◌, ◌+◌, ◌%◌, ◌≡◌, refl, [], ◌∷◌, arith}
use cordell_os.Network.{
  flip_endian16, flip_endian32, swap_byte_parts, flipped_sum, calculate_checksum, net2host16,
  host2net8, net2host8, net_checksum_acc, net_checksum_final, net_checksum,
}
use cordell_os.Network.Header.{header_sum, calculate_checksum_lem}
use cordell_os.Network.Checksum.{word_sum, net_checksum_lem, net2host8-host2net8}

-- All that a run below computes with.
run : Unit {0}
unfolding flip_endian16 flip_endian32 swap_byte_parts net_checksum_acc net_checksum_final
    net_checksum flipped_sum calculate_checksum
run = tt

-- Words whose sum is 0x1ffff.
abbrev lost_carry : List ℕ
lost_carry = 0xffff ∷ 0xffff ∷ 0x0100 ∷ []

flip_runs : flip_endian32 0x1234_5678 ≡ 0x7856_3412
unfolding run
flip_runs = refl

swap_runs : swap_byte_parts 0x45 4 ≡ 0x54
unfolding run
swap_runs = refl

checksum_runs : net_checksum (0x45 ∷ 0 ∷ 0 ∷ 0x73 ∷ []) ≡ 0xba8c
unfolding run
checksum_runs = refl

net_checksum_example :
    (word_sum (0x45 ∷ 0 ∷ 0 ∷ 0x73 ∷ []) + net2host16 (net_checksum (0x45 ∷ 0 ∷ 0 ∷ 0x73 ∷ [])))
      % 65535
    ≡ 0
net_checksum_example =
    net_checksum_lem (0x45 ∷ 0 ∷ 0 ∷ 0x73 ∷ [])
      (omega arith, (omega arith, (omega arith, (omega arith, tt)))) (omega arith)

net2host8_example : net2host8 (host2net8 0x45 4) 4 ≡ 0x45
net2host8_example = net2host8-host2net8 0x45 4 (omega arith) (omega arith)

calculate_checksum_example : (header_sum lost_carry + calculate_checksum lost_carry) % 65535 ≡ (
    if ltb (header_sum lost_carry % 2 ^ 16 + header_sum lost_carry / 2 ^ 16) (2 ^ 16) then 0 else 1)
calculate_checksum_example = calculate_checksum_lem lost_carry (omega arith)

carry_runs : (header_sum lost_carry + calculate_checksum lost_carry) % 65535 ≡ 1
unfolding run
carry_runs = refl
