-- ===== src/Network/PacketTests.antt =====
-- The address table, the packet buffer and the options of src/kernel/network at small examples.
use cordell_os.Base.{ℕ, ◌≡◌, refl, none, some, List, [], ◌∷◌, ◌==◌, if◌then◌else◌, take, drop}
use cordell_os.Network.{flip_endian16}
use cordell_os.Network.Arp.{
  ArpPacket, empty_arp, arp_lookup_add, lookup_entry, arp_lookup, arp_answer, arp_handle_packet,
  to_arp, eth_handle_packet,
}
use cordell_os.Network.Udp.{udp_init, make_room, udp_handle_packet, udp_pop_packet}
use cordell_os.Network.Dhcp.{
  option, no_option, take_address, options_loop, dhcp_options, dhcp_handle_packet, dhcp_options_lem,
}

-- The second address is stored over the first.
table_forgets : arp_lookup (arp_lookup_add (arp_lookup_add empty_arp 11 5) 12 6) 5 ≡ none
unfolding arp_lookup_add arp_lookup lookup_entry
table_forgets = refl

table_keeps : arp_lookup (arp_lookup_add empty_arp 11 5) 5 ≡ some 11
unfolding arp_lookup_add arp_lookup lookup_entry
table_keeps = refl

abbrev request : ℕ → ArpPacket
request target = record {
  hardware_type = 256;
  protocol = 8;
  hardware_addr_len = 6;
  protocol_addr_len = 4;
  opcode = 256;
  src_hardware_addr = 21;
  src_protocol_addr = 7;
  dst_hardware_addr = 0;
  dst_protocol_addr = target;
}

-- A request for this machine's own address is not answered.
own_request : (arp_handle_packet empty_arp 33 none (request 0x0e02000a)).1 ≡ none
unfolding arp_handle_packet arp_answer flip_endian16
own_request = refl

frame_runs : eth_handle_packet 0x608 ≡ to_arp
unfolding eth_handle_packet flip_endian16
frame_runs = refl

-- What is taken out are the bytes of another entry.
pop_runs : (udp_pop_packet (udp_handle_packet (udp_init 0) (1 ∷ 2 ∷ []) 2)).0 ≡ some []
unfolding udp_pop_packet udp_handle_packet make_room udp_init
pop_runs = refl

-- The message type 5 as the first option.
abbrev offered : List ℕ
offered = 53 ∷ 1 ∷ 5 ∷ 255 ∷ []

dhcp_runs : dhcp_handle_packet 2 77 offered 1 ≡ take_address 77
unfolding dhcp_handle_packet dhcp_options options_loop
dhcp_runs = refl

dhcp_options_example : dhcp_options offered 53 3 ≡ (
    if 53 == 255
    then some no_option
    else if 53 == 53
    then some (option (take 1 (drop 2 offered)))
    else none)
dhcp_options_example = dhcp_options_lem offered 53 2
