-- ===== src/Network/Arp.antt =====
-- The address table and the answers of src/kernel/network/arp.c, with the dispatch of the frames in
-- src/kernel/network/ethernet.c. Addresses are numbers.
use cordell_os.Base.{
  ℕ, ◌+◌, not, ◌&&◌, Option, none, some, List, [], ◌∷◌, ltb, leb, ◌==◌, if◌then◌else◌, set,
  replicate,
}
use cordell_os.Network.{host2net16, net2host16}

abbrev pub arp_table_size : ℕ
arp_table_size = 512

-- `arp_table_entry_t`
pub record ArpEntry : Type 0 where
  pub ip_addr : ℕ
  pub mac_addr : ℕ

-- `arp_data_t`
pub record ArpData : Type 0 where
  pub arp_table : List ArpEntry
  pub table_size : ℕ
  pub table_curr : ℕ

abbrev pub empty_arp : ArpData
empty_arp = record {
  arp_table = replicate 512 (record { ip_addr = 0; mac_addr = 0 });
  table_size = 0;
  table_curr = 0;
}

-- `ARP_lookup_add`
unfoldable pub arp_lookup_add : ArpData → ℕ → ℕ → ArpData
arp_lookup_add d mac ip = record {
  arp_table = set d.arp_table d.table_curr (record { ip_addr = ip; mac_addr = mac });
  table_size = if ltb d.table_size arp_table_size then d.table_size + 1 else d.table_size;
  table_curr = if leb arp_table_size d.table_curr then 0 else d.table_curr;
}

-- The loop of `ARP_lookup`.
unfoldable pub lookup_entry : List ArpEntry → ℕ → Option ℕ
lookup_entry [] ip = none
lookup_entry (e ∷ es) ip =
    let rest = lookup_entry es ip in if e.ip_addr == ip then some e.mac_addr else rest

unfoldable pub arp_lookup : ArpData → ℕ → Option ℕ
arp_lookup d ip = lookup_entry d.arp_table ip

-- `arp_packet_t`
pub record ArpPacket : Type 0 where
  pub hardware_type : ℕ
  pub protocol : ℕ
  pub hardware_addr_len : ℕ
  pub protocol_addr_len : ℕ
  pub opcode : ℕ
  pub src_hardware_addr : ℕ
  pub src_protocol_addr : ℕ
  pub dst_hardware_addr : ℕ
  pub dst_protocol_addr : ℕ

-- 10.0.2.14 as its four bytes lie in memory.
abbrev pub my_ip : ℕ
my_ip = 0x0e02000a

abbrev pub or_else : ℕ → Option ℕ → ℕ
or_else d none = d
or_else d (some a) = a

-- The sender of an answer: hardware and protocol address, by the address that DHCP has given.
abbrev pub sender : ArpData → ℕ → ArpPacket → Option ℕ → ℕ × ℕ
sender d own_mac p none = (own_mac, my_ip)
sender d own_mac p (some host) = (or_else p.src_hardware_addr (arp_lookup d host), host)

-- The answer to a request.
unfoldable pub arp_answer : ArpData → ℕ → Option ℕ → ArpPacket → ArpPacket
arp_answer d own_mac host p =
    let (mac, ip) = sender d own_mac p host in
    record {
      hardware_type = host2net16 1;
      protocol = host2net16 0x800;
      hardware_addr_len = 6;
      protocol_addr_len = 4;
      opcode = host2net16 2;
      src_hardware_addr = mac;
      src_protocol_addr = ip;
      dst_hardware_addr = p.src_hardware_addr;
      dst_protocol_addr = p.src_protocol_addr;
    }

-- `ARP_handle_packet`: the table, and the answer that is sent to the source of the packet. `memcmp`
-- is not 0 where the addresses differ.
unfoldable pub arp_handle_packet : ArpData → ℕ → Option ℕ → ArpPacket → ArpData × Option ArpPacket
arp_handle_packet d own_mac host p =
    let answered = net2host16 p.opcode == 1 && not (p.dst_protocol_addr == my_ip) in
    (
      arp_lookup_add d p.src_hardware_addr p.src_protocol_addr,
      if answered then some (arp_answer d own_mac host p) else none,
    )

-- Where `ETH_handle_packet` passes a frame on to, by the type in its header.
pub data Receiver : Type 0 where
  to_arp : Receiver
  to_ip : Receiver
  to_nobody : Receiver

unfoldable pub eth_handle_packet : ℕ → Receiver
eth_handle_packet type =
    if net2host16 type == 0x806
    then to_arp
    else if net2host16 type == 0x800
    then to_ip
    else to_nobody
