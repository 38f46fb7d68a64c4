-- ===== src/Network/Udp.antt =====
-- The buffer of received packets in src/kernel/network/udp.c. The pointers to the data and the sizes
-- are two arrays; a size of -1 is `none`, and the sizes are below 2 ^ 15. The memory that the code
-- asks for is there.
use cordell_os.Base.{
  ℕ, ◌+◌, ◌-◌, Option, none, some, List, [], ltb, leb, if◌then◌else◌, get_or, set, replicate, take,
}

abbrev pub packet_buffer_size : ℕ
packet_buffer_size = 100

pub record UdpBuffer : Type 0 where
  pub contents : List (List ℕ)
  pub sizes : List (Option ℕ)
  pub current : ℕ

-- `UDP_init`
unfoldable pub udp_init : ℕ → UdpBuffer
udp_init current = record {
  contents = replicate packet_buffer_size [];
  sizes = replicate packet_buffer_size none;
  current = current;
}

-- The first `if` of `UDP_handle_packet`.
unfoldable pub make_room : UdpBuffer → UdpBuffer
make_room b =
    if leb packet_buffer_size b.current
    then record b {
      sizes = set b.sizes (packet_buffer_size - 1) none;
      current = packet_buffer_size - 1;
    }
    else b

-- `UDP_handle_packet` for the bytes behind the header, of which it copies as many as the header says.
-- The size goes to the next entry; past the last one nothing is written here.
unfoldable pub udp_handle_packet : UdpBuffer → List ℕ → ℕ → UdpBuffer
udp_handle_packet b bytes length =
    let r = make_room b in
    record {
      contents = set r.contents r.current (take length bytes);
      sizes = set r.sizes (r.current + 1) (some length);
      current = r.current + 1;
    }

-- `UDP_pop_packet`: the packet, whose bytes are those of the current entry, and the buffer.
abbrev pub popped : UdpBuffer → Option ℕ → Option (List ℕ) × UdpBuffer
popped b none = (none, b)
popped b (some size) = (
  some (take size (get_or b.contents b.current [])),
  record b {
    sizes = set b.sizes b.current none;
    current = if ltb 1 b.current then b.current - 1 else b.current;
  },
)

unfoldable pub udp_pop_packet : UdpBuffer → Option (List ℕ) × UdpBuffer
udp_pop_packet b = popped b (get_or b.sizes b.current none)
