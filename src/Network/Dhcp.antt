-- ===== src/Network/Dhcp.antt =====
-- `DHCP_options`, the search of an option, and `DHCP_handle_packet` in src/kernel/network/dhcp.c. The
-- packet's options are their bytes behind the magic cookie; what is read behind them is a parameter
-- too, since the list is as long as the memory.
use cordell_os.Base.{
  ℕ, zero, suc, ◌+◌, ◌≡◌, refl, inl, inr, false, Option, none, some, List, ◌==◌, if◌then◌else◌,
  Bool-cases, get_or, drop, take,
}

-- How the search ends: with a copy of the option's bytes or with NULL.
pub data Found : Type 0 where
  option : List ℕ → Found
  no_option : Found

-- The loop at position `at`, on fuel. The type that is tested is that of the first option, since the
-- loop does not read the next one. The memory that it asks `ALC_malloc` for is there.
unfoldable pub options_loop : List ℕ → ℕ → ℕ → ℕ → ℕ → Option Found
options_loop options type curr_type zero at = none
options_loop options type curr_type (suc fuel) at =
    let len = get_or options (at + 1) 0 in
    let rest = options_loop options type curr_type fuel (at + 2 + len) in
    if curr_type == 255
    then some no_option
    else if curr_type == type
    then some (option (take len (drop (at + 2) options)))
    else rest

-- `DHCP_options`; `none` means that the fuel ran out.
unfoldable pub dhcp_options : List ℕ → ℕ → ℕ → Option Found
dhcp_options options type fuel = options_loop options type (get_or options 0 0) fuel 0

-- What a packet makes the client do: ask for the address, take it, or nothing.
pub data DhcpAction : Type 0 where
  request : ℕ → DhcpAction
  take_address : ℕ → DhcpAction
  nothing : DhcpAction
  never_ends : DhcpAction

abbrev pub act_on : ℕ → Option Found → DhcpAction
act_on your_ip none = never_ends
act_on your_ip (some no_option) = nothing
act_on your_ip (some (option bytes)) =
    if get_or bytes 0 0 == 2
    then request your_ip
    else if get_or bytes 0 0 == 5
    then take_address your_ip
    else nothing

-- `DHCP_handle_packet` by the packet's operation, of which 2 is a reply. Where the option is missing
-- the source would read through NULL; here nothing is done.
unfoldable pub dhcp_handle_packet : ℕ → ℕ → List ℕ → ℕ → DhcpAction
dhcp_handle_packet op your_ip options fuel =
    if op == 2 then act_on your_ip (dhcp_options options 53 fuel) else nothing

options_loop_stuck :
    (options : List ℕ) (type curr_type fuel at : ℕ)
    → (curr_type == 255) ≡ false
    → (curr_type == type) ≡ false
    → options_loop options type curr_type fuel at ≡ none
unfolding options_loop
options_loop_stuck options type curr_type zero at end other = refl
options_loop_stuck options type curr_type (suc fuel) at end other =
    simp (end, other)
      (options_loop_stuck options type curr_type fuel (at + 2 + get_or options (at + 1) 0) end
        other)

-- `DHCP_options` ends where the first option is the one that is looked for, with its bytes, and where
-- it is the end mark, with NULL; in both cases one round is enough. Where the first option is another
-- one it never ends, whatever stands behind it.
pub dhcp_options_lem :
    (options : List ℕ) (type fuel : ℕ)
    → dhcp_options options type (suc fuel) ≡ (
        if get_or options 0 0 == 255
        then some no_option
        else if get_or options 0 0 == type
        then some (option (take (get_or options 1 0) (drop 2 options)))
        else none)
unfolding dhcp_options options_loop
dhcp_options_lem options type fuel = elim (Bool-cases (get_or options 0 0 == 255)) [
  | inl end ↦ simp end refl
  | inr more ↦ elim (Bool-cases (get_or options 0 0 == type)) [
    | inl here ↦ simp (more, here) refl
    | inr other ↦
        simp (more, other)
          (options_loop_stuck options type (get_or options 0 0) fuel
            (0 + 2 + get_or options (0 + 1) 0) more other)
  ]
]
