-- ===== src/Vmm/Fields.antt =====
-- The fields of a page table entry: the frame in its upper 20 bits and the present bit.
use cordell_os.Base.{
  ℕ, ◌+◌, ◌*◌, ◌/◌, ◌%◌, ◌^◌, ◌<◌, ◌≡◌, refl, ap, ◌∙◌, max, bit_and, bit_or, arith, ◌==◌, not32,
}
use cordell_os.Base.Bits.{
  bit_above, bit_and-pow, bit_or-zero, bit_and_mask, bit_and_high, or_high, bit_and_fields,
  bit_or_fields_below, bit-bit_or,
}
use cordell_os.Vmm.{page_phys_address, has_attribute, set_frame, pt_index}

pub page_phys_address_lem : (e : ℕ) → e < 2 ^ 32 → page_phys_address e ≡ e / 4096 * 4096
unfolding page_phys_address
page_phys_address_lem e h = omega (arith, bit_and_high 12 e 0xfffff, bit_and_mask 20 (e / 4096))

pub has_attribute-present : (e : ℕ) → has_attribute e 1 ≡ (e % 2 == 1)
unfolding has_attribute
has_attribute-present e = let r : bit_and e 1 ≡ e % 2 = bit_and_mask 1 e in rw r refl

pub pt_index_lem : (a : ℕ) → pt_index a ≡ a / 4096 % 1024
unfolding pt_index
pt_index_lem a = bit_and_mask 10 (a / 4096)

-- Attributes below the frame.
pub attribute_frame : (e k : ℕ) → k < 4096 → bit_or e k / 4096 ≡ e / 4096
attribute_frame e k h =
    let none_there : k / 4096 ≡ 0 = omega arith in
    or_high 12 e k ∙ ap (λ t. bit_or (e / 4096) t) none_there ∙ bit_or-zero (e / 4096)

pub attribute_small : (e k : ℕ) → e < 2 ^ 32 → k < 4096 → bit_or e k < 2 ^ 32
attribute_small e k h lt = omega (arith, attribute_frame e k lt)

pub attribute_present : (e k : ℕ) → bit_or e k % 2 ≡ max (e % 2) (k % 2)
attribute_present e k = bit-bit_or 0 e k

-- `SET_FRAME` keeps the attributes of an entry whose highest bit is not set.
pub set_frame_lem :
    (e f : ℕ) → e < 2 ^ 31 → f < 2 ^ 20 → set_frame e (f * 4096) ≡ f * 4096 + e % 4096
unfolding set_frame
set_frame_lem e f h lt =
    let high : bit_and (e / 4096) (2 ^ 19) ≡ 0 =
      omega (
        arith,
        bit_and-pow 19 (e / 4096),
        bit_above 19 19 (e / 4096) (omega arith) (omega arith),
      ) in
    let low : bit_and e (not32 0x7fff_f000) ≡ e % 4096 =
      omega (arith, bit_and_fields 12 e (2 ^ 19), high) in
    ap (λ t. bit_or t (f * 4096)) low ∙ bit_or_fields_below 12 f (e % 4096) (omega arith)
