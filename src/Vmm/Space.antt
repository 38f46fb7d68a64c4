-- ===== src/Vmm/Space.antt =====
-- The address space that the current directory describes: a frame, or none, for each page. The
-- tables and the directory lie in blocks of their own that are in use.
use cordell_os.Base.{
  ℕ, ◌+◌, ◌*◌, ◌/◌, ◌%◌, ◌^◌, ◌<◌, ◌≤◌, ◌≡◌, ◌≢◌, refl, inl, inr, Bool, true, false, ◌&&◌, Option,
  none, some, bit_or, bit_and, arith, ◌==◌, if◌then◌else◌, Bool-cases,
}
use cordell_os.Base.Bits.{bit_or_fields, bit_and_mask}
use cordell_os.Pmm.{test_block}
use cordell_os.Pmm.Valid.{IsValid}
use cordell_os.Vmm.{Vmm, mapped_entry, opened_entry, get_page, virtual2physical}
use cordell_os.Vmm.Fields.{
  page_phys_address_lem, has_attribute-present, pt_index_lem, attribute_frame, attribute_present,
  set_frame_lem,
}

-- The entries of the directory, and those of the table that an entry of it leads to.
abbrev pub pde : Vmm → ℕ → ℕ
pde v i = v.memory (v.curr + 4 * i)

abbrev pub pte : Vmm → ℕ → ℕ → ℕ
pte v i j = v.memory (pde v i / 4096 * 4096 + 4 * j)

-- The frame of page `j` of table `i`.
abbrev pub view : Vmm → ℕ → ℕ → Option ℕ
view v i j =
    if pde v i % 2 == 1
    then (if pte v i j % 2 == 1 then some (pte v i j / 4096) else none)
    else none

pub record IsMapped (v : Vmm) : Type 0 where
  pub valid : IsValid v.pmm
  pub low : v.pmm.max_blocks ≤ 2 ^ 19
  pub dir : ℕ
  pub at_dir : v.curr ≡ dir * 4096
  pub not_null : 0 < dir
  pub dir_used : test_block v.pmm dir ≡ true
  pub entries_low : (i : ℕ) → i < 1024 → pde v i < 2 ^ 31
  pub used : (i : ℕ) → i < 1024 → pde v i % 2 ≡ 1 → test_block v.pmm (pde v i / 4096) ≡ true
  pub apart : (i : ℕ) → i < 1024 → pde v i % 2 ≡ 1 → pde v i / 4096 ≢ dir
  pub distinct :
      (i j : ℕ)
      → i < 1024
      → j < 1024
      → pde v i % 2 ≡ 1
      → pde v j % 2 ≡ 1
      → pde v i / 4096 ≡ pde v j / 4096
      → i ≡ j
  pub pages_low : (i j : ℕ) → i < 1024 → j < 1024 → pde v i % 2 ≡ 1 → pte v i j < 2 ^ 31

-- An entry after `_map_page` or `_map_table` has stored a frame in it.
pub mapped_entry_lem :
    (for_user : Bool) (e f : ℕ)
    → e < 2 ^ 31
    → f < 2 ^ 19
    → (mapped_entry for_user e (f * 4096) / 4096 ≡ f)
      × (mapped_entry for_user e (f * 4096) % 2 ≡ 1)
      × (mapped_entry for_user e (f * 4096) < 2 ^ 31)
unfolding mapped_entry
mapped_entry_lem true e f h lt =
    let a = bit_or e 1 in
    let b = bit_or a 2 in
    let c = bit_or b 4 in
    let small : c < 2 ^ 31 = omega (
      arith,
      attribute_frame e 1 (omega arith),
      attribute_frame a 2 (omega arith),
      attribute_frame b 4 (omega arith),
    ) in
    let odd : c % 2 ≡ 1 =
      omega (arith, attribute_present e 1, attribute_present a 2, attribute_present b 4) in
    let out = set_frame_lem c f small (omega arith) in
    (omega (arith, out), omega (arith, out, odd), omega (arith, out))
mapped_entry_lem false e f h lt =
    let a = bit_or e 1 in
    let b = bit_or a 2 in
    let small : b < 2 ^ 31 =
      omega (arith, attribute_frame e 1 (omega arith), attribute_frame a 2 (omega arith)) in
    let odd : b % 2 ≡ 1 = omega (arith, attribute_present e 1, attribute_present a 2) in
    let out = set_frame_lem b f small (omega arith) in
    (omega (arith, out), omega (arith, out, odd), omega (arith, out))

pub opened_entry_lem :
    (for_user : Bool) (e : ℕ)
    → e < 2 ^ 31
    → (opened_entry for_user e / 4096 ≡ e / 4096)
      × (opened_entry for_user e % 2 ≡ e % 2)
      × (opened_entry for_user e < 2 ^ 31)
opened_entry_lem true e h =
    let a = bit_or e 2 in
    let f1 = attribute_frame e 2 (omega arith) in
    let f2 = attribute_frame a 4 (omega arith) in
    let p1 = attribute_present e 2 in
    let p2 = attribute_present a 4 in
    (omega (arith, f1, f2), omega (arith, p1, p2), omega (arith, f1, f2))
opened_entry_lem false e h =
    let f1 = attribute_frame e 2 (omega arith) in
    let p1 = attribute_present e 2 in (omega (arith, f1), omega (arith, p1), omega (arith, f1))

-- `VMM_virtual2physical` reads the frame of the page.
abbrev pub address_in : ℕ → Option ℕ → ℕ
address_in a none = 0
address_in a (some f) = f * 4096 + a % 4096

-- On an address space whose tables are in order, in at most 2 GiB of memory, `VMM_virtual2physical`
-- gives for an address of 32 bits the frame of its page and the offset in the page, and 0 where the
-- page has no frame.
pub virtual2physical_lem :
    (v : Vmm) (a : ℕ)
    → IsMapped v
    → a < 2 ^ 32
    → virtual2physical v a ≡ address_in a (view v (a / 2 ^ 22) (a / 4096 % 1024))
unfolding virtual2physical get_page
virtual2physical_lem v a ok h =
    let i = a / 2 ^ 22 in
    let j = a / 4096 % 1024 in
    let table = page_phys_address_lem (pde v i) (omega (arith, ok.entries_low i (omega arith))) in
    let index = pt_index_lem a in
    let pde_present = has_attribute-present (pde v i) in
    let pte_present = has_attribute-present (pte v i j) in
    let offset : bit_and a 0xfff ≡ a % 4096 = bit_and_mask 12 a in
    elim (Bool-cases (pde v i % 2 == 1)) [
      | inr absent ↦ simp (pde_present, absent) refl
      | inl there ↦
          let frame =
            page_phys_address_lem (pte v i j)
              (omega (arith, ok.pages_low i j (omega arith) (omega arith) (ground arith))) in
          elim (Bool-cases (pte v i j % 2 == 1)) [
            | inr absent ↦ simp (pde_present, there, table, index, pte_present, absent) refl
            | inl mapped ↦
                simp (pde_present, there, table, index, pte_present, mapped, frame, offset)
                  (bit_or_fields 12 (pte v i j / 4096) (a % 4096) (omega arith))
          ]
    ]

-- The page of table `i` at `j` gets the frame `f`; the others keep theirs.
abbrev pub entered_view : Vmm → ℕ → ℕ → ℕ → ℕ → ℕ → Option ℕ
entered_view v i j f k l = if k == i && l == j then some f else view v k l
