-- ===== src/Vmm/Translate.antt =====
-- `_map_page` of src/kernel/memory/vmm.c as one step on the address space.
use cordell_os.Base.{
  ℕ, ◌*◌, ◌/◌, ◌%◌, ◌^◌, ◌<◌, ◌≤◌, ◌≡◌, refl, sym, ap, ◌∙◌, inl, inr, Bool, true, false, ◌&&◌,
  Option, none, some, arith, ◌==◌, if◌then◌else◌, Bool-cases,
}
use mathlib.Core.Path.{subst}
use cordell_os.Pmm.{PmmMap, allocate_blocks, test_block}
use cordell_os.Pmm.Search.{SomeUsed}
use cordell_os.Pmm.Allocate.{Allocated, allocate_blocks_sound, allocate_blocks_complete}
use cordell_os.Vmm.{Vmm, with_table, ensure_table, map_ready, map_page}
use cordell_os.Vmm.Fields.{has_attribute-present}
use cordell_os.Vmm.Space.{pde, view, IsMapped, entered_view}
use cordell_os.Vmm.Enter.{enter_page-IsMapped, enter_page-view}
use cordell_os.Vmm.Table.{cleared, map_table-tabled, tabled-IsMapped, tabled-view, pde-tabled_new}

-- What the first half of `_map_page` gives: a table for the page, with no page changed; or there is
-- no free block, and nothing has changed.
abbrev Ensured : Vmm → ℕ → Bool × Vmm → Type 0
Ensured v i (true, w) =
    IsMapped w × (pde w i % 2 ≡ 1) × ((k l : ℕ) → k < 1024 → l < 1024 → view w k l ≡ view v k l)
Ensured v i (false, w) =
    (w ≡ v) × ((b : ℕ) → 1 ≤ b → b < v.pmm.max_blocks → test_block v.pmm b ≡ true)

-- A run of one block.
used_block : (m : PmmMap) (b : ℕ) → SomeUsed m b 1 → test_block m b ≡ true
used_block m b (j, lo, hi, used) = let e : b ≡ j = omega arith in rw e used

-- The allocation for a table, by its result.
fresh_table :
    (v : Vmm) (ok : IsMapped v) (for_user : Bool) (a : ℕ) (o : Option ℕ) (m : PmmMap)
    → a < 2 ^ 32
    → (pde v (a / 2 ^ 22) % 2 == 1) ≡ false
    → allocate_blocks v.pmm 1 ≡ (o, m)
    → Ensured v (a / 2 ^ 22) (with_table v a for_user (o, m))
unfolding cleared
fresh_table v ok for_user a none m h absent e =
    let (same, full) = allocate_blocks_complete (ok.valid) 1 m (omega arith) e in
    (ap (λ t. record v { pmm = t }) same, λ b lo hi. used_block v.pmm b (full b lo (omega arith)))
fresh_table v ok for_user a (some table) m h absent e =
    let got = allocate_blocks_sound (ok.valid) 1 table m e in
    let i = a / 2 ^ 22 in
    let s = got.start in
    let at : table ≡ s * 4096 = got.address in
    let got' : Allocated v.pmm 1 (s * 4096) m = subst (λ t. Allocated v.pmm 1 t m) at got in
    let (frame, odd, small) = pde-tabled_new v ok for_user i (omega arith) absent s m got' in
    subst (λ t. Ensured v i (with_table v a for_user (some t, m))) (sym at)
      (rw (map_table-tabled v ok for_user i (omega arith) absent s m got') (
        tabled-IsMapped v ok for_user i (omega arith) absent s m got',
        odd,
        tabled-view v ok for_user i (omega arith) absent s m got',
      ))

ensure_table_lem :
    (v : Vmm) (for_user : Bool) (a : ℕ)
    → IsMapped v
    → a < 2 ^ 32
    → Ensured v (a / 2 ^ 22) (ensure_table v a for_user)
      × ((pde v (a / 2 ^ 22) % 2 == 1) ≡ true → ensure_table v a for_user ≡ (true, v))
unfolding ensure_table
ensure_table_lem v for_user a ok h =
    let i = a / 2 ^ 22 in
    let test = has_attribute-present (pde v i) in
    elim (Bool-cases (pde v i % 2 == 1)) [
      | inl there ↦ rw (test, there) ((ok, ground arith, λ k l ltk ltl. refl), λ e. refl)
      | inr absent ↦
          rw (test, absent)
            (
              fresh_table v ok for_user a (allocate_blocks v.pmm 1).0 (allocate_blocks v.pmm 1).1 h
                  absent refl,
              λ e. absurd (ground arith),
            )
    ]

-- What `_map_page` does to an address space.
abbrev pub Mapped : Vmm → ℕ → ℕ → ℕ → Bool × Vmm → Type 0
Mapped v i j f (true, w) =
    IsMapped w × ((k l : ℕ) → k < 1024 → l < 1024 → view w k l ≡ entered_view v i j f k l)
Mapped v i j f (false, w) =
    (w ≡ v)
    × ((pde v i % 2 == 1) ≡ false)
    × ((b : ℕ) → 1 ≤ b → b < v.pmm.max_blocks → test_block v.pmm b ≡ true)

enter_ready :
    (v : Vmm) (for_user : Bool) (a f : ℕ) (r : Bool × Vmm)
    → a < 2 ^ 32
    → f < 2 ^ 19
    → Ensured v (a / 2 ^ 22) r
    → ((pde v (a / 2 ^ 22) % 2 == 1) ≡ true → r ≡ (true, v))
    → Mapped v (a / 2 ^ 22) (a / 4096 % 1024) f (map_ready (f * 4096) a for_user r)
enter_ready v for_user a f (true, w) h low (ok, there, same) already = (
  enter_page-IsMapped w ok for_user f a there h low,
  λ k l ltk ltl.
      enter_page-view w ok for_user f a there h low k l ltk ltl
      ∙ ap (λ t. if (k == a / 2 ^ 22) && (l == a / 4096 % 1024) then some f else t)
          (same k l ltk ltl),
)
enter_ready v for_user a f (false, w) h low (same, full) already = (
  same,
  (elim (Bool-cases (pde v (a / 2 ^ 22) % 2 == 1)) [
    | inl there ↦ let clash : false ≡ true = ap (λ r. r.0) (already there) in cc
    | inr absent ↦ absent
  ]),
  full,
)

-- On an address space whose tables are in order, in at most 2 GiB of memory, for a page of a 32-bit
-- address and a frame below 2 GiB, `_map_page` is one step on the address space: the page gets the
-- frame, every other page keeps its own, and the tables are in order again. Otherwise the page has
-- no table and no block is free for one, and nothing has changed.
pub map_page_lem :
    (v : Vmm) (for_user : Bool) (a f : ℕ)
    → IsMapped v
    → a < 2 ^ 32
    → f < 2 ^ 19
    → Mapped v (a / 2 ^ 22) (a / 4096 % 1024) f (map_page v (f * 4096) a for_user)
unfolding map_page
map_page_lem v for_user a f ok h low =
    let (ensured, already) = ensure_table_lem v for_user a ok h in
    enter_ready v for_user a f (ensure_table v a for_user) h low ensured already
