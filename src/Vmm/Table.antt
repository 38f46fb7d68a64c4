-- ===== src/Vmm/Table.antt =====
-- The first half of `_map_page` of src/kernel/memory/vmm.c: a fresh table in the address space.
use cordell_os.Base.{
  ℕ, ◌+◌, ◌*◌, ◌/◌, ◌%◌, ◌^◌, ◌<◌, ◌≡◌, ◌≢◌, refl, sym, ap, ◌∙◌, inl, inr, Bool, true, false, ◌&&◌,
  arith, ltb, leb, ◌==◌, if◌then◌else◌, Bool-cases,
}
use cordell_os.Pmm.{PmmMap, test_block}
use cordell_os.Pmm.Allocate.{Allocated}
use cordell_os.Vmm.{Vmm, store, fill_page, map_table, mapped_entry}
use cordell_os.Vmm.Space.{pde, pte, view, IsMapped, mapped_entry_lem}

module _ (v : Vmm) (ok : IsMapped v) (for_user : Bool) (i : ℕ) (lti : i < 1024)
    (absent : (pde v i % 2 == 1) ≡ false) (s : ℕ) (m : PmmMap)
    (got : Allocated v.pmm 1 (s * 4096) m) where
  unfoldable pub cleared : Vmm
  cleared = record v { memory = fill_page v.memory (s * 4096) 0; pmm = m }

  -- The fresh block is not that of the directory or of a table.
  fresh_block : (b : ℕ) → test_block v.pmm b ≡ true → b ≢ s
  fresh_block b used e =
      let free : test_block v.pmm b ≡ false =
        got.were_free b (omega (arith, got.address)) (omega (arith, got.address)) in
      absurd (ground arith)

  not_dir : ok.dir ≢ s
  not_dir = fresh_block (ok.dir) (ok.dir_used)

  -- The state after the table is entered in the directory.
  unfoldable pub tabled : Vmm
  unfolding cleared
  tabled = record cleared {
    memory = store cleared.memory (v.curr + 4 * i) (mapped_entry for_user (pde v i) (s * 4096));
  }

  pub map_table-tabled : map_table cleared v.curr (s * 4096) for_user i ≡ (true, tabled)
  unfolding map_table cleared tabled
  map_table-tabled =
      let some_dir : (v.curr == 0) ≡ false = ground (arith, ok.at_dir, ok.not_null) in
      let some_table : (s * 4096 == 0) ≡ false = ground (arith, got.address, got.not_null) in
      let outside : (leb (s * 4096) (v.curr + 4 * i) && ltb (v.curr + 4 * i) (s * 4096 + 4096))
          ≡ false =
        ground (arith, ok.at_dir, not_dir) in
      simp (some_dir, some_table, outside) refl

  pde-tabled :
      (k : ℕ)
      → k < 1024
      → pde tabled k ≡ (if k == i then mapped_entry for_user (pde v i) (s * 4096) else pde v k)
  unfolding cleared tabled
  pde-tabled k lt =
      let outside : (leb (s * 4096) (v.curr + 4 * k) && ltb (v.curr + 4 * k) (s * 4096 + 4096))
          ≡ false =
        ground (arith, ok.at_dir, not_dir) in
      elim (Bool-cases (k == i)) [
        | inl e ↦
            let at : ((v.curr + 4 * k) == (v.curr + 4 * i)) ≡ true = ground arith in
            simp (at, e) refl
        | inr e ↦
            let off : ((v.curr + 4 * k) == (v.curr + 4 * i)) ≡ false = ground arith in
            simp (off, e, outside) refl
      ]

  -- The new entry is present and leads to the block; the others are as before.
  pub pde-tabled_new : (pde tabled i / 4096 ≡ s) × (pde tabled i % 2 ≡ 1) × (pde tabled i < 2 ^ 31)
  pde-tabled_new =
      let same : (i == i) ≡ true = ground arith in
      let parts =
        mapped_entry_lem for_user (pde v i) s (ok.entries_low i lti)
          (omega (arith, got.fits, got.address, ok.low)) in
      rw (pde-tabled i lti, same) parts

  pde-tabled_old : (k : ℕ) → k < 1024 → (k == i) ≡ false → pde tabled k ≡ pde v k
  pde-tabled_old k lt other = pde-tabled k lt ∙ rw other refl

  pte-tabled_new : (l : ℕ) → l < 1024 → pte tabled i l ≡ 0
  unfolding cleared tabled
  pte-tabled_new l lt =
      let (frame, odd, small) = pde-tabled_new in
      let off : ((s * 4096 + 4 * l) == (v.curr + 4 * i)) ≡ false =
        ground (arith, ok.at_dir, not_dir) in
      let inside : (leb (s * 4096) (s * 4096 + 4 * l) && ltb (s * 4096 + 4 * l) (s * 4096 + 4096))
          ≡ true =
        ground arith in
      ap (λ t. tabled.memory (t * 4096 + 4 * l)) frame ∙ simp (off, inside) refl

  pte-tabled_old :
      (k l : ℕ)
      → k < 1024
      → l < 1024
      → (k == i) ≡ false
      → pde v k % 2 ≡ 1
      → pte tabled k l ≡ pte v k l
  unfolding cleared tabled
  pte-tabled_old k l ltk ltl other there =
      let b = pde v k / 4096 * 4096 + 4 * l in
      let not_table = fresh_block (pde v k / 4096) (ok.used k ltk there) in
      let off : (b == (v.curr + 4 * i)) ≡ false = ground (arith, ok.at_dir, ok.apart k ltk there) in
      let outside : (leb (s * 4096) b && ltb b (s * 4096 + 4096)) ≡ false =
        ground (arith, not_table) in
      ap (λ t. tabled.memory (t / 4096 * 4096 + 4 * l)) (pde-tabled_old k ltk other)
      ∙ simp (off, outside) refl

  -- No page has changed.
  pub tabled-view : (k l : ℕ) → k < 1024 → l < 1024 → view tabled k l ≡ view v k l
  tabled-view k l ltk ltl = elim (Bool-cases (k == i)) [
    | inl e ↦
        let here : k ≡ i = ground arith in
        let (frame, odd, small) = pde-tabled_new in
        let odd' : (pde tabled i % 2 == 1) ≡ true = ground arith in
        rw (here, odd', pte-tabled_new l ltl, absent) refl
    | inr e ↦ elim (Bool-cases (pde v k % 2 == 1)) [
      | inr missing ↦ rw (pde-tabled_old k ltk e, missing) refl
      | inl there ↦
          rw (pde-tabled_old k ltk e, there, pte-tabled_old k l ltk ltl e (ground arith)) refl
    ]
  ]

  -- A block in use stays so, and the fresh one is in use.
  still_used : (b : ℕ) → test_block v.pmm b ≡ true → test_block m b ≡ true
  still_used b used = ground (arith, got.blocks b)

  now_used : test_block m s ≡ true
  now_used = ground (arith, got.blocks s, got.address)

  -- An old table is not in the fresh block.
  old_apart :
      (k : ℕ)
      → k < 1024
      → (k == i) ≡ false
      → pde tabled k % 2 ≡ 1
      → (pde v k % 2 ≡ 1) × (pde tabled k / 4096 ≡ pde v k / 4096) × (pde tabled k / 4096 ≢ s)
  old_apart k lt other there =
      let same = pde-tabled_old k lt other in
      let there' : pde v k % 2 ≡ 1 = ap (λ t. t % 2) (sym same) ∙ there in
      (
        there',
        ap (λ t. t / 4096) same,
        rw same (fresh_block (pde v k / 4096) (ok.used k lt there')),
      )

  tables_apart :
      (k l : ℕ)
      → k < 1024
      → l < 1024
      → pde tabled k % 2 ≡ 1
      → pde tabled l % 2 ≡ 1
      → pde tabled k / 4096 ≡ pde tabled l / 4096
      → k ≡ l
  tables_apart k l ltk ltl there_k there_l equal =
      let (frame, odd, small) = pde-tabled_new in
      elim (Bool-cases (k == i)) [
        | inl ek ↦
            let here : k ≡ i = ground arith in
            elim (Bool-cases (l == i)) [
              | inl el ↦ ground arith
              | inr el ↦
                  let (old, same, apart) = old_apart l ltl el there_l in
                  absurd (apart (sym equal ∙ ap (λ t. pde tabled t / 4096) here ∙ frame))
            ]
        | inr ek ↦
            let (old_k, same_k, apart_k) = old_apart k ltk ek there_k in
            elim (Bool-cases (l == i)) [
              | inl el ↦
                  let here : l ≡ i = ground arith in
                  absurd (apart_k (equal ∙ ap (λ t. pde tabled t / 4096) here ∙ frame))
              | inr el ↦
                  let (old_l, same_l, apart_l) = old_apart l ltl el there_l in
                  ok.distinct k l ltk ltl old_k old_l (sym same_k ∙ equal ∙ same_l)
            ]
      ]

  pub tabled-IsMapped : IsMapped tabled
  tabled-IsMapped =
      let (frame, odd, small) = pde-tabled_new in
      record {
        valid = unfold cleared tabled in got.valid;
        low = unfold cleared tabled in omega (arith, ok.low, got.same_size.blocks);
        dir = ok.dir;
        at_dir = unfold cleared tabled in ok.at_dir;
        not_null = ok.not_null;
        dir_used = unfold cleared tabled in still_used (ok.dir) (ok.dir_used);
        entries_low = λ k lt. elim (Bool-cases (k == i)) [
          | inl e ↦ let here : k ≡ i = ground arith in rw here small
          | inr e ↦ rw (pde-tabled_old k lt e) (ok.entries_low k lt)
        ];
        used = λ k lt there. elim (Bool-cases (k == i)) [
          | inl e ↦
              let here : k ≡ i = ground arith in
              rw (here, frame) (unfold cleared tabled in now_used)
          | inr e ↦
              let same = pde-tabled_old k lt e in
              rw same (
                unfold cleared tabled in
                still_used (pde v k / 4096) (ok.used k lt (ap (λ t. t % 2) (sym same) ∙ there)))
        ];
        apart = λ k lt there. elim (Bool-cases (k == i)) [
          | inl e ↦ let here : k ≡ i = ground arith in rw (here, frame) (λ h. not_dir (sym h))
          | inr e ↦
              let same = pde-tabled_old k lt e in
              rw same (ok.apart k lt (ap (λ t. t % 2) (sym same) ∙ there))
        ];
        distinct = tables_apart;
        pages_low = λ k l ltk ltl there. elim (Bool-cases (k == i)) [
          | inl e ↦ let here : k ≡ i = ground arith in rw (here, pte-tabled_new l ltl) (omega arith)
          | inr e ↦
              let same = pde-tabled_old k ltk e in
              let there' : pde v k % 2 ≡ 1 = ap (λ t. t % 2) (sym same) ∙ there in
              rw (pte-tabled_old k l ltk ltl e there') (ok.pages_low k l ltk ltl there')
        ];
      }
