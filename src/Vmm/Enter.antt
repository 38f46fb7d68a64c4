-- ===== src/Vmm/Enter.antt =====
-- The second half of `_map_page` of src/kernel/memory/vmm.c: it enters one page in the address space.
use cordell_os.Base.{
  ℕ, ◌+◌, ◌*◌, ◌/◌, ◌%◌, ◌^◌, ◌<◌, ◌≡◌, refl, sym, ap, ◌∙◌, inl, inr, Bool, true, false, ◌&&◌,
  arith, ◌==◌, if◌then◌else◌, Bool-cases,
}
use cordell_os.Vmm.{Vmm, page_phys_address, mapped_entry, opened_entry, enter_page}
use cordell_os.Vmm.Fields.{page_phys_address_lem, pt_index_lem}
use cordell_os.Vmm.Space.{
  pde, pte, view, IsMapped, mapped_entry_lem, opened_entry_lem, entered_view,
}

self_equal : (x : ℕ) → (x == x) ≡ true
self_equal x = ground arith

module _ (v : Vmm) (ok : IsMapped v) (for_user : Bool) (f a : ℕ)
    (there : pde v (a / 2 ^ 22) % 2 ≡ 1) (addressed : a < 2 ^ 32) (low : f < 2 ^ 19) where
  entry_at : ℕ
  entry_at = v.curr + 4 * (a / 2 ^ 22)

  page_at : ℕ
  page_at = pde v (a / 2 ^ 22) / 4096 * 4096 + 4 * (a / 4096 % 1024)

  memory-enter :
      (b : ℕ)
      → (enter_page v (f * 4096) a for_user).memory b ≡ (
          if b == page_at
          then mapped_entry for_user (v.memory page_at) (f * 4096)
          else if b == entry_at
          then opened_entry for_user (v.memory entry_at)
          else v.memory b)
  unfolding enter_page entry_at page_at
  memory-enter b =
      let i = a / 2 ^ 22 in
      let (frame, odd, small) =
        opened_entry_lem for_user (pde v i) (ok.entries_low i (omega arith)) in
      let table : page_phys_address (opened_entry for_user (pde v i)) ≡ pde v i / 4096 * 4096 =
        page_phys_address_lem (opened_entry for_user (pde v i)) (omega (arith, small))
        ∙ ap (λ t. t * 4096) frame in
      let index = pt_index_lem a in
      let off_entry : (page_at == entry_at) ≡ false =
        ground (arith, ok.apart i (omega arith) there, ok.at_dir) in
      simp (self_equal entry_at, table, index, off_entry) refl

  pde-enter :
      (k : ℕ)
      → k < 1024
      → pde (enter_page v (f * 4096) a for_user) k
        ≡ (if k == a / 2 ^ 22 then opened_entry for_user (pde v k) else pde v k)
  unfolding entry_at page_at enter_page
  pde-enter k lt =
      let i = a / 2 ^ 22 in
      let off_page : ((v.curr + 4 * k) == page_at) ≡ false =
        ground (arith, ok.apart i (omega arith) there, ok.at_dir) in
      let step : pde (enter_page v (f * 4096) a for_user) k ≡ (
          if (v.curr + 4 * k) == entry_at
          then opened_entry for_user (v.memory entry_at)
          else v.memory (v.curr + 4 * k)) =
        memory-enter (v.curr + 4 * k) ∙ rw off_page refl in
      elim (Bool-cases (k == i)) [
        | inl e ↦
            let here : k ≡ i = ground arith in
            let at : ((v.curr + 4 * k) == entry_at) ≡ true = ground arith in
            step ∙ rw (at, e, here) refl
        | inr e ↦
            let off : ((v.curr + 4 * k) == entry_at) ≡ false = ground arith in
            step ∙ rw (off, e) refl
      ]

  -- The entries of the directory keep their frames and their present bits.
  pde-enter_fields :
      (k : ℕ)
      → k < 1024
      → (pde (enter_page v (f * 4096) a for_user) k / 4096 ≡ pde v k / 4096)
        × (pde (enter_page v (f * 4096) a for_user) k % 2 ≡ pde v k % 2)
        × (pde (enter_page v (f * 4096) a for_user) k < 2 ^ 31)
  pde-enter_fields k lt =
      let (frame, odd, small) = opened_entry_lem for_user (pde v k) (ok.entries_low k lt) in
      let e = pde-enter k lt in
      elim (Bool-cases (k == a / 2 ^ 22)) [
        | inl here ↦ rw (e, here) (frame, odd, small)
        | inr other ↦ rw (e, other) (refl, refl, ok.entries_low k lt)
      ]

  pte-enter :
      (k l : ℕ)
      → k < 1024
      → l < 1024
      → pde v k % 2 ≡ 1
      → pte (enter_page v (f * 4096) a for_user) k l ≡ (
          if (k == a / 2 ^ 22) && (l == a / 4096 % 1024)
          then mapped_entry for_user (pte v k l) (f * 4096)
          else pte v k l)
  unfolding entry_at page_at
  pte-enter k l ltk ltl present_k =
      let i = a / 2 ^ 22 in
      let (frame, odd, small) = pde-enter_fields k ltk in
      let b = pde v k / 4096 * 4096 + 4 * l in
      let off_entry : (b == entry_at) ≡ false =
        ground (arith, ok.apart k ltk present_k, ok.at_dir) in
      let moved : pte (enter_page v (f * 4096) a for_user) k l ≡ (
          if b == page_at
          then mapped_entry for_user (v.memory page_at) (f * 4096)
          else v.memory b) =
        ap (λ t. (enter_page v (f * 4096) a for_user).memory (t * 4096 + 4 * l)) frame
        ∙ memory-enter b
        ∙ rw off_entry refl in
      elim (Bool-cases ((k == i) && (l == a / 4096 % 1024))) [
        | inl e ↦
            let same_k : k ≡ i = ground arith in
            let same_l : l ≡ a / 4096 % 1024 = ground arith in
            let at : b ≡ page_at =
              ap (λ t. pde v t / 4096 * 4096 + 4 * l) same_k
              ∙ ap (λ t. pde v i / 4096 * 4096 + 4 * t) same_l in
            let hit : (b == page_at) ≡ true = ground arith in
            moved ∙ rw (hit, e) (ap (λ t. mapped_entry for_user (v.memory t) (f * 4096)) (sym at))
        | inr e ↦
            let off : (b == page_at) ≡ false =
              ground (arith, ok.distinct k i ltk (omega arith) present_k there) in
            moved ∙ rw (off, e) refl
      ]

  pub enter_page-IsMapped : IsMapped (enter_page v (f * 4096) a for_user)
  enter_page-IsMapped = record {
    valid = unfold enter_page in ok.valid;
    low = unfold enter_page in ok.low;
    dir = ok.dir;
    at_dir = unfold enter_page in ok.at_dir;
    not_null = ok.not_null;
    dir_used = unfold enter_page in ok.dir_used;
    entries_low = λ k lt. let (frame, odd, small) = pde-enter_fields k lt in small;
    used = λ k lt there_k.
        let (frame, odd, small) = pde-enter_fields k lt in
        rw frame (unfold enter_page in ok.used k lt (sym odd ∙ there_k));
    apart = λ k lt there_k.
        let (frame, odd, small) = pde-enter_fields k lt in
        rw frame (ok.apart k lt (sym odd ∙ there_k));
    distinct = λ k l ltk ltl there_k there_l same.
        let (frame_k, odd_k, small_k) = pde-enter_fields k ltk in
        let (frame_l, odd_l, small_l) = pde-enter_fields l ltl in
        ok.distinct k l ltk ltl (sym odd_k ∙ there_k) (sym odd_l ∙ there_l)
          (sym frame_k ∙ same ∙ frame_l);
    pages_low = λ k l ltk ltl there_k.
        let (frame, odd, small) = pde-enter_fields k ltk in
        let (at, one, little) =
          mapped_entry_lem for_user (pte v k l) f (ok.pages_low k l ltk ltl (sym odd ∙ there_k))
            low in
        elim (Bool-cases ((k == a / 2 ^ 22) && (l == a / 4096 % 1024))) [
          | inl e ↦ rw (pte-enter k l ltk ltl (sym odd ∙ there_k), e) little
          | inr e ↦
              rw (pte-enter k l ltk ltl (sym odd ∙ there_k), e)
                (ok.pages_low k l ltk ltl (sym odd ∙ there_k))
        ];
  }

  -- One page gets its frame, and no other changes.
  pub enter_page-view :
      (k l : ℕ)
      → k < 1024
      → l < 1024
      → view (enter_page v (f * 4096) a for_user) k l
        ≡ entered_view v (a / 2 ^ 22) (a / 4096 % 1024) f k l
  enter_page-view k l ltk ltl =
      let (frame, odd, small) = pde-enter_fields k ltk in
      let i = a / 2 ^ 22 in
      let j = a / 4096 % 1024 in
      elim (Bool-cases (pde v k % 2 == 1)) [
        | inr absent ↦
            let other : ((k == i) && (l == j)) ≡ false = elim (Bool-cases (k == i)) [
              | inl e ↦
                  let here : k ≡ i = ground arith in
                  absurd (ground (arith, there, ap (λ t. pde v t % 2) here))
              | inr e ↦ rw e refl
            ] in
            rw (odd, other, absent) refl
        | inl present_k ↦
            let page = pte-enter k l ltk ltl (ground arith) in
            let (at, one, little) =
              mapped_entry_lem for_user (pte v k l) f (ok.pages_low k l ltk ltl (ground arith))
                low in
            elim (Bool-cases ((k == i) && (l == j))) [
              | inl e ↦ rw (odd, present_k, page, e, at, one) refl
              | inr e ↦ rw (odd, present_k, page, e) refl
            ]
      ]
