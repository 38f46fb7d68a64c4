-- ===== src/Elf/Cover.antt =====
-- The pages of a program loaded by src/kernel/arch/i386/elf.c against its segments.
use cordell_os.Base.{
  ℕ, zero, suc, ◌+◌, ◌-◌, ◌*◌, ◌/◌, ◌^◌, ◌<◌, ◌≤◌, ◌≡◌, refl, sym, ap, ◌∙◌, inl, inr, Bool, true,
  false, ◌||◌, Option, none, some, List, [], ◌∷◌, ◌++◌, arith, leb, ◌==◌, Bool-cases, Option-cases,
  get_elem?, length, length-append, u32,
}
use mathlib.Core.Path.{subst}
use cordell_os.Vmm.{page_size}
use cordell_os.Elf.{
  ProgramHeader, Segment, Program, max_program_pages, page_of, segment_pages, add_pages, with_pages,
  load_segment, load_rest, load_segments,
}

-- Whether a page is among those mapped.
unfoldable pub is_mapped : List ℕ → ℕ → Bool
is_mapped [] a = false
is_mapped (page ∷ pages) a = let rest = is_mapped pages a in page == a || rest

is_mapped-append :
    (xs ys : List ℕ) (a : ℕ) → is_mapped (xs ++ ys) a ≡ (is_mapped xs a || is_mapped ys a)
unfolding is_mapped
is_mapped-append [] ys a = refl
is_mapped-append (x ∷ xs) ys a = ground (arith, is_mapped-append xs ys a)

-- What a run of pages from `start` on adds to those mapped.
record Extended (left start : ℕ) (pages out : List ℕ) : Type 0 where
  few : length out ≤ max_program_pages
  kept : (a : ℕ) → is_mapped pages a ≡ true → is_mapped out a ≡ true
  new : (k : ℕ) → k < left → is_mapped out (start + k * page_size) ≡ true

abbrev or_empty : Option (List ℕ) → List ℕ
or_empty none = []
or_empty (some pages) = pages

add_pages-Extended :
    (left start : ℕ) (pages out : List ℕ)
    → length pages ≤ max_program_pages
    → start + left * page_size ≤ 2 ^ 32
    → add_pages left start pages ≡ some out
    → Extended left start pages out
unfolding add_pages is_mapped
add_pages-Extended zero start pages out few fits = λ e. record {
  few = subst (λ l. length l ≤ max_program_pages) (ap or_empty e) few;
  kept = λ a h. subst (λ l. is_mapped l a ≡ true) (ap or_empty e) h;
  new = λ k lt. absurd (omega arith);
}
add_pages-Extended (suc left) start pages out few fits =
    elim (Bool-cases (leb max_program_pages (length pages))) [
      | inl full ↦ simp full (λ e. absurd (ground arith))
      | inr room ↦ simp room (λ e.
          let next = u32 (start + page_size) in
          let longer : List ℕ = pages ++ start ∷ [] in
          let size : length longer ≡ length pages + 1 = length-append pages (start ∷ []) in
          let fits' : next + left * page_size ≤ 2 ^ 32 = ground arith in
          let rest = add_pages-Extended left next longer out (ground (arith, size)) fits' e in
          record {
            few = rest.few;
            kept = λ a h. rest.kept a (is_mapped-append pages (start ∷ []) a ∙ ground arith);
            new = λ k lt. elim (Bool-cases (k == 0)) [
              | inl first ↦
                  let here : start + k * page_size ≡ start = ground arith in
                  ap (is_mapped out) here
                  ∙ rest.kept start (is_mapped-append pages (start ∷ []) start ∙ ground arith)
              | inr later ↦
                  let at : start + k * page_size ≡ next + (k - 1) * page_size = ground arith in
                  ap (is_mapped out) at ∙ rest.new (k - 1) (ground arith)
            ];
          })
    ]

-- Every byte of a segment is in a mapped page.
abbrev pub IsCovered : List ℕ → ProgramHeader → Type 0
IsCovered pages h =
    (h.p_type == 1) ≡ true
    → (a : ℕ) → h.p_vaddr ≤ a
    → a < h.p_vaddr + h.p_memsz
    → is_mapped pages (page_of a) ≡ true

-- A segment leaves room for the end of its last page.
abbrev pub Fits : ProgramHeader → Type 0
Fits h = h.p_vaddr + h.p_memsz + page_size ≤ 2 ^ 32

abbrev pub header_or : ProgramHeader → Option ProgramHeader → ProgramHeader
header_or h none = h
header_or h (some g) = g

abbrev pages_of : Program → Option Program → List ℕ
pages_of p none = p.pages
pages_of p (some q) = q.pages

-- The pages of a segment that were added.
with_pages-Extended :
    (h : ProgramHeader) (p q : Program) (s : Segment)
    → Fits h
    → length p.pages ≤ max_program_pages
    → with_pages p s (add_pages (segment_pages h) (page_of h.p_vaddr) p.pages) ≡ some q
    → (length q.pages ≤ max_program_pages)
      × ((a : ℕ) → is_mapped p.pages a ≡ true → is_mapped q.pages a ≡ true)
      × ((a : ℕ) → h.p_vaddr ≤ a → a < h.p_vaddr + h.p_memsz → is_mapped q.pages (page_of a) ≡ true)
unfolding segment_pages
with_pages-Extended h p q s fits few e =
    elim (Option-cases (add_pages (segment_pages h) (page_of h.p_vaddr) p.pages)) [
      | inl failed ↦ absurd (ground (arith, sym (ap (with_pages p s) failed) ∙ e))
      | inr (out, got) ↦
          let same : out ≡ q.pages = ap (pages_of p) (sym (ap (with_pages p s) got) ∙ e) in
          let run =
            add_pages-Extended (segment_pages h) (page_of h.p_vaddr) p.pages out few
              (ground (arith, fits)) got in
          (
            subst (λ l. length l ≤ max_program_pages) same run.few,
            λ a k. subst (λ l. is_mapped l a ≡ true) same (run.kept a k),
            λ a lo hi.
                let k = a / page_size - h.p_vaddr / page_size in
                let at : page_of a ≡ page_of h.p_vaddr + k * page_size = omega arith in
                subst (λ l. is_mapped l (page_of a) ≡ true) same
                  (ap (is_mapped out) at ∙ run.new k (ground (arith, fits))),
          )
    ]

-- One segment.
load_segment-Extended :
    (read : ℕ → ℕ → List ℕ) (h : ProgramHeader) (p q : Program)
    → Fits h
    → length p.pages ≤ max_program_pages
    → load_segment read h p ≡ some q
    → (length q.pages ≤ max_program_pages)
      × ((a : ℕ) → is_mapped p.pages a ≡ true → is_mapped q.pages a ≡ true)
      × IsCovered q.pages h
unfolding load_segment segment_pages
load_segment-Extended read h p q fits few = elim (Bool-cases (h.p_type == 1)) [
  | inr other ↦ simp other (λ e.
      let same : p.pages ≡ q.pages = ap (pages_of p) e in
      (
        subst (λ l. length l ≤ max_program_pages) same few,
        λ a k. subst (λ l. is_mapped l a ≡ true) same k,
        λ is_load. absurd (ground arith),
      ))
  | inl load ↦ simp load (λ e.
      let (few', kept, new) =
        with_pages-Extended h p q
          (record { address = h.p_vaddr; zeroed = h.p_memsz; bytes = read h.p_offset h.p_filesz })
          fits few e in
      (few', kept, λ is_load. new))
]

-- Every program that is loaded has at most 512 pages, which hold each byte of each of its loadable
-- segments; those that were mapped before stay mapped. Each segment leaves room for the end of its
-- last page below 2 ^ 32.
pub load_segments-covers :
    (read : ℕ → ℕ → List ℕ) (hs : List ProgramHeader) (p q : Program)
    → ((i : ℕ) (h : ProgramHeader) → get_elem? hs i ≡ some h → Fits h)
    → length p.pages ≤ max_program_pages
    → load_segments read hs p ≡ some q
    → (length q.pages ≤ max_program_pages)
      × ((a : ℕ) → is_mapped p.pages a ≡ true → is_mapped q.pages a ≡ true)
      × ((i : ℕ) (h : ProgramHeader) → get_elem? hs i ≡ some h → IsCovered q.pages h)
unfolding load_segments
load_segments-covers read [] p q fits few e =
    let same : p.pages ≡ q.pages = ap (pages_of p) e in
    (
      subst (λ l. length l ≤ max_program_pages) same few,
      λ a k. subst (λ l. is_mapped l a ≡ true) same k,
      λ i h at. absurd (ground arith),
    )
load_segments-covers read (h ∷ hs) p q fits few e = elim (Option-cases (load_segment read h p)) [
  | inl failed ↦ absurd (ground (arith, sym (ap (load_rest (load_segments read hs)) failed) ∙ e))
  | inr (r, got) ↦
      let (few', kept, covered) = load_segment-Extended read h p r (fits 0 h refl) few got in
      let (few'', kept', covered') =
        load_segments-covers read hs r q (λ i. fits (suc i)) few'
          (sym (ap (load_rest (load_segments read hs)) got) ∙ e) in
      (few'', λ a k. kept' a (kept a k), by_index h hs r q covered kept' covered')
]
  where
    by_index :
        (h : ProgramHeader) (hs : List ProgramHeader) (r q : Program)
        → IsCovered r.pages h
        → ((a : ℕ) → is_mapped r.pages a ≡ true → is_mapped q.pages a ≡ true)
        → ((i : ℕ) (g : ProgramHeader) → get_elem? hs i ≡ some g → IsCovered q.pages g)
        → (i : ℕ) (g : ProgramHeader) → get_elem? (h ∷ hs) i ≡ some g
        → IsCovered q.pages g
    by_index h hs r q covered kept rest zero g at =
        subst (IsCovered q.pages) (ap (header_or h) at)
          (λ load a lo hi. kept (page_of a) (covered load a lo hi))
    by_index h hs r q covered kept rest (suc i) g at = rest i g at
