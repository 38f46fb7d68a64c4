-- ===== src/Heap/Take.antt =====
-- The steps of `__kmalloc`: the search, the split and the growth.
use cordell_os.Base.{
  ℕ, zero, suc, ◌+◌, ◌*◌, ◌/◌, ◌^◌, ◌<◌, ◌≤◌, ◌≡◌, refl, ap, ◌⊎◌, inl, inr, Bool, true, false, ◌&&◌,
  Option, none, some, List, [], ◌∷◌, ◌++◌, arith, ltb, Bool-cases, u32, sub32,
}
use cordell_os.Pmm.{PmmMap}
use cordell_os.Heap.{
  Block, header, page_size, joined, merge_free_blocks, block_split, is_fit, search_block,
  count_pages, mallocp, Growth, grow,
}
use cordell_os.Heap.Tiling.{IsTiled, used}

-- Whether there is a last block and it is free.
unfoldable pub last_free : List Block → Bool
last_free [] = false
last_free (b ∷ []) = b.free
last_free (b ∷ c ∷ rest) = last_free (c ∷ rest)

pub last_free-cons : (b : Block) (bs : List Block) → last_free bs ≡ true → last_free (b ∷ bs) ≡ true
unfolding last_free
last_free-cons b [] h = ground arith
last_free-cons b (c ∷ rest) h = h

pub last_free-merge_free_blocks :
    (bs : List Block) → last_free bs ≡ true → last_free (merge_free_blocks bs) ≡ true
unfolding last_free merge_free_blocks
last_free-merge_free_blocks [] h = h
last_free-merge_free_blocks (b ∷ []) h = h
last_free-merge_free_blocks (b ∷ c ∷ []) h = elim (Bool-cases b.free) [
  | inl e ↦ simp (e, h)
  | inr e ↦ simp e h
]
last_free-merge_free_blocks (b ∷ c ∷ d ∷ rest) h =
    let later = last_free-merge_free_blocks (d ∷ rest) h in
    let here = last_free-merge_free_blocks (c ∷ d ∷ rest) h in
    elim (Bool-cases (b.free && c.free)) [
      | inl e ↦ simp e (last_free-cons (joined b c) (merge_free_blocks (d ∷ rest)) later)
      | inr e ↦ simp e (last_free-cons b (merge_free_blocks (c ∷ d ∷ rest)) here)
    ]

is_fit-free : (size : ℕ) (b : Block) → is_fit size b ≡ true → b.free ≡ true
unfolding is_fit
is_fit-free size b fit = ground arith

-- The search ends at a free block that fits, or at the last one.
pub search_block_lem :
    (size : ℕ) (b : Block) (rest : List Block)
    → last_free (b ∷ rest) ≡ true
    → ((search_block size b rest).0 ++ (search_block size b rest).1 ∷ (search_block size b rest).2
        ≡ b ∷ rest)
      × ((search_block size b rest).1.free ≡ true)
      × ((is_fit size (search_block size b rest).1 ≡ true) ⊎ ((search_block size b rest).2 ≡ []))
unfolding search_block last_free
search_block_lem size b [] h = (refl, h, inr refl)
search_block_lem size b (c ∷ rest) h =
    let (whole, free, stop) = search_block_lem size c rest h in
    elim (Bool-cases (is_fit size b)) [
      | inl fit ↦ simp fit (refl, is_fit-free size b fit, inl refl)
      | inr unfit ↦ simp unfit (ap (λ t. b ∷ t) whole, free, stop)
    ]

-- A block with room for `size` bytes and a header is split into one of that size in use and a free
-- one, on the same bytes.
pub block_split_lem :
    (stale : ℕ → ℕ) (node : Block) (size : ℕ)
    → size + header ≤ node.size
    → node.addr + header + node.size < 2 ^ 32
    → (b : Block) × (used (block_split stale node size) ≡ b ∷ [])
      × (b.addr ≡ node.addr)
      × (b.size ≡ size)
      × IsTiled node.addr (block_split stale node size) (node.addr + header + node.size)
unfolding block_split used
block_split_lem stale node size room small = (
  record node {
    size = size;
    free = false;
    pcount = sub32 node.pcount (u32 (size / page_size + 1));
  },
  refl,
  refl,
  refl,
  (refl, (omega arith, omega arith)),
)

-- The count of pages ends, with enough pages.
pub count_pages_lem :
    (cur_size size fuel num_pages : ℕ)
    → size + header ≤ cur_size + (num_pages + fuel) * page_size
    → cur_size + (num_pages + fuel) * page_size < 2 ^ 32
    → size + header < 2 ^ 32
    → (k : ℕ) × (count_pages cur_size size (suc fuel) num_pages ≡ some k)
      × (size + header ≤ cur_size + k * page_size)
      × (k ≤ num_pages + fuel)
unfolding count_pages
count_pages_lem cur_size size zero num_pages enough small wide =
    let stop : ltb (u32 (cur_size + u32 (num_pages * page_size))) (u32 (size + header)) ≡ false =
      ground arith in
    (num_pages, rw stop refl, omega arith, omega arith)
count_pages_lem cur_size size (suc fuel) num_pages enough small wide =
    elim (Bool-cases (ltb (u32 (cur_size + u32 (num_pages * page_size))) (u32 (size + header)))) [
      | inr stop ↦ (num_pages, rw stop refl, ground arith, omega arith)
      | inl more ↦
          let (k, found, room, le) =
            count_pages_lem cur_size size fuel (num_pages + 1) (omega arith) (omega arith) wide in
          (k, rw more found, room, omega arith)
    ]

-- Some whole pages were added, and all of them if the loop ended as it should.
abbrev pub Grows : ℕ → Growth → Bool × Growth → Type 0
Grows left g out =
    (k : ℕ) × (k ≤ left)
    × (out.0 ≡ true → k ≡ left)
    × (out.1.size ≡ g.size + k * page_size)
    × (out.1.total_pages ≡ g.total_pages + k)

-- The loop that maps pages, by what the first `__kmallocp` gives.
pub grow_lem :
    (map_page : PmmMap → ℕ → ℕ → PmmMap) (left virt : ℕ) (g : Growth)
    → g.size + left * page_size < 2 ^ 32
    → g.total_pages + left < 2 ^ 32
    → Grows left g (grow map_page left virt g)
unfolding grow
grow_lem map_page zero virt g small few = (0, omega arith, λ ok. refl, omega arith, omega arith)
grow_lem map_page (suc left) virt g small few =
    by_page (mallocp map_page g.pmm virt) (λ pmm.
      grow_lem map_page left (u32 (virt + page_size)) (next pmm) (omega arith) (omega arith))
  where
    next : PmmMap → Growth
    next pmm = record {
      size = u32 (g.size + page_size);
      total_pages = u32 (g.total_pages + 1);
      pmm = pmm;
    }

    by_page :
        (m : Option PmmMap)
        → ((pmm : PmmMap)
            → Grows left (next pmm) (grow map_page left (u32 (virt + page_size)) (next pmm)))
        → Grows (suc left) g (elim m [
          | none ↦ (false, g)
          | some pmm ↦ grow map_page left (u32 (virt + page_size)) (next pmm)
        ])
    by_page none rest = (0, omega arith, λ ok. ground arith, omega arith, omega arith)
    by_page (some pmm) rest =
        let (k, le, all, size, total) = rest pmm in
        (suc k, omega arith, λ ok. ap suc (all ok), omega arith, omega arith)
