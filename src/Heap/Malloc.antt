-- ===== src/Heap/Malloc.antt =====
-- `__kmalloc` as a whole: its growth at the end of the heap, and what a call does to a heap whose
-- last block is free.
use cordell_os.Base.{
  ℕ, ◌+◌, ◌*◌, ◌/◌, ◌^◌, ◌<◌, ◌≤◌, ◌≡◌, refl, sym, ap, ◌∙◌, ◌⊎◌, inl, inr, Bool, true, false, some,
  List, [], ◌∷◌, ◌++◌, arith, ltb, ◌==◌, u32, done,
}
use mathlib.Core.Path.{subst}
use cordell_os.Heap.{
  Block, Heap, header, page_size, merge_free_blocks, block_split, is_fit, search_block, count_pages,
  Growth, grow, settle, grow_by, grow_block, kmalloc_from, kmalloc_ready, kmalloc_list, kmalloc,
}
use cordell_os.Heap.Tiling.{IsTiled, used, append-IsTiled, IsTiled-before, merge_free_blocks_lem}
use cordell_os.Heap.Take.{
  last_free, last_free-merge_free_blocks, search_block_lem, block_split_lem, count_pages_lem, Grows,
  grow_lem,
}
use cordell_os.Heap.Allocate.{
  heap_end, IsHeap, Taken, Allocated, used-free, inside, taken, take_block_lem,
}

-- The heap with more pages, all of them in the last block.
abbrev extended : Heap → List Block → Block → Growth → Heap
extended h xs cur g = record h {
  blocks = xs ++ record cur { size = g.size } ∷ [];
  total_pages = g.total_pages;
  pmm = g.pmm;
}

Taken-extended :
    {h e h' : Heap} {size p : ℕ}
    → used h.blocks ≡ used e.blocks
    → Taken e size p h'
    → Taken h size p h'
Taken-extended same t = record {
  block = t.block;
  before = t.before;
  after = t.after;
  was = same ∙ t.was;
  now = t.now;
  at = t.at;
  sized = t.sized;
  kept = t.kept;
}

module _ {h : Heap} (ok : IsHeap h) (stale : ℕ → ℕ) (size : ℕ)
    (room : heap_end h + size + 4 * page_size < 2 ^ 32) (xs : List Block) (cur : Block)
    (tiled : IsTiled h.virt_address (xs ++ cur ∷ []) (heap_end h))
    (same : used (xs ++ cur ∷ []) ≡ used h.blocks) (free : cur.free ≡ true) where
  -- Growth by `j` pages keeps the tiling and what is in use.
  extended-IsHeap :
      (j : ℕ) (g : Growth)
      → j ≤ size / page_size + 2
      → g.size ≡ cur.size + j * page_size
      → g.total_pages ≡ h.total_pages + j
      → IsHeap (extended h xs cur g)
  extended-IsHeap j g le size' total =
      let (left, right) = IsTiled-before h.virt_address (heap_end h) xs cur [] tiled in
      record {
        tiled =
            append-IsTiled h.virt_address cur.addr (heap_end (extended h xs cur g)) xs
              (record cur { size = g.size } ∷ []) left (refl, omega arith);
        small = omega arith;
      }

  extended-used : (g : Growth) → used h.blocks ≡ used (extended h xs cur g).blocks
  extended-used g =
      sym same
      ∙ used-free xs cur [] free
      ∙ sym (used-free xs (record cur { size = g.size }) [] free)

  settle_lem :
      (k : ℕ) (out : Bool × Growth)
      → k ≤ size / page_size + 2
      → size + header ≤ cur.size + k * page_size
      → Grows k (record { size = cur.size; total_pages = h.total_pages; pmm = h.pmm }) out
      → Allocated h size (done (settle stale h size xs cur [] out))
  unfolding settle
  settle_lem k (false, g) few enough (j, le, all, size', total) = inr (
    extended h xs cur g,
    refl,
    sym (extended-used g),
    extended-IsHeap j g (omega arith) size' total,
  )
  settle_lem k (true, g) few enough (j, le, all, size', total) =
      let within = inside h.virt_address (heap_end h) xs [] cur tiled in
      let e = all refl in
      let grown : Block = record cur { size = g.size } in
      let (b, one, at, sized, fresh) =
        block_split_lem stale grown size (omega arith) (omega arith) in
      let is_heap = extended-IsHeap j g (omega arith) size' total in
      inl (
        u32 (cur.addr + header),
        record (extended h xs cur g) { blocks = xs ++ (block_split stale grown size ++ []) },
        refl,
        Taken-extended (extended-used g) (
            taken is_heap stale size xs [] grown is_heap.tiled refl free
              (block_split stale grown size) b one at sized fresh),
      )

  grow_block_lem : Allocated h size (grow_block stale h size xs cur [])
  unfolding grow_block grow_by
  grow_block_lem =
      let within = inside h.virt_address (heap_end h) xs [] cur tiled in
      let (k, found, enough, few) =
        count_pages_lem cur.size size (size / page_size + 1) 1 (omega arith) (omega arith)
          (omega arith) in
      let found' : count_pages cur.size size (size / page_size + 2) 1 ≡ some k =
        ap (λ f. count_pages cur.size size f 1) (omega arith) ∙ found in
      let virt = u32 (h.virt_address + u32 (h.total_pages * page_size)) in
      let start : Growth = record { size = cur.size; total_pages = h.total_pages; pmm = h.pmm } in
      subst (λ c. Allocated h size (grow_by stale h size xs cur [] c)) (sym found')
        (settle_lem k (grow h.map_page k virt start) (omega arith) enough
          (grow_lem h.map_page k virt start (omega arith) (omega arith)))

-- Growth is reached only after the last block.
grow_block-last :
    {h : Heap} (ok : IsHeap h) (stale : ℕ → ℕ) (size : ℕ)
    (room : heap_end h + size + 4 * page_size < 2 ^ 32) (xs : List Block) (cur : Block)
    (ys : List Block)
    → IsTiled h.virt_address (xs ++ cur ∷ ys) (heap_end h)
    → used (xs ++ cur ∷ ys) ≡ used h.blocks
    → cur.free ≡ true
    → (is_fit size cur ≡ true) ⊎ (ys ≡ [])
    → (size == cur.size) ≡ false
    → ltb (u32 (size + header)) cur.size ≡ false
    → Allocated h size (grow_block stale h size xs cur ys)
unfolding is_fit
grow_block-last ok stale size room xs cur [] tiled same free stop differs tight =
    grow_block_lem ok stale size room xs cur tiled same free
grow_block-last ok stale size room xs cur (y ∷ ys) tiled same free stop differs tight =
    absurd (ground arith)

kmalloc_from_lem :
    {h : Heap} (ok : IsHeap h) (stale : ℕ → ℕ) (size : ℕ)
    (room : heap_end h + size + 4 * page_size < 2 ^ 32) (bs : List Block)
    → last_free bs ≡ true
    → IsTiled h.virt_address bs (heap_end h)
    → used bs ≡ used h.blocks
    → Allocated h size (kmalloc_from stale h size bs)
unfolding kmalloc_from last_free
kmalloc_from_lem ok stale size room [] last tiled same = absurd (ground arith)
kmalloc_from_lem {h} ok stale size room (b ∷ rest) last tiled same =
    let (whole, free, stop) = search_block_lem size b rest last in
    let sb = search_block size b rest in
    let tiled' : IsTiled h.virt_address (sb.0 ++ sb.1 ∷ sb.2) (heap_end h) =
      subst (λ t. IsTiled h.virt_address t (heap_end h)) (sym whole) tiled in
    let same' = ap used whole ∙ same in
    take_block_lem ok stale size sb.0 sb.2 sb.1 tiled' same' free stop
      (grow_block-last ok stale size room sb.0 sb.1 sb.2 tiled' same' free stop) (omega arith)

kmalloc_list_lem :
    (h : Heap) (stale : ℕ → ℕ) (size : ℕ) (bs : List Block)
    → last_free bs ≡ true
    → kmalloc_list stale h size bs ≡ kmalloc_ready stale h size
unfolding kmalloc_list last_free
kmalloc_list_lem h stale size [] last = absurd (ground arith)
kmalloc_list_lem h stale size (b ∷ rest) last = refl

-- On a heap whose blocks tile its pages and whose last block is free, for a size above zero that the
-- 32-bit addresses past the heap have room for, `__kmalloc` returns. Either it returns the memory of
-- a block of exactly that size that was free and is now in use, with the other blocks in use as
-- before, or NULL with the blocks in use as before; the blocks tile the heap's pages again.
pub kmalloc_lem :
    {h : Heap} (ok : IsHeap h) (stale : ℕ → ℕ) (size : ℕ)
    → last_free h.blocks ≡ true
    → 0 < size
    → heap_end h + size + 4 * page_size < 2 ^ 32
    → Allocated h size (kmalloc stale h size)
unfolding kmalloc kmalloc_ready
kmalloc_lem {h} ok stale size last positive room =
    let some_size : (size == 0) ≡ false = ground arith in
    let (tiled, same) =
      merge_free_blocks_lem h.virt_address (heap_end h) h.blocks ok.tiled ok.small in
    let call : kmalloc stale h size ≡ kmalloc_ready stale h size =
      rw some_size (kmalloc_list_lem h stale size h.blocks last) in
    subst (λ t. Allocated h size t) (sym call)
      (kmalloc_from_lem ok stale size room (merge_free_blocks h.blocks)
        (last_free-merge_free_blocks h.blocks last) tiled same)
