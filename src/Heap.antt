-- ===== src/Heap.antt =====
-- The heap of src/kernel/memory/allocator.c: one list of blocks over consecutive pages. The
-- pointers of the source are addresses, and the `next` pointers are the order of the list. The
-- empty list is a `list_head` of NULL.
pub mod Tiling
pub mod Take
pub mod Allocate
pub mod Malloc
pub mod Free
pub mod Release
mod Tests
use cordell_os.Base.{
  ℕ, zero, suc, ◌+◌, ◌-◌, ◌*◌, ◌/◌, ◌%◌, Bool, true, false, not, ◌&&◌, ◌||◌, Option, none, some,
  List, [], ◌∷◌, ◌++◌, ltb, leb, ◌==◌, if◌then◌else◌, length, u32, sub32, Outcome, done, halted,
  ◌>>=◌,
}
use cordell_os.Pmm.{PmmMap, allocate_blocks}

-- `malloc_block_t`, with the address it lies at.
pub record Block : Type 0 where
  pub addr : ℕ
  pub size : ℕ
  pub free : Bool
  pub v_addr : ℕ
  pub pcount : ℕ

-- `sizeof(malloc_block_t)`: five words of four bytes.
abbrev pub header : ℕ
header = 20

abbrev pub page_size : ℕ
page_size = 4096

-- `malloc_head_t` with the map of physical memory and the bytes behind the pointers. `map_page` is
-- the function pointer of the source, by what it does to the map of physical memory.
pub record Heap : Type 0 where
  pub blocks : List Block
  pub virt_address : ℕ
  pub phys_address : ℕ
  pub total_pages : ℕ
  pub map_page : PmmMap → ℕ → ℕ → PmmMap
  pub pmm : PmmMap
  pub memory : ℕ → ℕ

-- The size of `b` after it took in its neighbour `c`.
abbrev pub joined : Block → Block → Block
joined b c = record b { size = u32 (b.size + u32 (c.size + header)) }

-- `__merge_free_blocks`
unfoldable pub merge_free_blocks : List Block → List Block
merge_free_blocks [] = []
merge_free_blocks (b ∷ []) = b ∷ []
merge_free_blocks (b ∷ c ∷ rest) =
    let after_join = merge_free_blocks rest in
    let after_b = merge_free_blocks (c ∷ rest) in
    if b.free && c.free then joined b c ∷ after_join else b ∷ after_b

-- `__block_split`. It does not set `pcount` of the new header, which keeps the word `stale` that
-- memory held there.
unfoldable pub block_split : (ℕ → ℕ) → Block → ℕ → List Block
block_split stale node size =
    let new_node = u32 (node.addr + u32 (size + header)) in
    record node {
      size = size;
      free = false;
      pcount = sub32 node.pcount (u32 (size / page_size + 1));
    }
    ∷ record {
      addr = new_node;
      size = sub32 (sub32 node.size size) header;
      free = true;
      v_addr = node.v_addr;
      pcount = stale new_node;
    }
    ∷ []

-- Whether the search of `__kmalloc` stops at a block.
unfoldable pub is_fit : ℕ → Block → Bool
is_fit size b = b.free && (b.size == size || ltb (u32 (size + header)) b.size)

-- The search: the blocks before the one it ends at, that block, and the blocks after it. It ends
-- at the last block, whatever that is, where no earlier block fits.
unfoldable pub search_block : ℕ → Block → List Block → List Block × Block × List Block
search_block size b [] = ([], b, [])
search_block size b (c ∷ rest) =
    let (before, cur, after) = search_block size c rest in
    if is_fit size b then ([], b, c ∷ rest) else (b ∷ before, cur, after)

-- `while (cur->size + num_pages * PAGE_SIZE < size + sizeof(malloc_block_t)) num_pages++`
unfoldable pub count_pages : ℕ → ℕ → ℕ → ℕ → Option ℕ
count_pages cur_size size zero num_pages = none
count_pages cur_size size (suc fuel) num_pages =
    let rest = count_pages cur_size size fuel (num_pages + 1) in
    if ltb (u32 (cur_size + u32 (num_pages * page_size))) (u32 (size + header))
    then rest
    else some num_pages

-- `__kmallocp`: `none` is the result -1.
unfoldable pub mallocp : (PmmMap → ℕ → ℕ → PmmMap) → PmmMap → ℕ → Option PmmMap
mallocp map_page pmm virt =
    let (phys, pmm') = allocate_blocks pmm 1 in
    elim phys [ none ↦ none | some at ↦ if at == 0 then none else some (map_page pmm' at virt) ]

-- What the loop that maps new pages changes.
pub record Growth : Type 0 where
  pub size : ℕ
  pub total_pages : ℕ
  pub pmm : PmmMap

-- That loop, over the pages left; `false` is its early return.
unfoldable pub grow : (PmmMap → ℕ → ℕ → PmmMap) → ℕ → ℕ → Growth → Bool × Growth
grow map_page zero virt g = (true, g)
grow map_page (suc left) virt g = elim (mallocp map_page g.pmm virt) [
  | none ↦ (false, g)
  | some pmm ↦
      grow map_page left (u32 (virt + page_size)) (record {
        size = u32 (g.size + page_size);
        total_pages = u32 (g.total_pages + 1);
        pmm = pmm;
      })
]

-- The end of the last branch of `__kmalloc`, by how the mapping of the pages went.
unfoldable pub settle :
    (ℕ → ℕ) → Heap → ℕ → List Block → Block → List Block → Bool × Growth → Option ℕ × Heap
settle stale h size before cur after (true, g) = (
  some (u32 (cur.addr + header)),
  record h {
    blocks = before ++ (block_split stale (record cur { size = g.size }) size ++ after);
    total_pages = g.total_pages;
    pmm = g.pmm;
  },
)
settle stale h size before cur after (false, g) = (
  none,
  record h {
    blocks = before ++ record cur { size = g.size } ∷ after;
    total_pages = g.total_pages;
    pmm = g.pmm;
  },
)

-- The last branch of `__kmalloc`, by the count of pages.
unfoldable pub grow_by :
    (ℕ → ℕ) → Heap → ℕ → List Block → Block → List Block → Option ℕ → Outcome (Option ℕ × Heap)
grow_by stale h size before cur after none = halted
grow_by stale h size before cur after (some num_pages) =
    let virt = u32 (h.virt_address + u32 (h.total_pages * page_size)) in
    let start : Growth = record { size = cur.size; total_pages = h.total_pages; pmm = h.pmm } in
    done (settle stale h size before cur after (grow h.map_page num_pages virt start))

-- The fuel for the count of pages is enough where no sum wraps around (`Take.count_pages_lem`).
unfoldable pub grow_block :
    (ℕ → ℕ) → Heap → ℕ → List Block → Block → List Block → Outcome (Option ℕ × Heap)
grow_block stale h size before cur after =
    grow_by stale h size before cur after (count_pages cur.size size (size / page_size + 2) 1)

-- `__kmalloc` from the end of the search on.
unfoldable pub take_block :
    (ℕ → ℕ) → Heap → ℕ → List Block × Block × List Block → Outcome (Option ℕ × Heap)
take_block stale h size (before, cur, after) =
    if size == cur.size
    then done (
      some (u32 (cur.addr + header)),
      record h { blocks = before ++ record cur { free = false } ∷ after },
    )
    else if ltb (u32 (size + header)) cur.size
    then done (
      some (u32 (cur.addr + header)),
      record h { blocks = before ++ (block_split stale cur size ++ after) },
    )
    else grow_block stale h size before cur after

-- `__kmalloc` once there is a list; the empty list is out of reach, since merging keeps the head.
unfoldable pub kmalloc_from : (ℕ → ℕ) → Heap → ℕ → List Block → Outcome (Option ℕ × Heap)
kmalloc_from stale h size [] = halted
kmalloc_from stale h size (b ∷ rest) = take_block stale h size (search_block size b rest)

-- The pages that `__mm_init` maps, from page `i` on.
unfoldable pub map_pages : (PmmMap → ℕ → ℕ → PmmMap) → ℕ → PmmMap → ℕ → ℕ → PmmMap
map_pages map_page zero pmm phys virt = pmm
map_pages map_page (suc left) pmm phys virt =
    map_pages map_page left (map_page pmm phys virt) (u32 (phys + page_size))
      (u32 (virt + page_size))

-- `__mm_init`; without enough physical memory its `assert` fails.
unfoldable pub mm_init : Heap → ℕ → Outcome Heap
mm_init h bytes =
    let pages = bytes / page_size + (if bytes % page_size == 0 then 0 else 1) in
    let (phys, pmm) = allocate_blocks h.pmm pages in
    elim phys [
      | none ↦ halted
      | some at ↦
          if at == 0
          then halted
          else done (record h {
            blocks =
                record {
                  addr = h.virt_address;
                  size = sub32 (u32 (pages * page_size)) header;
                  free = true;
                  v_addr = at;
                  pcount = pages;
                }
                ∷ [];
            phys_address = at;
            total_pages = pages;
            pmm = map_pages h.map_page pages pmm at h.virt_address;
          })
    ]

-- `__kmalloc` on a heap that has its list.
unfoldable pub kmalloc_ready : (ℕ → ℕ) → Heap → ℕ → Outcome (Option ℕ × Heap)
kmalloc_ready stale h size = kmalloc_from stale h size (merge_free_blocks h.blocks)

-- `if (head->list_head == NULL) __mm_init(size, head)`, by the list.
unfoldable pub kmalloc_list : (ℕ → ℕ) → Heap → ℕ → List Block → Outcome (Option ℕ × Heap)
kmalloc_list stale h size [] = mm_init h size >>= λ h'. kmalloc_ready stale h' size
kmalloc_list stale h size (b ∷ rest) = kmalloc_ready stale h size

unfoldable pub kmalloc : (ℕ → ℕ) → Heap → ℕ → Outcome (Option ℕ × Heap)
kmalloc stale h size = if size == 0 then done (none, h) else kmalloc_list stale h size h.blocks

-- The list from `b` on, by what the rest of the loop finds.
abbrev pub after_block : Block → Option (Block × List Block) → Option (Block × List Block)
after_block b none = none
after_block b (some (found, bs)) = some (found, b ∷ bs)

-- The search of the loops of `__kfree`, which do not look at the last block: the block that was
-- found, and the list with it marked as free.
unfoldable pub free_block : ℕ → List Block → Option (Block × List Block)
free_block ptr [] = none
free_block ptr (b ∷ []) = none
free_block ptr (b ∷ c ∷ rest) =
    let later = after_block b (free_block ptr (c ∷ rest)) in
    if u32 (b.addr + header) == ptr && not b.free
    then some (b, record b { free = true } ∷ c ∷ rest)
    else later

-- `memset(ptr, 0, size)`
unfoldable pub clear : (ℕ → ℕ) → ℕ → ℕ → ℕ → ℕ
clear memory ptr size a = if leb ptr a && ltb a (ptr + size) then 0 else memory a

-- What both loops of `__kfree` do with the block that they find.
abbrev pub released : Heap → ℕ → Block → List Block → Heap
released h ptr b blocks = record h {
  blocks = merge_free_blocks blocks;
  memory = clear h.memory ptr b.size;
}

-- The pages that the second loop gives back; `free_page` stands for `_kfreep` by what it does to
-- the map of physical memory.
unfoldable pub free_pages : (PmmMap → ℕ → PmmMap) → ℕ → ℕ → PmmMap → PmmMap
free_pages free_page zero v_addr pmm = pmm
free_pages free_page (suc left) v_addr pmm =
    free_pages free_page left (u32 (v_addr + page_size)) (free_page pmm v_addr)

unfoldable pub kfree_first : Heap → ℕ → Heap
kfree_first h ptr = elim (free_block ptr h.blocks) [
  | none ↦ h
  | some (b, blocks) ↦ released h ptr b blocks
]

unfoldable pub kfree_second : (PmmMap → ℕ → PmmMap) → Heap → ℕ → Heap
kfree_second free_page h ptr = elim (free_block ptr h.blocks) [
  | none ↦ h
  | some (b, blocks) ↦
      released (record h { pmm = free_pages free_page b.pcount b.v_addr h.pmm }) ptr b blocks
]

-- `true` is the result 1 and `false` the result -1.
unfoldable pub kfree : (PmmMap → ℕ → PmmMap) → Heap → ℕ → Bool × Heap
kfree free_page h ptr =
    if ptr == 0 then (false, h) else (true, kfree_second free_page (kfree_first h ptr) ptr)
