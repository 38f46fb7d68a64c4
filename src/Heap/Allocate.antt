-- ===== src/Heap/Allocate.antt =====
-- `__kmalloc`: what a call takes from the heap.
use cordell_os.Base.{
  ℕ, ◌+◌, ◌*◌, ◌^◌, ◌<◌, ◌≤◌, ◌≡◌, refl, sym, ap, ◌∙◌, ◌⊎◌, inl, inr, true, false, Option, none,
  some, List, [], ◌∷◌, ◌++◌, arith, ltb, ◌==◌, Bool-cases, u32, Outcome, done,
}
use cordell_os.Heap.{Block, Heap, header, page_size, block_split, is_fit, grow_block, take_block}
use cordell_os.Heap.Tiling.{IsTiled, used, IsTiled-le, append-IsTiled, IsTiled-before, used-append}
use cordell_os.Heap.Take.{block_split_lem}

abbrev pub heap_end : Heap → ℕ
heap_end h = h.virt_address + h.total_pages * page_size

-- The blocks tile the pages of the heap.
pub record IsHeap (h : Heap) : Type 0 where
  pub tiled : IsTiled h.virt_address h.blocks (heap_end h)
  pub small : heap_end h < 2 ^ 32

-- `p` is the memory of a block of `size` bytes that came into use; the others in use are as before.
pub record Taken (h : Heap) (size p : ℕ) (h' : Heap) : Type 0 where
  pub block : Block
  pub before : List Block
  pub after : List Block
  pub was : used h.blocks ≡ before ++ after
  pub now : used h'.blocks ≡ before ++ block ∷ after
  pub at : p ≡ block.addr + header
  pub sized : block.size ≡ size
  pub kept : IsHeap h'

-- A block was taken, or nothing but free memory has changed and the answer is NULL.
abbrev pub Allocated : Heap → ℕ → Outcome (Option ℕ × Heap) → Type 0
Allocated h size out =
    ((p : ℕ) × (h' : Heap) × (out ≡ done (some p, h')) × Taken h size p h')
    ⊎ ((h' : Heap) × (out ≡ done (none, h')) × (used h'.blocks ≡ used h.blocks) × IsHeap h')

-- A free block among others is not in use, and another list in its place counts for itself.
pub used-free :
    (xs : List Block) (cur : Block) (ys : List Block)
    → cur.free ≡ true
    → used (xs ++ cur ∷ ys) ≡ used xs ++ used ys
unfolding used
used-free xs cur ys free = used-append xs (cur ∷ ys) ∙ ap (λ t. used xs ++ t) (simp free)

used-replaced :
    (xs new ys : List Block) (b : Block)
    → used new ≡ b ∷ []
    → used (xs ++ (new ++ ys)) ≡ used xs ++ b ∷ used ys
used-replaced xs new ys b one =
    used-append xs (new ++ ys)
    ∙ ap (λ t. used xs ++ t) (used-append new ys ∙ ap (λ t. t ++ used ys) one)

-- The list `xs ++ cur ∷ ys` tiles from `a` to `e`; so does the list with `cur` replaced.
IsTiled-replaced :
    (a e : ℕ) (xs new ys : List Block) (cur : Block)
    → IsTiled a (xs ++ cur ∷ ys) e
    → IsTiled cur.addr new (cur.addr + header + cur.size)
    → IsTiled a (xs ++ (new ++ ys)) e
IsTiled-replaced a e xs new ys cur tiled fresh =
    let (left, right) = IsTiled-before a e xs cur ys tiled in
    append-IsTiled a cur.addr e xs (new ++ ys) left
      (append-IsTiled cur.addr (cur.addr + header + cur.size) e new ys fresh right)

-- A block of a tiling lies inside of it.
pub inside :
    (a e : ℕ) (xs ys : List Block) (cur : Block)
    → IsTiled a (xs ++ cur ∷ ys) e
    → (a ≤ cur.addr) × (cur.addr + header + cur.size ≤ e)
inside a e xs ys cur tiled =
    let (left, right) = IsTiled-before a e xs cur ys tiled in
    (IsTiled-le a cur.addr xs left, IsTiled-le (cur.addr + header + cur.size) e ys right)

module _ {h : Heap} (ok : IsHeap h) (stale : ℕ → ℕ) (size : ℕ) (xs ys : List Block) (cur : Block)
    (tiled : IsTiled h.virt_address (xs ++ cur ∷ ys) (heap_end h))
    (same : used (xs ++ cur ∷ ys) ≡ used h.blocks) (free : cur.free ≡ true) where
  -- The list `new` in the place of `cur`.
  pub taken :
      (new : List Block) (b : Block)
      → used new ≡ b ∷ []
      → b.addr ≡ cur.addr
      → b.size ≡ size
      → IsTiled cur.addr new (cur.addr + header + cur.size)
      → Taken h size (u32 (cur.addr + header)) (record h { blocks = xs ++ (new ++ ys) })
  taken new b one at sized fresh = record {
    block = b;
    before = used xs;
    after = used ys;
    was = sym same ∙ used-free xs cur ys free;
    now = used-replaced xs new ys b one;
    at = omega (arith, inside h.virt_address (heap_end h) xs ys cur tiled, ok.small);
    sized = sized;
    kept = record {
      tiled = IsTiled-replaced h.virt_address (heap_end h) xs new ys cur tiled fresh;
      small = ok.small;
    };
  }

  -- The three branches at the end of `__kmalloc`; the third comes only after the last block.
  pub take_block_lem :
      (is_fit size cur ≡ true) ⊎ (ys ≡ [])
      → ((size == cur.size) ≡ false
          → ltb (u32 (size + header)) cur.size ≡ false
          → Allocated h size (grow_block stale h size xs cur ys))
      → size + header < 2 ^ 32
      → Allocated h size (take_block stale h size (xs, cur, ys))
  unfolding take_block used
  take_block_lem stop by_growth wide = elim (Bool-cases (size == cur.size)) [
    | inl exact ↦
        let e : size ≡ cur.size = ground arith in
        simp exact (
          inl (
            u32 (cur.addr + header),
            record h { blocks = xs ++ record cur { free = false } ∷ ys },
            refl,
            taken (record cur { free = false } ∷ []) (record cur { free = false }) refl refl (sym e)
                (refl, refl),
          ))
    | inr differs ↦ elim (Bool-cases (ltb (u32 (size + header)) cur.size)) [
      | inl room ↦
          let (b, one, at, sized, fresh) =
            block_split_lem stale cur size (ground arith)
              (omega (arith, inside h.virt_address (heap_end h) xs ys cur tiled, ok.small)) in
          simp (differs, room)
            (inl (
              u32 (cur.addr + header),
              record h { blocks = xs ++ (block_split stale cur size ++ ys) },
              refl,
              taken (block_split stale cur size) b one at sized fresh,
            ))
      | inr tight ↦ simp (differs, tight) (by_growth differs tight)
    ]
  ]
