-- ===== src/Heap/Release.antt =====
-- `__kfree` as a whole, on the memory of a block in use.
use cordell_os.Base.{
  ℕ, ◌+◌, ◌^◌, ◌<◌, ◌≡◌, refl, sym, ap, ap₂, ◌∙◌, inl, inr, true, false, not, ◌&&◌, none, some,
  List, [], ◌∷◌, ◌++◌, arith, ltb, leb, ◌==◌, if◌then◌else◌, Bool-cases, u32,
}
use mathlib.Core.Path.{subst}
use cordell_os.Pmm.{PmmMap}
use cordell_os.Heap.{
  Block, Heap, header, merge_free_blocks, free_block, clear, released, kfree_first, kfree_second,
  kfree,
}
use cordell_os.Heap.Tiling.{IsTiled, used, IsTiled-le, merge_free_blocks_lem}
use cordell_os.Heap.Take.{last_free, last_free-cons, last_free-merge_free_blocks}
use cordell_os.Heap.Allocate.{heap_end, IsHeap}
use cordell_os.Heap.Free.{
  IsApart, used-IsApart, IsApart-le, IsAway, IsAway-removed, free_block-none,
}

head_or : Block → List Block → Block
head_or d [] = d
head_or d (b ∷ bs) = b

tail : List Block → List Block
tail [] = []
tail (b ∷ bs) = bs

-- What a loop of `__kfree` makes of the list `bs` when it finds `b`.
pub record Freed (a e : ℕ) (b : Block) (before after : List Block) (bs : List Block) : Type 0 where
  pub now : used bs ≡ before ++ after
  pub tiled : IsTiled a bs e
  pub last : last_free bs ≡ true

-- The block of the list that is in use is found, if the last block is free.
free_block_lem :
    (a e : ℕ) (bs before : List Block) (b : Block) (after : List Block)
    → e < 2 ^ 32
    → IsTiled a bs e
    → last_free bs ≡ true
    → used bs ≡ before ++ b ∷ after
    → (bs' : List Block) × (free_block (b.addr + header) bs ≡ some (b, bs'))
      × Freed a e b before after bs'
unfolding free_block used last_free head_or tail
free_block_lem a e [] [] b after small h last was = absurd (ground arith)
free_block_lem a e [] (x ∷ xs) b after small h last was = absurd (ground arith)
free_block_lem a e (c ∷ []) [] b after small h last was = absurd (ground arith)
free_block_lem a e (c ∷ []) (x ∷ xs) b after small h last was = absurd (ground arith)
free_block_lem a e (c ∷ d ∷ rest) before b after small h last was = elim (Bool-cases c.free) [
  | inl free ↦
      let (bs', found, freed) =
        free_block_lem (a + header + c.size) e (d ∷ rest) before b after small h.1 last
          (simp free at was) in
      let miss : (u32 (c.addr + header) == b.addr + header && not c.free) ≡ false = ground arith in
      (
        c ∷ bs',
        simp (miss, found) refl,
        record {
          now = simp free freed.now;
          tiled = (h.0, freed.tiled);
          last = last_free-cons c bs' freed.last;
        },
      )
  | inr busy ↦ in_use before (simp busy at was) busy (λ xs tail_was.
      free_block_lem (a + header + c.size) e (d ∷ rest) xs b after small h.1 last tail_was)
]
  where
    in_use :
        (before : List Block)
        → c ∷ used (d ∷ rest) ≡ before ++ b ∷ after
        → c.free ≡ false
        → ((xs : List Block)
            → used (d ∷ rest) ≡ xs ++ b ∷ after
            → (bs' : List Block) × (free_block (b.addr + header) (d ∷ rest) ≡ some (b, bs'))
              × Freed (a + header + c.size) e b xs after bs')
        → (bs' : List Block) × (free_block (b.addr + header) (c ∷ d ∷ rest) ≡ some (b, bs'))
          × Freed a e b before after bs'
    in_use [] was' busy later =
        let same : c ≡ b = ap (head_or b) was' in
        let at : c.addr ≡ b.addr = ap (λ t. t.addr) same in
        let le = IsTiled-le (a + header + c.size) e (d ∷ rest) h.1 in
        let hit : (u32 (c.addr + header) == b.addr + header && not c.free) ≡ true =
          ground (arith, h.0) in
        (
          record c { free = true } ∷ d ∷ rest,
          simp hit (ap (λ t. some (t, record c { free = true } ∷ d ∷ rest)) same),
          record { now = ap tail was'; tiled = h; last = last },
        )
    in_use (x ∷ xs) was' busy later =
        let same : c ≡ x = ap (head_or b) was' in
        let tail_was : used (d ∷ rest) ≡ xs ++ b ∷ after = ap tail was' in
        let (bs', found, freed) = later xs tail_was in
        let apart =
          subst (λ t. IsApart (a + header + c.size) t e) tail_was
            (used-IsApart (a + header + c.size) e (d ∷ rest) h.1) in
        let le = IsApart-le (a + header + c.size) e xs b after apart in
        let miss : (u32 (c.addr + header) == b.addr + header && not c.free) ≡ false =
          ground (arith, h.0) in
        (
          c ∷ bs',
          simp (miss, found) refl,
          record {
            now = simp busy (ap₂ (λ s t. s ∷ t) same freed.now);
            tiled = (h.0, freed.tiled);
            last = last_free-cons c bs' freed.last;
          },
        )

-- What `__kfree` has done with the memory of `b`.
pub record Released (h : Heap) (b : Block) (before after : List Block) (h' : Heap) : Type 0 where
  pub now : used h'.blocks ≡ before ++ after
  pub zeroed :
      (x : ℕ)
      → h'.memory x
        ≡ (if leb (b.addr + header) x && ltb x (b.addr + header + b.size) then 0 else h.memory x)
  pub kept : IsHeap h'
  pub last : last_free h'.blocks ≡ true
  pub same_pages : (h'.pmm ≡ h.pmm) × (h'.total_pages ≡ h.total_pages)

kfree_first_lem :
    (h : Heap) (p : ℕ) (b : Block) (bs : List Block)
    → free_block p h.blocks ≡ some (b, bs)
    → kfree_first h p ≡ released h p b bs
unfolding kfree_first
kfree_first_lem h p b bs found = rw (found, kfree_first) refl

kfree_second_lem :
    (free_page : PmmMap → ℕ → PmmMap) (h : Heap) (p : ℕ)
    → free_block p h.blocks ≡ none
    → kfree_second free_page h p ≡ h
unfolding kfree_second
kfree_second_lem free_page h p missing = rw (missing, kfree_second) refl

-- On a heap whose blocks tile its pages and whose last block is free, `__kfree` of the memory of a
-- block in use succeeds: that block is no longer in use, the others in use are as before, exactly
-- its bytes are zeroed, the blocks tile the heap's pages and the last is free again. The second loop
-- finds nothing, so no page goes back.
pub kfree_lem :
    {h : Heap} (ok : IsHeap h) (free_page : PmmMap → ℕ → PmmMap) (before : List Block) (b : Block)
    (after : List Block)
    → last_free h.blocks ≡ true
    → used h.blocks ≡ before ++ b ∷ after
    → (h' : Heap) × (kfree free_page h (b.addr + header) ≡ (true, h'))
      × Released h b before after h'
unfolding kfree clear
kfree_lem {h} ok free_page before b after last was =
    let a = h.virt_address in
    let e = heap_end h in
    let p = b.addr + header in
    let (bs, found, freed) =
      free_block_lem a e h.blocks before b after ok.small ok.tiled last was in
    let (tiled, same) = merge_free_blocks_lem a e bs freed.tiled ok.small in
    let now = same ∙ freed.now in
    let apart = subst (λ t. IsApart a t e) was (used-IsApart a e h.blocks ok.tiled) in
    let away = IsAway-removed a e before b after apart in
    let missing =
      free_block-none p a e (merge_free_blocks bs) ok.small tiled
        (subst (λ t. IsAway p t) (sym now) away) in
    let given : (p == 0) ≡ false = ground arith in
    (
      released h p b bs,
      rw given (
          ap (λ t. (true, t))
            (ap (λ t. kfree_second free_page t p) (kfree_first_lem h p b bs found)
              ∙ kfree_second_lem free_page (released h p b bs) p missing)),
      record {
        now = now;
        zeroed = λ x. refl;
        kept = record { tiled = tiled; small = ok.small };
        last = last_free-merge_free_blocks bs freed.last;
        same_pages = (refl, refl);
      },
    )
