-- ===== src/Heap/Tiling.antt =====
-- The blocks of the heap tile its pages, and what is in use among them.
use cordell_os.Base.{
  ℕ, ◌+◌, ◌^◌, ◌<◌, ◌≤◌, ◌≡◌, refl, sym, ap, ◌∙◌, inl, inr, List, [], ◌∷◌, ◌++◌, arith,
  if◌then◌else◌, Bool-cases,
}
use cordell_os.Heap.{Block, header, joined, merge_free_blocks}

-- The blocks lie one after the other from `a` to `e`, each behind its header.
abbrev pub IsTiled : ℕ → List Block → ℕ → Type 0
IsTiled a [] e = a ≡ e
IsTiled a (b ∷ bs) e = (b.addr ≡ a) × IsTiled (a + header + b.size) bs e

-- The blocks in use, in order.
unfoldable pub used : List Block → List Block
used [] = []
used (b ∷ bs) = let rest = used bs in if b.free then rest else b ∷ rest

pub IsTiled-le : (a e : ℕ) (bs : List Block) → IsTiled a bs e → a ≤ e
IsTiled-le a e [] h = omega arith
IsTiled-le a e (b ∷ bs) h = omega (arith, IsTiled-le (a + header + b.size) e bs h.1)

-- Tilings that meet make one.
pub append-IsTiled :
    (a m e : ℕ) (xs ys : List Block) → IsTiled a xs m → IsTiled m ys e → IsTiled a (xs ++ ys) e
append-IsTiled a m e [] ys h h' = rw h h'
append-IsTiled a m e (x ∷ xs) ys h h' = (h.0, append-IsTiled (a + header + x.size) m e xs ys h.1 h')

pub IsTiled-before :
    (a e : ℕ) (xs : List Block) (b : Block) (ys : List Block)
    → IsTiled a (xs ++ b ∷ ys) e
    → IsTiled a xs b.addr × IsTiled (b.addr + header + b.size) ys e
IsTiled-before a e [] b ys h = (sym h.0, rw h.0 h.1)
IsTiled-before a e (x ∷ xs) b ys h =
    let (left, right) = IsTiled-before (a + header + x.size) e xs b ys h.1 in ((h.0, left), right)

pub used-append : (xs ys : List Block) → used (xs ++ ys) ≡ used xs ++ used ys
unfolding used
used-append [] ys = refl
used-append (x ∷ xs) ys = elim (Bool-cases x.free) [
  | inl e ↦ simp e (used-append xs ys)
  | inr e ↦ simp e (ap (λ t. x ∷ t) (used-append xs ys))
]

-- `__merge_free_blocks` leaves a tiling of the same bytes, with the same blocks in use.
pub merge_free_blocks_lem :
    (a e : ℕ) (bs : List Block)
    → IsTiled a bs e
    → e < 2 ^ 32
    → IsTiled a (merge_free_blocks bs) e × (used (merge_free_blocks bs) ≡ used bs)
unfolding merge_free_blocks used
merge_free_blocks_lem a e [] h lt = (h, refl)
merge_free_blocks_lem a e (b ∷ []) h lt = (h, refl)
merge_free_blocks_lem a e (b ∷ c ∷ rest) h lt =
    let tail = h.1.1 in
    let le = IsTiled-le (a + header + b.size + header + c.size) e rest tail in
    let size : (joined b c).size ≡ b.size + header + c.size = omega arith in
    let (tiled_rest, used_rest) =
      merge_free_blocks_lem (a + header + b.size + header + c.size) e rest tail lt in
    let (tiled, same) = merge_free_blocks_lem (a + header + b.size) e (c ∷ rest) h.1 lt in
    elim (Bool-cases b.free) [
      | inr busy ↦ simp busy ((h.0, tiled), ap (λ t. b ∷ t) same)
      | inl free_b ↦ elim (Bool-cases c.free) [
        | inr busy ↦ simp (free_b, busy) ((h.0, tiled), same ∙ simp busy)
        | inl free_c ↦
            let from : a + header + (joined b c).size ≡ a + header + b.size + header + c.size =
              omega arith in
            simp (free_b, free_c) ((h.0, rw from tiled_rest), used_rest)
      ]
    ]
