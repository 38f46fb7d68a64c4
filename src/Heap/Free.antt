-- ===== src/Heap/Free.antt =====
-- `__kfree`: what a call gives back to the heap.
use cordell_os.Base.{
  ℕ, ◌+◌, ◌^◌, ◌<◌, ◌≤◌, ◌≡◌, refl, ◌≢◌, inl, inr, false, not, ◌&&◌, none, List, [], ◌∷◌, ◌++◌,
  arith, ◌==◌, Bool-cases, u32,
}
use cordell_os.Heap.{Block, header, free_block}
use cordell_os.Heap.Tiling.{IsTiled, used, IsTiled-le}

-- The blocks lie in this order between `a` and `e`, and no two of them overlap.
abbrev pub IsApart : ℕ → List Block → ℕ → Type 0
IsApart a [] e = a ≤ e
IsApart a (b ∷ bs) e = (a ≤ b.addr) × IsApart (b.addr + header + b.size) bs e

IsApart-weaken : (a a' e : ℕ) (bs : List Block) → a' ≤ a → IsApart a bs e → IsApart a' bs e
IsApart-weaken a a' e [] le h = omega arith
IsApart-weaken a a' e (b ∷ bs) le h = (omega (arith, h.0), h.1)

-- The blocks in use of a tiling do not overlap.
pub used-IsApart : (a e : ℕ) (bs : List Block) → IsTiled a bs e → IsApart a (used bs) e
unfolding used
used-IsApart a e [] h = omega arith
used-IsApart a e (b ∷ bs) h =
    let rest = used-IsApart (a + header + b.size) e bs h.1 in
    elim (Bool-cases b.free) [
      | inl free ↦ simp free (IsApart-weaken (a + header + b.size) a e (used bs) (omega arith) rest)
      | inr busy ↦ simp busy (
        omega (arith, h.0),
        IsApart-weaken (a + header + b.size) (b.addr + header + b.size) e (used bs)
            (omega (arith, h.0)) rest,
      )
    ]

pub IsApart-le :
    (a e : ℕ) (xs : List Block) (b : Block) (ys : List Block)
    → IsApart a (xs ++ b ∷ ys) e
    → a ≤ b.addr
IsApart-le a e [] b ys h = h.0
IsApart-le a e (x ∷ xs) b ys h =
    omega (arith, h.0, IsApart-le (x.addr + header + x.size) e xs b ys h.1)

-- No block of the list has its memory at `p`.
abbrev pub IsAway : ℕ → List Block → Type 0
IsAway p [] = Unit
IsAway p (b ∷ bs) = (b.addr + header ≢ p) × IsAway p bs

IsAway-above : (p a e : ℕ) (bs : List Block) → p < a + header → IsApart a bs e → IsAway p bs
IsAway-above p a e [] lt h = tt
IsAway-above p a e (b ∷ bs) lt h = (
  λ same. omega (arith, h.0),
  IsAway-above p (b.addr + header + b.size) e bs (omega (arith, h.0)) h.1,
)

pub IsAway-removed :
    (a e : ℕ) (xs : List Block) (b : Block) (ys : List Block)
    → IsApart a (xs ++ b ∷ ys) e
    → IsAway (b.addr + header) (xs ++ ys)
IsAway-removed a e [] b ys h =
    IsAway-above (b.addr + header) (b.addr + header + b.size) e ys (omega arith) h.1
IsAway-removed a e (x ∷ xs) b ys h =
    let le = IsApart-le (x.addr + header + x.size) e xs b ys h.1 in
    (λ same. omega arith, IsAway-removed (x.addr + header + x.size) e xs b ys h.1)

-- A loop of `__kfree` finds nothing where no block in use has its memory at `p`.
pub free_block-none :
    (p a e : ℕ) (bs : List Block)
    → e < 2 ^ 32
    → IsTiled a bs e
    → IsAway p (used bs)
    → free_block p bs ≡ none
unfolding free_block used
free_block-none p a e [] small h away = refl
free_block-none p a e (b ∷ []) small h away = refl
free_block-none p a e (b ∷ c ∷ rest) small h away =
    let le = IsTiled-le (a + header + b.size) e (c ∷ rest) h.1 in
    let later = free_block-none p (a + header + b.size) e (c ∷ rest) small h.1 in
    elim (Bool-cases b.free) [
      | inl free ↦
          let miss : (u32 (b.addr + header) == p && not b.free) ≡ false = ground arith in
          simp (miss, later (simp free at away))
      | inr busy ↦
          let (ne, others) : (b.addr + header ≢ p) × IsAway p (used (c ∷ rest)) =
            simp busy at away in
          let miss : (u32 (b.addr + header) == p && not b.free) ≡ false = ground (arith, h.0, ne) in
          simp (miss, later others)
    ]
