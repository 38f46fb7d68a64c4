-- ===== src/Pmm/Search.antt =====
-- `_find_first_free_blocks` against the runs of free blocks.
use cordell_os.Base.{
  ℕ, zero, suc, ◌+◌, ◌^◌, ◌<◌, ◌≤◌, ◌≡◌, true, false, Option, none, some, arith, leb, ◌==◌,
  Bool-cases, inl, inr, u32, sym, ◌∙◌,
}
use native.Mathlib.Decide.{dec_lt}
use cordell_os.Pmm.{PmmMap, test_block, count_free, find_from, find_first_free_blocks}

-- All of the `n` blocks from `s` on are free.
abbrev pub AllFree : PmmMap → ℕ → ℕ → Type 0
AllFree m s n = (j : ℕ) → s ≤ j → j < s + n → test_block m j ≡ false

-- One of the `n` blocks from `s` on is in use.
abbrev pub SomeUsed : PmmMap → ℕ → ℕ → Type 0
SomeUsed m s n = (j : ℕ) × (s ≤ j) × (j < s + n) × (test_block m j ≡ true)

-- What the inner loop has found when it stops at `r`.
record Counted (m : PmmMap) (b left free r : ℕ) : Type 0 where
  low : free ≤ r
  high : r ≤ free + left
  free_run : (j : ℕ) → b + free ≤ j → j < b + r → test_block m j ≡ false
  stopped : r < free + left → test_block m (b + r) ≡ true

count_free-Counted :
    (m : PmmMap) (b left free : ℕ)
    → b + free + left < 2 ^ 32
    → Counted m b left free (count_free m b left free)
unfolding count_free
count_free-Counted m b zero free h = record {
  low = omega arith;
  high = omega arith;
  free_run = λ j p q. absurd (omega arith);
  stopped = λ p. absurd (omega arith);
}
count_free-Counted m b (suc left) free h =
    let e : u32 (b + free) ≡ b + free = omega arith in
    elim (Bool-cases (test_block m (b + free))) [
      | inl used ↦
          rw (e, used)
            (record {
              low = omega arith;
              high = omega arith;
              free_run = λ j p q. absurd (omega arith);
              stopped = λ p. used;
            })
      | inr unused ↦
          let rest = count_free-Counted m b left (free + 1) (omega arith) in
          rw (e, unused)
            (record {
              low = omega (arith, rest.low);
              high = omega (arith, rest.high);
              free_run = λ j p q. ground (arith, rest.free_run j);
              stopped = λ p. rest.stopped (omega arith);
            })
    ]

module _ (m : PmmMap) (num : ℕ) (small : m.max_blocks < 2 ^ 31) (few : num < 2 ^ 31) where
  abbrev free_at : ℕ → ℕ
  free_at b = count_free m b num 0

  counted : (b : ℕ) → b ≤ m.max_blocks + 1 → Counted m b num 0 (free_at b)
  counted b h = count_free-Counted m b num 0 (omega arith)

  -- What a round of the outer loop comes to: a hit, the end of the map, or a used block in every
  -- run that starts before the next round's first block.
  data Round (b fuel : ℕ) (out : Option ℕ) : Type 0 where
    hit : b + num ≤ m.max_blocks → AllFree m b num → out ≡ some b → Round b fuel out
    past : m.max_blocks < b + num → out ≡ none → Round b fuel out
    onward :
        (free : ℕ)
        → b + free + 1 ≤ m.max_blocks
        → free < num
        → test_block m (b + free) ≡ true
        → out ≡ find_from m num fuel (b + free + 1)
        → Round b fuel out

  round : (fuel b : ℕ) → b ≤ m.max_blocks + 1 → Round b fuel (find_from m num (suc fuel) b)
  unfolding find_from
  round fuel b h =
      let c = counted b h in
      elim (Bool-cases (leb (u32 (b + num)) m.max_blocks)) [
        | inr beyond ↦ past (ground arith) (rw beyond)
        | inl fits ↦ elim (Bool-cases (free_at b == num)) [
          | inl found ↦
              hit (ground arith) (λ j p q. c.free_run j (omega arith) (ground arith))
                (rw (fits, found))
          | inr short ↦
              let less : free_at b < num = ground (arith, c.high) in
              let wrap : u32 (b + free_at b + 1) ≡ b + free_at b + 1 = ground arith in
              onward (free_at b) (ground arith) less (c.stopped (omega (arith, less)))
                (rw (fits, short, wrap))
        ]
      ]

  find_from_sound :
      (fuel b s : ℕ)
      → b ≤ m.max_blocks + 1
      → find_from m num fuel b ≡ some s
      → (b ≤ s) × (s + num ≤ m.max_blocks) × AllFree m s num
  find_from_sound zero b s h e = unfold find_from in cc
  find_from_sound (suc fuel) b s h e = elim (round fuel b h) [
    | hit fits free out ↦
        let same : b ≡ s = ground (arith, sym out ∙ e) in rw (← same) (omega arith, fits, free)
    | past beyond out ↦ absurd (ground (arith, sym out ∙ e))
    | onward free fits less used out ↦
        let (low, high, run) = find_from_sound fuel (b + free + 1) s (omega arith) (sym out ∙ e) in
        (omega arith, high, run)
  ]

  find_from_complete :
      (fuel b s : ℕ)
      → m.max_blocks < b + fuel
      → b ≤ m.max_blocks + 1
      → find_from m num fuel b ≡ none
      → b ≤ s
      → s + num ≤ m.max_blocks
      → 0 < num
      → SomeUsed m s num
  find_from_complete zero b s f h e p q pos = absurd (omega arith)
  find_from_complete (suc fuel) b s f h e p q pos = elim (round fuel b h) [
    | hit fits free out ↦ absurd (ground (arith, sym out ∙ e))
    | past beyond out ↦ absurd (omega arith)
    | onward free fits less used out ↦ elim (dec_lt (b + free) s) [
      | yes later ↦
          find_from_complete fuel (b + free + 1) s (omega arith) (omega arith) (sym out ∙ e)
            (omega arith) q pos
      | no here ↦ (b + free, omega arith, omega arith, used)
    ]
  ]

  -- A block that the search returns starts a run of `num` free blocks, past block 0.
  pub find_first_free_blocks_sound :
      (s : ℕ)
      → find_first_free_blocks m num ≡ some s
      → (1 ≤ s) × (s + num ≤ m.max_blocks) × AllFree m s num
  unfolding find_first_free_blocks
  find_first_free_blocks_sound s e = elim (Bool-cases (num == 0)) [
    | inl empty ↦ absurd (ground arith)
    | inr some_wanted ↦ find_from_sound m.max_blocks 1 s (omega arith) (rw some_wanted at e)
  ]

  -- When the search gives up, every run of `num` blocks past block 0 has a used block.
  pub find_first_free_blocks_complete :
      (s : ℕ)
      → 0 < num
      → find_first_free_blocks m num ≡ none
      → 1 ≤ s
      → s + num ≤ m.max_blocks
      → SomeUsed m s num
  unfolding find_first_free_blocks
  find_first_free_blocks_complete s pos e p q =
      let wanted : (num == 0) ≡ false = ground arith in
      find_from_complete m.max_blocks 1 s (omega arith) (omega arith) (rw wanted at e) p q pos
