-- ===== src/Tasking/Scan.antt =====
-- The loop of `TASK_task_switch` that looks for the next task to run.
use cordell_os.Base.{
  ℕ, zero, suc, ◌+◌, ◌-◌, ◌<◌, ◌≤◌, ◌≡◌, refl, ap, ◌⊎◌, inl, inr, true, false, arith, ltb, leb,
  if◌then◌else◌, Bool-cases,
}
use cordell_os.Tasking.{TaskManager, task_at, is_alive, advance, scan}

-- The entry `k` steps after `i`, in a table of `count` entries that is gone round.
unfoldable pub nth_after : ℕ → ℕ → ℕ → ℕ
nth_after count zero i = i
nth_after count (suc k) i = nth_after count k (advance count i)

pub nth_after-lt : (count k i : ℕ) → i < count → nth_after count k i < count
unfolding nth_after advance
nth_after-lt count zero i lt = lt
nth_after-lt count (suc k) i lt = nth_after-lt count k (advance count i) (ground arith)

nth_after-add :
    (count k i : ℕ)
    → i < count
    → k ≤ count
    → nth_after count k i ≡ (if ltb (i + k) count then i + k else i + k - count)
unfolding nth_after advance
nth_after-add count zero i lt le = ground arith
nth_after-add count (suc k) i lt le =
    let next : advance count i < count = ground arith in
    ground (arith, nth_after-add count k (advance count i) next (omega arith))

-- Every entry is met in one round.
pub nth_after_onto :
    (count i j : ℕ) → i < count → j < count → (k : ℕ) × (k < count) × (nth_after count k i ≡ j)
nth_after_onto count i j lt lt' = elim (Bool-cases (leb i j)) [
  | inl le ↦ (j - i, omega arith, ground (arith, nth_after-add count (j - i) i lt (omega arith)))
  | inr gt ↦ (
    j + count - i,
    ground arith,
    ground (arith, nth_after-add count (j + count - i) i lt (ground arith)),
  )
]

module _ {R : Type 0} (m : TaskManager R) where
  -- The scan goes over entries that cannot run, and stops at one that can or at its last step.
  pub scan_lem :
      (left i : ℕ)
      → (k : ℕ) × (k ≤ left)
        × (scan m left i ≡ nth_after m.tasks_count k i)
        × ((j : ℕ) → j < k → is_alive (task_at m (nth_after m.tasks_count j i)) ≡ false)
        × ((is_alive (task_at m (scan m left i)) ≡ true) ⊎ (k ≡ left))
  unfolding scan nth_after
  scan_lem zero i = (0, omega arith, refl, λ j lt. absurd (omega arith), inr refl)
  scan_lem (suc left) i = elim (Bool-cases (is_alive (task_at m i))) [
    | inl alive ↦
        (0, omega arith, rw alive refl, λ j lt. absurd (omega arith), rw alive (inl alive))
    | inr stuck ↦
        let (k, le, at, passed, stop) = scan_lem left (advance m.tasks_count i) in
        let stop' : (is_alive (task_at m (scan m left (advance m.tasks_count i))) ≡ true)
            ⊎ (suc k ≡ suc left) =
          elim stop [ inl a ↦ inl a | inr e ↦ inr (ap suc e) ] in
        (suc k, omega arith, rw stuck at, by_step k stuck passed, rw stuck stop')
  ]
    where
      by_step :
          (k : ℕ)
          → is_alive (task_at m i) ≡ false
          → ((j : ℕ)
              → j < k
              → is_alive (task_at m (nth_after m.tasks_count j (advance m.tasks_count i))) ≡ false)
          → (j : ℕ) → j < suc k
          → is_alive (task_at m (nth_after m.tasks_count j i)) ≡ false
      by_step k stuck passed zero lt = stuck
      by_step k stuck passed (suc j) lt = passed j (omega arith)
