-- ===== src/Ata/Poll.antt =====
-- `_is_ata_ready` of src/kernel/arch/drivers/ata.c: two loops with a timeout that read the status
-- port. What the port answers to each read is a parameter. A loop also returns how often it read.
use cordell_os.Base.{
  ℕ, zero, suc, ◌+◌, ◌*◌, ◌<◌, ◌≤◌, ◌≡◌, refl, sym, ap, ◌∙◌, ◌⊎◌, inl, inr, ◌↔◌, Bool, true, false,
  not, Option, none, some, arith, ◌==◌, if◌then◌else◌, bit_and, Bool-cases,
}

abbrev pub status_err : ℕ
status_err = 1

abbrev pub status_drq : ℕ
status_drq = 8

abbrev pub status_df : ℕ
status_df = 32

abbrev pub status_bsy : ℕ
status_bsy = 128

abbrev pub ready_timeout : ℕ
ready_timeout = 9000000

-- `status & mask`
unfoldable pub has_flag : ℕ → ℕ → Bool
has_flag mask status = not (bit_and status mask == 0)

-- `status & (ATA_STATUS_ERR | ATA_STATUS_DF)`
unfoldable pub is_error : ℕ → Bool
is_error status = has_flag (status_err + status_df) status

-- The `do` loop, over the reads left: the status it ends with, and the number of the next read.
-- The read that makes the timeout negative is the last one.
unfoldable pub busy_loop : (ℕ → ℕ) → ℕ → ℕ → Option ℕ × ℕ
busy_loop port zero i = (none, i + 1)
busy_loop port (suc left) i =
    let rest = busy_loop port left (i + 1) in
    if is_error (port i)
    then (none, i + 1)
    else if has_flag status_bsy (port i)
    then rest
    else (some (port i), i + 1)

-- The `while` loop.
unfoldable pub data_loop : (ℕ → ℕ) → ℕ → ℕ → ℕ → Bool × ℕ
data_loop port zero status i = if has_flag status_drq status then (true, i) else (false, i + 1)
data_loop port (suc left) status i =
    let rest = data_loop port left (port i) (i + 1) in
    if has_flag status_drq status
    then (true, i)
    else if is_error (port i)
    then (false, i + 1)
    else rest

abbrev pub after_busy : (ℕ → ℕ) → Option ℕ × ℕ → Bool × ℕ
after_busy port (none, i) = (false, i)
after_busy port (some status, i) = data_loop port ready_timeout status i

-- `_is_ata_ready`, and how often it read the port. `present` is that of the current device, false
-- where there is none.
unfoldable pub is_ata_ready : Bool → (ℕ → ℕ) → Bool × ℕ
is_ata_ready present port =
    if present then after_busy port (busy_loop port ready_timeout 0) else (false, 0)

busy_loop-reads : (port : ℕ → ℕ) (left i : ℕ) → (busy_loop port left i).1 ≤ i + left + 1
unfolding busy_loop
busy_loop-reads port zero i = omega arith
busy_loop-reads port (suc left) i = ground (arith, busy_loop-reads port left (i + 1))

data_loop-reads :
    (port : ℕ → ℕ) (left status i : ℕ) → (data_loop port left status i).1 ≤ i + left + 1
unfolding data_loop
data_loop-reads port zero status i = ground arith
data_loop-reads port (suc left) status i =
    ground (arith, data_loop-reads port left (port i) (i + 1))

-- The reads from `i` on up to `j` agree.
abbrev pub All : (ℕ → Bool) → Bool → ℕ → ℕ → Type 0
All test b i j = (k : ℕ) → i ≤ k → k < j → test k ≡ b

All-from :
    (test : ℕ → Bool) (b : Bool) (i j : ℕ) → test i ≡ b → All test b (i + 1) j → All test b i j
All-from test b i j here next k lo hi = elim (Bool-cases (k == i)) [
  | inl same ↦ let e : k ≡ i = ground arith in ap test e ∙ here
  | inr other ↦ next k (ground arith) hi
]

-- From read `i` on the device was busy, until it was not at read `j`; no read had an error.
pub record BecameIdle (port : ℕ → ℕ) (i j : ℕ) : Type 0 where
  pub in_order : i ≤ j
  pub no_error : All (λ k. is_error (port k)) false i (suc j)
  pub busy : All (λ k. has_flag status_bsy (port k)) true i j
  pub idle : has_flag status_bsy (port j) ≡ false

-- From read `i` on the device did not ask for data, until it did at read `j`; no read behind `i` had
-- an error.
pub record AskedForData (port : ℕ → ℕ) (i j : ℕ) : Type 0 where
  pub in_order : i ≤ j
  pub no_error : All (λ k. is_error (port k)) false (i + 1) (suc j)
  pub waiting : All (λ k. has_flag status_drq (port k)) false i j
  pub asks : has_flag status_drq (port j) ≡ true

busy_loop_complete :
    (port : ℕ → ℕ) (left i j : ℕ)
    → j < i + left
    → BecameIdle port i j
    → busy_loop port left i ≡ (some (port j), j + 1)
unfolding busy_loop
busy_loop_complete port zero i j lt became = absurd (omega (arith, became.in_order))
busy_loop_complete port (suc left) i j lt became =
    let good : is_error (port i) ≡ false =
      became.no_error i (omega arith) (omega (arith, became.in_order)) in
    elim (Bool-cases (j == i)) [
      | inl here ↦
          let e : j ≡ i = ground arith in
          let idle : has_flag status_bsy (port i) ≡ false =
            ap (λ k. has_flag status_bsy (port k)) (sym e) ∙ became.idle in
          simp (good, idle) (ap (λ k. (some (port k), k + 1)) (sym e))
      | inr later ↦
          let past : i < j = ground (arith, became.in_order) in
          let busy : has_flag status_bsy (port i) ≡ true = became.busy i (omega arith) past in
          simp (good, busy)
            (busy_loop_complete port left (i + 1) j (omega arith) (record {
              in_order = omega arith;
              no_error = λ k lo hi. became.no_error k (omega arith) hi;
              busy = λ k lo hi. became.busy k (omega arith) hi;
              idle = became.idle;
            }))
    ]

busy_loop-cases :
    (port : ℕ → ℕ) (left i : ℕ)
    → ((busy_loop port left i).0 ≡ none)
      ⊎ ((j : ℕ) × (j < i + left)
          × (busy_loop port left i ≡ (some (port j), j + 1))
          × BecameIdle port i j)
unfolding busy_loop
busy_loop-cases port zero i = inl refl
busy_loop-cases port (suc left) i = elim (Bool-cases (is_error (port i))) [
  | inl bad ↦ simp bad (inl refl)
  | inr good ↦ elim (Bool-cases (has_flag status_bsy (port i))) [
    | inl busy ↦ elim (busy_loop-cases port left (i + 1)) [
      | inl failed ↦ simp (good, busy) (inl failed)
      | inr (j, lt, e, became) ↦ inr (
        j,
        omega arith,
        simp (good, busy) e,
        record {
          in_order = omega (arith, became.in_order);
          no_error = All-from (λ k. is_error (port k)) false i (suc j) good became.no_error;
          busy = All-from (λ k. has_flag status_bsy (port k)) true i j busy became.busy;
          idle = became.idle;
        },
      )
    ]
    | inr idle ↦ inr (
      i,
      omega arith,
      simp (good, idle) refl,
      record {
        in_order = omega arith;
        no_error =
            All-from (λ k. is_error (port k)) false i (suc i) good
              (λ k lo hi. absurd (omega arith));
        busy = λ k lo hi. absurd (omega arith);
        idle = idle;
      },
    )
  ]
]

data_loop_complete :
    (port : ℕ → ℕ) (left i j : ℕ)
    → j ≤ i + left
    → AskedForData port i j
    → data_loop port left (port i) (i + 1) ≡ (true, j + 1)
unfolding data_loop
data_loop_complete port zero i j le asked =
    let e : j ≡ i = omega (arith, asked.in_order) in
    let asks : has_flag status_drq (port i) ≡ true =
      ap (λ k. has_flag status_drq (port k)) (sym e) ∙ asked.asks in
    simp asks (ap (λ k. (true, k + 1)) (sym e))
data_loop_complete port (suc left) i j le asked = elim (Bool-cases (j == i)) [
  | inl here ↦
      let e : j ≡ i = ground arith in
      let asks : has_flag status_drq (port i) ≡ true =
        ap (λ k. has_flag status_drq (port k)) (sym e) ∙ asked.asks in
      simp asks (ap (λ k. (true, k + 1)) (sym e))
  | inr later ↦
      let past : i < j = ground (arith, asked.in_order) in
      let waits : has_flag status_drq (port i) ≡ false = asked.waiting i (omega arith) past in
      let good : is_error (port (i + 1)) ≡ false =
        asked.no_error (i + 1) (omega arith) (omega arith) in
      simp (waits, good)
        (data_loop_complete port left (i + 1) j (omega arith) (record {
          in_order = omega arith;
          no_error = λ k lo hi. asked.no_error k (omega arith) hi;
          waiting = λ k lo hi. asked.waiting k (omega arith) hi;
          asks = asked.asks;
        }))
]

asks_at_once : (port : ℕ → ℕ) (i : ℕ) → has_flag status_drq (port i) ≡ true → AskedForData port i i
asks_at_once port i asks = record {
  in_order = omega arith;
  no_error = λ k lo hi. absurd (omega arith);
  waiting = λ k lo hi. absurd (omega arith);
  asks = asks;
}

data_loop-cases :
    (port : ℕ → ℕ) (left i : ℕ)
    → ((data_loop port left (port i) (i + 1)).0 ≡ false)
      ⊎ ((j : ℕ) × (j ≤ i + left) × AskedForData port i j)
unfolding data_loop
data_loop-cases port zero i = elim (Bool-cases (has_flag status_drq (port i))) [
  | inl asks ↦ inr (i, omega arith, asks_at_once port i asks)
  | inr waits ↦ simp waits (inl refl)
]
data_loop-cases port (suc left) i = elim (Bool-cases (has_flag status_drq (port i))) [
  | inl asks ↦ inr (i, omega arith, asks_at_once port i asks)
  | inr waits ↦ elim (Bool-cases (is_error (port (i + 1)))) [
    | inl bad ↦ simp (waits, bad) (inl refl)
    | inr good ↦ elim (data_loop-cases port left (i + 1)) [
      | inl failed ↦ simp (waits, good) (inl failed)
      | inr (j, le, asked) ↦ inr (
        j,
        omega arith,
        record {
          in_order = omega (arith, asked.in_order);
          no_error = All-from (λ k. is_error (port k)) false (i + 1) (suc j) good asked.no_error;
          waiting = All-from (λ k. has_flag status_drq (port k)) false i j waits asked.waiting;
          asks = asked.asks;
        },
      )
    ]
  ]
]

after_busy-none : (port : ℕ → ℕ) (r : Option ℕ × ℕ) → r.0 ≡ none → after_busy port r ≡ (false, r.1)
after_busy-none port (none, n) e = refl
after_busy-none port (some status, n) e = absurd (ground arith)

-- The call by how its first loop ends.
is_ata_ready-cases :
    (port : ℕ → ℕ)
    → ((n : ℕ) × (n ≤ ready_timeout + 1) × (is_ata_ready true port ≡ (false, n)))
      ⊎ ((i : ℕ) × (i < ready_timeout)
          × BecameIdle port 0 i
          × (is_ata_ready true port ≡ data_loop port ready_timeout (port i) (i + 1)))
unfolding is_ata_ready
is_ata_ready-cases port = elim (busy_loop-cases port ready_timeout 0) [
  | inl failed ↦ inl (
    (busy_loop port ready_timeout 0).1,
    omega (arith, busy_loop-reads port ready_timeout 0),
    after_busy-none port (busy_loop port ready_timeout 0) failed,
  )
  | inr (i, lt, e, idle) ↦ inr (i, omega arith, idle, ap (after_busy port) e)
]

-- `_is_ata_ready` ends after at most 18000002 reads of the status port, whatever the port answers.
-- For a device that is there, the result is 1 just where the device stops being busy within 9000000
-- reads, asks for data within 9000000 more, and no read up to that one reports an error.
pub is_ata_ready_lem :
    (port : ℕ → ℕ)
    → ((is_ata_ready true port).1 ≤ 2 * ready_timeout + 2)
      × (((is_ata_ready true port).0 ≡ true) ↔ (
          (i : ℕ) × (j : ℕ) × (i < ready_timeout)
          × (j ≤ i + ready_timeout)
          × BecameIdle port 0 i
          × AskedForData port i j))
unfolding is_ata_ready
is_ata_ready_lem port = (bound, (sound, complete))
  where
    bound : (is_ata_ready true port).1 ≤ 2 * ready_timeout + 2
    bound = elim (is_ata_ready-cases port) [
      | inl (n, le, e) ↦ let same = ap (λ r. r.1) e in omega (arith, same)
      | inr (i, lt, idle, e) ↦
          let same = ap (λ r. r.1) e in
          omega (arith, same, data_loop-reads port ready_timeout (port i) (i + 1))
    ]

    sound :
        (is_ata_ready true port).0 ≡ true
        → (i : ℕ) × (j : ℕ) × (i < ready_timeout)
          × (j ≤ i + ready_timeout)
          × BecameIdle port 0 i
          × AskedForData port i j
    sound is_ready = elim (is_ata_ready-cases port) [
      | inl (n, le, e) ↦ let same = ap (λ r. r.0) e in absurd (ground arith)
      | inr (i, lt, idle, e) ↦ elim (data_loop-cases port ready_timeout i) [
        | inl failed ↦ let same = ap (λ r. r.0) e in absurd (ground arith)
        | inr (j, le, asked) ↦ (i, j, lt, le, idle, asked)
      ]
    ]

    complete :
        ((i : ℕ) × (j : ℕ) × (i < ready_timeout)
          × (j ≤ i + ready_timeout)
          × BecameIdle port 0 i
          × AskedForData port i j)
        → (is_ata_ready true port).0 ≡ true
    complete (i, j, lt, le, idle, asked) =
        ap (λ r. (after_busy port r).0) (busy_loop_complete port ready_timeout 0 i lt idle)
        ∙ ap (λ r. r.0) (data_loop_complete port ready_timeout i j le asked)
