-- ===== src/Tasking/Switch.antt =====
-- `TASK_task_switch` when the time of the current task is over.
use cordell_os.Base.{
  ℕ, ◌<◌, ◌≤◌, ◌≡◌, refl, sym, ap, ◌∙◌, ◌⊎◌, inl, inr, Bool, true, false, not, ◌||◌, Option, none,
  some, arith, ltb, leb, ◌==◌, Bool-cases, get_or-set, length,
}
use mathlib.Core.Path.{subst}
use cordell_os.Tasking.{
  Task, TaskManager, Context, task_at, is_alive, advance, scan, stopped, load_state, load_task,
  save_task, change_task, tick, tick_task, switch_from, task_switch,
}
use cordell_os.Tasking.Scan.{nth_after, nth_after-lt, nth_after_onto, scan_lem}

module _ {R : Type 0} where
  -- Whether a task that is there has saved registers.
  unfoldable pub has_registers : Option (Task R) → Bool
  has_registers none = true
  has_registers (some t) = elim t.cpu_state [ none ↦ false | some r ↦ true ]

  -- The task `t`, number `c`, is running, the table has room for all tasks, and every task in it has
  -- saved registers.
  pub record IsRunning (m : TaskManager R) (c : ℕ) (t : Task R) : Type 0 where
    pub current : m.current_task ≡ some c
    pub within : c < m.tasks_count
    pub room : m.tasks_count ≤ length m.tasks
    pub on : m.tasking ≡ true
    pub present : task_at m c ≡ some t
    pub registers : (i : ℕ) → has_registers (task_at m i) ≡ true

  -- The task that the switch goes to: the first one after `c` in the table `m` that can run, with
  -- the registers that it left.
  pub record Switched (m : TaskManager R) (c : ℕ) (out : Context R) : Type 0 where
    pub steps : ℕ
    pub few : steps < m.tasks_count
    pub passed :
        (j : ℕ)
        → j < steps
        → is_alive (task_at m (nth_after m.tasks_count j (advance m.tasks_count c))) ≡ false
    pub task : Task R
    pub found : task_at m (nth_after m.tasks_count steps (advance m.tasks_count c)) ≡ some task
    pub alive : is_alive (some task) ≡ true
    pub loaded : task.cpu_state ≡ some out.regs
    pub now :
        out.manager
        ≡ record m { current_task = some (nth_after m.tasks_count steps (advance m.tasks_count c)) }

  load_state-some :
      (m : TaskManager R) (regs : R) (directory page_directory : ℕ) (cpu : Option R)
      → (elim cpu [ none ↦ false | some r ↦ true ]) ≡ true
      → (cpu ≡ some (load_state m regs directory page_directory cpu).regs)
        × ((load_state m regs directory page_directory cpu).manager ≡ m)
  unfolding load_state
  load_state-some m regs directory page_directory none h = absurd (ground arith)
  load_state-some m regs directory page_directory (some r) h = (refl, refl)

  load_task-alive :
      (m : TaskManager R) (regs : R) (directory : ℕ) (o : Option (Task R))
      → is_alive o ≡ true
      → has_registers o ≡ true
      → (t : Task R) × (o ≡ some t)
        × (t.cpu_state ≡ some (load_task m regs directory o).regs)
        × ((load_task m regs directory o).manager ≡ m)
  unfolding load_task is_alive has_registers
  load_task-alive m regs directory none alive has = absurd (ground arith)
  load_task-alive m regs directory (some t) alive has =
      let (loaded, same) = load_state-some m regs directory t.page_directory t.cpu_state has in
      simp alive (t, refl, loaded, same)

  load_task-stuck :
      (m : TaskManager R) (regs : R) (directory : ℕ) (o : Option (Task R))
      → is_alive o ≡ false
      → load_task m regs directory o ≡ stopped m regs directory
  unfolding load_task is_alive
  load_task-stuck m regs directory none stuck = refl
  load_task-stuck m regs directory (some t) stuck = simp stuck refl

  module _ {m : TaskManager R} {c : ℕ} {t : Task R} (ok : IsRunning m c t) (regs : R)
      (directory : ℕ) where
    saved_registers : (i : ℕ) → has_registers (task_at (save_task m regs directory c t) i) ≡ true
    unfolding has_registers
    saved_registers i =
        let saved : Task R = record t {
          cpu_state = some regs;
          exec_time = 0;
          page_directory = directory;
        } in
        let at = get_or-set m.tasks c i (some saved) none (omega (arith, ok.within, ok.room)) in
        ap has_registers at ∙ (elim (Bool-cases (i == c)) [
          | inl same ↦ simp same
          | inr other ↦ simp other (ok.registers i)
        ])

    calls_change :
        t.delay < t.exec_time → task_switch m regs directory ≡ change_task m regs directory c t
    unfolding task_switch switch_from tick_task tick has_registers
    calls_change over =
        let due : ltb t.delay t.exec_time ≡ true = ground arith in
        let runs : (not m.tasking || leb m.tasks_count c) ≡ false =
          ground (arith, ok.on, ok.within) in
        ap (switch_from m regs directory) ok.current
        ∙ simp runs (
            ap (tick_task m regs directory c) ok.present
            ∙ by_state t.cpu_state (subst (λ o. has_registers o ≡ true) ok.present (ok.registers c))
                due)
      where
        by_state :
            (cpu : Option R)
            → (elim cpu [ none ↦ false | some r ↦ true ]) ≡ true
            → ltb t.delay t.exec_time ≡ true
            → (elim cpu [
              | none ↦ record { manager = m; regs = regs; directory = directory }
              | some saved ↦ tick m regs directory c t
            ])
              ≡ change_task m regs directory c t
        by_state none h due = absurd (ground arith)
        by_state (some r) h due = simp due

    start_lt : advance m.tasks_count c < m.tasks_count
    unfolding advance
    start_lt = ground (arith, ok.within)

    change_task_lem :
        Switched (save_task m regs directory c t) c (change_task m regs directory c t)
        ⊎ (((j : ℕ)
              → j < m.tasks_count
              → is_alive (task_at (save_task m regs directory c t) j) ≡ false)
            × ((change_task m regs directory c t).manager.tasking ≡ false)
            × ((change_task m regs directory c t).regs ≡ regs))
    unfolding change_task
    change_task_lem =
        let m' = save_task m regs directory c t in
        let start = advance m.tasks_count c in
        let next = scan m' m.tasks_count start in
        let (k, le, at, passed, stop) = scan_lem m' m.tasks_count start in
        let all_stuck : k ≡ m.tasks_count
            → (j : ℕ) → j < m.tasks_count
            → is_alive (task_at m' j) ≡ false =
          λ e j lt.
            let (i, few, there) = nth_after_onto m.tasks_count start j start_lt lt in
            sym (ap (λ n. is_alive (task_at m' n)) there) ∙ passed i (omega arith) in
        let m_next = record m' { current_task = some next } in
        elim (Bool-cases (is_alive (task_at m' next))) [
          | inl alive ↦
              let (u, found, loaded, same) =
                load_task-alive m_next regs directory (task_at m' next) alive
                  (saved_registers next) in
              let inside : next < m.tasks_count =
                subst (λ n. n < m.tasks_count) (sym at)
                  (nth_after-lt m.tasks_count k start start_lt) in
              let few : k < m.tasks_count = (elim (Bool-cases (ltb k m.tasks_count)) [
                | inl lt ↦ ground arith
                | inr all ↦ let dead = all_stuck (ground arith) next inside in absurd (ground arith)
              ]) in
              inl (record {
                steps = k;
                few = few;
                passed = passed;
                task = u;
                found = ap (task_at m') (sym at) ∙ found;
                alive = sym (ap is_alive found) ∙ alive;
                loaded = loaded;
                now = same ∙ ap (λ n. record m' { current_task = some n }) at;
              })
          | inr stuck ↦
              let stopping = load_task-stuck m_next regs directory (task_at m' next) stuck in
              let all : k ≡ m.tasks_count = (elim stop [
                | inl alive ↦ absurd (ground arith)
                | inr e ↦ e
              ]) in
              inr (
                all_stuck all,
                ap (λ out. out.manager.tasking) stopping,
                ap (λ out. out.regs) stopping,
              )
        ]

    -- When the time of the running task is over, its registers are saved; then the first task after
    -- it that can run, itself included, becomes the current one and its saved registers are loaded.
    -- Where no task can run, tasking stops and the registers stay. The table has room for its tasks,
    -- and each task in it has saved registers.
    pub task_switch_lem :
        t.delay < t.exec_time
        → Switched (save_task m regs directory c t) c (task_switch m regs directory)
          ⊎ (((j : ℕ)
                → j < m.tasks_count
                → is_alive (task_at (save_task m regs directory c t) j) ≡ false)
              × ((task_switch m regs directory).manager.tasking ≡ false)
              × ((task_switch m regs directory).regs ≡ regs))
    task_switch_lem over =
        subst
          (λ out.
            Switched (save_task m regs directory c t) c out
            ⊎ (((j : ℕ)
                  → j < m.tasks_count
                  → is_alive (task_at (save_task m regs directory c t) j) ≡ false)
                × (out.manager.tasking ≡ false)
                × (out.regs ≡ regs)))
          (sym (calls_change over)) change_task_lem
