-- ===== src/Tasking/Rounds.antt =====
-- Timer ticks one after the other, with src/kernel/sys/tasking.c as their handler.
use cordell_os.Base.{
  ℕ, zero, suc, ◌+◌, ◌*◌, ◌^◌, ◌<◌, ◌≤◌, ◌≡◌, refl, sym, ap, ◌∙◌, inl, inr, Bool, true, false, not,
  ◌&&◌, ◌||◌, Option, none, some, arith, ltb, leb, ◌==◌, Bool-cases, get_or, get_or-set, length,
  length-set, set, u32,
}
use mathlib.Core.Path.{subst}
use native.Mathlib.Nat.{mul-le-mul_right}
use cordell_os.Tasking.{
  Task, TaskManager, Context, task_at, is_alive, advance, scan, load_state, load_task, save_task,
  change_task, tick, tick_task, switch_from, task_switch, unchanged, process_state_alive,
}
use cordell_os.Tasking.Scan.{nth_after, nth_after_onto}

module _ {R : Type 0} where
  -- `n` ticks, of which tick `i` interrupts a program whose registers are `regs i`.
  unfoldable pub ticks : (ℕ → R) → ℕ → TaskManager R → ℕ → Context R
  ticks regs zero m directory = unchanged m (regs 0) directory
  ticks regs (suc n) m directory =
      let before = ticks regs n m directory in task_switch before.manager (regs n) before.directory

  -- A task that can run, has saved registers and asks for at most `longest` ticks.
  unfoldable pub is_ready : ℕ → Option (Task R) → Bool
  is_ready longest none = false
  is_ready longest (some t) = elim t.cpu_state [
    | none ↦ false
    | some r ↦ t.state == process_state_alive && leb t.delay longest
  ]

  -- Task `c` is the current one and every task in the table is ready.
  pub record IsFair (longest : ℕ) (m : TaskManager R) (c : ℕ) : Type 0 where
    pub current : m.current_task ≡ some c
    pub within : c < m.tasks_count
    pub room : m.tasks_count ≤ length m.tasks
    pub on : m.tasking ≡ true
    pub ready : (i : ℕ) → i < m.tasks_count → is_ready longest (task_at m i) ≡ true

  -- A task that is there and ready, taken apart.
  record Ready (longest : ℕ) (o : Option (Task R)) : Type 0 where
    task : Task R
    there : o ≡ some task
    saved : R
    registers : task.cpu_state ≡ some saved
    alive : (task.state == process_state_alive) ≡ true
    short : task.delay ≤ longest

  ready-parts : (longest : ℕ) (o : Option (Task R)) → is_ready longest o ≡ true → Ready longest o
  unfolding is_ready
  ready-parts longest none h = absurd (ground arith)
  ready-parts longest (some t) h = by_state t.cpu_state refl h
    where
      by_state :
          (cpu : Option R)
          → t.cpu_state ≡ cpu
          → (elim cpu [
            | none ↦ false
            | some r ↦ t.state == process_state_alive && leb t.delay longest
          ])
            ≡ true
          → Ready longest (some t)
      by_state none e h = absurd (ground arith)
      by_state (some r) e h = record {
        task = t;
        there = refl;
        saved = r;
        registers = e;
        alive = ground arith;
        short = ground arith;
      }

  ready-alive : (longest : ℕ) (o : Option (Task R)) → is_ready longest o ≡ true → is_alive o ≡ true
  unfolding is_alive
  ready-alive longest o h =
      let parts = ready-parts longest o h in ap is_alive parts.there ∙ parts.alive

  load_task-ready :
      (longest : ℕ) (m : TaskManager R) (regs : R) (directory : ℕ) (o : Option (Task R))
      → is_ready longest o ≡ true
      → (load_task m regs directory o).manager ≡ m
  unfolding load_task load_state
  load_task-ready longest m regs directory o h =
      let parts = ready-parts longest o h in
      ap (λ u. (load_task m regs directory u).manager) parts.there
      ∙ simp (parts.alive, parts.registers) refl

  tick_task-some :
      (m : TaskManager R) (regs : R) (directory c : ℕ) (t : Task R) (r : R)
      → t.cpu_state ≡ some r
      → tick_task m regs directory c (some t) ≡ tick m regs directory c t
  unfolding tick_task
  tick_task-some m regs directory c t r e = simp e refl

  scan-alive : (m : TaskManager R) (left i : ℕ) → is_alive (task_at m i) ≡ true → scan m left i ≡ i
  unfolding scan
  scan-alive m zero i alive = refl
  scan-alive m (suc left) i alive = simp alive refl

  -- The table after the state of task `n` was loaded.
  abbrev loaded_from : TaskManager R → R → ℕ → ℕ → TaskManager R
  loaded_from m regs directory n =
      let out = load_task (record m { current_task = some n }) regs directory (task_at m n) in
      out.manager

  -- How many ticks of its time a task has had.
  abbrev exec_time_of : Option (Task R) → ℕ
  exec_time_of none = 0
  exec_time_of (some t) = t.exec_time

  module _ {longest : ℕ} {m : TaskManager R} {c : ℕ} (fair : IsFair longest m c) (regs : R)
      (directory : ℕ) where
    parts : Ready longest (task_at m c)
    parts = ready-parts longest (task_at m c) (fair.ready c fair.within)

    start_lt : advance m.tasks_count c < m.tasks_count
    unfolding advance
    start_lt = ground (arith, fair.within)

    task_switch-tick : task_switch m regs directory ≡ tick m regs directory c parts.task
    unfolding task_switch switch_from
    task_switch-tick =
        let runs : (not m.tasking || leb m.tasks_count c) ≡ false =
          ground (arith, fair.on, fair.within) in
        ap (switch_from m regs directory) fair.current
        ∙ simp runs (
            ap (tick_task m regs directory c) parts.there
            ∙ tick_task-some m regs directory c parts.task parts.saved parts.registers)

    -- A table in which the running task was replaced by a ready one.
    set-ready :
        (t : Task R)
        → is_ready longest (some t) ≡ true
        → (i : ℕ) → i < m.tasks_count
        → is_ready longest (get_or (set m.tasks c (some t)) i none) ≡ true
    set-ready t ok i lt =
        ap (is_ready longest)
          (get_or-set m.tasks c i (some t) none (omega (arith, fair.within, fair.room)))
        ∙ (elim (Bool-cases (i == c)) [
          | inl same ↦ simp same ok
          | inr other ↦ simp other (fair.ready i lt)
        ])

    is_ready-changed :
        (t : Task R)
        → t.state ≡ parts.task.state
        → t.delay ≡ parts.task.delay
        → (r : R) × (t.cpu_state ≡ some r)
        → is_ready longest (some t) ≡ true
    unfolding is_ready
    is_ready-changed t state delay (r, e) =
        let short : leb t.delay longest ≡ true = ground (arith, parts.short, delay) in
        simp (e, short, state, parts.alive) refl

    -- The time of the task is not over: one more tick of it.
    wait :
        parts.task.exec_time ≤ parts.task.delay
        → longest + 1 < 2 ^ 32
        → IsFair longest (task_switch m regs directory).manager c
          × ((task_switch m regs directory).manager.tasks_count ≡ m.tasks_count)
          × (task_at (task_switch m regs directory).manager c
              ≡ some (record parts.task { exec_time = parts.task.exec_time + 1 }))
    unfolding tick
    wait early small =
        let t = parts.task in
        let t' : Task R = record t { exec_time = t.exec_time + 1 } in
        let m' : TaskManager R = record m { tasks = set m.tasks c (some t') } in
        let no_wrap : u32 (t.exec_time + 1) ≡ t.exec_time + 1 = omega (arith, parts.short) in
        let not_due : ltb t.delay t.exec_time ≡ false = ground arith in
        let e : (task_switch m regs directory).manager ≡ m' =
          ap (λ o. o.manager) task_switch-tick
          ∙ simp not_due (
              ap (λ n. record m { tasks = set m.tasks c (some (record t { exec_time = n })) })
                no_wrap) in
        let ready' : is_ready longest (some t') ≡ true =
          is_ready-changed t' refl refl (parts.saved, parts.registers) in
        let fair' : IsFair longest m' c = record {
          current = fair.current;
          within = fair.within;
          room = omega (arith, fair.room, length-set m.tasks c (some t'));
          on = fair.on;
          ready = set-ready t' ready';
        } in
        (
          subst (λ n. IsFair longest n c) (sym e) fair',
          ap (λ n. n.tasks_count) e,
          ap (λ n. task_at n c) e
              ∙ get_or-set m.tasks c c (some t') none (omega (arith, fair.within, fair.room))
              ∙ ground arith,
        )

    -- The time of the task is over: the next one is ready, so it is the one that runs.
    turn :
        parts.task.delay < parts.task.exec_time
        → IsFair longest (task_switch m regs directory).manager (advance m.tasks_count c)
          × ((task_switch m regs directory).manager.tasks_count ≡ m.tasks_count)
    unfolding tick change_task
    turn late =
        let t = parts.task in
        let t' : Task R = record t {
          cpu_state = some regs;
          exec_time = 0;
          page_directory = directory;
        } in
        let m' : TaskManager R = save_task m regs directory c t in
        let start = advance m.tasks_count c in
        let due : ltb t.delay t.exec_time ≡ true = ground arith in
        let ready' : (i : ℕ) → i < m.tasks_count → is_ready longest (task_at m' i) ≡ true =
          set-ready t' (is_ready-changed t' refl refl (regs, refl)) in
        let first : scan m' m.tasks_count start ≡ start =
          scan-alive m' m.tasks_count start
            (ready-alive longest (task_at m' start) (ready' start start_lt)) in
        let m_next : TaskManager R = record m' { current_task = some start } in
        let e : (task_switch m regs directory).manager ≡ m_next =
          ap (λ o. o.manager) task_switch-tick
          ∙ simp due (
              ap (loaded_from m' regs directory) first
              ∙ load_task-ready longest m_next regs directory (task_at m' start)
                  (ready' start start_lt)) in
        let fair' : IsFair longest m_next start = record {
          current = refl;
          within = start_lt;
          room = omega (arith, fair.room, length-set m.tasks c (some t'));
          on = fair.on;
          ready = ready';
        } in
        (subst (λ n. IsFair longest n start) (sym e) fair', ap (λ n. n.tasks_count) e)

  module _ (longest : ℕ) (small : longest + 1 < 2 ^ 32) (regs : ℕ → R) (m : TaskManager R)
      (directory : ℕ) where
    -- The task table after `n` ticks.
    abbrev after : ℕ → TaskManager R
    after n = (ticks regs n m directory).manager

    -- After `n` ticks task `c` is running, in a table of the given size.
    abbrev At : ℕ → ℕ → ℕ → Type 0
    At count n c = IsFair longest (after n) c × ((after n).tasks_count ≡ count)

    waits :
        (count n c : ℕ) (at : At count n c)
        → (parts at.0 (regs n) (ticks regs n m directory).directory).task.exec_time
          ≤ (parts at.0 (regs n) (ticks regs n m directory).directory).task.delay
        → At count (suc n) c
          × (exec_time_of (task_at (after (suc n)) c) ≡ exec_time_of (task_at (after n) c) + 1)
    unfolding ticks
    waits count n c (fair, size) early =
        let dir = (ticks regs n m directory).directory in
        let (fair', size', there') = wait fair (regs n) dir early small in
        (
          (fair', size' ∙ size),
          ap exec_time_of there'
              ∙ ap (λ k. k + 1) (sym (ap exec_time_of (parts fair (regs n) dir).there)),
        )

    turns :
        (count n c : ℕ) (at : At count n c)
        → (parts at.0 (regs n) (ticks regs n m directory).directory).task.delay
          < (parts at.0 (regs n) (ticks regs n m directory).directory).task.exec_time
        → At count (suc n) (advance count c)
    unfolding ticks
    turns count n c (fair, size) late =
        let (fair', size') = turn fair (regs n) (ticks regs n m directory).directory late in
        (subst (λ k. IsFair longest (after (suc n)) (advance k c)) size fair', size' ∙ size)

    -- A task that has had its time but for `left` ticks is followed by the next one.
    within_turn :
        (left count n c : ℕ)
        → At count n c
        → longest < exec_time_of (task_at (after n) c) + left
        → (k : ℕ) × (n < k) × (k ≤ n + suc left) × At count k (advance count c)
    within_turn zero count n c at enough =
        let p = parts at.0 (regs n) (ticks regs n m directory).directory in
        let late : p.task.delay < p.task.exec_time =
          omega (arith, ap exec_time_of p.there, p.short) in
        (suc n, omega arith, omega arith, turns count n c at late)
    within_turn (suc left) count n c at enough =
        let p = parts at.0 (regs n) (ticks regs n m directory).directory in
        elim (Bool-cases (leb p.task.exec_time p.task.delay)) [
          | inl early ↦
              let (at', more) = waits count n c at (ground arith) in
              let (k, lo, hi, next) =
                within_turn left count (suc n) c at' (omega (arith, more, enough)) in
              (k, omega arith, omega arith, next)
          | inr late ↦ (suc n, omega arith, omega arith, turns count n c at (ground arith))
        ]

    -- `steps` turns later.
    rounds :
        (steps count n c : ℕ)
        → At count n c
        → (k : ℕ) × (n ≤ k) × (k ≤ n + steps * (longest + 2)) × At count k (nth_after count steps c)
    unfolding nth_after
    rounds zero count n c at = (n, omega arith, omega arith, at)
    rounds (suc steps) count n c at =
        let (k, lo, hi, next) = within_turn (longest + 1) count n c at (omega arith) in
        let (k', lo', hi', last) = rounds steps count k (advance count c) next in
        (k', omega arith, ground arith, last)

    always_fair : (c : ℕ) → IsFair longest m c → (n : ℕ) → (c' : ℕ) × At m.tasks_count n c'
    unfolding ticks
    always_fair c fair zero = (c, (fair, refl))
    always_fair c fair (suc n) =
        let (c', at) = always_fair c fair n in
        let p = parts at.0 (regs n) (ticks regs n m directory).directory in
        elim (Bool-cases (leb p.task.exec_time p.task.delay)) [
          | inl early ↦ let (at', more) = waits m.tasks_count n c' at (ground arith) in (c', at')
          | inr late ↦ (advance m.tasks_count c', turns m.tasks_count n c' at (ground arith))
        ]

    -- Every task that can run has its turn again and again: from any tick on, each task of the table
    -- is the current one after at most `longest + 2` ticks for each task. The table has room for its
    -- tasks, each of them is alive, has saved registers and asks for at most `longest` ticks, a
    -- number below 2 ^ 32 - 1, and no task is added or killed between the ticks.
    pub ticks-fair :
        (c : ℕ)
        → IsFair longest m c
        → (n j : ℕ) → j < m.tasks_count
        → (k : ℕ) × (n ≤ k)
          × (k ≤ n + m.tasks_count * (longest + 2))
          × ((ticks regs k m directory).manager.current_task ≡ some j)
    ticks-fair c fair n j lt =
        let (c', at) = always_fair c fair n in
        let inside : c' < m.tasks_count = omega (arith, at.0.within, at.1) in
        let (steps, few, there) = nth_after_onto m.tasks_count c' j inside lt in
        let (k, lo, hi, last) = rounds steps m.tasks_count n c' at in
        let bound : steps * (longest + 2) ≤ m.tasks_count * (longest + 2) =
          mul-le-mul_right (longest + 2) (omega arith) in
        (k, lo, omega (arith, bound), last.0.current ∙ ap some there)
