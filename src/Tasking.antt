-- ===== src/Tasking.antt =====
-- The task table and the switch of src/kernel/sys/tasking.c. `R` is what `struct Registers` holds;
-- a page directory is its address, and 0 is NULL.
pub mod Scan
pub mod Switch
pub mod Rounds
pub mod Create
mod Tests
mod RoundsTests
use cordell_os.Base.{
  ℕ, zero, suc, ◌+◌, Bool, true, false, not, ◌&&◌, ◌||◌, Option, none, some, List, [], ◌∷◌, ltb,
  leb, ◌==◌, if◌then◌else◌, get_or, set, replicate, u32,
}

abbrev pub tasks_max : ℕ
tasks_max = 10

abbrev pub process_state_alive : ℕ
process_state_alive = 0

abbrev pub process_state_dead : ℕ
process_state_dead = 2

-- `Task`; a `cpuState` of NULL is `none`.
pub record Task (R : Type 0) : Type 0 where
  pub cpu_state : Option R
  pub state : ℕ
  pub pid : ℕ
  pub delay : ℕ
  pub exec_time : ℕ
  pub page_directory : ℕ

-- `TaskManager`; a `currentTask` of -1 is `none`.
pub record TaskManager (R : Type 0) : Type 0 where
  pub tasks : List (Option (Task R))
  pub tasks_count : ℕ
  pub current_task : Option ℕ
  pub tasking : Bool

-- `if (++currentTask >= tasksCount) currentTask = 0`
unfoldable pub advance : ℕ → ℕ → ℕ
advance count i = if leb count (i + 1) then 0 else i + 1

-- What a switch leaves: the table, the registers to return to and the page directory.
pub record Context (R : Type 0) : Type 0 where
  pub manager : TaskManager R
  pub regs : R
  pub directory : ℕ

module _ {R : Type 0} where
  -- `tasks[i]`
  abbrev pub task_at : TaskManager R → ℕ → Option (Task R)
  task_at m i = get_or m.tasks i none

  unfoldable pub stop_tasking : TaskManager R → TaskManager R
  stop_tasking m = record m { tasking = false }

  unfoldable pub continue_tasking : TaskManager R → TaskManager R
  continue_tasking m = elim m.current_task [
    | none ↦ m
    | some c ↦ if ltb 0 m.tasks_count then record m { tasking = true } else m
  ]

  -- `_add_task`: the result -1 is `none`.
  unfoldable pub add_to_table : TaskManager R → Option (Task R) → Option ℕ × TaskManager R
  add_to_table m none = (none, m)
  add_to_table m (some t) = if leb tasks_max m.tasks_count then (none, m) else (
    some t.pid,
    record m { tasks = set m.tasks m.tasks_count (some t); tasks_count = m.tasks_count + 1 },
  )

  unfoldable pub add_task : TaskManager R → Option (Task R) → Option ℕ × TaskManager R
  add_task m t =
      let (pid, m') = add_to_table (stop_tasking m) t in (pid, record m' { tasking = m.tasking })

  -- Whether the entry is a task that can run.
  unfoldable pub is_alive : Option (Task R) → Bool
  is_alive none = false
  is_alive (some t) = t.state == process_state_alive

  -- The loop that looks for the next task, over the scans left.
  unfoldable pub scan : TaskManager R → ℕ → ℕ → ℕ
  scan m zero i = i
  scan m (suc left) i =
      let rest = scan m left (advance m.tasks_count i) in if is_alive (task_at m i) then i else rest

  -- A switch that finds no task to run.
  abbrev pub stopped : TaskManager R → R → ℕ → Context R
  stopped m regs directory = record {
    manager = record m { tasking = false };
    regs = regs;
    directory = directory;
  }

  -- The last steps of `TASK_task_switch`, by the saved registers and the page directory of the task
  -- to run; the page directory of the task before it is the one in use.
  unfoldable pub load_state : TaskManager R → R → ℕ → ℕ → Option R → Context R
  load_state m regs directory page_directory none = stopped m regs directory
  load_state m regs directory page_directory (some loaded) = record {
    manager = m;
    regs = loaded;
    directory =
        if page_directory == 0 || page_directory == directory then directory else page_directory;
  }

  -- From the end of the scan on, by the task that it ended at.
  unfoldable pub load_task : TaskManager R → R → ℕ → Option (Task R) → Context R
  load_task m regs directory none = stopped m regs directory
  load_task m regs directory (some new) =
      if new.state == process_state_alive
      then load_state m regs directory new.page_directory new.cpu_state
      else stopped m regs directory

  -- The table with the registers of the task `t` saved.
  abbrev pub save_task : TaskManager R → R → ℕ → ℕ → Task R → TaskManager R
  save_task m regs directory c t =
      let saved = record t { cpu_state = some regs; exec_time = 0; page_directory = directory } in
      record m { tasks = set m.tasks c (some saved) }

  -- From the saving of the registers on. The page directory of the task is set to the one in use.
  unfoldable pub change_task : TaskManager R → R → ℕ → ℕ → Task R → Context R
  change_task m regs directory c t =
      let m' = save_task m regs directory c t in
      let next = scan m' m.tasks_count (advance m.tasks_count c) in
      load_task (record m' { current_task = some next }) regs directory (task_at m' next)

  -- A call that does nothing.
  abbrev pub unchanged : TaskManager R → R → ℕ → Context R
  unchanged m regs directory = record { manager = m; regs = regs; directory = directory }

  -- One more tick of the task `t`, or the end of its time.
  unfoldable pub tick : TaskManager R → R → ℕ → ℕ → Task R → Context R
  tick m regs directory c t =
      if ltb t.delay t.exec_time then change_task m regs directory c t else record {
        manager = record m {
          tasks = set m.tasks c (some (record t { exec_time = u32 (t.exec_time + 1) }));
        };
        regs = regs;
        directory = directory;
      }

  -- `if (!task || !task->cpuState) return;`
  unfoldable pub tick_task : TaskManager R → R → ℕ → ℕ → Option (Task R) → Context R
  tick_task m regs directory c none = unchanged m regs directory
  tick_task m regs directory c (some t) = elim t.cpu_state [
    | none ↦ unchanged m regs directory
    | some saved ↦ tick m regs directory c t
  ]

  unfoldable pub switch_from : TaskManager R → R → ℕ → Option ℕ → Context R
  switch_from m regs directory none = unchanged m regs directory
  switch_from m regs directory (some c) =
      if not m.tasking || leb m.tasks_count c
      then unchanged m regs directory
      else tick_task m regs directory c (task_at m c)

  unfoldable pub task_switch : TaskManager R → R → ℕ → Context R
  task_switch m regs directory = switch_from m regs directory m.current_task

  -- `_kill`: the first task with that id dies. The source would read through a NULL entry below
  -- `tasksCount`, which is passed over here.
  unfoldable pub kill_first : ℕ → ℕ → List (Option (Task R)) → List (Option (Task R))
  kill_first pid left [] = []
  kill_first pid zero ts = ts
  kill_first pid (suc left) (none ∷ ts) = none ∷ kill_first pid left ts
  kill_first pid (suc left) (some t ∷ ts) =
      let rest = kill_first pid left ts in
      if t.pid == pid then some (record t { state = process_state_dead }) ∷ ts else some t ∷ rest

  unfoldable pub kill : TaskManager R → ℕ → TaskManager R
  kill m pid =
      if ltb pid m.tasks_count then record m { tasks = kill_first pid m.tasks_count m.tasks } else m
