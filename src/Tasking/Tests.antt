-- ===== src/Tasking/Tests.antt =====
-- src/kernel/sys/tasking.c with three tasks, of which the second is dead; a number stands for the
-- registers.
use cordell_os.Base.{
  ℕ, zero, suc, ◌+◌, get_or, replicate, ◌<◌, ◌≡◌, refl, ◌⊎◌, true, false, Option, none, some, ◌∷◌,
  arith,
}
use cordell_os.Tasking.{
  Task, TaskManager, task_at, stop_tasking, add_to_table, add_task, is_alive, advance, scan,
  load_state, load_task, save_task, change_task, tick, tick_task, switch_from, task_switch,
  kill_first, kill,
}
use cordell_os.Tasking.Switch.{has_registers, IsRunning, Switched, task_switch_lem}

abbrev task : ℕ → ℕ → Task ℕ
task state pid = record {
  cpu_state = some (100 + pid);
  state = state;
  pid = pid;
  delay = 2;
  exec_time = 3;
  page_directory = 4096;
}

abbrev manager : TaskManager ℕ
manager = record {
  tasks = some (task 0 0) ∷ some (task 2 1) ∷ some (task 0 2) ∷ replicate 7 none;
  tasks_count = 3;
  current_task = some 0;
  tasking = true;
}

run : Unit {0}
unfolding task_switch switch_from tick_task tick change_task load_task load_state scan advance
    is_alive has_registers kill kill_first add_task add_to_table stop_tasking
run = tt

-- The dead task is passed over.
switch_runs :
    ((task_switch manager 7 4096).regs ≡ 102)
    × ((task_switch manager 7 4096).manager.current_task ≡ some 2)
unfolding run
switch_runs = (refl, refl)

-- A task that is not there is not added, and tasking goes on.
add_nothing : add_task manager none ≡ (none, manager)
unfolding run
add_nothing = refl

kill_runs : (kill manager 2).tasks ≡ (kill (kill manager 2) 2).tasks
unfolding run
kill_runs = refl

free_entries :
    (n i : ℕ) → has_registers (get_or {A = Option (Task ℕ)} (replicate n none) i none) ≡ true
unfolding has_registers
free_entries zero i = refl
free_entries (suc n) zero = refl
free_entries (suc n) (suc i) = free_entries n i

manager-IsRunning : IsRunning manager 0 (task 0 0)
manager-IsRunning = record {
  current = refl;
  within = omega arith;
  room = omega arith;
  on = refl;
  present = refl;
  registers = all;
}
  where
    all : (i : ℕ) → has_registers (task_at manager i) ≡ true
    all zero = unfold run in refl
    all (suc zero) = unfold run in refl
    all (suc (suc zero)) = unfold run in refl
    all (suc (suc (suc i))) = free_entries 7 i

task_switch_example :
    Switched (save_task manager 7 4096 0 (task 0 0)) 0 (task_switch manager 7 4096)
    ⊎ (((j : ℕ) → j < 3 → is_alive (task_at (save_task manager 7 4096 0 (task 0 0)) j) ≡ false)
        × ((task_switch manager 7 4096).manager.tasking ≡ false)
        × ((task_switch manager 7 4096).regs ≡ 7))
task_switch_example = task_switch_lem manager-IsRunning 7 4096 (omega arith)
