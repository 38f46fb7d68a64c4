-- ===== src/Tasking/RoundsTests.antt =====
-- The ticks and the creation of tasks of src/kernel/sys/tasking.c on two tasks that run.
use cordell_os.Base.{
  ℕ, zero, suc, ◌+◌, ◌*◌, ◌<◌, ◌≤◌, ◌≡◌, refl, true, some, ◌∷◌, [], arith, if◌then◌else◌, ◌==◌,
}
use cordell_os.Tasking.{
  Task, TaskManager, task_at, kill, kill_first, stop_tasking, continue_tasking,
}
use cordell_os.Tasking.Rounds.{ticks, is_ready, IsFair, ticks-fair}
use cordell_os.Tasking.Create.{
  free_pid, free_pid_lem, get_task, kill_current, start_tasking, Registers, loaded_from,
  new_registers, new_stack, pop_registers, pop_registers-new_stack,
}

abbrev task : ℕ → ℕ → Task ℕ
task pid delay = record {
  cpu_state = some (100 + pid);
  state = 0;
  pid = pid;
  delay = delay;
  exec_time = 0;
  page_directory = 4096;
}

abbrev manager : TaskManager ℕ
manager = record {
  tasks = some (task 0 2) ∷ some (task 1 5) ∷ [];
  tasks_count = 2;
  current_task = some 0;
  tasking = true;
}

both_ready : (i : ℕ) → i < 2 → is_ready 5 (task_at manager i) ≡ true
unfolding is_ready
both_ready zero lt = refl
both_ready (suc zero) lt = refl
both_ready (suc (suc i)) lt = absurd (omega arith)

manager-IsFair : IsFair 5 manager 0
manager-IsFair = record {
  current = refl;
  within = omega arith;
  room = omega arith;
  on = refl;
  ready = both_ready;
}

ticks-fair_example :
    (k : ℕ) × (8 ≤ k)
    × (k ≤ 8 + 2 * (5 + 2))
    × ((ticks (λ i. i) k manager 4096).manager.current_task ≡ some 1)
ticks-fair_example =
    ticks-fair 5 (omega arith) (λ i. i) manager 4096 0 manager-IsFair 8 1 (omega arith)

-- Memory that holds 7 everywhere, as `ALC_malloc` gives it.
abbrev held : Registers
held = record {
  ds = 7;
  edi = 7;
  esi = 7;
  ebp = 7;
  kern_esp = 7;
  ebx = 7;
  edx = 7;
  ecx = 7;
  eax = 7;
  interrupt = 7;
  error = 7;
  eip = 7;
  cs = 7;
  eflag = 7;
  esp = 7;
  ss = 7;
}

pop_registers-new_stack_example :
    let s = new_stack 8192 4194304 (λ a. 7) in
    let r = new_registers held 8192 4194304 s.pointer in
    (pop_registers (record s { pointer = r.esp }) ≡ loaded_from r (8192 + 4096)) × (r.ds ≡ 7)
pop_registers-new_stack_example = pop_registers-new_stack held 8192 4194304 (λ a. 7) (omega arith)

free_pid_example : free_pid manager ≡ some (if 0 == 0 then 1 else 0)
free_pid_example = free_pid_lem manager (task 0 2) (some (task 1 5) ∷ []) (omega arith) refl

-- A third task would have the id of the second.
third_task : get_task 1 10 manager.tasks ≡ some (task 1 5)
unfolding get_task
third_task = refl

kill_runs : (kill_current manager).tasks ≡ (kill manager 0).tasks
unfolding kill_current kill kill_first stop_tasking continue_tasking
kill_runs = refl

start_runs : start_tasking manager ≡ some (manager, 4096, 100)
unfolding start_tasking
start_runs = refl
