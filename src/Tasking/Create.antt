-- ===== src/Tasking/Create.antt =====
-- The parts of `TASK_create_task` in src/kernel/sys/tasking.c that choose the id and set up the stack,
-- with `TASK_start_tasking`, `_get_task` and `__kill`. The memory is a word for each address.
use cordell_os.Base.{
  ℕ, zero, suc, ◌+◌, ◌-◌, ◌<◌, ◌≤◌, ◌≡◌, refl, ap, ap₂, ◌∙◌, true, false, Option, none, some, List,
  [], ◌∷◌, arith, leb, ◌==◌, if◌then◌else◌, get_or, length, u32, ◌^◌, ◌*◌,
}
use cordell_os.Tasking.{Task, TaskManager, task_at, tasks_max, stop_tasking, continue_tasking, kill}

-- The inner loop of the search for an id, over the ids left: the first one that is not `taken`.
unfoldable pub free_id : ℕ → ℕ → ℕ → Option ℕ
free_id taken id zero = none
free_id taken id (suc left) =
    let rest = free_id taken (id + 1) left in if taken == id then rest else some id

free_id-first : (taken : ℕ) → free_id taken 0 tasks_max ≡ some (if taken == 0 then 1 else 0)
unfolding free_id
free_id-first zero = refl
free_id-first (suc n) = ground arith

module _ {R : Type 0} where
  -- The outer loop, over the entries left; the first entry with an id to give ends it. The source
  -- would read through a NULL entry below `tasksCount`, which is passed over here.
  unfoldable pub find_pid : ℕ → List (Option (Task R)) → Option ℕ
  find_pid left [] = none
  find_pid zero ts = none
  find_pid (suc left) (none ∷ ts) = find_pid left ts
  find_pid (suc left) (some t ∷ ts) =
      let rest = find_pid left ts in
      elim (free_id t.pid 0 tasks_max) [ none ↦ rest | some id ↦ some id ]

  -- The id of a task that is created; `none` is -1, with which the creation fails.
  unfoldable pub free_pid : TaskManager R → Option ℕ
  free_pid m = if m.tasks_count == 0 then some 0 else find_pid m.tasks_count m.tasks

  -- `_get_task`
  unfoldable pub get_task : ℕ → ℕ → List (Option (Task R)) → Option (Task R)
  get_task pid left [] = none
  get_task pid zero ts = none
  get_task pid (suc left) (none ∷ ts) = get_task pid left ts
  get_task pid (suc left) (some t ∷ ts) =
      let rest = get_task pid left ts in if t.pid == pid then some t else rest

  abbrev kill_task : TaskManager R → Option (Task R) → TaskManager R
  kill_task m none = m
  kill_task m (some t) = continue_tasking (kill (stop_tasking m) t.pid)

  -- `__kill`: the current task dies.
  unfoldable pub kill_current : TaskManager R → TaskManager R
  kill_current m = elim m.current_task [
    | none ↦ m
    | some c ↦ if leb m.tasks_count c then m else kill_task m (task_at m c)
  ]

  -- What `TASK_start_tasking` does before it loads the registers of the first task: the table, the
  -- page directory and the saved registers. It returns where there is no task to start.
  abbrev start_with : TaskManager R → ℕ → Option R → Option (TaskManager R × ℕ × R)
  start_with m directory none = none
  start_with m directory (some r) =
      some (record m { current_task = some 0; tasking = true }, directory, r)

  abbrev start_first : TaskManager R → Option (Task R) → Option (TaskManager R × ℕ × R)
  start_first m none = none
  start_first m (some t) = start_with m t.page_directory t.cpu_state

  unfoldable pub start_tasking : TaskManager R → Option (TaskManager R × ℕ × R)
  start_tasking m = if m.tasks_count == 0 then none else start_first m (task_at m 0)

  find_pid-first :
      (left : ℕ) (t : Task R) (ts : List (Option (Task R)))
      → find_pid (suc left) (some t ∷ ts) ≡ some (if t.pid == 0 then 1 else 0)
  unfolding find_pid
  find_pid-first left t ts = rw (find_pid, free_id-first t.pid) refl

  -- A task is created with id 1 where the first task of the table has id 0, and with id 0 where it
  -- has another one, whatever ids the other tasks have. The table is not empty.
  pub free_pid_lem :
      (m : TaskManager R) (t : Task R) (ts : List (Option (Task R)))
      → 0 < m.tasks_count
      → m.tasks ≡ some t ∷ ts
      → free_pid m ≡ some (if t.pid == 0 then 1 else 0)
  unfolding free_pid
  free_pid_lem m t ts some_tasks first =
      let full : (m.tasks_count == 0) ≡ false = ground arith in
      let count : m.tasks_count ≡ suc (m.tasks_count - 1) = omega arith in
      simp full (ap₂ find_pid count first ∙ find_pid-first (m.tasks_count - 1) t ts)

-- `struct Registers` of src/kernel/include/arch/drivers/isr.h
pub record Registers : Type 0 where
  pub ds : ℕ
  pub edi : ℕ
  pub esi : ℕ
  pub ebp : ℕ
  pub kern_esp : ℕ
  pub ebx : ℕ
  pub edx : ℕ
  pub ecx : ℕ
  pub eax : ℕ
  pub interrupt : ℕ
  pub error : ℕ
  pub eip : ℕ
  pub cs : ℕ
  pub eflag : ℕ
  pub esp : ℕ
  pub ss : ℕ

-- What the pops of `TASK_start_tasking` load, and where they leave the stack pointer.
pub record Loaded : Type 0 where
  pub gs : ℕ
  pub fs : ℕ
  pub es : ℕ
  pub ds : ℕ
  pub ebp : ℕ
  pub edi : ℕ
  pub esi : ℕ
  pub edx : ℕ
  pub ecx : ℕ
  pub ebx : ℕ
  pub eax : ℕ
  pub eip : ℕ
  pub cs : ℕ
  pub eflag : ℕ
  pub pointer : ℕ

-- A stack pointer and the memory.
pub record Stack : Type 0 where
  pub pointer : ℕ
  pub word : ℕ → ℕ

-- `*--stack_pointer = value`
unfoldable pub push : ℕ → Stack → Stack
push value s = record {
  pointer = s.pointer - 4;
  word = λ a. if a == s.pointer - 4 then value else s.word a;
}

-- `pop`: the word and the stack after it.
unfoldable pub pop : Stack → ℕ × Stack
pop s = (s.word s.pointer, record s { pointer = s.pointer + 4 })

unfoldable pub push_all : List ℕ → Stack → Stack
push_all [] s = s
push_all (x ∷ xs) s = push_all xs (push x s)

unfoldable pub pop_all : ℕ → Stack → List ℕ × Stack
pop_all zero s = ([], s)
pop_all (suc n) s = let (x, s') = pop s in let (xs, last) = pop_all n s' in (x ∷ xs, last)

-- The words on the stack of a new task, whose stack ends at `top` and which starts at `address`.
abbrev pub frame : ℕ → ℕ → List ℕ
frame top address = 514 ∷ 8 ∷ address ∷ 0 ∷ 0 ∷ 0 ∷ 0 ∷ 0 ∷ 0 ∷ top ∷ 16 ∷ 16 ∷ 16 ∷ 16 ∷ []

-- The stack of a new task, whose page begins at `base`.
unfoldable pub new_stack : ℕ → ℕ → (ℕ → ℕ) → Stack
new_stack base address word =
    push_all (frame (u32 (base + 4096)) address)
      (record { pointer = u32 (base + 4096); word = word })

-- The stores to the `cpuState` of a new task, which held what `ALC_malloc` gave; its `ds` and the
-- fields of the interrupt are not stored.
unfoldable pub new_registers : Registers → ℕ → ℕ → ℕ → Registers
new_registers held base address pointer = record held {
  eflag = 514;
  cs = 8;
  eip = address;
  eax = 0;
  ebx = 0;
  ecx = 0;
  edx = 0;
  esi = 0;
  edi = 0;
  ebp = u32 (base + 4096);
  esp = pointer;
}

-- The pops of `TASK_start_tasking` and its `iret`.
abbrev pub registers_of : List ℕ × Stack → Loaded
registers_of (ws, last) = record {
  gs = get_or ws 0 0;
  fs = get_or ws 1 0;
  es = get_or ws 2 0;
  ds = get_or ws 3 0;
  ebp = get_or ws 4 0;
  edi = get_or ws 5 0;
  esi = get_or ws 6 0;
  edx = get_or ws 7 0;
  ecx = get_or ws 8 0;
  ebx = get_or ws 9 0;
  eax = get_or ws 10 0;
  eip = get_or ws 11 0;
  cs = get_or ws 12 0;
  eflag = get_or ws 13 0;
  pointer = last.pointer;
}

unfoldable pub pop_registers : Stack → Loaded
pop_registers s = registers_of (pop_all 14 s)

abbrev read_words : (ℕ → ℕ) → ℕ → ℕ → List ℕ
read_words word a zero = []
read_words word a (suc n) = word a ∷ read_words word (a + 4) n

pop_all-read_words :
    (n : ℕ) (s : Stack)
    → pop_all n s ≡ (read_words s.word s.pointer n, record s { pointer = s.pointer + n * 4 })
unfolding pop_all pop
pop_all-read_words zero s =
    let same : s.pointer ≡ s.pointer + 0 * 4 = omega arith in
    ap (λ a. ([], record s { pointer = a })) same
pop_all-read_words (suc n) s =
    let last : s.pointer + 4 + n * 4 ≡ s.pointer + suc n * 4 = omega arith in
    rw (pop_all-read_words n (record s { pointer = s.pointer + 4 }))
      (ap (λ a. (read_words s.word s.pointer (suc n), record s { pointer = a })) last)

-- The words from an address on are those of a memory that differs below it alone.
read_words_above :
    (n value : ℕ) (s : Stack) (a : ℕ)
    → 4 ≤ s.pointer
    → s.pointer ≤ a
    → read_words (push value s).word a n ≡ read_words s.word a n
unfolding push
read_words_above zero value s a room le = refl
read_words_above (suc n) value s a room le =
    ap₂ ◌∷◌ (ground arith) (read_words_above n value s (a + 4) room (omega arith))

abbrev reverse_onto : List ℕ → List ℕ → List ℕ
reverse_onto [] ys = ys
reverse_onto (x ∷ xs) ys = reverse_onto xs (x ∷ ys)

push_all-pointer : (xs : List ℕ) (s : Stack) → (push_all xs s).pointer ≡ s.pointer - length xs * 4
unfolding push_all push
push_all-pointer [] s = omega arith
push_all-pointer (x ∷ xs) s = push_all-pointer xs (push x s) ∙ omega arith

-- What is popped after some pushes: their words, the last one first, and then the older ones.
push_all-read_words :
    (xs : List ℕ) (s : Stack) (k : ℕ)
    → length xs * 4 ≤ s.pointer
    → read_words (push_all xs s).word (push_all xs s).pointer (length xs + k)
      ≡ reverse_onto xs (read_words s.word s.pointer k)
unfolding push_all push
push_all-read_words [] s k room =
    let none_left : 0 + k ≡ k = omega arith in ap (read_words s.word s.pointer) none_left
push_all-read_words (x ∷ xs) s k room =
    let s' : Stack = push x s in
    let more : suc (length xs) + k ≡ length xs + suc k = omega arith in
    let next : s.pointer - 4 + 4 ≡ s.pointer = omega arith in
    let top : s'.word (s.pointer - 4) ≡ x = ground arith in
    ap (read_words (push_all xs s').word (push_all xs s').pointer) more
    ∙ push_all-read_words xs s' (suc k) (omega arith)
    ∙ ap (reverse_onto xs) (
        ap₂ ◌∷◌ top (
          ap (λ a. read_words s'.word a k) next
          ∙ read_words_above k x s s.pointer (omega arith) (omega arith)))

-- What a task starts with: the registers of its `cpuState` that are stored there, the segment registers
-- 16 and the stack pointer.
abbrev pub loaded_from : Registers → ℕ → Loaded
loaded_from r pointer = record {
  gs = 16;
  fs = 16;
  es = 16;
  ds = 16;
  ebp = r.ebp;
  edi = r.edi;
  esi = r.esi;
  edx = r.edx;
  ecx = r.ecx;
  ebx = r.ebx;
  eax = r.eax;
  eip = r.eip;
  cs = r.cs;
  eflag = r.eflag;
  pointer = pointer;
}

-- For a new task, `TASK_start_tasking` pops from the stack that `cpuState` points to the registers ebp,
-- edi, esi, edx, ecx, ebx, eax, eip, cs and eflag as `TASK_create_task` stored them in `cpuState`, and
-- 16 for each segment register; the stack pointer is then at the end of the stack's page. The `ds` of
-- `cpuState` is still what the memory of `cpuState` held before. The page ends below 2 ^ 32.
pub pop_registers-new_stack :
    (held : Registers) (base address : ℕ) (word : ℕ → ℕ)
    → base + 4096 < 2 ^ 32
    → let s = new_stack base address word in
      let r = new_registers held base address s.pointer in
      (pop_registers (record s { pointer = r.esp }) ≡ loaded_from r (base + 4096))
      × (r.ds ≡ held.ds)
unfolding pop_registers new_stack new_registers
pop_registers-new_stack held base address word small =
    let top = u32 (base + 4096) in
    let s : Stack = record { pointer = top; word = word } in
    let words = frame top address in
    let s' : Stack = push_all words s in
    let fits : top ≡ base + 4096 = omega arith in
    let last : s'.pointer + 14 * 4 ≡ base + 4096 = omega (arith, fits, push_all-pointer words s) in
    let popped : pop_all 14 s' ≡ (reverse_onto words [], record s' { pointer = base + 4096 }) =
      pop_all-read_words 14 s'
      ∙ ap₂ (λ ws a. (ws, record s' { pointer = a })) (push_all-read_words words s 0 (omega arith))
          last in
    (ap registers_of popped, refl)
