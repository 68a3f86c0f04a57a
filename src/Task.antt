-- ===== src/Task.antt =====
-- The tasks of the kernel, src/task/task.c: a doubly linked list of tasks at addresses, and the choice
-- of the next one to run. What kzalloc and paging_new_4gb answer is an argument, 0 for a failure.
pub mod Links
pub mod Walks
pub mod Remove
pub mod Stale
pub mod Append
pub mod Next
pub mod Main
pub mod FreeAll
mod Tests
use serpae_os.Common.{
  ℕ, zero, suc, ◌+◌, ◌-◌, ◌*◌, ◌/◌, ◌%◌, ◌^◌, ◌≤◌, ◌<◌, ◌≡◌, ◌≢◌, ◌↔◌, ◌⊎◌, inl, inr, refl, Bool,
  true, false, not, ◌&&◌, ◌||◌, Option, none, some, List, [], ◌∷◌, ◌++◌, map, ltb, leb, ◌==◌,
  if◌then◌else◌, length, take, drop, set, get_or, get_elem?, replicate, arith, ap, ap₂, sym, ◌∙◌,
  length-append, length-set, get_or-set_self, get_or-set_ne, set-set, get_or-replicate, get_or_ext,
  length-replicate, length-take, length-drop, get_or-snoc_self, get_or-snoc_ne, get_or_out,
  List-cases, some_cancel, some_ne, Option-cases, Bool-cases, range_cases, tests, dec_lt, dec_le,
  ℕ_discrete, Status, ok, err, Status-cases, enomem, eio,
}

-- `struct registers`, and the part of `struct interrupt_frame` that is stored.
pub record Registers : Type 0 where
  pub edi : ℕ
  pub esi : ℕ
  pub ebp : ℕ
  pub ebx : ℕ
  pub edx : ℕ
  pub ecx : ℕ
  pub eax : ℕ
  pub ip : ℕ
  pub cs : ℕ
  pub flags : ℕ
  pub esp : ℕ
  pub ss : ℕ

abbrev pub Ptr : Type 0
Ptr = ℕ

abbrev pub null : Ptr
null = 0

pub record Task : Type 0 where
  pub page_directory : ℕ
  pub registers : Registers
  pub process : ℕ
  pub main_task : Bool
  pub next : Ptr
  pub prev : Ptr

-- The tasks, the three pointers of the file, and the page directories that are freed, last first.
pub record Tasks : Type 0 where
  pub memory : Ptr → Option Task
  pub task_head : Ptr
  pub task_tail : Ptr
  pub current_task : Ptr
  pub freed : List ℕ

abbrev pub user_data_segment : ℕ
user_data_segment = 0x23

abbrev pub user_code_segment : ℕ
user_code_segment = 0x1b

abbrev pub program_virtual_stack_address_start : ℕ
program_virtual_stack_address_start = 0x3FF000

abbrev pub write : (Ptr → Option Task) → Ptr → Option Task → Ptr → Option Task
write memory p t q = if q == p then t else memory q

-- `task->prev->next = next`, if `prev` is not null; `none` is a write to memory that holds no task.
unfoldable pub set_next : Ptr → Ptr → (Ptr → Option Task) → Option (Ptr → Option Task)
set_next p next memory = if p == null then some memory else elim (memory p) [
  | none ↦ none
  | some t ↦ some (write memory p (some (record t { next = next })))
]

-- `none` is a read of memory that holds no task.
unfoldable pub task_get_next : Tasks → Option Ptr
task_get_next s = elim (s.memory s.current_task) [
  | none ↦ none
  | some t ↦ some (if t.next == null then s.task_head else t.next)
]

unfoldable pub task_list_remove : Ptr → Task → Tasks → Option Tasks
task_list_remove p t s = elim (set_next t.prev t.next s.memory) [
  | none ↦ none
  | some memory ↦
      let moved : Tasks = record s {
        memory = memory;
        task_head = if p == s.task_head then t.next else s.task_head;
        task_tail = if p == s.task_tail then t.prev else s.task_tail;
      } in
      if p == s.current_task
      then elim (task_get_next moved) [
        | none ↦ none
        | some next ↦ some (record moved { current_task = next })
      ]
      else some moved
]

unfoldable pub task_free : Ptr → Tasks → Option Tasks
task_free p s = elim (s.memory p) [
  | none ↦ none
  | some t ↦ elim (task_list_remove p t s) [
    | none ↦ none
    | some s' ↦ some (record s' {
      memory = write s'.memory p none;
      freed = if t.main_task then t.page_directory ∷ s'.freed else s'.freed;
    })
  ]
]

-- The end of `task_new` and of `task_add_to_process`, where a task that is new is put behind the last
-- one. Its own pointers are null before.
unfoldable pub append : Ptr → Task → Tasks → Option Tasks
append p t s =
    if s.task_head == null
    then some (record s {
      memory = write s.memory p (some t);
      task_head = p;
      task_tail = p;
      current_task = p;
    })
    else elim (s.memory s.task_tail) [
      | none ↦ none
      | some last ↦ some (record s {
        memory =
            write (write s.memory s.task_tail (some (record last { next = p }))) p
              (some (record t { prev = s.task_tail }));
        task_tail = p;
      })
    ]

abbrev zeroed : Registers
zeroed = record {
  edi = 0;
  esi = 0;
  ebp = 0;
  ebx = 0;
  edx = 0;
  ecx = 0;
  eax = 0;
  ip = 0;
  cs = 0;
  flags = 0;
  esp = 0;
  ss = 0;
}

-- A task behind `task_init` or the start of `task_add_to_process`.
abbrev pub new_task : ℕ → ℕ → ℕ → Bool → Task
new_task directory ip process main_task = record {
  page_directory = directory;
  registers = record zeroed {
    ip = ip;
    cs = user_code_segment;
    esp = program_virtual_stack_address_start;
    ss = user_data_segment;
  };
  process = process;
  main_task = main_task;
  next = null;
  prev = null;
}

-- A failed kzalloc is followed by a read through the null pointer, in `task_free`. A task without a
-- page directory is freed as it was cleared; it stands in no list.
unfoldable pub task_new : Ptr → ℕ → ℕ → ℕ → Tasks → Option (Status Ptr × Tasks)
task_new p directory ip process s =
    if p == null
    then none
    else if directory == 0
    then some (err eio, s)
    else elim (append p (new_task directory ip process true) s) [
      | none ↦ none
      | some s' ↦ some (ok p, s')
    ]

-- A thread runs in the page directory of the main task of its process.
unfoldable pub task_add_to_process : Ptr → ℕ → ℕ → ℕ → Tasks → Option (Status Ptr × Tasks)
task_add_to_process p directory addr process s =
    if p == null
    then none
    else if directory == 0
    then some (err eio, s)
    else elim (append p (new_task directory addr process false) s) [
      | none ↦ none
      | some s' ↦ some (ok p, s')
    ]

-- The copy keeps the `next` of the task it is made from. `none` is a read or a write where no task is.
unfoldable pub task_duplicate : Ptr → Ptr → Tasks → Option (Ptr × Tasks)
task_duplicate p from s = if p == null then some (null, s) else elim (s.memory from) [
  | none ↦ none
  | some t ↦ elim (s.memory s.task_tail) [
    | none ↦ none
    | some last ↦ some (
      p,
      record s {
        memory =
            write (write s.memory s.task_tail (some (record last { next = p }))) p
              (some (record t { prev = s.task_tail }));
        task_tail = p;
      },
    )
  ]
]

-- `frame` has the registers that the interrupt stored.
unfoldable pub task_save_state : Ptr → Registers → Tasks → Option Tasks
task_save_state p frame s = elim (s.memory p) [
  | none ↦ none
  | some t ↦ some (record s { memory = write s.memory p (some (record t { registers = frame })) })
]
