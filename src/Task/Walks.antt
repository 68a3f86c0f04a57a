-- ===== src/Task/Walks.antt =====
-- The walks along the list of tasks: task_next, task_free_all_for_process and task_get_main_task of
-- src/task/task.c.
use serpae_os.Common.{ℕ, zero, suc, Bool, ◌&&◌, Option, none, some, ◌==◌, if◌then◌else◌}
use serpae_os.Task.{Ptr, null, Tasks, task_get_next, task_free}

-- The loop of `task_next` over the tasks whose process hosts another: the task it ends at, or the null
-- pointer behind the last. The outer `none` is a list that has not ended, and the inner one a read where
-- no task is.
unfoldable pub next_loop : ℕ → (ℕ → Bool) → Ptr → Tasks → Option (Option Ptr)
next_loop zero hosting p s = none
next_loop (suc fuel) hosting p s = if p == null then some (some null) else elim (s.memory p) [
  | none ↦ some none
  | some t ↦
      let rest = next_loop fuel hosting t.next s in
      if hosting t.process then rest else some (some p)
]

-- What `task_next` ends with: the switch to a task, a panic, a read where no task is, or a list that has
-- not ended in the rounds.
pub data Scheduled : Type 0 where
  switched : Tasks → Scheduled
  panic : Scheduled
  bad_read : Scheduled
  running : Scheduled

unfoldable pub task_next : ℕ → (ℕ → Bool) → Tasks → Scheduled
task_next fuel hosting s = elim (task_get_next s) [
  | none ↦ bad_read
  | some p ↦ elim (next_loop fuel hosting p s) [
    | none ↦ running
    | some none ↦ bad_read
    | some (some q) ↦ if q == null then panic else switched (record s { current_task = q })
  ]
]

-- The loop of `task_free_all_for_process`. The outer `none` is a list that has not ended, and the inner
-- one a read or a write where no task is.
unfoldable pub free_all_loop : ℕ → ℕ → Ptr → Tasks → Option (Option Tasks)
free_all_loop zero process p s = none
free_all_loop (suc fuel) process p s = if p == null then some (some s) else elim (s.memory p) [
  | none ↦ some none
  | some t ↦
      let rest = free_all_loop fuel process t.next s in
      if t.process == process
      then elim (task_free p s) [
        | none ↦ some none
        | some s' ↦ elim (s'.memory p) [
          | none ↦ some none
          | some t' ↦ free_all_loop fuel process t'.next s'
        ]
      ]
      else rest
]

unfoldable pub task_free_all_for_process : ℕ → ℕ → Tasks → Option (Option Tasks)
task_free_all_for_process fuel process s = free_all_loop fuel process s.task_head s

-- The loop of `task_get_main_task`, which goes on from null to the memory at 0: `none`.
unfoldable pub main_loop : ℕ → ℕ → Ptr → Tasks → Option Ptr
main_loop zero process p s = none
main_loop (suc fuel) process p s = elim (s.memory p) [
  | none ↦ none
  | some t ↦
      let rest = main_loop fuel process t.next s in
      if t.process == process && t.main_task
      then some p
      else if t.next == s.task_head
      then some null
      else rest
]

unfoldable pub task_get_main_task : ℕ → ℕ → Tasks → Option Ptr
task_get_main_task fuel process s = main_loop fuel process s.task_head s
