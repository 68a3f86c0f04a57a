-- ===== src/Task/Main.antt =====
-- The main task of a process, task_get_main_task of src/task/task.c.
use serpae_os.Common.{ℕ, Bool, false, ◌&&◌, Option, none, some, List, [], ◌∷◌, ◌==◌, if◌then◌else◌}
use serpae_os.Task.{Ptr, Task}

-- Whether a task is the main one of a process.
abbrev is_main : ℕ → Option Task → Bool
is_main process none = false
is_main process (some t) = t.process == process && t.main_task

-- The first main task of a process in a list.
abbrev pub main_of : (Ptr → Option Task) → ℕ → List Ptr → Option Ptr
main_of memory process [] = none
main_of memory process (p ∷ ps) =
    let rest = main_of memory process ps in if is_main process (memory p) then some p else rest
