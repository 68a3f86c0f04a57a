-- ===== src/Task/Stale.antt =====
-- The `prev` that task_list_remove of src/task/task.c leaves behind.
use serpae_os.Task.{Task}
