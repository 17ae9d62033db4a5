-- ===== src/Process/Task.antt =====
-- The task states of src/process/task.h.
use mich_core.Base.{ℕ, Bool, true, false}

pub data TaskState : Type 0 where
  running blocked_send blocked_recv zombie free blocked_wait : TaskState
  blocked_event suspended blocked_sleep blocked_pipe blocked_socket : TaskState
  blocked_poll stopped blocked_tty : TaskState

abbrev pub max_tasks : ℕ
max_tasks = 32

-- TASK_FREE or TASK_ZOMBIE.
abbrev pub is_gone : TaskState → Bool
is_gone free = true
is_gone zombie = true
is_gone s = false

abbrev pub is_blocked_pipe : TaskState → Bool
is_blocked_pipe blocked_pipe = true
is_blocked_pipe s = false
