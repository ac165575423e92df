-- ===== src/Tasking/Task.antt =====
-- mx/tasking/task.h: a task's annotation, and what a task returns to its worker. A task pointer is
-- a number, null is 0; the fields of the task at an address stand in a table.
use mxtasking.Prelude.{ℕ, Bool, true, false, not, ◌==◌}
use mxtasking.Resource.Ptr.{Ptr}

pub data Priority : Type 0 where
  low normal : Priority

-- std::variant<channel, node, resource_and_size, bool>; the variant's `bool` is the default.
pub data Target : Type 0 where
  on_channel : ℕ → Target
  on_node : ℕ → Target
  on_resource : Ptr → ℕ → Target
  anywhere : Target

pub record TaskInterface : Type 0 where
  pub is_readonly : Bool
  pub priority : Priority
  pub target : Target

abbrev pub fresh_task : TaskInterface
fresh_task = record { is_readonly = false; priority = normal; target = anywhere }

unfoldable pub has_resource_annotated : TaskInterface → Bool
has_resource_annotated t = elim (t.target) [ on_resource _ _ ↦ true | _ ↦ false ]

-- TaskResult: the successor is null when there is none.
pub record TaskResult : Type 0 where
  pub successor_task : ℕ
  pub remove_task : Bool

abbrev pub make_succeed : ℕ → TaskResult
make_succeed task = record { successor_task = task; remove_task = false }

abbrev pub make_remove : TaskResult
make_remove = record { successor_task = 0; remove_task = true }

abbrev pub make_succeed_and_remove : ℕ → TaskResult
make_succeed_and_remove task = record { successor_task = task; remove_task = true }

abbrev pub make_null : TaskResult
make_null = record { successor_task = 0; remove_task = false }

abbrev pub has_successor : TaskResult → Bool
has_successor r = not (r.successor_task == 0)
