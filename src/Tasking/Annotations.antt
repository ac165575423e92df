-- ===== src/Tasking/Annotations.antt =====
-- mx/tasking/task.h: the calls that annotate a task and that read its annotation. A reader throws
-- when the target has another kind, which ends a `noexcept` call; it is none here.
use mxtasking.Prelude.{ℕ, Bool, true, false, Option, none, some, ◌≡◌, refl, ◌↔◌, arith}
use mxtasking.Resource.Ptr.{Ptr}
use mxtasking.Tasking.Task.{
  Priority, Target, TaskInterface, on_channel, on_node, on_resource, anywhere,
  has_resource_annotated,
}

-- `annotate`, by the kind of its argument
unfoldable annotate_resource : Ptr → ℕ → TaskInterface → TaskInterface
annotate_resource resource size t = record t { target = on_resource resource size }

unfoldable annotate_channel : ℕ → TaskInterface → TaskInterface
annotate_channel channel_id t = record t { target = on_channel channel_id }

unfoldable annotate_node : ℕ → TaskInterface → TaskInterface
annotate_node node_id t = record t { target = on_node node_id }

unfoldable annotate_priority : Priority → TaskInterface → TaskInterface
annotate_priority priority t = record t { priority = priority }

unfoldable set_readonly : Bool → TaskInterface → TaskInterface
set_readonly is_readonly t = record t { is_readonly = is_readonly }

unfoldable has_channel_annotated : TaskInterface → Bool
has_channel_annotated t = elim (t.target) [ on_channel _ ↦ true | _ ↦ false ]

unfoldable has_node_annotated : TaskInterface → Bool
has_node_annotated t = elim (t.target) [ on_node _ ↦ true | _ ↦ false ]

unfoldable annotated_resource : TaskInterface → Option Ptr
annotated_resource t = elim (t.target) [ on_resource resource _ ↦ some resource | _ ↦ none ]

unfoldable annotated_resource_size : TaskInterface → Option ℕ
annotated_resource_size t = elim (t.target) [ on_resource _ size ↦ some size | _ ↦ none ]

unfoldable annotated_channel : TaskInterface → Option ℕ
annotated_channel t = elim (t.target) [ on_channel channel_id ↦ some channel_id | _ ↦ none ]

unfoldable annotated_node : TaskInterface → Option ℕ
annotated_node t = elim (t.target) [ on_node node_id ↦ some node_id | _ ↦ none ]

-- The last annotation of a target is the one that is read, whichever kind the one before had.
annotated_channel-annotate_channel :
    (channel_id : ℕ) (t : TaskInterface)
    → (annotated_channel (annotate_channel channel_id t) ≡ some channel_id)
      × (has_resource_annotated (annotate_channel channel_id t) ≡ false)
      × (has_node_annotated (annotate_channel channel_id t) ≡ false)
unfolding annotated_channel annotate_channel has_resource_annotated has_node_annotated
annotated_channel-annotate_channel channel_id t = (refl, refl, refl)

annotated_resource-annotate_resource :
    (resource : Ptr) (size : ℕ) (t : TaskInterface)
    → (annotated_resource (annotate_resource resource size t) ≡ some resource)
      × (annotated_resource_size (annotate_resource resource size t) ≡ some size)
      × (has_channel_annotated (annotate_resource resource size t) ≡ false)
      × (has_node_annotated (annotate_resource resource size t) ≡ false)
unfolding annotated_resource annotated_resource_size annotate_resource has_channel_annotated
    has_node_annotated
annotated_resource-annotate_resource resource size t = (refl, refl, refl, refl)

annotated_node-annotate_node :
    (node_id : ℕ) (t : TaskInterface)
    → (annotated_node (annotate_node node_id t) ≡ some node_id)
      × (has_channel_annotated (annotate_node node_id t) ≡ false)
      × (has_resource_annotated (annotate_node node_id t) ≡ false)
unfolding annotated_node annotate_node has_channel_annotated has_resource_annotated
annotated_node-annotate_node node_id t = (refl, refl, refl)

-- Priority and access leave the target: they may be set before it or after it.
annotate_priority-annotate_channel :
    (priority : Priority) (is_readonly : Bool) (channel_id : ℕ) (t : TaskInterface)
    → annotate_priority priority (set_readonly is_readonly (annotate_channel channel_id t))
      ≡ annotate_channel channel_id (annotate_priority priority (set_readonly is_readonly t))
unfolding annotate_priority set_readonly annotate_channel
annotate_priority-annotate_channel priority is_readonly channel_id t = refl

-- A channel can be read exactly of a task that has one annotated.
annotated_channel_iff :
    (t : TaskInterface)
    → (has_channel_annotated t ≡ true)
      ↔ ((channel_id : ℕ) × (annotated_channel t ≡ some channel_id))
unfolding has_channel_annotated annotated_channel
annotated_channel_iff t = by_target (t.target)
  where
    by_target :
        (target : Target)
        → let u : TaskInterface = record t { target = target } in
          (has_channel_annotated u ≡ true)
          ↔ ((channel_id : ℕ) × (annotated_channel u ≡ some channel_id))
    by_target (on_channel channel_id) = (λ _. (channel_id, refl), λ _. refl)
    by_target (on_node _) = (λ h. grind arith, λ h. grind arith)
    by_target (on_resource _ _) = (λ h. grind arith, λ h. grind arith)
    by_target anywhere = (λ h. grind arith, λ h. grind arith)
