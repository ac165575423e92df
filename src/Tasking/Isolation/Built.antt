-- ===== src/Tasking/Isolation/Built.antt =====
-- From the hint of mx/resource/builder.cpp to the execution by the workers of mx/tasking.
use mathlib.Core.Path.{subst}
use mxtasking.Prelude.{ℕ, ◌≡◌, sym, ◌⊎◌, inl, inr, false}
use mxtasking.Sync.Primitive.{exclusive_writer, exclusive}
use mxtasking.Resource.Ptr.{primitive_of}
use mxtasking.Resource.Builder.{Hint, Builder, build}
use mxtasking.Resource.Builder.Choice.{Isolates, primitive-Isolates, build-primitive}
use mxtasking.Tasking.Task.{TaskInterface, on_resource}
use mxtasking.Tasking.Scheduler.{destination}
use mxtasking.Tasking.Isolation.{Apart, execution, writer_isolated, exclusive_isolated}

-- Two tasks on one resource, spawned from the channels ca and cb, cannot disturb each other.
abbrev pub AreIsolated : TaskInterface → TaskInterface → ℕ → ℕ → Type 0
AreIsolated a b ca cb =
    (destination a ca ≡ destination b cb)
    ⊎ Apart (execution a (destination a ca)) (execution b (destination b cb))

module _ (b : Builder) (h : Hint) (object : ℕ) where
  built_primitive : Isolates h.isolation_level (primitive_of (build b h object).0)
  built_primitive =
      subst (Isolates h.isolation_level) (sym (build-primitive b h object)) (primitive-Isolates h)

  -- For a resource that was built with a hint for exclusive access, any two tasks on it, spawned
  -- from any channels, are executed on one channel or under one latch; with a hint for exclusive
  -- writers, that holds of a writing task and any other, where a reader may also be executed
  -- beside the writer and checks the version.
  pub built-isolated :
      (s t : TaskInterface) (n m cs ct : ℕ)
      → s.target ≡ on_resource (build b h object).0 n
      → t.target ≡ on_resource (build b h object).0 m
      → (h.isolation_level ≡ exclusive)
        ⊎ ((h.isolation_level ≡ exclusive_writer) × (s.is_readonly ≡ false))
      → AreIsolated s t cs ct
  built-isolated s t n m cs ct es et (inl e) =
      exclusive_isolated (build b h object).0 s t n m cs ct es et
        (subst (λ i. Isolates i (primitive_of (build b h object).0)) e built_primitive)
  built-isolated s t n m cs ct es et (inr (e, w)) =
      writer_isolated (build b h object).0 s t n m cs ct es et w
        (subst (λ i. Isolates i (primitive_of (build b h object).0)) e built_primitive)
