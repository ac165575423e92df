-- ===== src/Sync/OptimisticLock.antt =====
-- mx/synchronization/optimistic_lock.h: the version lock, and the steps of any number of threads on
-- one lock. A version has 32 bits; each atomic operation is one step.
pub mod Exclusion
use Prim.Native.Nat.{bit_and}
use mxtasking.Prelude.{
  ℕ, zero, suc, ◌+◌, ◌%◌, ◌^◌, ◌≡◌, List, [], ◌∷◌, Bool, true, false, ◌==◌, if◌then◌else◌, Option,
  none, some, add32,
}

unfoldable pub is_locked : ℕ → Bool
is_locked version = bit_and version 2 == 2

abbrev pub is_valid : ℕ → ℕ → Bool
is_valid current version = version == current

-- The compare-and-exchange of `try_lock`, for the version that `read_valid` returned before it.
unfoldable pub try_lock : ℕ → ℕ → Bool × ℕ
try_lock current version = if current == version then (true, add32 version 2) else (false, current)

-- The addition of `lock<true>` and of `unlock`.
unfoldable pub bump : ℕ → ℕ
bump current = add32 current 2

abbrev pub initial_version : ℕ
initial_version = 4

-- The lock's version, the versions that threads in `try_lock` have read, and the threads between
-- `lock<false>` and `unlock`.
pub record State : Type 0 where
  pub version : ℕ
  pub seen : ℕ → Option ℕ
  pub inside : List ℕ

abbrev pub initial : State
initial = record { version = initial_version; seen = λ _. none; inside = [] }

abbrev pub see : (ℕ → Option ℕ) → ℕ → Option ℕ → ℕ → Option ℕ
see f t v t' = if t == t' then v else f t'

-- `read_valid` ends when it reads a version that is not locked; the compare-and-exchange takes the
-- lock or fails; only the thread inside unlocks.
pub data Step : State → State → Type 0 where
  reads :
      {s : State} (t : ℕ)
      → is_locked s.version ≡ false
      → Step s (record s { seen = see s.seen t (some s.version) })
  locks :
      {s : State} (t v : ℕ)
      → s.seen t ≡ some v
      → (try_lock s.version v).0 ≡ true
      → Step s (record {
        version = (try_lock s.version v).1;
        seen = see s.seen t none;
        inside = t ∷ s.inside;
      })
  fails :
      {s : State} (t v : ℕ)
      → s.seen t ≡ some v
      → (try_lock s.version v).0 ≡ false
      → Step s (record s { seen = see s.seen t none })
  unlocks :
      {s : State} (t : ℕ) (others : List ℕ)
      → s.inside ≡ t ∷ others
      → Step s (record s { version = bump s.version; inside = others })

pub data Reachable : State → Type 0 where
  start : Reachable initial
  step : {s s' : State} → Reachable s → Step s s' → Reachable s'

-- How often a step changes the version.
abbrev pub changes : {s s' : State} → Step s s' → ℕ
changes (reads t h) = 0
changes (locks t v e h) = 1
changes (fails t v e h) = 0
changes (unlocks t others e) = 1

-- The steps from a state on, with the number of changes of the version.
pub data Reaches : State → ℕ → State → Type 0 where
  stays : {s : State} → Reaches s 0 s
  goes :
      {s s' s'' : State} {n : ℕ}
      → Reaches s n s'
      → (h : Step s' s'') → Reaches s (n + changes h) s''
