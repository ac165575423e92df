-- ===== src/Sync/Spinlock.antt =====
-- mx/synchronization/spinlock.h: the lock's flag, and the steps of any number of threads on one
-- lock. Each atomic operation is one step, as if memory were sequentially consistent.
pub mod Exclusion
use mxtasking.Prelude.{ℕ, ◌≡◌, List, [], ◌∷◌, Bool, true, false, not, ◌&&◌, ◌==◌, if◌then◌else◌}

-- The weak compare-and-exchange of `try_lock`, which may fail for no reason (`spurious`): whether it
-- has the lock, and the flag.
unfoldable pub try_lock : Bool → Bool → Bool × Bool
try_lock spurious flag = if not spurious && not flag then (true, true) else (false, flag)

-- What `unlock` stores.
abbrev pub unlock : Bool
unlock = false

abbrev pub is_locked : Bool → Bool
is_locked flag = flag

-- The flag, the threads that have seen it false in the inner loop of `lock` and try next, and those
-- between a successful `try_lock` and `unlock`.
pub record State : Type 0 where
  pub flag : Bool
  pub trying : ℕ → Bool
  pub inside : List ℕ

abbrev pub initial : State
initial = record { flag = false; trying = λ _. false; inside = [] }

abbrev pub mark : (ℕ → Bool) → ℕ → Bool → ℕ → Bool
mark f t b t' = if t == t' then b else f t'

-- `sees` is the load that ends the inner loop of `lock`; `locks` and `fails` are `try_lock`, also
-- of a thread outside `lock`.
pub data Step : State → State → Type 0 where
  sees :
      {s : State} (t : ℕ)
      → is_locked s.flag ≡ false
      → Step s (record s { trying = mark s.trying t true })
  locks :
      {s : State} (t : ℕ) (spurious : Bool)
      → (try_lock spurious s.flag).0 ≡ true
      → Step s (record {
        flag = (try_lock spurious s.flag).1;
        trying = mark s.trying t false;
        inside = t ∷ s.inside;
      })
  fails :
      {s : State} (t : ℕ) (spurious : Bool)
      → (try_lock spurious s.flag).0 ≡ false
      → Step s (record s { flag = (try_lock spurious s.flag).1; trying = mark s.trying t false })
  unlocks :
      {s : State} (t : ℕ) (others : List ℕ)
      → s.inside ≡ t ∷ others
      → Step s (record s { flag = unlock; inside = others })

pub data Reachable : State → Type 0 where
  start : Reachable initial
  step : {s s' : State} → Reachable s → Step s s' → Reachable s'
