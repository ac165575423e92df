-- ===== src/Sync/Spinlock/Exclusion.antt =====
-- At most one thread holds the lock of mx/synchronization/spinlock.h, and it is not held by none.
use mxtasking.Prelude.{ℕ, ◌≤◌, ◌≡◌, refl, ap, List, [], ◌∷◌, Bool, true, false, length, arith}
use mxtasking.Sync.Spinlock.{
  try_lock, State, Step, sees, locks, fails, unlocks, Reachable, start, step,
}

-- The threads inside, as the flag tells: none, or one.
unfoldable pub holders : Bool → ℕ
holders false = 0
holders true = 1

holders-le : (flag : Bool) → holders flag ≤ 1
unfolding holders
holders-le false = omega arith
holders-le true = omega arith

taken :
    (spurious flag : Bool)
    → (try_lock spurious flag).0 ≡ true
    → (flag ≡ false) × ((try_lock spurious flag).1 ≡ true)
unfolding try_lock
taken true flag h = absurd (cc)
taken false true h = absurd (cc)
taken false false h = (refl, refl)

left_alone :
    (spurious flag : Bool) → (try_lock spurious flag).0 ≡ false → (try_lock spurious flag).1 ≡ flag
unfolding try_lock
left_alone true flag h = refl
left_alone false true h = refl
left_alone false false h = absurd (cc)

Step-holders :
    {s s' : State}
    → Step s s'
    → length s.inside ≡ holders s.flag
    → length s'.inside ≡ holders s'.flag
unfolding holders
Step-holders (sees t free) h = h
Step-holders {s} (locks t spurious e) h =
    let (free, set) = taken spurious s.flag e in rw set (omega (arith, h, ap holders free))
Step-holders {s} (fails t spurious e) h = rw (left_alone spurious s.flag e) h
Step-holders {s} (unlocks t others e) h = omega (arith, h, ap length e, holders-le s.flag)

Reachable-holders : {s : State} → Reachable s → length s.inside ≡ holders s.flag
unfolding holders
Reachable-holders start = refl
Reachable-holders (step r h) = Step-holders h (Reachable-holders r)

abbrev pub is_empty : List ℕ → Bool
is_empty [] = true
is_empty (t ∷ ts) = false

free_or_held :
    (flag : Bool) (ts : List ℕ) → length ts ≡ holders flag → (try_lock false flag).0 ≡ is_empty ts
unfolding holders try_lock
free_or_held false [] h = refl
free_or_held false (t ∷ ts) h = absurd (omega arith)
free_or_held true [] h = absurd (omega arith)
free_or_held true (t ∷ ts) h = refl

-- In every state that any number of threads reach, one thread is between locking and unlocking when
-- the flag is set, and none otherwise; and a `try_lock` that does not fail for no reason takes the
-- lock exactly when no thread is inside.
pub spinlock_excludes :
    (s : State)
    → Reachable s
    → (length s.inside ≡ holders s.flag) × ((try_lock false s.flag).0 ≡ is_empty s.inside)
spinlock_excludes s r = (Reachable-holders r, free_or_held s.flag s.inside (Reachable-holders r))
