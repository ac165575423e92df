-- ===== src/Sync/Tests.antt =====
-- Two threads at the version lock of mx/synchronization.
use mxtasking.Prelude.{false, ◌⊎◌, ℕ, ◌≤◌, ◌≡◌, refl, [], ◌∷◌, true, arith, length, some, none}
use mxtasking.Sync.Spinlock
use mxtasking.Sync.Spinlock.Exclusion.{holders, is_empty, spinlock_excludes}
use mxtasking.Sync.OptimisticLock.{
  State, initial, Reachable, start, step, reads, locks, is_locked, try_lock, see, Reaches, stays,
  goes,
}
use mxtasking.Sync.OptimisticLock.Exclusion.{writers_exclude, validated_read}

-- Both threads read the version, the first takes the lock.
abbrev both_seen : State
both_seen = record initial { seen = see (see initial.seen 1 (some 4)) 2 (some 4) }

both_seen-Reachable : Reachable both_seen
unfolding is_locked
both_seen-Reachable = step (step start (reads 1 refl)) (reads 2 refl)

abbrev first_inside : State
first_inside = record {
  version = (try_lock 4 4).1;
  seen = see both_seen.seen 1 none;
  inside = 1 ∷ [];
}

first_inside-Reachable : Reachable first_inside
unfolding try_lock
first_inside-Reachable = step both_seen-Reachable (locks 1 4 refl refl)

writers_exclude_example :
    (length first_inside.inside ≤ 1)
    × ((first_inside.inside ≡ []) ⊎ (is_locked first_inside.version ≡ true))
writers_exclude_example = writers_exclude first_inside first_inside-Reachable

first_reads : Reaches initial 0 (record initial { seen = see initial.seen 1 (some 4) })
unfolding is_locked
first_reads = goes stays (reads 1 refl)

validated_read_example : (◌≡◌ {A = ℕ} 0 0) × (initial.inside ≡ [])
unfolding is_locked
validated_read_example =
    validated_read initial (record initial { seen = see initial.seen 1 (some 4) }) 0 start refl
      first_reads (omega arith) refl

-- A thread has seen the flag and locked; a second one has failed.
abbrev one_holds : Spinlock.State
one_holds = record {
  flag = true;
  trying = Spinlock.mark (Spinlock.mark (Spinlock.mark (λ _. false) 1 true) 1 false) 2 false;
  inside = 1 ∷ [];
}

one_holds-Reachable : Spinlock.Reachable one_holds
unfolding Spinlock.try_lock
one_holds-Reachable =
    Spinlock.step
      (Spinlock.step (Spinlock.step Spinlock.start (Spinlock.sees 1 refl))
        (Spinlock.locks 1 false refl))
      (Spinlock.fails 2 false refl)

spinlock_excludes_example :
    (length one_holds.inside ≡ holders one_holds.flag)
    × ((Spinlock.try_lock false one_holds.flag).0 ≡ is_empty one_holds.inside)
spinlock_excludes_example = spinlock_excludes one_holds one_holds-Reachable
