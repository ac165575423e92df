-- ===== src/Sync/OptimisticLock/Exclusion.antt =====
-- At most one writer holds the lock of mx/synchronization/optimistic_lock.h, and a reader that
-- validates its version has met none.
use mathlib.Core.Path.{subst}
use mxtasking.Prelude.{
  ℕ, suc, ◌+◌, ◌*◌, ◌%◌, ◌^◌, ◌≤◌, ◌<◌, ◌≡◌, refl, sym, ap, ◌∙◌, List, [], ◌∷◌, true, false, not,
  Bool-cases, inl, inr, ◌⊎◌, ◌==◌, Option, none, some, arith, length, add32,
}
use mxtasking.Prelude.Bits.{bit_and-two}
use mxtasking.Sync.OptimisticLock.{
  is_locked, try_lock, bump, State, initial, see, Step, reads, locks, fails, unlocks, Reachable,
  start, step, Reaches, stays, goes, changes, is_valid,
}

-- Each change of the version flips the lock bit.
is_locked-bump : (v : ℕ) → v < 2 ^ 32 → is_locked (bump v) ≡ not (is_locked v)
unfolding is_locked bump
is_locked-bump v h = ground (arith, bit_and-two v, bit_and-two (add32 v 2))

-- The lock bit tells whether a thread is inside, and a version that a thread has read is unlocked.
pub record IsExclusive (s : State) : Type 0 where
  pub bounded : s.version < 2 ^ 32
  pub held :
      ((is_locked s.version ≡ false) × (s.inside ≡ []))
      ⊎ ((is_locked s.version ≡ true) × (length s.inside ≡ 1))
  pub unlocked : (t v : ℕ) → s.seen t ≡ some v → is_locked v ≡ false

initial-IsExclusive : IsExclusive initial
unfolding is_locked
initial-IsExclusive = record {
  bounded = omega arith;
  held = inl (refl, refl);
  unlocked = λ t v e. absurd (cc);
}

see-unlocked :
    (f : ℕ → Option ℕ) (t : ℕ) (new : Option ℕ)
    → ((t' v : ℕ) → f t' ≡ some v → is_locked v ≡ false)
    → ((v : ℕ) → new ≡ some v → is_locked v ≡ false)
    → (t' v : ℕ) → see f t new t' ≡ some v
    → is_locked v ≡ false
see-unlocked f t new old one t' v e = elim (Bool-cases (t == t')) [
  | inl q ↦ one v (rw q at e)
  | inr q ↦ old t' v (rw q at e)
]

try_lock-same : (c v : ℕ) → (try_lock c v).0 ≡ true → c ≡ v
unfolding try_lock
try_lock-same c v h = ground arith

try_lock-version : (c v : ℕ) → (try_lock c v).0 ≡ true → (try_lock c v).1 ≡ bump c
unfolding try_lock bump
try_lock-version c v h = ground arith

bump-lt : (v : ℕ) → bump v < 2 ^ 32
unfolding bump
bump-lt v = omega arith

Step-IsExclusive : {s s' : State} → Step s s' → IsExclusive s → IsExclusive s'
Step-IsExclusive {s} (reads t h) x = record {
  bounded = x.bounded;
  held = x.held;
  unlocked =
      see-unlocked s.seen t (some s.version) x.unlocked
        (λ v e. let same : s.version ≡ v = cc in subst (λ w. is_locked w ≡ false) same h);
}
Step-IsExclusive {s} (locks t v e h) x =
    let same : s.version ≡ v = try_lock-same s.version v h in
    let next : (try_lock s.version v).1 ≡ bump s.version = try_lock-version s.version v h in
    let free : is_locked s.version ≡ false =
      subst (λ w. is_locked w ≡ false) (sym same) (x.unlocked t v e) in
    let nobody : s.inside ≡ [] = elim (x.held) [
      | inl (p, q) ↦ q
      | inr (p, q) ↦ absurd (let w : true ≡ false = sym p ∙ free in cc)
    ] in
    record {
      bounded = subst (λ w. w < 2 ^ 32) (sym next) (bump-lt s.version);
      held = inr (
        ap is_locked next ∙ is_locked-bump s.version x.bounded ∙ ap not free,
        ap (λ xs. suc (length xs)) nobody,
      );
      unlocked = see-unlocked s.seen t none x.unlocked (λ v e. absurd (cc));
    }
Step-IsExclusive {s} (fails t v e h) x = record {
  bounded = x.bounded;
  held = x.held;
  unlocked = see-unlocked s.seen t none x.unlocked (λ v e. absurd (cc));
}
Step-IsExclusive {s} (unlocks t others e) x = record {
  bounded = bump-lt s.version;
  held = elim (x.held) [
    | inl (p, q) ↦ absurd (let w : t ∷ others ≡ [] = sym e ∙ q in cc)
    | inr (p, q) ↦ inl (
      is_locked-bump s.version x.bounded ∙ ap not p,
      no_others others (omega (arith, q, ap length e)),
    )
  ];
  unlocked = x.unlocked;
}
  where
    no_others : (xs : List ℕ) → length xs ≡ 0 → xs ≡ []
    no_others [] h = refl
    no_others (y ∷ ys) h = absurd (omega arith)

Reachable-IsExclusive : {s : State} → Reachable s → IsExclusive s
Reachable-IsExclusive start = initial-IsExclusive
Reachable-IsExclusive (step r h) = Step-IsExclusive h (Reachable-IsExclusive r)

-- In every state that any number of threads reach, at most one thread is between locking and
-- unlocking, and there is none or the version is locked.
pub writers_exclude :
    (s : State)
    → Reachable s
    → (length s.inside ≤ 1) × ((s.inside ≡ []) ⊎ (is_locked s.version ≡ true))
writers_exclude s r = elim ((Reachable-IsExclusive r).held) [
  | inl (p, q) ↦ (omega (arith, ap length q), inl q)
  | inr (p, q) ↦ (omega (arith, q), inr p)
]

-- Each change adds two.
Step-version :
    {s s' : State} (h : Step s s')
    → s.version < 2 ^ 32
    → s'.version ≡ (s.version + 2 * changes h) % 2 ^ 32
unfolding bump
Step-version {s} (reads t h) b = omega arith
Step-version {s} (locks t v e h) b = omega (arith, try_lock-version s.version v h)
Step-version {s} (fails t v e h) b = omega arith
Step-version {s} (unlocks t others e) b = omega arith

Reaches-version :
    {s s' : State} {n : ℕ}
    → Reaches s n s'
    → IsExclusive s
    → IsExclusive s' × (s'.version ≡ (s.version + 2 * n) % 2 ^ 32)
Reaches-version stays x = (x, omega (arith, x.bounded))
Reaches-version {s} {s'} (goes {s' = m} {n = k} r h) x =
    let (y, e) = Reaches-version r x in
    let last : s'.version ≡ (m.version + 2 * changes h) % 2 ^ 32 = Step-version h y.bounded in
    (Step-IsExclusive h y, omega (arith, last, e))

-- A reader that has read an unlocked version and later finds it valid, after fewer than 2 ^ 31
-- changes of the version, has met no writer: the version has not changed since, and no thread is
-- inside.
pub validated_read :
    (s s' : State) (n : ℕ)
    → Reachable s
    → is_locked s.version ≡ false
    → Reaches s n s'
    → n < 2 ^ 31
    → is_valid s'.version s.version ≡ true
    → (n ≡ 0) × (s'.inside ≡ [])
validated_read s s' n r free q h valid =
    let x = Reachable-IsExclusive r in
    let (y, e) = Reaches-version q x in
    let same : s.version ≡ s'.version = ground arith in
    (
      omega (arith, e, x.bounded),
      elim (y.held) [
        | inl (p, nobody) ↦ nobody
        | inr (p, one) ↦
            absurd (let w : true ≡ false = sym p ∙ ap is_locked (sym same) ∙ free in cc)
      ],
    )
