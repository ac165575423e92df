-- ===== src/Util/BoundQueue/Runs.antt =====
-- A queue of mx/util/bound_mpmc_queue.h behaves like a list with a bound.
use mxtasking.Prelude.{
  ℕ, suc, Bool, ◌+◌, ◌-◌, ◌%◌, ◌^◌, ◌≤◌, ◌<◌, ◌≡◌, ◌≢◌, refl, sym, ap, ◌∙◌, true, false, ◌==◌, ltb,
  if◌then◌else◌, Bool-cases, inl, inr, List, [], ◌∷◌, ◌++◌, length, length-append, none, some,
  add64, arith, ℕ_discrete,
}
use mathlib.Core.Path.{subst}
use mxtasking.Util.BoundQueue.{
  BoundQueue, store, create, difference, is_negative, try_push_back, try_pop_front, pop_front_or,
  Op, tries, pops, run,
}
use mxtasking.Util.BoundQueue.Ring.{
  add_self-mod, mod_apart, store_self, store-ne, Window, HasItems, create-HasItems,
}

-- In some round the exchange does not fail spuriously.
abbrev pub HasSuccess : List Bool → Type 0
HasSuccess [] = ⊥
HasSuccess (true ∷ later) = HasSuccess later
HasSuccess (false ∷ later) = Unit {0}

-- Slots outside the window do not matter, nor do the counters.
Window-frame :
    (q q' : BoundQueue) (h p : ℕ) (xs : List ℕ)
    → q'.capacity ≡ q.capacity
    → ((s : ℕ) → h % q.capacity ≢ s → (q'.item s ≡ q.item s) × (q'.sequence s ≡ q.sequence s))
    → p + length xs ≤ h
    → h < p + q.capacity
    → Window q p xs
    → Window q' p xs
Window-frame q q' h p [] c same behind near w = tt
Window-frame q q' h p (x ∷ xs) c same behind near w =
    let other : h % q.capacity ≢ p % q.capacity =
      λ e. mod_apart p h q.capacity (omega arith) near (sym e) in
    let (i, s) = same (p % q.capacity) other in
    rw c (i ∙ w.0, s ∙ w.1, Window-frame q q' h (p + 1) xs c same (omega arith) (omega arith) w.2)

Window-append :
    (q : BoundQueue) (p : ℕ) (xs : List ℕ) (x : ℕ)
    → Window q p xs
    → q.item ((p + length xs) % q.capacity) ≡ x
    → q.sequence ((p + length xs) % q.capacity) ≡ p + length xs + 1
    → Window q p (xs ++ x ∷ [])
Window-append q p [] x w i s =
    let e : p + 0 ≡ p = omega arith in
    (
      subst (λ (n : ℕ). q.item (n % q.capacity) ≡ x) e i,
      subst (λ (n : ℕ). q.sequence (n % q.capacity) ≡ n + 1) e s,
      tt,
    )
Window-append q p (y ∷ ys) x w i s =
    let e : p + suc (length ys) ≡ p + 1 + length ys = omega arith in
    (
      w.0,
      w.1,
      Window-append q (p + 1) ys x w.2 (subst (λ (n : ℕ). q.item (n % q.capacity) ≡ x) e i)
          (subst (λ (n : ℕ). q.sequence (n % q.capacity) ≡ n + 1) e s),
    )

-- The counters are far from their end.
abbrev Counts : BoundQueue → Type 0
Counts q = q.head < 2 ^ 63

push-HasItems :
    (q : BoundQueue) (xs : List ℕ) (x : ℕ)
    → HasItems q xs
    → Counts q
    → length xs < q.capacity
    → (fails : List Bool) → HasSuccess fails
    → (q' : BoundQueue) × (try_push_back fails q x ≡ some (true, q'))
      × HasItems q' (xs ++ x ∷ [])
      × (q'.head ≡ q.head + 1)
      × (q'.capacity ≡ q.capacity)
unfolding try_push_back
push-HasItems q xs x h few room [] ends_once = absurd ends_once
push-HasItems q xs x h few room (true ∷ later) ends_once =
    let slot = q.head % q.capacity in
    let own : q.sequence slot ≡ q.head = h.free q.head (omega arith) (omega (arith, h.ends)) in
    let d : (difference (q.sequence slot) q.head == 0) ≡ true = ground arith in
    rw d (push-HasItems q xs x h few room later ends_once)
push-HasItems q xs x h few room (false ∷ later) ends_once =
    let slot = q.head % q.capacity in
    let own : q.sequence slot ≡ q.head = h.free q.head (omega arith) (omega (arith, h.ends)) in
    let d : (difference (q.sequence slot) q.head == 0) ≡ true = ground arith in
    let q' : BoundQueue = record q {
      head = add64 q.head 1;
      item = store q.item slot x;
      sequence = store q.sequence slot (add64 q.head 1);
    } in
    let head' : add64 q.head 1 ≡ q.head + 1 = omega arith in
    (
      q',
      rw d refl,
      record {
        two = h.two;
        small = h.small;
        items =
            Window-append q' q.tail xs x
              (Window-frame q q' q.head q.tail xs refl
                (λ s n. (store-ne q.item slot x s n, store-ne q.sequence slot (add64 q.head 1) s n))
                (omega (arith, h.ends)) (omega (arith, h.ends)) h.items)
              (subst (λ (n : ℕ). q'.item (n % q.capacity) ≡ x) h.ends (store_self q.item slot x))
              (subst (λ (n : ℕ). q'.sequence (n % q.capacity) ≡ n + 1) h.ends
                (store_self q.sequence slot (add64 q.head 1) ∙ head'));
        ends = omega (arith, h.ends, length-append xs (x ∷ []), head');
        fits = omega (arith, length-append xs (x ∷ []));
        free = λ p b lt.
            store-ne q.sequence slot (add64 q.head 1) (p % q.capacity)
              (mod_apart q.head p q.capacity (omega (arith, head')) (omega (arith, h.ends)))
            ∙ h.free p (omega (arith, head')) lt;
      },
      head',
      refl,
    )

push_full :
    (q : BoundQueue) (xs : List ℕ) (x : ℕ)
    → HasItems q xs
    → Counts q
    → length xs ≡ q.capacity
    → (fails : Bool) (later : List Bool) → try_push_back (fails ∷ later) q x ≡ some (false, q)
unfolding try_push_back
push_full q [] x h few full fails later = absurd (omega (arith, h.two))
push_full q (y ∷ ys) x h few full fails later =
    let around : q.head % q.capacity ≡ q.tail % q.capacity =
      ap (λ (n : ℕ). n % q.capacity)
        (let e : q.head ≡ q.tail + q.capacity = omega (arith, h.ends) in e)
      ∙ add_self-mod q.tail q.capacity (omega (arith, h.two)) in
    let own : q.sequence (q.head % q.capacity) ≡ q.tail + 1 = ap q.sequence around ∙ h.items.1 in
    let value : difference (q.sequence (q.head % q.capacity)) q.head ≡ 2 ^ 64 + 1 - q.capacity =
      omega (arith, own, h.ends, h.two, h.small) in
    let d : (difference (q.sequence (q.head % q.capacity)) q.head == 0) ≡ false =
      ground (arith, value, h.small) in
    let n : is_negative (difference (q.sequence (q.head % q.capacity)) q.head) ≡ true =
      ground (arith, value, h.small) in
    rw (d, n) refl

pop_nothing :
    (q : BoundQueue)
    → HasItems q []
    → Counts q
    → (fails : Bool) (later : List Bool) → try_pop_front (fails ∷ later) q ≡ some (none, q)
unfolding try_pop_front
pop_nothing q h few fails later =
    let own : q.sequence (q.tail % q.capacity) ≡ q.tail =
      h.free q.tail (omega (arith, h.ends)) (omega (arith, h.two)) in
    let d : (difference (q.sequence (q.tail % q.capacity)) (add64 q.tail 1) == 0) ≡ false =
      ground (arith, h.ends) in
    let n : is_negative (difference (q.sequence (q.tail % q.capacity)) (add64 q.tail 1)) ≡ true =
      ground (arith, h.ends) in
    rw (d, n) refl

pop-HasItems :
    (q : BoundQueue) (x : ℕ) (xs : List ℕ)
    → HasItems q (x ∷ xs)
    → Counts q
    → (fails : List Bool) → HasSuccess fails
    → (q' : BoundQueue) × (try_pop_front fails q ≡ some (some x, q'))
      × HasItems q' xs
      × (q'.head ≡ q.head)
      × (q'.capacity ≡ q.capacity)
unfolding try_pop_front
pop-HasItems q x xs h few [] ends_once = absurd ends_once
pop-HasItems q x xs h few (true ∷ later) ends_once =
    let slot = q.tail % q.capacity in
    let tail' : add64 q.tail 1 ≡ q.tail + 1 = omega (arith, h.ends) in
    let d : (difference (q.sequence slot) (add64 q.tail 1) == 0) ≡ true =
      ground (arith, h.items.1, tail') in
    rw d (pop-HasItems q x xs h few later ends_once)
pop-HasItems q x xs h few (false ∷ later) ends_once =
    let slot = q.tail % q.capacity in
    let tail' : add64 q.tail 1 ≡ q.tail + 1 = omega (arith, h.ends) in
    let next : add64 q.tail q.capacity ≡ q.tail + q.capacity = omega (arith, h.ends, h.small) in
    let d : (difference (q.sequence slot) (add64 q.tail 1) == 0) ≡ true =
      ground (arith, h.items.1, tail') in
    let around : (q.tail + q.capacity) % q.capacity ≡ slot =
      add_self-mod q.tail q.capacity (omega (arith, h.two)) in
    let q' : BoundQueue = record q {
      tail = add64 q.tail 1;
      sequence = store q.sequence slot (add64 q.tail q.capacity);
    } in
    (
      q',
      rw d (ap (λ (y : ℕ). some (some y, q')) h.items.0),
      record {
        two = h.two;
        small = h.small;
        items =
            subst (λ (n : ℕ). Window q' n xs) (sym tail')
              (Window-frame q q' (q.tail + q.capacity) (q.tail + 1) xs refl
                (λ s n. (
                  refl,
                  store-ne q.sequence slot (add64 q.tail q.capacity) s (λ e. n (around ∙ e)),
                ))
                (omega (arith, h.fits)) (omega arith) h.items.2);
        ends = omega (arith, h.ends, tail');
        fits = omega (arith, h.fits);
        free = λ p b lt. elim (ℕ_discrete p (q.tail + q.capacity)) [
          | yes e ↦
              let at : p % q.capacity ≡ slot = ap (λ (n : ℕ). n % q.capacity) e ∙ around in
              ap q'.sequence at
              ∙ store_self q.sequence slot (add64 q.tail q.capacity)
              ∙ next
              ∙ sym e
          | no n ↦
              store-ne q.sequence slot (add64 q.tail q.capacity) (p % q.capacity)
                (mod_apart q.tail p q.capacity (omega (arith, h.ends)) (omega (arith, tail')))
              ∙ h.free p b (omega (arith, tail'))
        ];
      },
      refl,
      refl,
    )

-- The same calls on a list of at most `capacity` items.
unfoldable pub bounded_run : ℕ → List ℕ → List Op → List ℕ
bounded_run capacity xs [] = []
bounded_run capacity xs (tries fails x ∷ ops) =
    if ltb (length xs) capacity
    then 1 ∷ bounded_run capacity (xs ++ x ∷ []) ops
    else 0 ∷ bounded_run capacity xs ops
bounded_run capacity [] (pops fails default_value ∷ ops) =
    default_value ∷ bounded_run capacity [] ops
bounded_run capacity (x ∷ xs) (pops fails default_value ∷ ops) = x ∷ bounded_run capacity xs ops

-- In some round of each call the exchange does not fail spuriously.
abbrev pub Succeed : List Op → Type 0
Succeed [] = Unit {0}
Succeed (tries fails x ∷ ops) = HasSuccess fails × Succeed ops
Succeed (pops fails default_value ∷ ops) = HasSuccess fails × Succeed ops

run-HasItems :
    (ops : List Op) (q : BoundQueue) (xs : List ℕ)
    → HasItems q xs
    → Succeed ops
    → q.head + length ops < 2 ^ 63
    → run q ops ≡ some (bounded_run q.capacity xs ops)
unfolding run bounded_run pop_front_or
run-HasItems [] q xs h ok few = refl
run-HasItems (tries [] x ∷ ops) q xs h ok few = absurd ok.0
run-HasItems (tries (fails ∷ later) x ∷ ops) q xs h ok few =
    elim (Bool-cases (ltb (length xs) q.capacity)) [
      | inl room ↦
          let (q', e, h', head', same) =
            push-HasItems q xs x h (omega arith) (ground arith) (fails ∷ later) ok.0 in
          let rest : run q' ops ≡ some (bounded_run q.capacity (xs ++ x ∷ []) ops) =
            run-HasItems ops q' (xs ++ x ∷ []) h' ok.1 (omega (arith, head'))
            ∙ ap (λ (c : ℕ). some (bounded_run c (xs ++ x ∷ []) ops)) same in
          rw (e, rest, room, run) refl
      | inr full ↦
          let e = push_full q xs x h (omega arith) (ground (arith, h.fits)) fails later in
          let rest = run-HasItems ops q xs h ok.1 (omega arith) in rw (e, rest, full, run) refl
    ]
run-HasItems (pops [] default_value ∷ ops) q xs h ok few = absurd ok.0
run-HasItems (pops (fails ∷ later) default_value ∷ ops) q [] h ok few =
    let e = pop_nothing q h (omega arith) fails later in
    let rest = run-HasItems ops q [] h ok.1 (omega arith) in rw (e, rest, run, pop_front_or) refl
run-HasItems (pops (fails ∷ later) default_value ∷ ops) q (x ∷ xs) h ok few =
    let (q', e, h', head', same) = pop-HasItems q x xs h (omega arith) (fails ∷ later) ok.0 in
    let rest : run q' ops ≡ some (bounded_run q.capacity xs ops) =
      run-HasItems ops q' xs h' ok.1 (omega (arith, head'))
      ∙ ap (λ (c : ℕ). some (bounded_run c xs ops)) same in
    rw (e, rest, run, pop_front_or) refl

-- A new queue with room for two items or more behaves like a list of at most `capacity` items, over
-- every sequence of fewer than 2 ^ 63 calls, each run to its end before the next: `try_push_back`
-- appends, or returns false when the list is full, and `pop_front_or` returns the oldest item, or
-- the default. Every call ends, at the latest in the first round in which its compare-and-exchange
-- does not fail spuriously, of which each call is given one.
pub bound_run_refines :
    (capacity : ℕ) (ops : List Op)
    → 2 ≤ capacity
    → capacity < 2 ^ 16
    → Succeed ops
    → length ops < 2 ^ 63
    → run (create capacity) ops ≡ some (bounded_run capacity [] ops)
unfolding create
bound_run_refines capacity ops two small ok few =
    run-HasItems ops (create capacity) [] (create-HasItems capacity two small) ok (omega arith)
