-- ===== src/Benchmark/Cores/Range.antt =====
-- The counts of cores that benchmark/cores.cpp asks for stay within the range.
use mxtasking.Prelude.{
  ℕ, zero, suc, ◌+◌, ◌-◌, ◌%◌, ◌≤◌, ◌<◌, inl, inr, ◌==◌, ◌||◌, List, [], ◌∷◌, ◌++◌, Bool-cases,
  arith, if◌then◌else◌,
}
use mxtasking.Benchmark.Cores.{multiples, range}

abbrev pub AllWithin : ℕ → ℕ → List ℕ → Type 0
AllWithin low high [] = Unit {0}
AllWithin low high (c ∷ cs) = (low ≤ c) × (c ≤ high) × AllWithin low high cs

append-AllWithin :
    (low high : ℕ) (cs ds : List ℕ)
    → AllWithin low high cs
    → AllWithin low high ds
    → AllWithin low high (cs ++ ds)
append-AllWithin low high [] ds a b = b
append-AllWithin low high (c ∷ cs) ds a b = (a.0, a.1, append-AllWithin low high cs ds a.2 b)

multiples-AllWithin :
    (low high steps left count_cores : ℕ)
    → low ≤ count_cores
    → count_cores + left ≤ high + 1
    → AllWithin low high (multiples steps left count_cores)
unfolding multiples
multiples-AllWithin low high steps zero c l h = tt
multiples-AllWithin low high steps (suc left) c l h =
    let rest = multiples-AllWithin low high steps left (c + 1) (omega arith) (omega arith) in
    elim (Bool-cases (c % steps == 0)) [ inl e ↦ rw e (l, omega arith, rest) | inr e ↦ rw e rest ]

pub range-AllWithin :
    (low high steps : ℕ) → 0 < low → low ≤ high → AllWithin low high (range low high steps)
unfolding range
range-AllWithin low high steps p h = elim (Bool-cases (low == 0 || low == high)) [
  | inl e ↦ rw e (h, omega arith, tt)
  | inr e ↦
      let loop : AllWithin low high (
          multiples steps (high + 1 - (if low % steps == 0 then low else low + 1))
            (if low % steps == 0 then low else low + 1)) =
        elim (Bool-cases (low % steps == 0)) [
          | inl f ↦ rw f (multiples-AllWithin low high steps _ low (omega arith) (omega arith))
          | inr f ↦
              rw f (multiples-AllWithin low high steps _ (low + 1) (omega arith) (omega arith))
        ] in
      let front : AllWithin low high (if low % steps == 0 then [] else low ∷ []) =
        elim (Bool-cases (low % steps == 0)) [
          | inl f ↦ rw f tt
          | inr f ↦ rw f (omega arith, h, tt)
        ] in
      let back : AllWithin low high (if high % steps == 0 then [] else high ∷ []) =
        elim (Bool-cases (high % steps == 0)) [
          | inl f ↦ rw f tt
          | inr f ↦ rw f (h, omega arith, tt)
        ] in
      rw e (append-AllWithin low high _ _ (append-AllWithin low high _ _ front loop) back)
]
