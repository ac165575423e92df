-- ===== src/Index/Node/Records.antt =====
-- The records of a leaf of db/index/blinktree/node.h as a list, and insertion into it.
use mathlib.Core.Path.{subst, ap₂}
use mxtasking.Prelude.{
  ℕ, zero, suc, ◌+◌, ◌-◌, ◌^◌, ◌≤◌, ◌<◌, ◌≡◌, refl, sym, ap, ◌∙◌, List, [], ◌∷◌, ◌++◌, true, ltb,
  arith, dec_lt, length,
}
use mxtasking.Index.Node.{Node, insert_value}

-- `count` elements of an array.
abbrev pub slice {ℓ} : {A : Type ℓ} → (ℕ → A) → ℕ → ℕ → List A
slice f from zero = []
slice f from (suc count) = f from ∷ slice f (from + 1) count

pub slice_eq {ℓ} :
    {A : Type ℓ} (f g : ℕ → A) (count a b : ℕ)
    → ((i : ℕ) → i < count → f (a + i) ≡ g (b + i))
    → slice f a count ≡ slice g b count
slice_eq f g zero a b h = refl
slice_eq f g (suc count) a b h =
    ap₂ ◌∷◌ (ap f (omega arith) ∙ h 0 (omega arith) ∙ ap g (omega arith)) (
      slice_eq f g count (a + 1) (b + 1)
        (λ i l. ap f (omega arith) ∙ h (suc i) (omega arith) ∙ ap g (omega arith)))

pub slice_split {ℓ} :
    {A : Type ℓ} (f : ℕ → A) (m n a : ℕ) → slice f a (m + n) ≡ slice f a m ++ slice f (a + m) n
slice_split f zero n a = ap₂ (slice f) (omega arith) (omega arith)
slice_split f (suc m) n a =
    let count : suc m + n ≡ suc (m + n) = omega arith in
    let start : a + 1 + m ≡ a + suc m = omega arith in
    ap (slice f a) count
    ∙ ap (λ zs. f a ∷ zs)
        (slice_split f m n (a + 1) ∙ ap (λ b. slice f (a + 1) m ++ slice f b n) start)

pub slice_join {ℓ} :
    {A : Type ℓ} (f : ℕ → A) (m n : ℕ) → slice f 0 m ++ slice f m n ≡ slice f 0 (m + n)
slice_join f m n =
    let e : m ≡ 0 + m = omega arith in
    ap (λ c. slice f 0 m ++ slice f c n) e ∙ sym (slice_split f m n 0)

pub length-slice {ℓ} : {A : Type ℓ} (f : ℕ → A) (a n : ℕ) → length (slice f a n) ≡ n
length-slice f a zero = refl
length-slice f a (suc n) = ap suc (length-slice f (a + 1) n)

-- The key and the value at an index, and those of a whole leaf.
abbrev pub record_at : Node → ℕ → ℕ × ℕ
record_at n i = (n.keys i, n.values i)

abbrev pub records : Node → List (ℕ × ℕ)
records n = slice (record_at n) 0 n.size

module _ (n : Node) (at value key : ℕ) (inside : at ≤ n.size) (room : n.size + 1 < 2 ^ 16) where
  abbrev after : Node
  after = insert_value n at value key

  pub size-insert_value : after.size ≡ n.size + 1
  unfolding insert_value
  size-insert_value = omega arith

  pub high_key-insert_value : after.high_key ≡ n.high_key
  unfolding insert_value
  high_key-insert_value = refl

  pub insert_value-before : (i : ℕ) → i < at → record_at after i ≡ record_at n i
  unfolding insert_value
  insert_value-before i h = ap₂ (λ a b. (a, b)) (ground arith) (ground arith)

  pub insert_value-at : record_at after at ≡ (key, value)
  unfolding insert_value
  insert_value-at = ap₂ (λ a b. (a, b)) (ground arith) (ground arith)

  pub insert_value-behind : (i : ℕ) → at ≤ i → i < n.size → record_at after (i + 1) ≡ record_at n i
  unfolding insert_value
  insert_value-behind i l h =
      let m : ltb at n.size ≡ true = ground arith in
      let e : i + 1 - (at + 1) + at ≡ i = omega arith in
      rw m (ap₂ (λ a b. (a, b)) (ground (arith, ap n.keys e)) (ground (arith, ap n.values e)))

  -- Inserting a record at an index of a leaf that is not full puts it before the records from
  -- that index on.
  pub records-insert_value :
      records after
      ≡ slice (record_at n) 0 at ++ (key, value) ∷ slice (record_at n) at (n.size - at)
  records-insert_value =
      ap (slice (record_at after) 0) (size-insert_value ∙ omega arith)
      ∙ slice_split (record_at after) at (suc (n.size - at)) 0
      ∙ ap₂ ◌++◌
          (slice_eq (record_at after) (record_at n) at 0 0 (λ i h.
            ap (record_at after) (omega arith)
            ∙ insert_value-before i h
            ∙ ap (record_at n) (omega arith)))
          (ap₂ ◌∷◌ (ap (record_at after) (omega arith) ∙ insert_value-at) (
            slice_eq (record_at after) (record_at n) (n.size - at) (0 + at + 1) at (λ i h.
              ap (record_at after) (omega arith)
              ∙ insert_value-behind (at + i) (omega arith) (omega arith))))

  -- What holds of the keys of a leaf and of a new one holds of all keys after the insertion.
  pub insert_value-keys :
      (P : ℕ → Type 0)
      → ((i : ℕ) → i < n.size → P (n.keys i))
      → P key
      → (i : ℕ) → i < after.size
      → P (after.keys i)
  insert_value-keys P all one i h = elim (dec_lt i at) [
    | yes q ↦ subst P (sym (ap (λ r. r.0) (insert_value-before i q))) (all i (omega arith))
    | no q ↦ elim (dec_lt at i) [
      | no r ↦
          let e : i ≡ at = omega arith in
          subst P (sym (ap (λ r. r.0) (ap (record_at after) e ∙ insert_value-at))) one
      | yes r ↦
          let e : i ≡ i - 1 + 1 = omega arith in
          let l : i - 1 < n.size = omega (arith, size-insert_value) in
          subst P
            (sym (
              ap (λ r. r.0) (ap (record_at after) e ∙ insert_value-behind (i - 1) (omega arith) l)))
            (all (i - 1) l)
    ]
  ]
