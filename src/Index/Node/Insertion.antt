-- ===== src/Index/Node/Insertion.antt =====
-- Insertion into an inner node of db/index/blinktree/node.h, and into a part of its arrays.
use mxtasking.Prelude.{
  ℕ, ◌+◌, ◌-◌, ◌≤◌, ◌<◌, ◌≡◌, sym, ap, ◌∙◌, ltb, ◌==◌, if◌then◌else◌, arith, dec_lt,
}
use mxtasking.Resource.Ptr.{Ptr}
use mxtasking.Index.Node.{Node, insert_separator}

-- An array with a new element at the index `at`.
unfoldable pub insert_at {ℓ} : {A : Type ℓ} → (ℕ → A) → ℕ → A → ℕ → A
insert_at f at x j = if ltb j at then f j else if j == at then x else f (j - 1)

-- An insertion into an inner node inserts the key, and the separator behind its place.
pub insert_separator-keys :
    (n : Node) (at : ℕ) (separator : Ptr) (key i : ℕ)
    → at ≤ n.size
    → i ≤ n.size
    → (insert_separator n at separator key).keys i ≡ insert_at n.keys at key i
unfolding insert_separator insert_at
insert_separator-keys n at separator key i l h = elim (dec_lt at i) [
  | yes q ↦ let e : i - (at + 1) + at ≡ i - 1 = omega arith in ground (arith, ap n.keys e)
  | no q ↦ ground arith
]

pub insert_separator-separators :
    (n : Node) (at : ℕ) (separator : Ptr) (key i : ℕ)
    → at ≤ n.size
    → i ≤ n.size + 1
    → (insert_separator n at separator key).separators i
      ≡ insert_at n.separators (at + 1) separator i
unfolding insert_separator insert_at
insert_separator-separators n at separator key i l h = elim (dec_lt (at + 1) i) [
  | yes q ↦
      let e : i - (at + 2) + (at + 1) ≡ i - 1 = omega arith in ground (arith, ap n.separators e)
  | no q ↦ ground arith
]

pub insert_at-before {ℓ} :
    {A : Type ℓ} (f : ℕ → A) (at : ℕ) (x : A) (i : ℕ) → i < at → insert_at f at x i ≡ f i
unfolding insert_at
insert_at-before f at x i h = ground arith

pub insert_at_self {ℓ} : {A : Type ℓ} (f : ℕ → A) (at : ℕ) (x : A) → insert_at f at x at ≡ x
unfolding insert_at
insert_at_self f at x = ground arith

pub insert_at-behind {ℓ} :
    {A : Type ℓ} (f : ℕ → A) (at : ℕ) (x : A) (i : ℕ) → at ≤ i → insert_at f at x (i + 1) ≡ f i
unfolding insert_at
insert_at-behind f at x i h = let e : i + 1 - 1 ≡ i = omega arith in ground (arith, ap f e)

-- An insertion into a part of an array.
pub insert_at-shift {ℓ} :
    {A : Type ℓ} (f g : ℕ → A) (from a at count i : ℕ) (x : A)
    → ((j : ℕ) → j < count → f j ≡ g (from + j))
    → from + a ≡ at
    → a ≤ count
    → i ≤ count
    → insert_at f a x i ≡ insert_at g at x (from + i)
insert_at-shift f g from a at count i x same e l h = elim (dec_lt i a) [
  | yes q ↦
      insert_at-before f a x i q
      ∙ same i (omega arith)
      ∙ sym (insert_at-before g at x (from + i) (omega arith))
  | no q ↦ elim (dec_lt a i) [
    | yes r ↦
        let up : i ≡ i - 1 + 1 = omega arith in
        let up' : from + (i - 1) + 1 ≡ from + i = omega arith in
        ap (insert_at f a x) up
        ∙ insert_at-behind f a x (i - 1) (omega arith)
        ∙ same (i - 1) (omega arith)
        ∙ sym (insert_at-behind g at x (from + (i - 1)) (omega arith))
        ∙ ap (insert_at g at x) up'
    | no r ↦
        let here : i ≡ a = omega arith in
        let there : at ≡ from + i = omega arith in
        ap (insert_at f a x) here
        ∙ insert_at_self f a x
        ∙ sym (insert_at_self g at x)
        ∙ ap (insert_at g at x) there
  ]
]
