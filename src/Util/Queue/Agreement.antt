-- ===== src/Util/Queue/Agreement.antt =====
-- Chains and disjoint lists when the store of `next` fields changes elsewhere.
use mxtasking.Prelude.{ℕ, ◌≡◌, ◌≢◌, sym, List, [], ◌∷◌, ◌++◌, arith}
use mathlib.Core.Path.{subst}
use mxtasking.Util.Queue.{null, write}
use mxtasking.Util.Queue.Chain.{Chain, NotIn, NotIn-append, last}

-- The stores have the same fields for the items.
abbrev pub Agrees : (ℕ → ℕ) → (ℕ → ℕ) → List ℕ → Type 0
Agrees next next' [] = Unit {0}
Agrees next next' (x ∷ xs) = (next' x ≡ next x) × Agrees next next' xs

abbrev pub Disjoint : List ℕ → List ℕ → Type 0
Disjoint [] ys = Unit {0}
Disjoint (x ∷ xs) ys = NotIn x ys × Disjoint xs ys

pub Chain-Agrees :
    (next next' : ℕ → ℕ) (p : ℕ) (xs : List ℕ)
    → Agrees next next' xs
    → Chain next p xs
    → Chain next' p xs
Chain-Agrees next next' p [] a c = c
Chain-Agrees next next' p (x ∷ xs) a c = (
  c.0,
  c.1,
  Chain-Agrees next next' (next' x) xs a.1 (subst (λ n. Chain next n xs) (sym a.0) c.2),
)

pub Agrees-all :
    (next next' : ℕ → ℕ) (xs : List ℕ) → ((b : ℕ) → next' b ≡ next b) → Agrees next next' xs
Agrees-all next next' [] h = tt
Agrees-all next next' (x ∷ xs) h = (h x, Agrees-all next next' xs h)

pub Agrees-two :
    (next next' : ℕ → ℕ) (a c : ℕ) (xs : List ℕ)
    → NotIn a xs
    → NotIn c xs
    → ((b : ℕ) → a ≢ b → c ≢ b → next' b ≡ next b)
    → Agrees next next' xs
Agrees-two next next' a c [] n m h = tt
Agrees-two next next' a c (x ∷ xs) n m h = (h x n.0 m.0, Agrees-two next next' a c xs n.1 m.1 h)

pub Agrees-Disjoint :
    (next next' : ℕ → ℕ) (xs ys : List ℕ)
    → Disjoint xs ys
    → ((b : ℕ) → NotIn b ys → next' b ≡ next b)
    → Agrees next next' xs
Agrees-Disjoint next next' [] ys d h = tt
Agrees-Disjoint next next' (x ∷ xs) ys d h = (h x d.0, Agrees-Disjoint next next' xs ys d.1 h)

-- One more item in the second list.
pub Disjoint-cons : (xs ys : List ℕ) (y : ℕ) → Disjoint xs ys → NotIn y xs → Disjoint xs (y ∷ ys)
Disjoint-cons [] ys y d n = tt
Disjoint-cons (x ∷ xs) ys y d n = (((λ e. n.0 (sym e)), d.0), Disjoint-cons xs ys y d.1 n.1)

pub Disjoint-append :
    (xs ys : List ℕ) (y : ℕ) → Disjoint xs ys → NotIn y xs → Disjoint xs (ys ++ y ∷ [])
Disjoint-append [] ys y d n = tt
Disjoint-append (x ∷ xs) ys y d n =
    (NotIn-append x ys y d.0 (λ e. n.0 (sym e)), Disjoint-append xs ys y d.1 n.1)

-- The field of the last item of a chain is null.
pub Chain-last :
    (next : ℕ → ℕ) (p x : ℕ) (xs : List ℕ) → Chain next p (x ∷ xs) → next (last x xs) ≡ null
Chain-last next p x [] c = c.2
Chain-last next p x (y ∷ ys) c = Chain-last next (next x) y ys c.2

pub write_same : (next : ℕ → ℕ) (a v b : ℕ) → next a ≡ v → write next a v b ≡ next b
write_same next a v b h = ground arith
