-- ===== src/Util/Queue/Chain.antt =====
-- Linked lists in a store of `next` fields: which items a chain from a pointer holds.
use mxtasking.Prelude.{ℕ, ◌≡◌, ◌≢◌, refl, sym, ◌∙◌, List, [], ◌∷◌, ◌++◌, arith}
use mxtasking.Util.Queue.{null, write}

-- The items from pointer `p` on, up to the null pointer.
abbrev pub Chain : (ℕ → ℕ) → ℕ → List ℕ → Type 0
Chain next p [] = p ≡ null
Chain next p (x ∷ xs) = (p ≡ x) × (x ≢ null) × Chain next (next x) xs

abbrev pub NotIn : ℕ → List ℕ → Type 0
NotIn a [] = Unit {0}
NotIn a (x ∷ xs) = (a ≢ x) × NotIn a xs

abbrev pub IsNodup : List ℕ → Type 0
IsNodup [] = Unit {0}
IsNodup (x ∷ xs) = NotIn x xs × IsNodup xs

abbrev pub last : ℕ → List ℕ → ℕ
last x [] = x
last x (y ∷ ys) = last y ys

pub write_self : (next : ℕ → ℕ) (a v : ℕ) → write next a v a ≡ v
write_self next a v = ground arith

pub write_ne : (next : ℕ → ℕ) (a v b : ℕ) → a ≢ b → write next a v b ≡ next b
write_ne next a v b h = ground arith

pub NotIn-last : (a x : ℕ) (xs : List ℕ) → NotIn a (x ∷ xs) → a ≢ last x xs
NotIn-last a x [] h = h.0
NotIn-last a x (y ∷ ys) h = NotIn-last a y ys h.1

pub last-append : (x : ℕ) (xs : List ℕ) (a : ℕ) → last x (xs ++ a ∷ []) ≡ a
last-append x [] a = refl
last-append x (y ∷ ys) a = last-append y ys a

pub NotIn-append : (a : ℕ) (xs : List ℕ) (b : ℕ) → NotIn a xs → a ≢ b → NotIn a (xs ++ b ∷ [])
NotIn-append a [] b h ne = (ne, tt)
NotIn-append a (x ∷ xs) b h ne = (h.0, NotIn-append a xs b h.1 ne)

pub IsNodup-append : (xs : List ℕ) (b : ℕ) → IsNodup xs → NotIn b xs → IsNodup (xs ++ b ∷ [])
IsNodup-append [] b h n = (tt, tt)
IsNodup-append (x ∷ xs) b h n =
    (NotIn-append x xs b h.0 (λ e. n.0 (sym e)), IsNodup-append xs b h.1 n.1)

-- Writing the field of an item outside the chain leaves the chain as it is.
pub Chain-write :
    (next : ℕ → ℕ) (a v p : ℕ) (xs : List ℕ)
    → NotIn a xs
    → Chain next p xs
    → Chain (write next a v) p xs
Chain-write next a v p [] n c = c
Chain-write next a v p (x ∷ xs) n c =
    (c.0, c.1, rw (write_ne next a v x n.0) (Chain-write next a v (next x) xs n.1 c.2))

-- Linking a new last item behind the last item.
pub Chain-append :
    (next : ℕ → ℕ) (p x : ℕ) (xs : List ℕ) (a : ℕ)
    → Chain next p (x ∷ xs)
    → IsNodup (x ∷ xs)
    → NotIn a (x ∷ xs)
    → a ≢ null
    → next a ≡ null
    → Chain (write next (last x xs) a) p (x ∷ xs ++ a ∷ [])
Chain-append next p x [] a c u n z e =
    (c.0, c.1, (write_self next x a, z, write_ne next x a a (λ q. n.0 (sym q)) ∙ e))
Chain-append next p x (y ∷ ys) a c u n z e = (
  c.0,
  c.1,
  rw (write_ne next (last y ys) a x (λ q. NotIn-last x y ys u.0 (sym q)))
      (Chain-append next (next x) y ys a c.2 u.1 n.1 z e),
)
