-- ===== src/Memory/Dynamic/Cut.antt =====
-- Which free element mx/memory/dynamic_size_allocator.cpp cuts memory from, and what is cut.
use mathlib.Core.Path.{subst}
use native.Mathlib.Nat.{mod-le, div-add-mod, mul-mod_right}
use mxtasking.Prelude.{
  ℕ, ◌+◌, ◌-◌, ◌*◌, ◌/◌, ◌%◌, ◌^◌, ◌≤◌, ◌<◌, ◌≡◌, refl, ap, ◌∙◌, List, [], ◌∷◌, true, false,
  Bool-cases, inl, inr, ◌&&◌, leb, leb→le, add64, sub64, arith, none, some, dec_lt,
}
use mxtasking.Prelude.Bits.{bit_and-mask, pow_pos}
use mxtasking.Memory.Dynamic.{
  FreeHeader, Found, onto, find_from, find_block, aligned_size_including_header,
}
use mxtasking.Memory.Dynamic.Sorted.{IsSeparated, IsBefore, Fits, floor, end_of}

-- A request: an alignment of 2 ^ k, and a size that an address can count.
module _ (k size : ℕ) (small : size < 2 ^ 47) (aligns : 2 ^ k < 2 ^ 47) where
  -- The size that is cut: at least the request and the header, and such that the memory behind the
  -- header begins at a multiple of the alignment.
  pub record IsCut (h : FreeHeader) (aligned : ℕ) : Type 0 where
    pub enough : size + 16 ≤ aligned
    pub inside : aligned ≤ h.size
    pub multiple : (end_of h - aligned + 16) % 2 ^ k ≡ 0

  aligned_size_lem :
      (lo : ℕ) (h : FreeHeader)
      → Fits lo h
      → size + 16 ≤ h.size
      → aligned_size_including_header (2 ^ k) size h ≡ size + (end_of h - size) % 2 ^ k + 16
  unfolding aligned_size_including_header
  aligned_size_lem lo h f r =
      let mask : sub64 (2 ^ k) 1 ≡ 2 ^ k - 1 = omega (arith, pow_pos k) in
      let begin : sub64 (add64 h.start h.size) size ≡ end_of h - size = omega arith in
      rw (mask, begin, bit_and-mask k (end_of h - size))
        (omega (arith, mod-le (end_of h - size) (2 ^ k)))

  element-IsCut :
      (lo : ℕ) (h : FreeHeader)
      → Fits lo h
      → leb (add64 size 16) h.size ≡ true
      → leb (aligned_size_including_header (2 ^ k) size h) h.size ≡ true
      → IsCut h (aligned_size_including_header (2 ^ k) size h)
  element-IsCut lo h f e e' =
      let r : size + 16 ≤ h.size = omega (arith, leb→le (add64 size 16) h.size e) in
      let a = aligned_size_lem lo h f r in
      rw a (record {
        enough = omega arith;
        inside = omega (arith, a, leb→le (aligned_size_including_header (2 ^ k) size h) h.size e');
        multiple =
            ap (λ n. n % 2 ^ k)
              (begin h lo f r
                (omega (arith, a, leb→le (aligned_size_including_header (2 ^ k) size h) h.size e')))
            ∙ mul-mod_right (2 ^ k) ((end_of h - size) / 2 ^ k);
      })
    where
      begin :
          (h : FreeHeader) (lo : ℕ)
          → Fits lo h
          → size + 16 ≤ h.size
          → size + (end_of h - size) % 2 ^ k + 16 ≤ h.size
          → end_of h - (size + (end_of h - size) % 2 ^ k + 16) + 16
            ≡ 2 ^ k * ((end_of h - size) / 2 ^ k)
      begin h lo f r q = omega (arith, div-add-mod (end_of h - size) (2 ^ k))

  -- The element that was found, as an iterator into the free elements.
  pub record IsFound (lo : ℕ) (hs : List FreeHeader) (f : Found) : Type 0 where
    pub whole : onto f.before (f.element ∷ f.after) ≡ hs
    pub before : IsBefore lo f.before
    pub after : IsSeparated (floor lo f.before) (f.element ∷ f.after)
    pub is_cut : IsCut f.element f.aligned_size

  -- No element holds an aligned block of the size with its header.
  abbrev pub NoneFits : List FreeHeader → Type 0
  NoneFits [] = Unit {0}
  NoneFits (h ∷ hs) = (h.size < size + (end_of h - size) % 2 ^ k + 16) × NoneFits hs

  find_from-IsFound :
      (lo : ℕ) (acc hs : List FreeHeader) {f : Found}
      → IsBefore lo acc
      → IsSeparated (floor lo acc) hs
      → find_from (2 ^ k) size acc hs ≡ some f
      → IsFound lo (onto acc hs) f
  unfolding find_from
  find_from-IsFound lo acc [] b s e = absurd (cc)
  find_from-IsFound lo acc (h ∷ hs) {f = f} b s e =
      elim (Bool-cases
        (leb (add64 size 16) h.size && leb (aligned_size_including_header (2 ^ k) size h) h.size)) [
          | inl t ↦
              let g : Found = record {
                before = acc;
                element = h;
                after = hs;
                aligned_size = aligned_size_including_header (2 ^ k) size h;
              } in
              let found : some g ≡ some f = rw t at e in
              let same_f : g ≡ f = cc in
              subst (IsFound lo (onto acc (h ∷ hs))) same_f (record {
                whole = refl;
                before = b;
                after = s;
                is_cut = element-IsCut (floor lo acc) h s.0 (ground arith) (ground arith);
              })
          | inr t ↦ find_from-IsFound lo (h ∷ acc) hs (s.0, b) s.1 (rw t at e)
        ]

  pub find_block-IsFound :
      (hs : List FreeHeader) {f : Found}
      → IsSeparated 0 hs
      → find_block (2 ^ k) size hs ≡ some f
      → IsFound 0 hs f
  unfolding find_block
  find_block-IsFound hs s e = find_from-IsFound 0 [] hs tt s e

  pub find_from-NoneFits :
      (lo : ℕ) (acc hs : List FreeHeader)
      → IsSeparated lo hs
      → find_from (2 ^ k) size acc hs ≡ none
      → NoneFits hs
  unfolding find_from
  find_from-NoneFits lo acc [] s e = tt
  find_from-NoneFits lo acc (h ∷ hs) s e =
      elim (Bool-cases
        (leb (add64 size 16) h.size && leb (aligned_size_including_header (2 ^ k) size h) h.size)) [
          | inl t ↦ absurd (ground (arith, e))
          | inr t ↦ (
            elim (dec_lt h.size (size + 16)) [
              | yes q ↦ omega arith
              | no q ↦ omega (arith, not_cut h s.0 (omega arith) t)
            ],
            find_from-NoneFits (end_of h + 1) (h ∷ acc) hs s.1 (rw t at e),
          )
        ]
    where
      not_cut :
          (h : FreeHeader)
          → Fits lo h
          → size + 16 ≤ h.size
          → leb (add64 size 16) h.size && leb (aligned_size_including_header (2 ^ k) size h) h.size
            ≡ false
          → h.size < size + (end_of h - size) % 2 ^ k + 16
      not_cut h f r t = ground (arith, aligned_size_lem lo h f r)
