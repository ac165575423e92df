-- ===== src/Memory/Dynamic.antt =====
-- mx/memory/dynamic_size_allocator.h and dynamic_size_allocator.cpp, a block: a vector of free
-- elements, sorted by address, from whose ends memory is cut. Addresses and sizes are words of 64
-- bits. An iterator into the vector is the pair of the elements before it, the nearest first, and
-- those from it on. The spinlock makes each call one step. The header in front of allocated
-- memory is handed from `allocate` to `free` as a value.
pub mod Sorted
pub mod Cut
pub mod RoundTrip
pub mod Separate
pub mod Owners
pub mod Merge
pub mod Usage
pub mod Sharing
pub mod Exclusive
use Prim.Native.Nat.{bit_and}
use mxtasking.Prelude.{
  ℕ, zero, suc, ◌+◌, ◌-◌, ◌%◌, ◌^◌, List, [], ◌∷◌, Option, none, some, Bool, true, false, ◌==◌, ltb,
  leb, ◌&&◌, ◌||◌, if◌then◌else◌, add64, sub64, length,
}

pub record FreeHeader : Type 0 where
  pub start : ℕ
  pub size : ℕ

pub record AllocatedHeader : Type 0 where
  pub size : ℕ
  pub unused_size_before_header : ℕ
  pub numa_node_id : ℕ
  pub allocation_block_id : ℕ

-- sizeof(AllocatedHeader)
abbrev pub header_size : ℕ
header_size = 16

pub record AllocationBlock : Type 0 where
  pub id : ℕ
  pub numa_node_id : ℕ
  pub size : ℕ
  pub allocated_block : ℕ
  pub free_elements : List FreeHeader
  pub available_size : ℕ

abbrev pub contract : FreeHeader → ℕ → FreeHeader
contract h n = record h { size = sub64 h.size n }

abbrev pub borders : FreeHeader → FreeHeader → Bool
borders h other = add64 h.start h.size == other.start

-- The assertions of `merge` hold where the code calls it: the tests before the calls say so.
abbrev pub merge : FreeHeader → FreeHeader → FreeHeader
merge h other =
    if ltb other.start h.start
    then record { start = other.start; size = add64 h.size other.size }
    else record h { size = add64 h.size other.size }

-- The constructor, for a block of the global heap at `memory`.
abbrev pub create : ℕ → ℕ → ℕ → ℕ → AllocationBlock
create id numa_node_id size memory = record {
  id = id;
  numa_node_id = numa_node_id;
  size = size;
  allocated_block = memory;
  free_elements = record { start = memory; size = size } ∷ [];
  available_size = size;
}

unfoldable pub is_free : AllocationBlock → Bool
is_free b = elim (b.free_elements) [
  | [] ↦ true
  | h ∷ hs ↦ length b.free_elements == 1 && h.size == b.size
]

-- The vector again, from an iterator into it.
abbrev pub onto : List FreeHeader → List FreeHeader → List FreeHeader
onto [] after = after
onto (h ∷ before) after = onto before (h ∷ after)

-- The bytes that a free element gives up for `size` bytes at a multiple of `alignment`.
unfoldable pub aligned_size_including_header : ℕ → ℕ → FreeHeader → ℕ
aligned_size_including_header alignment size h =
    let end = add64 h.start h.size in
    let possible_block_begin = sub64 end size in
    add64 (add64 size (bit_and possible_block_begin (sub64 alignment 1))) header_size

pub record Found : Type 0 where
  pub before : List FreeHeader
  pub element : FreeHeader
  pub after : List FreeHeader
  pub aligned_size : ℕ

unfoldable pub find_from : ℕ → ℕ → List FreeHeader → List FreeHeader → Option Found
unfolding aligned_size_including_header
find_from alignment size before [] = none
find_from alignment size before (h ∷ hs) =
    let aligned = aligned_size_including_header alignment size h in
    let rest = find_from alignment size (h ∷ before) hs in
    if leb (add64 size header_size) h.size && leb aligned h.size
    then some (record { before = before; element = h; after = hs; aligned_size = aligned })
    else rest

unfoldable pub find_block : ℕ → ℕ → List FreeHeader → Option Found
unfolding find_from
find_block alignment size hs = find_from alignment size [] hs

-- What the erased iterator reads: the element that moved to its place, or, behind the last
-- element, the bytes that are still there.
abbrev pub erased_size : Found → ℕ
erased_size f = elim (f.after) [ [] ↦ f.element.size | h ∷ hs ↦ h.size ]

-- An allocation: the address that is returned, the address of the header, and the header.
pub record Allocation : Type 0 where
  pub address : ℕ
  pub header_address : ℕ
  pub header : AllocatedHeader

-- The part of `allocate` behind a successful `find_block`.
unfoldable pub cut : AllocationBlock → Found → Allocation × AllocationBlock
cut b f =
    let free_block_end = add64 f.element.start f.element.size in
    let remaining_size = sub64 f.element.size f.aligned_size in
    let header_address = sub64 free_block_end f.aligned_size in
    let contracted = ltb 255 remaining_size in
    (
      record {
        address = add64 header_address header_size;
        header_address = header_address;
        header = record {
          size = sub64 f.aligned_size header_size;
          unused_size_before_header = if contracted then 0 else remaining_size % 2 ^ 16;
          numa_node_id = b.numa_node_id;
          allocation_block_id = b.id;
        };
      },
      (if contracted
          then record b {
            free_elements = onto f.before (contract f.element f.aligned_size ∷ f.after);
            available_size = sub64 b.available_size f.aligned_size;
          }
          else record b {
            free_elements = onto f.before f.after;
            available_size = sub64 b.available_size (erased_size f);
          }),
    )

-- `nullptr` is `none`.
unfoldable pub allocate : ℕ → ℕ → AllocationBlock → Option Allocation × AllocationBlock
allocate alignment size b =
    if ltb b.available_size size
    then (none, b)
    else elim (find_block alignment size b.free_elements) [
      | none ↦ (none, b)
      | some f ↦ let (a, b') = cut b f in (some a, b')
    ]

-- `std::lower_bound` by the addresses, from an iterator on.
abbrev pub lower_bound : ℕ → List FreeHeader → List FreeHeader → List FreeHeader × List FreeHeader
lower_bound start before [] = (before, [])
lower_bound start before (h ∷ hs) =
    if ltb h.start start then lower_bound start (h ∷ before) hs else (before, h ∷ hs)

-- Insert behind the elements `before`, where no merge to the right is possible.
join_left : FreeHeader → List FreeHeader → List FreeHeader → List FreeHeader
join_left f [] after = f ∷ after
join_left f (p ∷ before) after =
    if borders p f then onto before (merge p f ∷ after) else onto (p ∷ before) (f ∷ after)

-- The right neighbour h has taken f in; the left neighbour may take both.
join_both : FreeHeader → List FreeHeader → List FreeHeader → List FreeHeader
join_both h [] after = h ∷ after
join_both h (p ∷ before) after =
    if borders p h then onto before (merge p h ∷ after) else onto (p ∷ before) (h ∷ after)

unfoldable pub insert_free : FreeHeader → List FreeHeader → List FreeHeader → List FreeHeader
unfolding join_left join_both
insert_free f before [] = join_left f before []
insert_free f before (h ∷ hs) =
    if borders f h then join_both (merge h f) before hs else join_left f before (h ∷ hs)

-- The element that a header describes.
abbrev pub freed : ℕ → AllocatedHeader → FreeHeader
freed header_address header = record {
  start = sub64 header_address header.unused_size_before_header;
  size = add64 (add64 header.size header.unused_size_before_header) header_size;
}

unfoldable pub free : ℕ → AllocatedHeader → AllocationBlock → AllocationBlock
free header_address header b =
    let f = freed header_address header in
    let (before, after) = lower_bound f.start [] b.free_elements in
    record b {
      free_elements = insert_free f before after;
      available_size = add64 b.available_size f.size;
    }
