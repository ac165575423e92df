-- ===== src/Util/Vector.antt =====
-- mx/util/vector.h: a growing array on the memory of one NUMA region. The elements are a function of
-- the index; new memory holds whatever `fresh` says, and is always there.
pub mod Growth
use mxtasking.Prelude.{ℕ, ◌+◌, ◌*◌, ◌%◌, ◌^◌, Bool, true, false, ◌==◌, ltb, leb, if◌then◌else◌}

pub record Vector {ℓ} (A : Type ℓ) : Type ℓ where
  pub numa_node_id : ℕ
  pub data_ : ℕ → A
  pub is_allocated : Bool
  pub current_index : ℕ
  pub capacity : ℕ

module _ {ℓ} {A : Type ℓ} (fresh : ℕ → A) where
  -- std::memcpy of the elements in use.
  abbrev pub memcpy : (ℕ → A) → ℕ → ℕ → A
  memcpy source count j = if ltb j count then source j else fresh j

  -- `vector(numa_node_id, reserved)`
  unfoldable pub create : ℕ → ℕ → Vector A
  create numa_node_id reserved = record {
    numa_node_id = numa_node_id;
    data_ = fresh;
    is_allocated = true;
    current_index = 0;
    capacity = reserved;
  }

  abbrev pub empty : Vector A → Bool
  empty v = v.current_index == 0

  unfoldable pub reserve : ℕ → Vector A → Vector A
  reserve n v = record v {
    data_ =
        if v.is_allocated
        then (if empty v then fresh else memcpy v.data_ v.current_index)
        else fresh;
    is_allocated = true;
    capacity = n;
  }

  unfoldable pub grow_if_needed : Vector A → Vector A
  unfolding reserve
  grow_if_needed v =
      if leb v.capacity v.current_index then reserve (v.capacity * 2 % 2 ^ 64) v else v

  unfoldable pub push_back : A → Vector A → Vector A
  unfolding grow_if_needed
  push_back item v =
      let grown = grow_if_needed v in
      record grown {
        data_ = λ j. if j == grown.current_index then item else grown.data_ j;
        current_index = (grown.current_index + 1) % 2 ^ 64;
      }

  abbrev pub clear : Vector A → Vector A
  clear v = record v { current_index = 0 }

  -- The copy constructor and the copy assignment: new memory, with a copy of the elements in use.
  abbrev pub copy_of : Vector A → Vector A
  copy_of other = record other {
    data_ = memcpy other.data_ other.current_index;
    is_allocated = true;
  }

  -- The move constructor and the move assignment take the memory, and leave `other` so.
  abbrev pub moved_from : Vector A → Vector A
  moved_from other = record other { is_allocated = false; current_index = 0; capacity = 0 }
