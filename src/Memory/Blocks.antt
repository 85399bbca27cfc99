-- ===== src/Memory/Blocks.antt =====
-- A program that allocates and releases: who has each block, and how large the block is.
use cplus_server_core_model.Memory.{
  Heap, build, update, detach_entry, ℕ, [], List, at, ◌∷◌, length, some,
}
use cplus_server_core_model.Prelude.{
  ℕ, [], List, ◌≡◌, ◌≤◌, ◌<◌, at, ◌+◌, if◌then◌else◌, ◌==◌, length, some, none, ◌%◌, ◌^◌,
}

-- Where a block is: not ours, in the list of a pool, or with the program, which asked for `size` bytes, the
-- header included.
pub data Place : Type 0 where
  unknown : Place
  pooled : (pool : ℕ) → Place
  held : (size : ℕ) → Place

-- `capacity` is what was asked of `_aligned_malloc` for the block.
pub record System : Type 0 where
  pub heap : Heap
  pub place : ℕ → Place
  pub capacity : ℕ → ℕ

abbrev pub init : System
init = record {
  heap = record {
    free = λ p. [];
    use_count = λ p. 0;
    reserved_count = λ p. 0;
    alloc_size = λ x. 0;
  };
  place = λ x. unknown;
  capacity = λ x. 0;
}

-- What `_aligned_malloc` is asked for.
abbrev pub malloc_size : ℕ → ℕ
malloc_size n = elim (at n build.pool_table) [ none ↦ n | some pool ↦ pool ]

module _ (entry_size : ℕ) where
  -- The system after an allocation that gave this address and heap.
  abbrev pub given : ℕ → ℕ → ℕ × Heap → System → System
  given size fresh (ptr, h) s =
      let block = detach_entry entry_size ptr in
      record {
        heap = h;
        place = update s.place block (held (size + entry_size));
        capacity =
            if block == fresh
            then update s.capacity fresh (malloc_size (size + entry_size))
            else s.capacity;
      }

-- Where a block of this size goes when it is released.
abbrev pub put_back : ℕ → Place
put_back n = elim (at n build.pool_table) [ none ↦ unknown | some pool ↦ pooled pool ]

abbrev pub is_pooled : ℕ → Place → ℕ
is_pooled p unknown = 0
is_pooled p (pooled q) = if q == p then 1 else 0
is_pooled p (held n) = 0

abbrev pub count : ℕ → List ℕ → ℕ
count x [] = 0
count x (y ∷ ys) = (if y == x then 1 else 0) + count x ys

-- The header of a block, and its size.
abbrev pub IsMarked : Place → ℕ → ℕ → Type 0
IsMarked unknown alloc_size capacity = Unit
IsMarked (pooled p) alloc_size capacity = (alloc_size ≡ 0) × (capacity ≡ p)
IsMarked (held n) alloc_size capacity =
    (alloc_size ≡ n) × (0 < n) × (n ≤ capacity) × (capacity ≡ malloc_size n)

-- Each block is in the list of its pool, once, or with the program, or not ours; null is no block.
pub record Inv (s : System) : Type 0 where
  pub listed : (x p : ℕ) → count x (s.heap.free p) ≡ is_pooled p (s.place x)
  pub marked : (x : ℕ) → IsMarked (s.place x) (s.heap.alloc_size x) (s.capacity x)
  pub nowhere : s.place 0 ≡ unknown
  pub reserved : (p : ℕ) → s.heap.reserved_count p ≡ length (s.heap.free p) % 2 ^ 32
