-- ===== src/Memory.antt =====
-- ServerCore/Memory.{h,cpp}, ServerCore/MemoryPool.{h,cpp} and ServerCore/ObjectPool.h: memory in
-- pools of blocks of one size. A pool is named by its block size, and a block by its address. What
-- `_aligned_malloc` returns is an argument `fresh`, and `sizeof(MemoryEntry)` an argument
-- `entry_size`. The lists of Windows (`SLIST_HEADER`) make each push and pop one step.
pub mod Table
pub mod Blocks
pub mod Calls
pub mod Kept
pub mod Safety
pub mod Tests
use Prim.Native.Nat.{ℕ, suc}
use Prim.Native.String.{[]}
use cplus_server_core_model.Prelude.{
  ℕ, [], List, if◌then◌else◌, Outcome, ◌+◌, ◌∷◌, ◌-◌, ltb, ◌==◌, ok, Option, ◌++◌, ◌^◌, ◌%◌, ◌>>=◌,
  leb, stray, zero, ◌>>◌, length, assert_that, some, at, none,
}

-- MAX_ALLOC_SIZE.
abbrev pub max_alloc_size : ℕ
max_alloc_size = 4096

-- The constructor of Memory on its way: the size of the next pool, the pools so far, and the
-- places of `_poolTable` that are filled, from 0 on; `tableIndex` is their number.
pub record Building : Type 0 where
  pub size : ℕ
  pub pools : List ℕ
  pub pool_table : List ℕ

-- The `while` inside a loop, for at most this many rounds.
unfoldable pub fill : ℕ → ℕ → List ℕ → List ℕ
fill zero size pool_table = pool_table
fill (suc rounds) size pool_table =
    let rest = fill rounds size (pool_table ++ size ∷ []) in
    if leb (length pool_table) size then rest else pool_table

-- The body of a loop with `size += step`.
unfoldable pub add_pool : ℕ → Building → Building
unfolding fill
add_pool step b = record {
  size = b.size + step;
  pools = b.pools ++ b.size ∷ [];
  pool_table = fill (b.size + 1) b.size b.pool_table;
}

-- `for (; size < limit; size += step)`, for at most this many rounds.
unfoldable pub add_pools : ℕ → ℕ → ℕ → Building → Building
unfolding add_pool
add_pools zero limit step b = b
add_pools (suc rounds) limit step b =
    let rest = add_pools rounds limit step (add_pool step b) in if ltb b.size limit then rest else b

-- The three loops; the last one is `size <= 4096`.
unfoldable pub build : Building
unfolding add_pools
build = add_pools 64 4097 256 (
    add_pools 64 2048 128
      (add_pools 64 1024 32 (record { size = 32; pools = []; pool_table = [] })))

-- The pools by size, and the header of each block. `free` is `_header`, the block on top first.
pub record Heap : Type 0 where
  pub free : ℕ → List ℕ
  pub use_count : ℕ → ℕ
  pub reserved_count : ℕ → ℕ
  pub alloc_size : ℕ → ℕ

abbrev pub update {ℓ} : {A : Type ℓ} → (ℕ → A) → ℕ → A → ℕ → A
update f k a j = if j == k then a else f j

abbrev pub less_one : ℕ → ℕ
less_one n = (n + 2 ^ 32 - 1) % 2 ^ 32

abbrev pub one_more : ℕ → ℕ
one_more n = (n + 1) % 2 ^ 32

-- `MemoryPool::pop`.
unfoldable pub pool_pop : ℕ → ℕ → Heap → Outcome (ℕ × Heap)
pool_pop pool fresh h = take_top (h.free pool)
  where
    used : ℕ → ℕ
    used = update h.use_count pool (one_more (h.use_count pool))

    take_top : List ℕ → Outcome (ℕ × Heap)
    take_top [] = ok (fresh, record h { use_count = used })
    take_top (block ∷ blocks) = do
      assert_that (h.alloc_size block == 0)
      ok (
        block,
        record h {
          free = update h.free pool blocks;
          use_count = used;
          reserved_count = update h.reserved_count pool (less_one (h.reserved_count pool));
        },
      )

-- `MemoryPool::Push`.
unfoldable pub pool_push : ℕ → ℕ → Heap → Heap
pool_push pool block h = record {
  free = update h.free pool (block ∷ h.free pool);
  use_count = update h.use_count pool (less_one (h.use_count pool));
  reserved_count = update h.reserved_count pool (one_more (h.reserved_count pool));
  alloc_size = update h.alloc_size block 0;
}

-- `MemoryEntry::AttachEntry`: the place behind the header, which is written at null too.
unfoldable pub attach_entry : ℕ → ℕ → ℕ → Heap → Outcome (ℕ × Heap)
attach_entry entry_size block size h =
    if block == 0
    then stray
    else ok (block + entry_size, record h { alloc_size = update h.alloc_size block size })

-- `MemoryEntry::DetachEntry`.
abbrev pub detach_entry : ℕ → ℕ → ℕ
detach_entry entry_size ptr = ptr - entry_size

-- `Memory::Allocate`, with the table of the pools, and `fresh`, which `_aligned_malloc` gives: null is 0. `allocSize` is an
-- int32, and a negative one is outside of the table.
unfoldable pub allocate : List ℕ → ℕ → ℕ → ℕ → Heap → Outcome (ℕ × Heap)
unfolding pool_pop attach_entry
allocate pool_table entry_size size fresh h =
    let alloc_size = size + entry_size in
    if leb (2 ^ 31) alloc_size
    then stray
    else if ltb max_alloc_size alloc_size
    then attach_entry entry_size fresh alloc_size h
    else from_pool alloc_size (at alloc_size pool_table)
  where
    from_pool : ℕ → Option ℕ → Outcome (ℕ × Heap)
    from_pool alloc_size none = stray
    from_pool alloc_size (some pool) = do
      (block, h') ← pool_pop pool fresh h
      attach_entry entry_size block alloc_size h'

-- `Memory::Release`; a block that is too large for the pools goes back to the system.
unfoldable pub release : List ℕ → ℕ → ℕ → Heap → Outcome Heap
unfolding pool_push
release pool_table entry_size ptr h = do
  let block = detach_entry entry_size ptr
  let alloc_size = h.alloc_size block
  assert_that (ltb 0 alloc_size)
  if ltb max_alloc_size alloc_size then ok h else to_pool block (at alloc_size pool_table)
  where
    to_pool : ℕ → Option ℕ → Outcome Heap
    to_pool block none = stray
    to_pool block (some pool) = ok (pool_push pool block h)

-- `ObjectPool<Type>::Pop` and `Push`, for a type whose objects with their headers take `pool` bytes.
unfoldable pub object_pop : ℕ → ℕ → ℕ → Heap → Outcome (ℕ × Heap)
unfolding pool_pop attach_entry
object_pop entry_size pool fresh h = do
  (block, h') ← pool_pop pool fresh h
  attach_entry entry_size block pool h'

unfoldable pub object_push : ℕ → ℕ → ℕ → Heap → Heap
unfolding pool_push
object_push entry_size pool ptr h = pool_push pool (detach_entry entry_size ptr) h
