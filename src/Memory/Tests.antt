-- ===== src/Memory/Tests.antt =====
-- A block of 100 bytes with a header of 32, which is released, and asked for again.
use cplus_server_core_model.Memory.{
  Heap, build, allocate, release, detach_entry, update, ◌+◌, ℕ, at, some, ok, none, one_more,
}
use cplus_server_core_model.Memory.Table.{build_bounds}
use cplus_server_core_model.Memory.Blocks.{System, init, held, given}
use cplus_server_core_model.Memory.Calls.{allocate-new, allocate-large}
use cplus_server_core_model.Memory.Safety.{Step, Reach, allocate-apart, release-twice}
use cplus_server_core_model.Prelude.{
  ◌≤◌, ◌+◌, arith, ℕ, ◌≡◌, at, refl, some, ok, ◌⊎◌, ◌≢◌, ◌<◌, none, crash, assert_crash, inl, inr,
}

build_bounds_example :
    ((100 ≤ 4096)
      × (pool : ℕ) × (at 100 build.pool_table ≡ some pool)
      × ((100 ≤ pool) × (pool ≤ 100 + 255)))
    ⊎ ((4096 < 100) × (at 100 build.pool_table ≡ none))
build_bounds_example = build_bounds 100

-- A large block, at address 7000.
abbrev one_large : System
one_large =
    given 32 5000 7000
      (7000 + 32, record (init.heap) { alloc_size = update init.heap.alloc_size 7000 5032 }) init

one_large-Reach : Reach 32 one_large
one_large-Reach = Reach.later Reach.start (
    Step.allocates 5000 7000 (omega arith) (omega arith) refl (
      allocate-large build.pool_table 32 5000 7000 init.heap (omega arith) (omega arith)
        (omega arith)))

allocate-apart_example :
    (ptr : ℕ) × (h : Heap) × (allocate build.pool_table 32 100 9000 one_large.heap ≡ ok (ptr, h))
    × (((n : ℕ) → one_large.place (detach_entry 32 ptr) ≢ held n)
        × (100 + 32 ≤ (given 32 100 9000 (ptr, h) one_large).capacity (detach_entry 32 ptr)))
allocate-apart_example =
    allocate-apart 32 100 9000 (omega arith) one_large-Reach (omega arith) (omega arith) refl

pool_of_132 : (pool : ℕ) × (at 132 build.pool_table ≡ some pool)
pool_of_132 = from_bounds (build_bounds 132)
  where
    from_bounds :
        ((132 ≤ 4096)
            × (pool : ℕ) × (at 132 build.pool_table ≡ some pool)
            × ((132 ≤ pool) × (pool ≤ 132 + 255)))
          ⊎ ((4096 < 132) × (at 132 build.pool_table ≡ none))
        → (pool : ℕ) × (at 132 build.pool_table ≡ some pool)
    from_bounds (inl (small, pool, e, fits)) = (pool, e)
    from_bounds (inr (large, e)) = absurd (omega arith)

-- A small block, at address 7000.
abbrev one_small : System
one_small =
    given 32 100 7000
      (
        7000 + 32,
        record (init.heap) {
          use_count = update init.heap.use_count pool_of_132.0 (one_more 0);
          alloc_size = update init.heap.alloc_size 7000 132;
        },
      )
      init

one_small-Reach : Reach 32 one_small
one_small-Reach = Reach.later Reach.start (
    Step.allocates 100 7000 (omega arith) (omega arith) refl (
      allocate-new build.pool_table 32 100 7000 pool_of_132.0 init.heap (omega arith) (omega arith)
        pool_of_132.1 refl))

release-twice_example :
    (h : Heap) × (release build.pool_table 32 (7000 + 32) one_small.heap ≡ ok h)
    × (release build.pool_table 32 (7000 + 32) h ≡ crash assert_crash)
release-twice_example = release-twice 32 132 7000 (omega arith) one_small-Reach refl (omega arith)
