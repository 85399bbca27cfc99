-- ===== src/Memory/Calls.antt =====
-- What Allocate and Release come to in each case.
use cplus_server_core_model.Memory.{
  Heap, update, allocate, release, one_more, less_one, pool_push, List, ℕ, ok, at, some, [],
}
use cplus_server_core_model.Prelude.{
  List, ℕ, ◌<◌, ◌≡◌, ◌+◌, ◌≤◌, crash, ok, arith, assert_crash, at, ◌-◌, some, [], ◌∷◌, ◌^◌,
}

pub allocate-large :
    (table : List ℕ) (e size fresh : ℕ) (h : Heap)
    → 0 < fresh
    → size + e < 2 ^ 31
    → 4096 < size + e
    → allocate table e size fresh h
      ≡ ok (fresh + e, record h { alloc_size = update h.alloc_size fresh (size + e) })
unfolding allocate
allocate-large table e size fresh h pos fits l = ground arith

pub allocate-new :
    (table : List ℕ) (e size fresh pool : ℕ) (h : Heap)
    → 0 < fresh
    → size + e ≤ 4096
    → at (size + e) table ≡ some pool
    → h.free pool ≡ []
    → allocate table e size fresh h
      ≡ ok (
        fresh + e,
        record h {
          use_count = update h.use_count pool (one_more (h.use_count pool));
          alloc_size = update h.alloc_size fresh (size + e);
        },
      )
unfolding allocate
allocate-new table e size fresh pool h pos l a f = ground arith

pub allocate-reused :
    (table : List ℕ) (e size fresh pool block : ℕ) (blocks : List ℕ) (h : Heap)
    → 0 < block
    → size + e ≤ 4096
    → at (size + e) table ≡ some pool
    → h.free pool ≡ block ∷ blocks
    → h.alloc_size block ≡ 0
    → allocate table e size fresh h
      ≡ ok (
        block + e,
        record {
          free = update h.free pool blocks;
          use_count = update h.use_count pool (one_more (h.use_count pool));
          reserved_count = update h.reserved_count pool (less_one (h.reserved_count pool));
          alloc_size = update h.alloc_size block (size + e);
        },
      )
unfolding allocate
allocate-reused table e size fresh pool block blocks h pos l a f z = ground arith

pub release-large :
    (table : List ℕ) (e block : ℕ) (h : Heap)
    → 4096 < h.alloc_size block
    → release table e (block + e) h ≡ ok h
unfolding release
release-large table e block h l =
    let same : block + e - e ≡ block = omega arith in rw same (ground arith)

pub release-pooled :
    (table : List ℕ) (e block pool : ℕ) (h : Heap)
    → 0 < h.alloc_size block
    → h.alloc_size block ≤ 4096
    → at (h.alloc_size block) table ≡ some pool
    → release table e (block + e) h ≡ ok (pool_push pool block h)
unfolding release
release-pooled table e block pool h z l a =
    let same : block + e - e ≡ block = omega arith in rw same (ground arith)

-- A header of 0 is that of a block that was released.
pub release-released :
    (table : List ℕ) (e block : ℕ) (h : Heap)
    → h.alloc_size block ≡ 0
    → release table e (block + e) h ≡ crash assert_crash
unfolding release
release-released table e block h z =
    let same : block + e - e ≡ block = omega arith in rw same (ground arith)
