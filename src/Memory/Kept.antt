-- ===== src/Memory/Kept.antt =====
-- Allocations and releases keep the blocks apart.
use cplus_server_core_model.Memory.{
  Heap, build, update, allocate, release, less_one, pool_push, ℕ, List, at, some, length, ok,
  detach_entry, none,
}
use cplus_server_core_model.Memory.Table.{build_bounds}
use cplus_server_core_model.Memory.Calls.{
  allocate-large, allocate-new, allocate-reused, release-large, release-pooled,
}
use cplus_server_core_model.Memory.Blocks.{
  unknown, pooled, held, System, init, malloc_size, given, put_back, count, Inv,
}
use cplus_server_core_model.Prelude.{
  ℕ, refl, ◌≤◌, ◌<◌, List, arith, ◌≡◌, ◌+◌, ◌∷◌, at, ap, ◌-◌, some, length, ◌≢◌, ◌⊎◌, ok, none, inl,
  inr, [], ◌^◌,
}

pub malloc_size-le : (n : ℕ) → n ≤ malloc_size n
malloc_size-le n = ground (arith, build_bounds n)

pub init-Inv : Inv init
init-Inv = record { listed = λ x p. refl; marked = λ x. tt; nowhere = refl; reserved = λ p. refl }

-- A block that is new, and goes to the program.
given_new :
    (e size fresh : ℕ) (s : System) (use_count : ℕ → ℕ)
    → 0 < e
    → 0 < fresh
    → s.place fresh ≡ unknown
    → Inv s
    → Inv (
        given e size fresh
          (
            fresh + e,
            record (s.heap) {
              use_count = use_count;
              alloc_size = update s.heap.alloc_size fresh (size + e);
            },
          )
          s)
given_new e size fresh s use_count pos there new v =
    let same : fresh + e - e ≡ fresh = omega arith in
    rw same (record {
      listed = λ x p. ground (arith, v.listed x p);
      marked = λ x. ground (arith, v.marked x, malloc_size-le (size + e));
      nowhere = ground (arith, v.nowhere, there);
      reserved = v.reserved;
    })

top_pooled :
    (block pool : ℕ) (blocks : List ℕ) (s : System)
    → s.heap.free pool ≡ block ∷ blocks
    → Inv s
    → (s.place block ≡ pooled pool)
      × (s.heap.alloc_size block ≡ 0)
      × (s.capacity block ≡ pool)
      × (count block blocks ≡ 0)
top_pooled block pool blocks s f v =
    ground (arith, v.listed block pool, v.marked block, ap (count block) f)

-- A block from the list of a pool.
given_reused :
    (e size fresh pool block : ℕ) (blocks : List ℕ) (s : System) (use_count : ℕ → ℕ)
    → 0 < e
    → s.place fresh ≡ unknown
    → at (size + e) build.pool_table ≡ some pool
    → s.heap.free pool ≡ block ∷ blocks
    → Inv s
    → Inv (
        given e size fresh
          (
            block + e,
            record {
              free = update s.heap.free pool blocks;
              use_count = use_count;
              reserved_count =
                  update s.heap.reserved_count pool (less_one (s.heap.reserved_count pool));
              alloc_size = update s.heap.alloc_size block (size + e);
            },
          )
          s)
given_reused e size fresh pool block blocks s use_count pos new a f v =
    let same : block + e - e ≡ block = omega arith in
    let top = top_pooled block pool blocks s f v in
    rw same (record {
      listed = λ x p. ground (arith, v.listed x p, v.listed x pool, ap (count x) f);
      marked = λ x. ground (arith, v.marked x, malloc_size-le (size + e));
      nowhere = ground (arith, v.nowhere, top.0);
      reserved = λ p. ground (arith, v.reserved p, v.reserved pool, ap length f);
    })

-- The call of Allocate gives a result, and the program may have the block.
abbrev pub Granted : ℕ → ℕ → ℕ → System → Type 0
Granted e size fresh s =
    (ptr : ℕ) × (h : Heap) × (allocate build.pool_table e size fresh s.heap ≡ ok (ptr, h))
    × (Inv (given e size fresh (ptr, h) s) × ((n : ℕ) → s.place (detach_entry e ptr) ≢ held n))

pub allocate-Granted :
    (e size fresh : ℕ) (s : System)
    → 0 < e
    → 0 < fresh
    → size + e < 2 ^ 31
    → s.place fresh ≡ unknown
    → Inv s
    → Granted e size fresh s
allocate-Granted e size fresh s pos there fits new v = by_size (build_bounds (size + e))
  where
    same : fresh + e - e ≡ fresh
    same = omega arith

    not_held : (x n : ℕ) → s.place x ≡ unknown → s.place x ≢ held n
    not_held x n u h = cc

    from_list :
        (pool : ℕ) (blocks : List ℕ)
        → s.heap.free pool ≡ blocks
        → size + e ≤ 4096
        → at (size + e) build.pool_table ≡ some pool
        → Granted e size fresh s
    from_list pool [] f small a = (
      fresh + e,
      _,
      allocate-new build.pool_table e size fresh pool s.heap there small a f,
      (given_new e size fresh s _ pos there new v, λ n. rw same (not_held fresh n new)),
    )
    from_list pool (block ∷ blocks) f small a =
        let top = top_pooled block pool blocks s f v in
        let back : block + e - e ≡ block = omega arith in
        (
          block + e,
          _,
          allocate-reused build.pool_table e size fresh pool block blocks s.heap
              (ground (arith, v.nowhere, top.0)) small a f top.1,
          (
            given_reused e size fresh pool block blocks s _ pos new a f v,
            λ n h. ground (arith, top.0),
          ),
        )

    by_size :
        ((size + e ≤ 4096)
            × (pool : ℕ) × (at (size + e) build.pool_table ≡ some pool)
            × ((size + e ≤ pool) × (pool ≤ size + e + 255)))
          ⊎ ((4096 < size + e) × (at (size + e) build.pool_table ≡ none))
        → Granted e size fresh s
    by_size (inl (small, pool, a, near)) = from_list pool (s.heap.free pool) refl small a
    by_size (inr (large, a)) = (
      fresh + e,
      _,
      allocate-large build.pool_table e size fresh s.heap there fits large,
      (given_new e size fresh s _ pos there new v, λ n. rw same (not_held fresh n new)),
    )

-- The system after a release.
abbrev pub returned : ℕ → ℕ → Heap → System → System
returned n block h s = record s { heap = h; place = update s.place block (put_back n) }

returned-pooled :
    (n block pool : ℕ) (s : System)
    → s.place block ≡ held n
    → at n build.pool_table ≡ some pool
    → Inv s
    → Inv (returned n block (pool_push pool block s.heap) s)
unfolding pool_push
returned-pooled n block pool s mine a v = record {
  listed = λ x p. ground (arith, v.listed x p, v.listed x pool);
  marked = λ x. ground (arith, v.marked x, v.marked block);
  nowhere = ground (arith, v.nowhere, v.marked 0, mine);
  reserved = λ p. ground (arith, v.reserved p, v.reserved pool);
}

returned-large :
    (n block : ℕ) (s : System)
    → s.place block ≡ held n
    → at n build.pool_table ≡ none
    → Inv s
    → Inv (returned n block s.heap s)
returned-large n block s mine a v = record {
  listed = λ x p. ground (arith, v.listed x p);
  marked = λ x. ground (arith, v.marked x);
  nowhere = ground (arith, v.nowhere, v.marked 0, mine);
  reserved = v.reserved;
}

abbrev pub TakenBack : ℕ → ℕ → ℕ → System → Type 0
TakenBack e n block s =
    (h : Heap) × (release build.pool_table e (block + e) s.heap ≡ ok h) × Inv (returned n block h s)

pub release-TakenBack :
    (e n block : ℕ) (s : System) → s.place block ≡ held n → Inv s → TakenBack e n block s
release-TakenBack e n block s mine v = by_size (build_bounds n)
  where
    here :
        (s.heap.alloc_size block ≡ n)
        × (0 < n)
        × (n ≤ s.capacity block)
        × (s.capacity block ≡ malloc_size n)
    here = ground (arith, v.marked block)

    by_size :
        ((n ≤ 4096)
            × (pool : ℕ) × (at n build.pool_table ≡ some pool)
            × ((n ≤ pool) × (pool ≤ n + 255)))
          ⊎ ((4096 < n) × (at n build.pool_table ≡ none))
        → TakenBack e n block s
    by_size (inl (small, pool, a, near)) = (
      pool_push pool block s.heap,
      release-pooled build.pool_table e block pool s.heap (omega (arith, here.0, here.1))
          (omega (arith, here.0)) (rw here.0 a),
      returned-pooled n block pool s mine a v,
    )
    by_size (inr (large, a)) = (
      s.heap,
      release-large build.pool_table e block s.heap (omega (arith, here.0)),
      returned-large n block s mine a v,
    )
