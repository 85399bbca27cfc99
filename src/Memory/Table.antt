-- ===== src/Memory/Table.antt =====
-- The loops that fill the table of the pools: each place up to 4096 is filled, with a pool whose
-- blocks are large enough and at most 255 bytes larger than asked for.
use cplus_server_core_model.Memory.{
  Building, fill, add_pool, add_pools, build, ℕ, List, at, length, some, suc, [], leb, ltb, none,
}
use cplus_server_core_model.Prelude.{
  ℕ, List, ◌<◌, ◌≤◌, at, length, ◌≡◌, ◌++◌, ◌+◌, arith, ◌∷◌, some, dec_lt, length-append, [],
  if◌then◌else◌, zero, ◌==◌, refl, Bool-cases, leb, ltb, inl, inr, ◌⊎◌, none,
}
use mathlib.Core.Bool.{true}

at-append_one :
    (i : ℕ) (xs : List ℕ) (x : ℕ)
    → at i (xs ++ x ∷ []) ≡ (if i == length xs then some x else at i xs)
at-append_one zero [] x = refl
at-append_one (suc i) [] x = ground arith
at-append_one zero (y ∷ xs) x = ground arith
at-append_one (suc i) (y ∷ xs) x = ground (arith, at-append_one i xs x)

at-inside : (i : ℕ) (xs : List ℕ) (x : ℕ) → at i xs ≡ some x → i < length xs
at-inside i [] x e = cc
at-inside zero (y ∷ xs) x e = omega arith
at-inside (suc i) (y ∷ xs) x e = omega (arith, at-inside i xs x e)

inside-at : (i : ℕ) (xs : List ℕ) → i < length xs → (x : ℕ) × (at i xs ≡ some x)
inside-at i [] h = absurd (omega arith)
inside-at zero (y ∷ xs) h = (y, refl)
inside-at (suc i) (y ∷ xs) h = inside-at i xs (omega arith)

nothing-at : (i : ℕ) (xs : List ℕ) → length xs ≤ i → at i xs ≡ none
nothing-at i [] h = refl
nothing-at zero (y ∷ xs) h = absurd (omega arith)
nothing-at (suc i) (y ∷ xs) h = nothing-at i xs (omega arith)

-- Every filled place has a pool that fits it.
pub IsFitting : List ℕ → Type 0
IsFitting pool_table = (i pool : ℕ) → at i pool_table ≡ some pool → (i ≤ pool) × (pool ≤ i + 255)

append-IsFitting :
    (size : ℕ) (pool_table : List ℕ)
    → length pool_table ≤ size
    → size ≤ length pool_table + 255
    → IsFitting pool_table
    → IsFitting (pool_table ++ size ∷ [])
unfolding IsFitting
append-IsFitting size pool_table low high v i pool e =
    ground (arith, at-append_one i pool_table size, v i pool)

fill-IsFitting :
    (rounds size : ℕ) (pool_table : List ℕ)
    → size ≤ length pool_table + 255
    → IsFitting pool_table
    → IsFitting (fill rounds size pool_table)
unfolding fill
fill-IsFitting zero size pool_table h v = v
fill-IsFitting (suc k) size pool_table h v =
    let n = length-append pool_table (size ∷ []) in
    elim (Bool-cases (leb (length pool_table) size)) [
      | inl e ↦ rw e (
          fill-IsFitting k size (pool_table ++ size ∷ []) (omega arith)
            (append-IsFitting size pool_table (ground arith) h v))
      | inr e ↦ rw e v
    ]

-- With enough rounds the places up to the size are filled, and no other.
length-fill :
    (rounds size : ℕ) (pool_table : List ℕ)
    → length pool_table ≤ size + 1
    → size < length pool_table + rounds
    → length (fill rounds size pool_table) ≡ size + 1
unfolding fill
length-fill zero size pool_table h r = omega arith
length-fill (suc k) size pool_table h r =
    let n = length-append pool_table (size ∷ []) in
    elim (dec_lt size (length pool_table)) [
      | yes l ↦ ground arith
      | no l ↦
          let ih = length-fill k size (pool_table ++ size ∷ []) (omega arith) (omega arith) in
          ground arith
    ]

-- The table between two pools, the next one of which is at most 255 bytes larger than the places.
record IsBuilding (b : Building) : Type 0 where
  fitting : IsFitting b.pool_table
  behind : length b.pool_table ≤ b.size
  near : b.size ≤ length b.pool_table + 255

add_pool-IsBuilding :
    (step : ℕ) (b : Building)
    → 1 ≤ step
    → step ≤ 256
    → IsBuilding b
    → IsBuilding (add_pool step b) × (length (add_pool step b).pool_table ≡ b.size + 1)
unfolding add_pool
add_pool-IsBuilding step b low high v =
    let n =
      length-fill (b.size + 1) b.size b.pool_table (let h = v.behind in omega arith)
        (omega arith) in
    (
      record {
        fitting = fill-IsFitting (b.size + 1) b.size b.pool_table v.near v.fitting;
        behind = omega arith;
        near = omega arith;
      },
      n,
    )

-- Behind a round, the places filled are those up to one step in front of the next size.
record IsFilled (step : ℕ) (b : Building) : Type 0 where
  pub building : IsBuilding b
  pub filled : length b.pool_table + step ≡ b.size + 1

add_pool-IsFilled :
    (step : ℕ) (b : Building)
    → 1 ≤ step
    → step ≤ 256
    → IsBuilding b
    → IsFilled step (add_pool step b)
unfolding add_pool
add_pool-IsFilled step b low high v =
    let (v', n) = add_pool-IsBuilding step b low high v in
    record { building = v'; filled = omega arith }

add_pools-IsFilled :
    (rounds limit step : ℕ) (b : Building)
    → 1 ≤ step
    → step ≤ 256
    → IsFilled step b
    → IsFilled step (add_pools rounds limit step b)
unfolding add_pools
add_pools-IsFilled zero limit step b low high v = v
add_pools-IsFilled (suc k) limit step b low high v = elim (Bool-cases (ltb b.size limit)) [
  | inl t ↦ rw t (
      add_pools-IsFilled k limit step (add_pool step b) low high
        (add_pool-IsFilled step b low high v.building))
  | inr t ↦ rw t v
]

-- A loop whose first test succeeds.
loop-IsFilled :
    (rounds limit step : ℕ) (b : Building)
    → 1 ≤ step
    → step ≤ 256
    → b.size < limit
    → IsBuilding b
    → IsFilled step (add_pools (suc rounds) limit step b)
unfolding add_pools
loop-IsFilled k limit step b low high h v =
    let t : ltb b.size limit ≡ true = ground arith in
    rw t (
      add_pools-IsFilled k limit step (add_pool step b) low high
        (add_pool-IsFilled step b low high v))

first : Building
first = add_pools 64 1024 32 (record { size = 32; pools = []; pool_table = [] })

second : Building
second = add_pools 64 2048 128 first

size-first : first.size ≡ 1024
unfolding first add_pools
size-first = refl

size-second : second.size ≡ 2048
unfolding second first add_pools
size-second = refl

size-build : build.size ≡ 4352
unfolding build
size-build = refl

build-IsFilled : IsFilled 256 build
unfolding build second first IsFitting
build-IsFilled =
    loop-IsFilled 63 4097 256 second (omega arith) (omega arith) (omega (arith, size-second))
      at_second
  where
    at_start : IsBuilding (record { size = 32; pools = []; pool_table = [] })
    at_start = record { fitting = λ i pool e. cc; behind = omega arith; near = omega arith }

    at_first : IsBuilding first
    at_first =
        (loop-IsFilled 63 1024 32 _ (omega arith) (omega arith) (omega arith) at_start).building

    at_second : IsBuilding second
    at_second =
        (loop-IsFilled 63 2048 128 first (omega arith) (omega arith) (omega (arith, size-first))
          at_first).building

pub length-build : length build.pool_table ≡ 4097
length-build = omega (arith, size-build, build-IsFilled.filled)

-- The constructor fills each place of `_poolTable` from 0 to 4096, and no other, with a pool
-- whose blocks are as large as the place asks for and at most 255 bytes larger.
pub build_bounds :
    (alloc_size : ℕ)
    → ((alloc_size ≤ 4096)
        × (pool : ℕ) × (at alloc_size build.pool_table ≡ some pool)
        × ((alloc_size ≤ pool) × (pool ≤ alloc_size + 255)))
      ⊎ ((4096 < alloc_size) × (at alloc_size build.pool_table ≡ none))
unfolding IsFitting
build_bounds i = elim (dec_lt 4096 i) [
  | yes l ↦ inr (l, nothing-at i build.pool_table (omega (arith, length-build)))
  | no l ↦
      let (pool, e) = inside-at i build.pool_table (omega (arith, length-build)) in
      inl (omega arith, pool, e, build-IsFilled.building.fitting i pool e)
]
