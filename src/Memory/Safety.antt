-- ===== src/Memory/Safety.antt =====
-- Every program: no block is given out twice, and each is as large as was asked for.
use cplus_server_core_model.Memory.{Heap, build, allocate, release, detach_entry, ℕ, ok}
use cplus_server_core_model.Memory.Table.{build_bounds}
use cplus_server_core_model.Memory.Calls.{release-released}
use cplus_server_core_model.Memory.Blocks.{unknown, held, System, init, given, Inv}
use cplus_server_core_model.Memory.Kept.{init-Inv, allocate-Granted, release-TakenBack, returned}
use cplus_server_core_model.Prelude.{
  ℕ, ok, ◌≡◌, ◌<◌, subst, ◌≢◌, ◌+◌, sym, ◌≤◌, ◌∙◌, arith, crash, assert_crash, ◌^◌,
}

-- The program allocates, or releases a block that it has. `_aligned_malloc` gives a block that is not in
-- use; where it gives null, or the sum is no int32, the call of Allocate is stray.
pub data Step (entry_size : ℕ) (s : System) : System → Type 0 where
  allocates :
      (size fresh : ℕ) {r : ℕ × Heap}
      → 0 < fresh
      → size + entry_size < 2 ^ 31
      → s.place fresh ≡ unknown
      → allocate build.pool_table entry_size size fresh s.heap ≡ ok r
      → Step entry_size s (given entry_size size fresh r s)
  releases :
      (n block : ℕ) {h : Heap}
      → s.place block ≡ held n
      → release build.pool_table entry_size (block + entry_size) s.heap ≡ ok h
      → Step entry_size s (returned n block h s)

pub data Reach (entry_size : ℕ) : System → Type 0 where
  start : Reach entry_size init
  later : {s t : System} → Reach entry_size s → Step entry_size s t → Reach entry_size t

ok_inj : {A : Type 0} {a b : A} → ok a ≡ ok b → a ≡ b
ok_inj e = cc

Step-Inv : {e : ℕ} {s t : System} → 0 < e → Step e s t → Inv s → Inv t
Step-Inv {e} {s} pos (allocates size fresh {r = r} there fits new eq) v =
    let (ptr, h, eq', (v', w)) = allocate-Granted e size fresh s pos there fits new v in
    subst (λ q. Inv (given e size fresh q s)) (ok_inj (sym eq' ∙ eq)) v'
Step-Inv {e} {s} pos (releases n block {h = h} mine eq) v =
    let (h', eq', v') = release-TakenBack e n block s mine v in
    subst (λ q. Inv (returned n block q s)) (ok_inj (sym eq' ∙ eq)) v'

Reach-Inv : {e : ℕ} {s : System} → 0 < e → Reach e s → Inv s
Reach-Inv pos Reach.start = init-Inv
Reach-Inv pos (Reach.later r st) = Step-Inv pos st (Reach-Inv pos r)

-- Whatever was allocated and released before, Allocate gives a block, without a crash, if `_aligned_malloc` does not
-- give null, and the size with the header is below 2 ^ 31: one that the program does not have, and,
-- also when it was used before, as large as the request and the header need.
pub allocate-apart :
    (e size fresh : ℕ) {s : System}
    → 0 < e
    → Reach e s
    → 0 < fresh
    → size + e < 2 ^ 31
    → s.place fresh ≡ unknown
    → (ptr : ℕ) × (h : Heap) × (allocate build.pool_table e size fresh s.heap ≡ ok (ptr, h))
      × (((n : ℕ) → s.place (detach_entry e ptr) ≢ held n)
          × (size + e ≤ (given e size fresh (ptr, h) s).capacity (detach_entry e ptr)))
allocate-apart e size fresh {s} pos r there fits new =
    let v = Reach-Inv pos r in
    let (ptr, h, eq, (v', apart)) = allocate-Granted e size fresh s pos there fits new v in
    (ptr, h, eq, (apart, ground (arith, v'.marked (detach_entry e ptr))))

-- Release of a block that the program has, and that a pool can take, does not crash; a second
-- Release of it, before it is allocated again, does.
pub release-twice :
    (e n block : ℕ) {s : System}
    → 0 < e
    → Reach e s
    → s.place block ≡ held n
    → n ≤ 4096
    → (h : Heap) × (release build.pool_table e (block + e) s.heap ≡ ok h)
      × (release build.pool_table e (block + e) h ≡ crash assert_crash)
release-twice e n block {s} pos r mine small =
    let v = Reach-Inv pos r in
    let (h, eq, v') = release-TakenBack e n block s mine v in
    (
      h,
      eq,
      release-released build.pool_table e block h (ground (arith, v'.marked block, build_bounds n)),
    )
