-- ===== src/Allocator/Pages.antt =====
-- Where the stomp allocator puts a block, and what it gives back.
use cplus_server_core_model.Allocator.{
  page_size, is_inside, VirtualMemory, stomp_alloc, stomp_release,
}
use cplus_server_core_model.Prelude.{
  ℕ, true, false, ◌+◌, ◌-◌, ◌*◌, ◌/◌, ◌%◌, ◌≡◌, ◌≢◌, ◌<◌, ◌≤◌, ◌&&◌, leb, arith, ap, ◌^◌,
  if◌then◌else◌, ◌∙◌,
}

-- The page that an address in the first page of a region lies in.
page_of :
    (base offset : ℕ)
    → base % page_size ≡ 0
    → offset < page_size
    → base + offset - (base + offset) % page_size ≡ base
page_of base offset h l = omega (arith, h, l)

-- A block of the stomp allocator, if `VirtualAlloc` has pages for it, is accessible from its first byte to its last,
-- where nothing was accessible before; from its end on nothing is accessible but what was so before; and its
-- release leaves accessible what was so before.
pub stomp_release-stomp_alloc {ℓ} :
    {S : Type ℓ} (v : VirtualMemory S) (size a : ℕ) (s : S)
    → 0 < size
    → size + page_size ≤ 2 ^ 31
    → (v.alloc ((size + page_size - 1) / page_size * page_size) s).0 ≢ 0
    → let block = stomp_alloc v size s in
      (v.is_accessible a block.1 ≡ (
        if leb (block.0 + size) a
        then v.is_accessible a s
        else if leb block.0 a
        then true
        else v.is_accessible a block.1))
      × ((is_inside block.0 size a && v.is_accessible a s) ≡ false)
      × (v.is_accessible a (stomp_release v block.0 block.1) ≡ v.is_accessible a s)
unfolding stomp_alloc stomp_release
stomp_release-stomp_alloc v size a s pos fits there =
    let n = (size + page_size - 1) / page_size * page_size in
    let base = (v.alloc n s).0 in
    let whole : n % page_size ≡ 0 = omega arith in
    let enough : size ≤ n = omega (arith, pos) in
    let tight : n - size < page_size = omega (arith, pos) in
    (
      ground (arith, v.alloc_accessible n a s whole there, enough),
      ground (arith, v.alloc_fresh n a s whole there, enough),
      ap (λ b. v.is_accessible a (v.free b (v.alloc n s).1))
            (page_of base (n - size) (v.alloc_aligned n s) tight)
          ∙ v.free_accessible n a s whole there,
    )
