-- ===== src/Allocator.antt =====
-- StompAllocator of ServerCore/Allocator.{h,cpp}, which puts a block at the end of pages of its own, so that an access
-- behind it faults. An address is a number, and null is 0. PoolAllocator and StlAllocator hand on to Memory.
pub mod Pages
pub mod Tests
use cplus_server_core_model.Prelude.{
  ℕ, Bool, true, false, ◌+◌, ◌-◌, ◌*◌, ◌/◌, ◌%◌, ◌≡◌, ◌≢◌, ◌<◌, ◌&&◌, ◌||◌, not, leb, ltb,
}

abbrev pub page_size : ℕ
page_size = 0x1000

-- `n` bytes from `base` on.
abbrev pub is_inside : (base n address : ℕ) → Bool
is_inside base n address = leb base address && ltb address (base + n)

-- `VirtualAlloc` with MEM_RESERVE and MEM_COMMIT and no address, and `VirtualFree` with MEM_RELEASE, by their
-- documentation, for whole pages: the addresses that are accessible. What is reserved starts at a page and was not
-- accessible, and its base frees it.
pub record VirtualMemory {ℓ} (S : Type ℓ) : Type ℓ where
  pub alloc : ℕ → S → ℕ × S
  pub free : ℕ → S → S
  pub is_accessible : ℕ → S → Bool
  pub alloc_aligned : (n : ℕ) (s : S) → (alloc n s).0 % page_size ≡ 0
  pub alloc_accessible :
      (n a : ℕ) (s : S)
      → n % page_size ≡ 0
      → (alloc n s).0 ≢ 0
      → is_accessible a (alloc n s).1 ≡ (is_inside (alloc n s).0 n a || is_accessible a s)
  pub alloc_fresh :
      (n a : ℕ) (s : S)
      → n % page_size ≡ 0
      → (alloc n s).0 ≢ 0
      → is_inside (alloc n s).0 n a ≡ true
      → is_accessible a s ≡ false
  pub free_accessible :
      (n a : ℕ) (s : S)
      → n % page_size ≡ 0
      → (alloc n s).0 ≢ 0
      → is_accessible a (free (alloc n s).0 (alloc n s).1) ≡ is_accessible a s

module _ {ℓ} {S : Type ℓ} (v : VirtualMemory S) where
  -- `StompAllocator::Alloc`; the sum is an int32.
  unfoldable pub stomp_alloc : ℕ → S → ℕ × S
  stomp_alloc size s =
      let page_count = (size + page_size - 1) / page_size in
      let data_offset = page_count * page_size - size in
      let (base_address, s') = v.alloc (page_count * page_size) s in
      (base_address + data_offset, s')

  -- `StompAllocator::Release`.
  unfoldable pub stomp_release : ℕ → S → S
  stomp_release address s = v.free (address - address % page_size) s
