-- ===== src/Allocator/Tests.antt =====
-- Pages of an address space in which nothing is used again, and a block of 5000 bytes.
use cplus_server_core_model.Allocator.{
  page_size, is_inside, VirtualMemory, stomp_alloc, stomp_release,
}
use cplus_server_core_model.Allocator.Pages.{stomp_release-stomp_alloc}
use cplus_server_core_model.Prelude.{
  ℕ, Bool, List, [], ◌∷◌, true, false, ◌+◌, ◌*◌, ◌%◌, ◌≡◌, ◌<◌, ◌&&◌, ◌||◌, leb, arith, refl,
  if◌then◌else◌, ◌==◌,
}

-- The regions from the last one on, each with its size and whether it is in use.
abbrev Space : Type 0
Space = List (ℕ × Bool)

-- Where the next region starts; as many pages as a region has bytes are more than enough.
abbrev base_of : Space → ℕ
base_of [] = page_size
base_of ((n, used) ∷ s) = base_of s + (n + 1) * page_size

abbrev is_used : ℕ → Space → Bool
is_used a [] = false
is_used a ((n, used) ∷ s) = (used && is_inside (base_of s) n a) || is_used a s

abbrev without : ℕ → Space → Space
without b [] = []
without b ((n, used) ∷ s) =
    let rest = without b s in if base_of s == b then (n, false) ∷ s else (n, used) ∷ rest

base_of-aligned : (s : Space) → base_of s % page_size ≡ 0
base_of-aligned [] = omega arith
base_of-aligned ((n, used) ∷ s) = omega (arith, base_of-aligned s)

is_used-below : (a : ℕ) (s : Space) → is_used a s ≡ true → a < base_of s
is_used-below a [] h = ground (arith, h)
is_used-below a ((n, used) ∷ s) h = ground (arith, h, is_used-below a s)

growing : VirtualMemory Space
growing = record {
  alloc = λ n s. (base_of s, (n, true) ∷ s);
  free = without;
  is_accessible = is_used;
  alloc_aligned = λ n s. base_of-aligned s;
  alloc_accessible = λ n a s whole there. refl;
  alloc_fresh = λ n a s whole there h. ground (arith, h, is_used-below a s);
  free_accessible = λ n a s whole there. ground arith;
}

stomp_release-stomp_alloc_example :
    let block = stomp_alloc growing 5000 [] in
    (growing.is_accessible 9000 block.1 ≡ (
      if leb (block.0 + 5000) 9000
      then growing.is_accessible 9000 []
      else if leb block.0 9000
      then true
      else growing.is_accessible 9000 block.1))
    × ((is_inside block.0 5000 9000 && growing.is_accessible 9000 []) ≡ false)
    × (growing.is_accessible 9000 (stomp_release growing block.0 block.1)
        ≡ growing.is_accessible 9000 [])
unfolding growing
stomp_release-stomp_alloc_example =
    stomp_release-stomp_alloc growing 5000 9000 [] (omega arith) (omega arith) (ground arith)
