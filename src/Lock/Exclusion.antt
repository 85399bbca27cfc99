-- ===== src/Lock/Exclusion.antt =====
-- Who holds write guards, and what ReadLock lets happen beside it.
use cplus_server_core_model.Lock.{
  write_lock, write_unlock, read_lock, read_unlock, writer, ℕ, Lock, readers, empty_flag, some,
  crash, none, invalid_unlock_order,
}
use cplus_server_core_model.Lock.{u16, desired}
use cplus_server_core_model.Lock.System.{
  System, init, Step, writes_in, writes_out, reads_in, reads_out, Reach,
}
use cplus_server_core_model.Prelude.{
  ◌<◌, arith, ◌^◌, ℕ, ◌≡◌, if◌then◌else◌, ◌==◌, refl, ◌≢◌, ◌+◌, some, crash, none,
  invalid_unlock_order, ◌%◌,
}

-- The thread in the flag holds as many write guards as `_writeCount` says, and no other holds one.
pub record Inv (s : System) : Type 0 where
  pub fits : s.lock.lock_flag < 2 ^ 32
  pub small : s.lock.write_count < 65536
  pub owned :
      (t : ℕ)
      → 0 < t
      → s.writes t ≡ (if t == writer s.lock.lock_flag then s.lock.write_count else 0)
  pub free : writer s.lock.lock_flag ≡ 0 → s.lock.write_count ≡ 0
  pub taken : 0 < writer s.lock.lock_flag → 0 < s.lock.write_count

init-Inv : Inv init
init-Inv = record {
  fits = omega arith;
  small = omega arith;
  owned = λ t h. ground arith;
  free = λ h. refl;
  taken = λ h. omega arith;
}

Step-Inv : {s t : System} → Step s t → Inv s → Inv t
unfolding write_lock write_unlock read_lock read_unlock
Step-Inv (writes_in t pos lt deep e) v = record {
  fits = ground (arith, v.owned t pos, v.fits);
  small = ground (arith, v.owned t pos, v.small);
  owned = λ j pj. ground (arith, v.owned t pos, v.owned j pj);
  free = ground (arith, v.owned t pos, v.free);
  taken = ground (arith, v.owned t pos, v.taken);
}
Step-Inv (writes_out t pos held e) v = record {
  fits = ground (arith, v.owned t pos, v.fits);
  small = ground (arith, v.owned t pos, v.small);
  owned = λ j pj. ground (arith, v.owned t pos, v.owned j pj);
  free = ground (arith, v.owned t pos, v.free);
  taken = ground (arith, v.owned t pos, v.taken);
}
Step-Inv (reads_in t pos room) v = record {
  fits = ground (arith, v.fits);
  small = ground (arith, v.small);
  owned = λ j pj. ground (arith, v.owned j pj);
  free = ground (arith, v.free);
  taken = ground (arith, v.taken);
}
Step-Inv (reads_out t pos held e) v = record {
  fits = ground (arith, v.fits);
  small = ground (arith, v.small);
  owned = λ j pj. ground (arith, v.owned j pj);
  free = ground (arith, v.free);
  taken = ground (arith, v.taken);
}

pub Reach-Inv : {s : System} → Reach s → Inv s
Reach-Inv Reach.start = init-Inv
Reach-Inv (Reach.later r st) = Step-Inv st (Reach-Inv r)

-- ReadLock does not keep writers out: while a thread writes, any other thread gets a read guard
-- at once, and with it inside the writer's WriteUnlock crashes.
pub reads_beside_writer :
    {s : System}
    → Reach s
    → (i j : ℕ) → 0 < i
    → 0 < j
    → j ≢ i
    → 0 < s.writes i
    → readers s.lock.lock_flag < 65535
    → (t : System) × Step s t
      × (t.writes i ≡ s.writes i)
      × (t.reads j ≡ s.reads j + 1)
      × (write_unlock t.lock ≡ crash invalid_unlock_order)
unfolding read_lock write_unlock
reads_beside_writer r i j pi pj ne w room =
    let v = Reach-Inv r in (_, reads_in j pj room, refl, ground arith, ground (arith, v.fits))

-- A thread whose id has none of the low 16 bits (0, as long as nobody gave it one, or the 65536th)
-- takes a free lock by WriteLock without marking the flag: any thread with an id below 2 ^ 16 that
-- is not 0 then takes it too, and behind that the first thread cannot enter again.
pub write_lock-unnumbered :
    (l : Lock) (u t : ℕ)
    → l.lock_flag ≡ empty_flag
    → u % 65536 ≡ 0
    → 0 < t
    → t < 65536
    → (a : Lock) × (b : Lock) × (write_lock u l ≡ some a)
      × (write_lock t a ≡ some b)
      × (write_lock u b ≡ none)
unfolding write_lock
write_lock-unnumbered l u t e low pos lt = (
  record { lock_flag = empty_flag; write_count = u16 (l.write_count + 1) },
  record { lock_flag = desired t; write_count = u16 (u16 (l.write_count + 1) + 1) },
  ground arith,
  ground arith,
  ground arith,
)
