-- ===== src/Lock/Waiting.antt =====
-- The loops of WriteLock and ReadLock in ServerCore/Lock.cpp, while other threads use the lock. What an access of the
-- call finds, and what `GetTickCount64` says, are functions of how many there were before.
use cplus_server_core_model.Lock.{Lock, empty_flag, writer, desired, u16, write_lock}
use cplus_server_core_model.Prelude.{
  ℕ, Bool, Option, Outcome, zero, suc, none, some, true, false, ok, crash, lock_timeout, ◌+◌, ◌*◌,
  ◌-◌, ◌^◌, ◌%◌, ◌==◌, ◌≢◌, ◌≤◌, ltb, if◌then◌else◌,
}

abbrev pub acquire_timeout_tick : ℕ
acquire_timeout_tick = 10000

abbrev pub max_spin_count : ℕ
max_spin_count = 5000

-- The `for` of WriteLock from the access `n` on, for so many tries: the access that took the lock, and the lock then.
unfoldable pub spin_write : ℕ → (ℕ → Lock) → ℕ → ℕ → Option (ℕ × Lock)
spin_write thread seen zero n = none
spin_write thread seen (suc tries) n =
    let l = seen n in
    let later = spin_write thread seen tries (n + 1) in
    if l.lock_flag == empty_flag
    then some (n, record { lock_flag = desired thread; write_count = u16 (l.write_count + 1) })
    else later

-- The `for` of ReadLock: a try is a load and an exchange.
unfoldable pub spin_read : (ℕ → Lock) → ℕ → ℕ → Option (ℕ × Lock)
spin_read seen zero n = none
spin_read seen (suc tries) n =
    let l = seen (n + 1) in
    let later = spin_read seen tries (n + 2) in
    if l.lock_flag == (seen n).lock_flag
    then some (n + 1, record l { lock_flag = (l.lock_flag + 1) % 2 ^ 32 })
    else later

-- The `while`, where `spin` is its `for` by how many there were before. `none`: the rounds ran out.
unfoldable pub wait : (ℕ → Option (ℕ × Lock)) → (ℕ → ℕ) → ℕ → ℕ → Option (Outcome (ℕ × Lock))
wait spin clock zero i = none
wait spin clock (suc rounds) i =
    let later = wait spin clock rounds (i + 1) in
    elim (spin i) [
      | some r ↦ some (ok r)
      | none ↦
          if ltb acquire_timeout_tick ((clock (i + 1) + 2 ^ 64 - clock 0) % 2 ^ 64)
          then some (crash lock_timeout)
          else later
    ]

-- WriteLock: the access that took the lock, and the lock then.
unfoldable pub wait_write : ℕ → (ℕ → Lock) → (ℕ → ℕ) → ℕ → Option (Outcome (ℕ × Lock))
unfolding wait spin_write
wait_write thread seen clock rounds =
    let l = seen 0 in
    if thread == writer l.lock_flag
    then some (ok (0, record l { write_count = u16 (l.write_count + 1) }))
    else wait (λ i. spin_write thread seen max_spin_count (1 + max_spin_count * i)) clock rounds 0

-- ReadLock; the load and the addition of a writer have no other thread in between that changes the flag.
unfoldable pub wait_read : ℕ → (ℕ → Lock) → (ℕ → ℕ) → ℕ → Option (Outcome (ℕ × Lock))
unfolding wait spin_read
wait_read thread seen clock rounds =
    let l = seen 0 in
    if writer l.lock_flag == thread
    then some (ok (0, record l { lock_flag = (l.lock_flag + 1) % 2 ^ 32 }))
    else wait (λ i. spin_read seen max_spin_count (1 + 2 * max_spin_count * i)) clock rounds 0

-- One round of Lock.write_lock does not take the lock at any of the `n` accesses from `m` on.
unfoldable pub refused : ℕ → (ℕ → Lock) → ℕ → ℕ → Bool
unfolding write_lock
refused thread seen m zero = true
refused thread seen m (suc n) =
    let rest = refused thread seen (m + 1) n in
    elim (write_lock thread (seen m)) [ none ↦ rest | some l ↦ false ]

-- Other threads do not write the number of this thread into the flag.
abbrev pub LeftBy : ℕ → (ℕ → Lock) → Type 0
LeftBy thread seen = (n : ℕ) → 1 ≤ n → thread ≢ writer (seen n).lock_flag
