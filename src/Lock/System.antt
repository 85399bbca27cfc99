-- ===== src/Lock/System.antt =====
-- Threads with write and read guards on one lock, in any order of their calls, where each call runs
-- without interruption; Lock/Writers has the accesses of WriteLock and WriteUnlock.
use cplus_server_core_model.Lock.{
  Lock, make, write_lock, write_unlock, read_lock, read_unlock, readers, ℕ, some, ok,
}
use cplus_server_core_model.Prelude.{ℕ, ◌<◌, ◌≡◌, some, ◌+◌, ok, ◌-◌, if◌then◌else◌, ◌==◌}

-- How many guards of each kind thread `t` holds.
pub record System : Type 0 where
  pub lock : Lock
  pub writes : ℕ → ℕ
  pub reads : ℕ → ℕ

abbrev pub update : (ℕ → ℕ) → ℕ → ℕ → ℕ → ℕ
update f t n j = if j == t then n else f j

abbrev pub init : System
init = record { lock = make; writes = λ _. 0; reads = λ _. 0 }

-- A thread as `ThreadManager::InitTLS` numbers it, from 1 on; an id fits the 16 bits of the flag.
-- The counts of guards stay below 2 ^ 16.
pub data Step (s : System) : System → Type 0 where
  writes_in :
      (t : ℕ) {l : Lock}
      → 0 < t
      → t < 65536
      → s.writes t < 65535
      → write_lock t s.lock ≡ some l
      → Step s (record s { lock = l; writes = update s.writes t (s.writes t + 1) })
  writes_out :
      (t : ℕ) {l : Lock}
      → 0 < t
      → 0 < s.writes t
      → write_unlock s.lock ≡ ok l
      → Step s (record s { lock = l; writes = update s.writes t (s.writes t - 1) })
  reads_in :
      (t : ℕ)
      → 0 < t
      → readers s.lock.lock_flag < 65535
      → Step s (record s { lock = read_lock t s.lock; reads = update s.reads t (s.reads t + 1) })
  reads_out :
      (t : ℕ) {l : Lock}
      → 0 < t
      → 0 < s.reads t
      → read_unlock s.lock ≡ ok l
      → Step s (record s { lock = l; reads = update s.reads t (s.reads t - 1) })

pub data Reach : System → Type 0 where
  start : Reach init
  later : {s t : System} → Reach s → Step s t → Reach t
