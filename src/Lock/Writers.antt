-- ===== src/Lock/Writers.antt =====
-- Threads that take and release a lock by WriteLock and WriteUnlock of ServerCore/Lock.cpp alone,
-- interleaved at each access to the flag and the count.
use cplus_server_core_model.Lock.{Lock, make, writer, readers, empty_flag, desired, u16}
use cplus_server_core_model.Prelude.{ℕ, suc, ◌<◌, ◌≡◌, ◌≢◌, ◌+◌, ◌-◌, ◌==◌, if◌then◌else◌}

-- Where a thread is: in no call, in the loop of WriteLock, before `_writeCount++`, before
-- `--_writeCount`, and behind it with the count that it read.
pub data Pc : Type 0 where
  ready spinning counting leaving : Pc
  lowered : (lock_count : ℕ) → Pc

-- How many calls of WriteLock of a thread have no finished WriteUnlock yet.
pub record System : Type 0 where
  pub lock : Lock
  pub pc : ℕ → Pc
  pub holds : ℕ → ℕ

abbrev pub update {ℓ} : {A : Type ℓ} → (ℕ → A) → ℕ → A → ℕ → A
update f t n j = if j == t then n else f j

abbrev pub init : System
init = record { lock = make; pc = λ t. Pc.ready; holds = λ t. 0 }

-- An access of a thread whose id fits the 16 bits of the flag. A try of the loop that fails changes
-- nothing, and WriteUnlock crashes where the flag counts a reader; the counts stay below 2 ^ 16.
pub data Step (s : System) : System → Type 0 where
  finds_own :
      (t : ℕ)
      → 0 < t
      → t < 65536
      → s.pc t ≡ Pc.ready
      → t ≡ writer s.lock.lock_flag
      → Step s (record s { pc = update s.pc t Pc.counting })
  finds_other :
      (t : ℕ)
      → 0 < t
      → t < 65536
      → s.pc t ≡ Pc.ready
      → t ≢ writer s.lock.lock_flag
      → Step s (record s { pc = update s.pc t Pc.spinning })
  exchanges :
      (t : ℕ)
      → 0 < t
      → t < 65536
      → s.pc t ≡ Pc.spinning
      → s.lock.lock_flag ≡ empty_flag
      → Step s (record s {
        lock = record s.lock { lock_flag = desired t };
        pc = update s.pc t Pc.counting;
      })
  counts :
      (t : ℕ)
      → 0 < t
      → s.pc t ≡ Pc.counting
      → s.holds t < 65535
      → Step s (record {
        lock = record s.lock { write_count = u16 (s.lock.write_count + 1) };
        pc = update s.pc t Pc.ready;
        holds = update s.holds t (s.holds t + 1);
      })
  finds_no_reader :
      (t : ℕ)
      → 0 < t
      → s.pc t ≡ Pc.ready
      → 0 < s.holds t
      → readers s.lock.lock_flag ≡ 0
      → Step s (record s { pc = update s.pc t Pc.leaving })
  lowers :
      (t : ℕ)
      → 0 < t
      → s.pc t ≡ Pc.leaving
      → Step s (record s {
        lock = record s.lock { write_count = u16 (s.lock.write_count + 65535) };
        pc = update s.pc t (Pc.lowered (u16 (s.lock.write_count + 65535)));
      })
  stores :
      (t : ℕ)
      → 0 < t
      → s.pc t ≡ Pc.lowered 0
      → Step s (record {
        lock = record s.lock { lock_flag = empty_flag };
        pc = update s.pc t Pc.ready;
        holds = update s.holds t (s.holds t - 1);
      })
  keeps :
      (t n : ℕ)
      → 0 < t
      → s.pc t ≡ Pc.lowered (suc n)
      → Step s (record s { pc = update s.pc t Pc.ready; holds = update s.holds t (s.holds t - 1) })

pub data Reach : System → Type 0 where
  start : Reach init
  later : {s t : System} → Reach s → Step s t → Reach t
