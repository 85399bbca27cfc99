-- ===== src/Lock.antt =====
-- ServerCore/Lock.{h,cpp}: the reader-writer spin lock, with the id of the calling thread
-- (`LThreadId` of ServerCore/CoreTLS.h) as an argument. What the profiler does in a debug build is
-- in DeadLock.
pub mod System
pub mod Exclusion
pub mod Writers
pub mod Guards
pub mod Waiting
pub mod Timeout
pub mod Tests
use cplus_server_core_model.Prelude.{
  ℕ, ◌+◌, ◌-◌, ◌*◌, ◌/◌, ◌%◌, ◌^◌, Bool, true, false, not, Option, none, some, Outcome, ok, crash,
  invalid_unlock_order, multiple_unlock, ◌==◌, if◌then◌else◌,
}

-- `_lockFlag`, a uint32, and `_writeCount`, a uint16.
pub record Lock : Type 0 where
  pub lock_flag : ℕ
  pub write_count : ℕ

abbrev pub empty_flag : ℕ
empty_flag = 0

abbrev pub make : Lock
make = record { lock_flag = empty_flag; write_count = 0 }

-- `(flag & WRITE_THREAD_MASK) >> 16`, for a flag below 2 ^ 32.
abbrev pub writer : ℕ → ℕ
writer flag = flag / 65536

-- `flag & READ_COUNT_MASK`.
abbrev pub readers : ℕ → ℕ
readers flag = flag % 65536

-- `(LThreadId << 16) & WRITE_THREAD_MASK`: the shift drops the high bits, and clears the low.
abbrev pub desired : ℕ → ℕ
desired thread = thread * 65536 % 2 ^ 32

abbrev pub u16 : ℕ → ℕ
u16 n = n % 65536

-- WriteLock: the test for the own thread, or one round of the spin loop. `none`: the exchange
-- failed, and the loop goes round again.
unfoldable pub write_lock : ℕ → Lock → Option Lock
write_lock thread l =
    if thread == writer l.lock_flag
    then some (record l { write_count = u16 (l.write_count + 1) })
    else if l.lock_flag == empty_flag
    then some (record { lock_flag = desired thread; write_count = u16 (l.write_count + 1) })
    else none

-- WriteUnlock, where nobody changes the flag between the load and the store.
unfoldable pub write_unlock : Lock → Outcome Lock
write_unlock l =
    let count = u16 (l.write_count + 65535) in
    if not (readers l.lock_flag == 0)
    then crash invalid_unlock_order
    else ok (
        if count == 0
        then record { lock_flag = empty_flag; write_count = count }
        else record l { write_count = count })

-- ReadLock, where nobody changes the flag between the load and the exchange: on both paths the
-- flag goes up by one, since `expected` is the flag as it was loaded, the writer's part included.
unfoldable pub read_lock : ℕ → Lock → Lock
read_lock thread l =
    if writer l.lock_flag == thread
    then record l { lock_flag = (l.lock_flag + 1) % 2 ^ 32 }
    else record l { lock_flag = (l.lock_flag + 1) % 2 ^ 32 }

unfoldable pub read_unlock : Lock → Outcome Lock
read_unlock l =
    if readers l.lock_flag == 0
    then crash multiple_unlock
    else ok (record l { lock_flag = (l.lock_flag + 2 ^ 32 - 1) % 2 ^ 32 })
