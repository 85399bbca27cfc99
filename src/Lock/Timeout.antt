-- ===== src/Lock/Timeout.antt =====
-- How the loop of WriteLock ends, and that it does.
use cplus_server_core_model.Lock.{Lock, write_lock}
use cplus_server_core_model.Lock.Waiting.{acquire_timeout_tick, refused}
use cplus_server_core_model.Prelude.{
  ℕ, Option, Outcome, none, some, true, ok, crash, lock_timeout, ◌+◌, ◌*◌, ◌-◌, ◌^◌, ◌%◌, ◌≡◌, ◌≤◌,
  ◌<◌, ◌⊎◌,
}

-- The tries of one `for`.
Tried : ℕ → (ℕ → Lock) → ℕ → ℕ → Option (ℕ × Lock) → Type 0
Tried thread seen tries n none = refused thread seen n tries ≡ true
Tried thread seen tries n (some (m, l)) =
    (d : ℕ) × ((m ≡ n + d)
      × (d < tries)
      × (refused thread seen n d ≡ true)
      × (write_lock thread (seen m) ≡ some l))

-- From this look at the clock on, more time has passed than a lock waits.
abbrev pub LateFrom : (ℕ → ℕ) → ℕ → Type 0
LateFrom clock late =
    (t : ℕ) → late ≤ t → acquire_timeout_tick < (clock t + 2 ^ 64 - clock 0) % 2 ^ 64

-- The call took the lock at its first try that a round of Lock.write_lock takes it at, or it gave up in time.
abbrev pub EndsWaiting :
    (tries thread : ℕ) → (ℕ → Lock) → (ℕ → ℕ) → Option (Outcome (ℕ × Lock)) → Type 0
EndsWaiting tries thread seen clock m =
    ((n : ℕ) × (l : Lock) × (m ≡ some (ok (n, l)))
      × (refused thread seen 1 (n - 1) ≡ true)
      × (write_lock thread (seen n) ≡ some l))
    ⊎ ((i : ℕ) × (m ≡ some (crash lock_timeout))
        × (1 ≤ i)
        × (refused thread seen 1 (tries * i) ≡ true)
        × (acquire_timeout_tick < (clock i + 2 ^ 64 - clock 0) % 2 ^ 64))
