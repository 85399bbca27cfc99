-- ===== src/Lock/Guards.antt =====
-- What the threads of Lock/Writers hold.
use cplus_server_core_model.Lock.{Lock, writer, readers}
use cplus_server_core_model.Lock.Writers.{Pc, System, Step, Reach, init}
use cplus_server_core_model.Prelude.{ℕ, ◌<◌, ◌≤◌, ◌≡◌, ◌≢◌, ◌+◌, ◌^◌, arith, ap, refl}

-- 1 for a thread that is past the test or the exchange by which it got in, and not out again.
abbrev inside : Pc → ℕ
inside Pc.ready = 0
inside Pc.spinning = 0
inside Pc.counting = 1
inside Pc.leaving = 1
inside (Pc.lowered n) = 1

-- 1 for a thread in the loop of WriteLock.
abbrev waits : Pc → ℕ
waits Pc.ready = 0
waits Pc.spinning = 1
waits Pc.counting = 0
waits Pc.leaving = 0
waits (Pc.lowered n) = 0

-- 1 for a thread in WriteUnlock.
abbrev leaves : Pc → ℕ
leaves Pc.ready = 0
leaves Pc.spinning = 0
leaves Pc.counting = 0
leaves Pc.leaving = 1
leaves (Pc.lowered n) = 1

-- 1 for a thread of which the count says one guard less than it holds.
abbrev ahead : Pc → ℕ
ahead Pc.ready = 0
ahead Pc.spinning = 0
ahead Pc.counting = 0
ahead Pc.leaving = 0
ahead (Pc.lowered n) = 1

-- The count as the thread read it, if it did.
abbrev as_read : Pc → ℕ → ℕ
as_read Pc.ready c = c
as_read Pc.spinning c = c
as_read Pc.counting c = c
as_read Pc.leaving c = c
as_read (Pc.lowered n) c = n

same_place :
    {p q : Pc} (c : ℕ)
    → p ≡ q
    → (inside p ≡ inside q)
      × (waits p ≡ waits q)
      × (leaves p ≡ leaves q)
      × (ahead p ≡ ahead q)
      × (as_read p c ≡ as_read q c)
same_place c e = (ap inside e, ap waits e, ap leaves e, ap ahead e, ap (λ p. as_read p c) e)

-- A thread that is not in the flag has no guard and is on no way in or out. The one in the flag has
-- the guards that the count says, has one or is about to, and read the count as it is.
abbrev IsRight : ℕ → Lock → Pc → ℕ → Type 0
IsRight t l p n =
    (t ≢ writer l.lock_flag → inside p + n ≡ 0)
    × (t ≡ writer l.lock_flag
        → (n ≡ l.write_count + ahead p)
          × (0 < inside p + n)
          × (waits p ≡ 0)
          × (as_read p l.write_count ≡ l.write_count)
          × (leaves p ≤ n))

record Inv (s : System) : Type 0 where
  bounds :
      (s.lock.lock_flag < 2 ^ 32)
      × (readers s.lock.lock_flag ≡ 0)
      × (s.lock.write_count < 65536)
      × (writer s.lock.lock_flag ≡ 0 → s.lock.write_count ≡ 0)
  at : (t : ℕ) → 0 < t → IsRight t s.lock (s.pc t) (s.holds t)

init-Inv : Inv init
init-Inv = record {
  bounds = (omega arith, refl, omega arith, λ h. refl);
  at = λ t pos. ground arith;
}

Step-Inv : {s t : System} → Step s t → Inv s → Inv t
Step-Inv {s} (Step.finds_own t pos lt e own) v =
    let place = same_place s.lock.write_count e in
    record {
      bounds = ground (arith, v.bounds, v.at t pos, place);
      at = λ j pj. ground (arith, v.bounds, v.at t pos, v.at j pj, place);
    }
Step-Inv {s} (Step.finds_other t pos lt e other) v =
    let place = same_place s.lock.write_count e in
    record {
      bounds = ground (arith, v.bounds, v.at t pos, place);
      at = λ j pj. ground (arith, v.bounds, v.at t pos, v.at j pj, place);
    }
Step-Inv {s} (Step.exchanges t pos lt e empty) v =
    let place = same_place s.lock.write_count e in
    record {
      bounds = ground (arith, v.bounds, v.at t pos, place);
      at = λ j pj. ground (arith, v.bounds, v.at t pos, v.at j pj, place);
    }
Step-Inv {s} (Step.counts t pos e deep) v =
    let place = same_place s.lock.write_count e in
    record {
      bounds = ground (arith, v.bounds, v.at t pos, place);
      at = λ j pj. ground (arith, v.bounds, v.at t pos, v.at j pj, place);
    }
Step-Inv {s} (Step.finds_no_reader t pos e held none_read) v =
    let place = same_place s.lock.write_count e in
    record {
      bounds = ground (arith, v.bounds, v.at t pos, place);
      at = λ j pj. ground (arith, v.bounds, v.at t pos, v.at j pj, place);
    }
Step-Inv {s} (Step.lowers t pos e) v =
    let place = same_place s.lock.write_count e in
    record {
      bounds = ground (arith, v.bounds, v.at t pos, place);
      at = λ j pj. ground (arith, v.bounds, v.at t pos, v.at j pj, place);
    }
Step-Inv {s} (Step.stores t pos e) v =
    let place = same_place s.lock.write_count e in
    record {
      bounds = ground (arith, v.bounds, v.at t pos, place);
      at = λ j pj. ground (arith, v.bounds, v.at t pos, v.at j pj, place);
    }
Step-Inv {s} (Step.keeps t n pos e) v =
    let place = same_place s.lock.write_count e in
    record {
      bounds = ground (arith, v.bounds, v.at t pos, place);
      at = λ j pj. ground (arith, v.bounds, v.at t pos, v.at j pj, place);
    }

Reach-Inv : {s : System} → Reach s → Inv s
Reach-Inv Reach.start = init-Inv
Reach-Inv (Reach.later r st) = Step-Inv st (Reach-Inv r)

-- However threads that take and release a lock by WriteLock and WriteUnlock alone interleave, at
-- each of their accesses to the flag and the count, no two of them have a write guard at once, from
-- the end of WriteLock up to the end of the WriteUnlock that gives it back; the flag has the number
-- of the thread with a guard, and while that thread is in no call, the count is the number of its
-- guards. The threads are numbered from 1 on and below 2 ^ 16, hold fewer than 2 ^ 16 guards, and call
-- WriteUnlock only with a guard.
pub write_exclusion :
    {s : System}
    → Reach s
    → (i j : ℕ) → 0 < i
    → 0 < j
    → 0 < s.holds i
    → 0 < s.holds j
    → (i ≡ j) × (writer s.lock.lock_flag ≡ i) × (s.pc i ≡ Pc.ready → s.lock.write_count ≡ s.holds i)
write_exclusion r i j pi pj hi hj =
    let v = Reach-Inv r in
    (
      ground (arith, v.at i pi, v.at j pj),
      ground (arith, v.at i pi),
      λ e. ground (arith, v.at i pi, ap ahead e),
    )
