-- ===== src/Lock/Tests.antt =====
-- Thread 1 with a write guard.
use cplus_server_core_model.Lock.{write_lock, write_unlock, crash, invalid_unlock_order, ℕ, make}
use cplus_server_core_model.Lock.System.{System, Step, Reach, update}
use cplus_server_core_model.Lock.Exclusion.{reads_beside_writer, write_lock-unnumbered}
use cplus_server_core_model.Lock.Writers.{Pc}
use cplus_server_core_model.Lock.Guards.{write_exclusion}
use cplus_server_core_model.Lock.Writers
use cplus_server_core_model.Lock.{Lock, desired, writer}
use cplus_server_core_model.Prelude.{
  none, some, if◌then◌else◌, ltb, arith, ◌≡◌, ◌+◌, refl, crash, invalid_unlock_order, ℕ,
}

abbrev one_writer : System
one_writer = record {
  lock = record { lock_flag = 65536; write_count = 1 };
  writes = update (λ _. 0) 1 1;
  reads = λ _. 0;
}

one_writer-Reach : Reach one_writer
unfolding write_lock
one_writer-Reach =
    Reach.later Reach.start (Step.writes_in 1 (omega arith) (omega arith) (omega arith) refl)

-- The same at each access: thread 1 is behind its first WriteLock.
abbrev writing : Writers.System
writing = record {
  lock = record { lock_flag = 65536; write_count = 1 };
  pc =
      Writers.update (Writers.update (Writers.update (λ t. Pc.ready) 1 Pc.spinning) 1 Pc.counting) 1
        Pc.ready;
  holds = Writers.update (λ t. 0) 1 1;
}

writing-Reach : Writers.Reach writing
writing-Reach =
    Writers.Reach.later
      (Writers.Reach.later
        (Writers.Reach.later Writers.Reach.start
          (Writers.Step.finds_other 1 (omega arith) (omega arith) refl (λ e. absurd (omega arith))))
        (Writers.Step.exchanges 1 (omega arith) (omega arith) refl refl))
      (Writers.Step.counts 1 (omega arith) refl (omega arith))

write_exclusion_example :
    (◌≡◌ {A = ℕ} 1 1)
    × (writer writing.lock.lock_flag ≡ 1)
    × (writing.pc 1 ≡ Pc.ready → writing.lock.write_count ≡ writing.holds 1)
write_exclusion_example =
    write_exclusion writing-Reach 1 1 (omega arith) (omega arith) (omega arith) (omega arith)

reads_beside_writer_example :
    (t : System) × Step one_writer t
    × (t.writes 1 ≡ one_writer.writes 1)
    × (t.reads 2 ≡ one_writer.reads 2 + 1)
    × (write_unlock t.lock ≡ crash invalid_unlock_order)
reads_beside_writer_example =
    reads_beside_writer one_writer-Reach 1 2 (omega arith) (omega arith) (λ e. absurd (omega arith))
      (omega arith) (omega arith)

-- Thread 3 has the lock up to the seventh access, and the clock makes one leap.
abbrev held_for_long : ℕ → Lock
held_for_long n =
    if ltb n 7
    then record { lock_flag = desired 3; write_count = 1 }
    else record { lock_flag = 0; write_count = 0 }

abbrev leaping : ℕ → ℕ
leaping t = if ltb t 2 then 0 else 20000

-- The 65536th thread, and thread 2.
write_lock-unnumbered_example :
    (a : Lock) × (b : Lock) × (write_lock 65536 make ≡ some a)
    × (write_lock 2 a ≡ some b)
    × (write_lock 65536 b ≡ none)
write_lock-unnumbered_example =
    write_lock-unnumbered make 65536 2 refl refl (omega arith) (omega arith)
