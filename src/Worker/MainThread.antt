-- ===== src/Worker/MainThread.antt =====
-- The loop of DoMainThreadWorkJob in GameServer/GameServer.cpp.
use cplus_server_core_model.Worker.{Setting, Worker, Completion, do_worker_job, monitoring_tick}
use cplus_server_core_model.Worker.Settled.{beside, Settled}
use cplus_server_core_model.Worker.Executing.{PastFrom, Enough}
use cplus_server_core_model.Worker.Loop.{do_worker_job-settles}
use cplus_server_core_model.Prelude.{
  ℕ, Bool, Option, Outcome, some, ok, true, false, ◌≡◌, ◌≢◌, ◌+◌, ◌^◌, ◌%◌, ltb, arith,
  if◌then◌else◌,
}

-- One round of the loop in DoMainThreadWorkJob, with `mainThreadTickCount`: it prints once a second, and is a worker.
unfoldable pub do_main_thread_work_job :
    Setting → ℕ → ℕ → Completion → Worker → ℕ × Option (Outcome Worker)
unfolding do_worker_job
do_main_thread_work_job s rounds tick_count c w =
    let waited = do_worker_job s rounds c (record w { reads = w.reads + 1 }) in
    let printed = do_worker_job s rounds c (record w { reads = w.reads + 2 }) in
    if ltb ((tick_count + 1000) % 2 ^ 64) (s.clock w.reads)
    then (s.clock (w.reads + 1), printed)
    else (tick_count, waited)

-- The same of the main thread, whose end tick lies behind one or two more looks at the clock.
do_main_thread_work_job-settles :
    (s : Setting) (rounds late tick_count : ℕ) (c : Completion) (w : Worker)
    → PastFrom s ((s.clock (w.reads + 1) + monitoring_tick) % 2 ^ 64) late
    → PastFrom s ((s.clock (w.reads + 2) + monitoring_tick) % 2 ^ 64) late
    → Enough late rounds w
    → Settled w
    → c ≢ Completion.failed
    → (t : Worker) × (((do_main_thread_work_job s rounds tick_count c w).1 ≡ some (ok t))
        × Settled t)
unfolding do_main_thread_work_job
do_main_thread_work_job-settles s rounds late tick_count c w past past' enough h event =
    go (ltb ((tick_count + 1000) % 2 ^ 64) (s.clock w.reads))
  where
    chosen : Bool → ℕ × Option (Outcome Worker)
    chosen b =
        if b
        then (s.clock (w.reads + 1), do_worker_job s rounds c (record w { reads = w.reads + 2 }))
        else (tick_count, do_worker_job s rounds c (record w { reads = w.reads + 1 }))

    go : (b : Bool) → (t : Worker) × (((chosen b).1 ≡ some (ok t)) × Settled t)
    go true =
        let (t, (e, settled, why)) =
          do_worker_job-settles s rounds late c (record w { reads = w.reads + 2 }) past'
            (enough.0, omega (arith, enough.1))
            (record { fits = beside h.fits; idle = h.idle; free = h.free }) event in
        (t, (e, settled))
    go false =
        let (t, (e, settled, why)) =
          do_worker_job-settles s rounds late c (record w { reads = w.reads + 1 }) past
            (enough.0, omega (arith, enough.1))
            (record { fits = beside h.fits; idle = h.idle; free = h.free }) event in
        (t, (e, settled))
