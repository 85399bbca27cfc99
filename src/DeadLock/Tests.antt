-- ===== src/DeadLock/Tests.antt =====
-- Lock 20 was taken inside lock 10, and lock 10 is now taken inside lock 20.
use cplus_server_core_model.DeadLock.{Profiler, push_lock, pop_lock, number, ◌∷◌, [], some, ok}
use cplus_server_core_model.DeadLock.Silence.{noted, push_lock-silent, pop_lock-push_lock}
use cplus_server_core_model.Prelude.{◌∷◌, [], ◌≡◌, some, ok, ℕ, List}

abbrev crossed : Profiler
crossed = record { name_to_id = (10, 0) ∷ (20, 1) ∷ []; lock_history = (0, 1 ∷ []) ∷ [] }

push_lock-silent_example :
    push_lock 1 10 crossed (1 ∷ [])
    ≡ some (ok (noted 10 crossed (1 ∷ []), (number 10 crossed).0 ∷ 1 ∷ []))
push_lock-silent_example = push_lock-silent 0 10 crossed (1 ∷ [])

pop_lock-push_lock_example :
    (q : Profiler) × (inner : List ℕ) × (push_lock 1 10 crossed (1 ∷ []) ≡ some (ok (q, inner)))
    × (pop_lock 10 q inner ≡ ok (q, 1 ∷ []))
pop_lock-push_lock_example = pop_lock-push_lock 0 10 crossed (1 ∷ [])
