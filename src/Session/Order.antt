-- ===== src/Session/Order.antt =====
-- The send side over whole runs of a connection: one `WSASend` at a time, in the order of Send.
use cplus_server_core_model.Session.{
  Session, Kernel, send, process_send, disconnect, process_connect, make, ServiceType, ◌≡◌, List, ℕ,
  false, true, [], Effect, process_disconnect, process_recv, register_connect,
}
use cplus_server_core_model.Prelude.{
  arith, ◌++◌, ◌∷◌, ◌∙◌, append-nil, refl, append_assoc, sym, some,
}
use cplus_server_core_model.Recv.{Memcpy}
use cplus_server_core_model.Session.Effects.{posted, posted-append}
use cplus_server_core_model.Session.Sending.{
  IsSound, make-IsSound, disconnect-IsSound, send-IsSound, process_send-IsSound,
  process_connect-IsSound, posted-quiet, accepted-disconnect, accepted-register_send,
  accepted-register_recv, accepted-send_refused, accepted-process_disconnect, process_recv-IsSound,
  accepted-process_recv, accepted-register_connect, register_connect-IsSound, accepted,
}

-- A step of the connection, with the buffers that Send accepts in it. A send completes only while
-- one is under way.
pub data Step (s : Session) : List (List ℕ) → Session → Type 0 where
  sends : (k : Kernel) (b : List ℕ) → s.connected ≡ true → Step s (b ∷ []) (send k b s)
  refuses : (k : Kernel) (b : List ℕ) → s.connected ≡ false → Step s [] (send k b s)
  completes : (k : Kernel) (n : ℕ) → s.send_owner ≡ true → Step s [] (process_send k n s)
  receives :
      (m : Memcpy) (k : Kernel) (rounds n : ℕ) {t : Session}
      → process_recv m k rounds n s ≡ some t
      → Step s [] t
  asks_to_connect : (k : Kernel) → Step s [] (register_connect k s).0
  disconnects : (k : Kernel) → Step s [] (disconnect k s)
  disconnected : Step s [] (process_disconnect s)
  connects : (k : Kernel) → Step s [] (process_connect k s)

pub data Run (s : Session) : List (List ℕ) → Session → Type 0 where
  start : Run s [] s
  next : {t u : Session} {bs cs : List (List ℕ)} → Run s bs t → Step t cs u → Run s (bs ++ cs) u

accepted-send :
    (k : Kernel) (b : List ℕ) (s : Session)
    → IsSound s
    → s.connected ≡ true
    → accepted (send k b s) ≡ accepted s ++ b ∷ []
unfolding send
accepted-send k b s v c = ground (
  arith,
  append_assoc (posted s.log) s.send_queue (b ∷ []),
  accepted-register_send k
      (record s { send_queue = s.send_queue ++ b ∷ []; send_registered = true }),
)

accepted-process_send :
    (k : Kernel) (n : ℕ) (s : Session)
    → s.send_owner ≡ true
    → accepted (process_send k n s) ≡ accepted s
unfolding process_send
accepted-process_send k n s o =
    let s' = record s { send_owner = false; send_buffers = [] } in
    let told = record s' { log = s.log ++ Effect.on_send n ∷ [] } in
    ground (
      arith,
      posted-quiet s.log (Effect.on_send n) refl,
      accepted-disconnect k s',
      accepted-register_send k told,
    )

accepted-process_connect : (k : Kernel) (s : Session) → accepted (process_connect k s) ≡ accepted s
unfolding process_connect
accepted-process_connect k s =
    let s' = record s {
      connect_owner = false;
      connected = true;
      log = s.log ++ Effect.add_session ∷ Effect.on_connected ∷ [];
    } in
    ground (
      arith,
      posted-append s.log (Effect.add_session ∷ Effect.on_connected ∷ []),
      append-nil (posted s.log),
      accepted-register_recv k s',
    )

Step-IsSound : {s t : Session} {bs : List (List ℕ)} → Step s bs t → IsSound s → IsSound t
unfolding process_disconnect
Step-IsSound {s} (sends k b c) v = send-IsSound k b s v
Step-IsSound {s} (refuses k b c) v = send-IsSound k b s v
Step-IsSound {s} (completes k n o) v = process_send-IsSound k n s o v
Step-IsSound {s} (receives m k rounds n e) v = process_recv-IsSound m k rounds n s e v
Step-IsSound {s} (asks_to_connect k) v = register_connect-IsSound k s v
Step-IsSound {s} (disconnects k) v = disconnect-IsSound k s v
Step-IsSound disconnected v = ground arith
Step-IsSound {s} (connects k) v = process_connect-IsSound k s v

Step-accepted :
    {s t : Session} {bs : List (List ℕ)} → Step s bs t → IsSound s → accepted t ≡ accepted s ++ bs
unfolding process_disconnect
Step-accepted {s} (sends k b c) v = accepted-send k b s v c
Step-accepted {s} (refuses k b c) v = rw (append-nil (accepted s)) (accepted-send_refused k b s c)
Step-accepted {s} (completes k n o) v = accepted-process_send k n s o ∙ sym (append-nil _)
Step-accepted {s} (receives m k rounds n e) v =
    accepted-process_recv m k rounds n s e ∙ sym (append-nil (accepted s))
Step-accepted {s} (asks_to_connect k) v =
    accepted-register_connect k s ∙ sym (append-nil (accepted s))
Step-accepted {s} (disconnects k) v = accepted-disconnect k s ∙ sym (append-nil _)
Step-accepted {s} disconnected v = rw (append-nil (accepted s)) (accepted-process_disconnect s)
Step-accepted {s} (connects k) v = accepted-process_connect k s ∙ sym (append-nil _)

Run-IsSound :
    {s t : Session} {bs : List (List ℕ)}
    → IsSound s
    → Run s bs t
    → IsSound t × (accepted t ≡ accepted s ++ bs)
Run-IsSound {s} v start = (v, sym (append-nil (accepted s)))
Run-IsSound {s} v (next {bs = bs} {cs = cs} r st) =
    let ih = Run-IsSound v r in
    let e = append_assoc (accepted s) bs cs in
    (Step-IsSound st ih.0, Step-accepted st ih.0 ∙ rw ih.1 e)

-- In every run of a new session, whose methods are called one after the other, also when it is connected again, the
-- buffers that Send accepted have been handed to `WSASend` in the order of the calls, each once, but for those
-- that still stand in the queue; and while no send is registered, nothing is queued and no `WSASend` is
-- under way.
pub Run-in_order :
    (t : ServiceType) {s : Session} {bs : List (List ℕ)}
    → Run (make t) bs s
    → (posted s.log ++ s.send_queue ≡ bs) × IsSound s
unfolding make
Run-in_order t r = let p = Run-IsSound (make-IsSound t) r in (p.1, p.0)

pub send_all : Kernel → List (List ℕ) → Session → Session
send_all k [] s = s
send_all k (b ∷ bs) s = send_all k bs (send k b s)

send_stale :
    (k : Kernel) (b : List ℕ) (s : Session)
    → s.send_registered ≡ true
    → ((send k b s).send_registered ≡ true) × ((send k b s).log ≡ s.log)
unfolding send
send_stale k b s r = ground arith

send_all_stale :
    (k : Kernel) (bs : List (List ℕ)) (s : Session)
    → s.send_registered ≡ true
    → (send_all k bs s).log ≡ s.log
unfolding send_all
send_all_stale k [] s r = refl
send_all_stale k (b ∷ bs) s r =
    let now = send_stale k b s r in send_all_stale k bs (send k b s) now.0 ∙ now.1

-- After a send that completes with 0 bytes, `_sendRegistered` stays set: whoever connects the
-- session anew finds that Send, called any number of times, makes no request of Windows.
pub send_after_reconnect :
    (k : Kernel) (bs : List (List ℕ)) (s : Session)
    → s.send_registered ≡ true
    → let t = process_connect k (process_send k 0 s) in (send_all k bs t).log ≡ t.log
unfolding process_send process_connect
send_after_reconnect k bs s r =
    send_all_stale k bs (process_connect k (process_send k 0 s)) (ground arith)
