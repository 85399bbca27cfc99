-- ===== src/Session.antt =====
-- ServerCore/Session.{h,cpp}: one connection. A method is a function on `Session`; `log` holds, in
-- order, the requests that it makes of Windows and the calls of the service and of the virtual
-- functions (`OnConnected`, `OnRecvPacket`, ...), whose own calls of Send or Disconnect are
-- further steps. Each method runs here without interruption.
pub mod Effects
pub mod Sending
pub mod Order
pub mod Receiving
pub mod Stream
pub mod Lifecycle
pub mod Tests
use cplus_server_core_model.IocpEvent.{EventType}
use cplus_server_core_model.Packet.{Received, on_recv}
use cplus_server_core_model.Prelude.{
  ℕ, zero, suc, ◌+◌, ◌≡◌, Bool, true, false, not, ◌&&◌, ◌||◌, Option, none, some, List, [], ◌∷◌,
  ◌++◌, map, length, ltb, ◌==◌, if◌then◌else◌,
}
use cplus_server_core_model.Recv
use cplus_server_core_model.Recv.{Memcpy, RecvBuffer}

-- The result of an overlapped call of Winsock: it succeeded, or it failed and this is
-- `WSAGetLastError()`.
pub data CallResult : Type 0 where
  success : CallResult
  failed : ℕ → CallResult

-- Error codes of Winsock.
abbrev wsa_io_pending : ℕ
wsa_io_pending = 997

abbrev wsa_conn_aborted : ℕ
wsa_conn_aborted = 10053

abbrev wsa_conn_reset : ℕ
wsa_conn_reset = 10054

-- What Windows answers to the calls that one method makes, at most one of each kind.
pub record Kernel : Type 0 where
  pub set_reuse_address : Bool
  pub bind_any_address : Bool
  pub connect_ex : CallResult
  pub disconnect_ex : CallResult
  pub wsa_recv : CallResult
  pub wsa_send : CallResult

pub data Effect : Type 0 where
  connect_ex disconnect_ex : Effect
  wsa_recv : (len : ℕ) → Effect
  wsa_send : (buffers : List (List ℕ)) → Effect
  add_session release_session : Effect
  on_connected on_disconnected : Effect
  on_recv_packet : (packet : List ℕ) → Effect
  on_send : (len : ℕ) → Effect

pub data ServiceType : Type 0 where
  server client : ServiceType

-- A send buffer is what it holds, up to its `WriteSize()`. The four `…_owner` say whether the
-- `owner` of the event is set, which is while a request is under way.
pub record Session : Type 0 where
  pub service : ServiceType
  pub connected : Bool
  pub recv_buffer : RecvBuffer
  pub send_queue : List (List ℕ)
  pub send_registered : Bool
  pub connect_owner : Bool
  pub disconnect_owner : Bool
  pub recv_owner : Bool
  pub send_owner : Bool
  pub send_buffers : List (List ℕ)
  pub log : List Effect

abbrev pub buffer_size : ℕ
buffer_size = 0x10000

unfoldable pub make : ServiceType → Session
make service = record {
  service = service;
  connected = false;
  recv_buffer = Recv.make buffer_size;
  send_queue = [];
  send_registered = false;
  connect_owner = false;
  disconnect_owner = false;
  recv_owner = false;
  send_owner = false;
  send_buffers = [];
  log = [];
}

abbrev emit : List Effect → Session → Session
emit es s = record s { log = s.log ++ es }

-- `call == FALSE && WSAGetLastError() != WSA_IO_PENDING`, with the error.
abbrev pub real_error : CallResult → Option ℕ
real_error success = none
real_error (failed err) = if err == wsa_io_pending then none else some err

unfoldable register_disconnect : Kernel → Session → Session × Bool
register_disconnect k s =
    let s' = emit (disconnect_ex ∷ []) (record s { disconnect_owner = true }) in
    elim (real_error k.disconnect_ex) [
      | none ↦ (s', true)
      | some err ↦ (record s' { disconnect_owner = false }, false)
    ]

unfoldable pub disconnect : Kernel → Session → Session
unfolding register_disconnect
disconnect k s =
    if not s.connected then s else (register_disconnect k (record s { connected = false })).0

unfoldable pub handle_error : Kernel → ℕ → Session → Session
unfolding disconnect
handle_error k err s =
    if err == wsa_conn_reset || err == wsa_conn_aborted then disconnect k s else s

unfoldable pub register_recv : Kernel → Session → Session
unfolding handle_error
register_recv k s =
    let s' = emit (wsa_recv (Recv.free_size s.recv_buffer) ∷ []) (record s { recv_owner = true }) in
    let failure = λ (err : ℕ). record (handle_error k err s') { recv_owner = false } in
    if not s.connected
    then s
    else elim (real_error k.wsa_recv) [ none ↦ s' | some err ↦ failure err ]

-- The queue moves to the event, and all buffers of the event go into one `WSASend`.
unfoldable pub register_send : Kernel → Session → Session
unfolding handle_error
register_send k s =
    let buffers = s.send_buffers ++ s.send_queue in
    let s' =
      emit (wsa_send buffers ∷ [])
        (record s { send_owner = true; send_queue = []; send_buffers = buffers }) in
    let failure = λ (err : ℕ). record (handle_error k err s') {
      send_owner = false;
      send_buffers = [];
      send_registered = false;
    } in
    if not s.connected
    then s
    else elim (real_error k.wsa_send) [ none ↦ s' | some err ↦ failure err ]

-- `_sendRegistered.exchange(true)` tells whether somebody registered before.
unfoldable pub send : Kernel → List ℕ → Session → Session
unfolding register_send
send k buffer s =
    let s' = record s { send_queue = s.send_queue ++ (buffer ∷ []); send_registered = true } in
    if not s.connected then s else if s.send_registered then s' else register_send k s'

unfoldable pub register_connect : Kernel → Session → Session × Bool
register_connect k s =
    let s' = emit (connect_ex ∷ []) (record s { connect_owner = true }) in
    let call : Session × Bool = elim (real_error k.connect_ex) [
      | none ↦ (s', true)
      | some err ↦ (record s' { connect_owner = false }, false)
    ] in
    if s.connected then (s, false) else elim s.service [
      | server ↦ (s, false)
      | client ↦
          if not k.set_reuse_address
          then (s, false)
          else if not k.bind_any_address
          then (s, false)
          else call
    ]

unfoldable pub process_connect : Kernel → Session → Session
unfolding register_recv
process_connect k s =
    register_recv k (
      emit (add_session ∷ on_connected ∷ []) (record s { connect_owner = false; connected = true }))

unfoldable pub process_disconnect : Session → Session
process_disconnect s =
    emit (on_disconnected ∷ release_session ∷ []) (record s { disconnect_owner = false })

-- The rest of ProcessRecv, behind OnRecv. `PacketSession::OnRecv` is sealed and returns no
-- negative length, so that test of the source has no case here.
unfoldable pub consume : Memcpy → Kernel → Session → Received → Session
unfolding register_recv
consume m k s r =
    let data_size = Recv.data_size s.recv_buffer in
    let s' = emit (map on_recv_packet r.packets) s in
    let (after, done) = Recv.on_read r.process_len s.recv_buffer in
    if ltb data_size r.process_len || not done
    then disconnect k s'
    else register_recv k (record s' { recv_buffer = Recv.clean m after })

-- The rounds are those of the loop in OnRecv; `none` if it does not come to its end in them.
unfoldable pub process_recv : Memcpy → Kernel → ℕ → ℕ → Session → Option Session
unfolding disconnect
process_recv m k rounds num_of_bytes s =
    let s' = record s { recv_owner = false } in
    let (written, fits) = Recv.on_write num_of_bytes s.recv_buffer in
    let next = record s' { recv_buffer = written } in
    if num_of_bytes == 0
    then some (disconnect k s')
    else if not fits
    then some (disconnect k s')
    else elim (on_recv rounds (Recv.pending written)) [
      | none ↦ none
      | some r ↦ some (consume m k next r)
    ]

unfoldable pub process_send : Kernel → ℕ → Session → Session
unfolding disconnect register_send
process_send k num_of_bytes s =
    let s' = record s { send_owner = false; send_buffers = [] } in
    let told = emit (on_send num_of_bytes ∷ []) s' in
    if num_of_bytes == 0 then disconnect k s' else elim s.send_queue [
      | [] ↦ record told { send_registered = false }
      | b ∷ bs ↦ register_send k told
    ]

-- A completion that `IocpCore::Dispatch` takes off the completion port.
unfoldable dispatch : Memcpy → Kernel → ℕ → EventType → ℕ → Session → Option Session
unfolding process_connect process_disconnect process_recv process_send
dispatch m k rounds EventType.connect num_of_bytes s = some (process_connect k s)
dispatch m k rounds EventType.disconnect num_of_bytes s = some (process_disconnect s)
dispatch m k rounds EventType.recv num_of_bytes s = process_recv m k rounds num_of_bytes s
dispatch m k rounds EventType.send num_of_bytes s = some (process_send k num_of_bytes s)
dispatch m k rounds EventType.accept num_of_bytes s = some s
