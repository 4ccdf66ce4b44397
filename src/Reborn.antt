-- ===== src/Reborn.antt =====
-- The request buffer of include/reborn: Socket<Request> in reborn.h and reborn.cpp, on POSIX and
-- without __REB_TEST__, where an invalid descriptor is -1. The members that touch the buffer hold
-- `buffer_mutex` for their whole length, so each of them is one function on the state.
pub mod Processing
mod Tests
use clsync.Base.{
  ℕ, zero, suc, Bool, true, false, List, [], ◌∷◌, ◌++◌, Option, some, none, not, is_empty,
  if◌then◌else◌,
}
use clsync.Text.{Bytes, codes}

pub data SocketStat : Type 0 where
  ok err waiting undefined : SocketStat

pub record Request : Type 0 where
  pub payload : Bytes
  pub status : SocketStat

abbrev pub new_request : Bytes → Request
new_request data_bytes = record { payload = data_bytes; status = waiting }

-- `none` stands for a null pointer, and for INVALID_SOCKET_VALUE. The member `bytes` is never used.
pub record Socket : Type 0 where
  pub socket_path : Option Bytes
  pub buffer : List Request
  pub server_fd : Option ℕ
  pub client_fd : Option ℕ
  pub last_status : SocketStat
  pub answer : Option Bytes

-- The public constructor; the descriptor is what `::socket` returns.
unfoldable pub new_socket : Option Bytes → Option ℕ → Socket
new_socket path fd = record {
  socket_path = path;
  buffer = [];
  server_fd = fd;
  client_fd = none;
  last_status = undefined;
  answer = none;
}

-- The protected constructor. It leaves `socket_path` uninitialised: `left` stands for what it holds.
unfoldable pub default_socket : Option Bytes → Option ℕ → Socket
unfolding new_socket
default_socket left fd = new_socket left fd

-- `operator bool`.
abbrev pub is_open : Socket → Bool
is_open s = elim s.server_fd [ none ↦ false | some fd ↦ true ]

unfoldable pub enqueue_request : Bytes → Socket → SocketStat × Socket
enqueue_request request s =
    if is_empty request
    then (err, s)
    else (ok, record s { buffer = s.buffer ++ new_request request ∷ [] })

-- `none` is a null pointer.
unfoldable pub send_request : Option Bytes → Socket → SocketStat × Socket
unfolding enqueue_request
send_request none s = (err, s)
send_request (some request) s = if is_empty request then (err, s) else enqueue_request request s

abbrev pub forward_to : Request → Bool
forward_to request = not (is_empty request.payload)

abbrev is_waiting : SocketStat → Bool
is_waiting waiting = true
is_waiting ok = false
is_waiting err = false
is_waiting undefined = false

-- The status written to the request at the front is gone with it.
unfoldable pub process_next_request : Socket → SocketStat × Socket
process_next_request s = elim s.buffer [
  | [] ↦ (undefined, s)
  | next ∷ rest ↦
      if not (is_waiting next.status)
      then (err, s)
      else (let status = if forward_to next then ok else err in
          (
            status,
            record s {
              buffer = rest;
              last_status = status;
              answer = some (if forward_to next then codes "OK" else codes "ERR");
            },
          ))
]

-- The loop of `processRequests`, with the local `status`; `none` when the fuel runs out.
unfoldable pub process_loop : ℕ → SocketStat → Socket → Option (SocketStat × Socket)
unfolding process_next_request
process_loop zero status s = none
process_loop (suc fuel) status s =
    let step = process_next_request s in
    let rest = process_loop fuel step.0 step.1 in
    elim step.0 [ undefined ↦ some (status, step.1) | ok ↦ rest | err ↦ rest | waiting ↦ rest ]

unfoldable pub process_requests : ℕ → Socket → Option (SocketStat × Socket)
unfolding process_loop
process_requests fuel s = process_loop fuel err s

-- `setSocketPath`.
unfoldable pub set_socket_path : Option Bytes → Socket → SocketStat × Socket
set_socket_path path s = (ok, record s { socket_path = path })

-- `getLastStatus` and `getAnswer`.
abbrev pub get_last_status : Socket → SocketStat
get_last_status s = s.last_status

abbrev pub get_answer : Socket → Option Bytes
get_answer s = s.answer

abbrev opened : Option ℕ → List ℕ
opened none = []
opened (some fd) = fd ∷ []

-- `close`, with the descriptors that it closes.
unfoldable pub close : Socket → List ℕ × Socket
close s =
    (opened s.server_fd ++ opened s.client_fd, record s { server_fd = none; client_fd = none })

-- The destructor: the descriptors that it closes, and the path that it unlinks.
unfoldable pub destroy : Socket → List ℕ × Option Bytes
destroy s = (opened s.server_fd ++ opened s.client_fd, s.socket_path)
