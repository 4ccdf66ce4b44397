-- ===== src/Reborn/Processing.antt =====
-- What becomes of the requests in the buffer of include/reborn.
use clsync.Base.{
  ℕ, zero, suc, ◌<◌, ◌≡◌, refl, sym, ap, subst, ◌∙◌, false, List, [], ◌∷◌, ◌++◌, ◌==◌, ◌+◌, Option,
  some, none, is_empty, if◌then◌else◌, All, All-append, length, arith, append-nil,
}
use clsync.Text.{Bytes, codes}
use clsync.Reborn.{
  SocketStat, ok, err, waiting, undefined, Request, new_request, Socket, new_socket,
  enqueue_request, send_request, process_next_request, process_loop, process_requests, close,
  destroy, set_socket_path,
}

-- The sockets that a program gets by the public members, and by single rounds of `processRequests`,
-- between which other threads may send.
pub data Used : Socket → Type 0 where
  created : (path : Option Bytes) (fd : Option ℕ) → Used (new_socket path fd)
  sent : (request : Option Bytes) (s : Socket) → Used s → Used (send_request request s).1
  processed : (s : Socket) → Used s → Used (process_next_request s).1
  shut : (s : Socket) → Used s → Used (close s).1
  renamed : (path : Option Bytes) (s : Socket) → Used s → Used (set_socket_path path s).1

-- A request that can be processed.
abbrev IsReady : Request → Type 0
IsReady r = (r.status ≡ waiting) × (is_empty r.payload ≡ false)

send_request-IsReady :
    (request : Option Bytes) (s : Socket)
    → All IsReady s.buffer
    → All IsReady (send_request request s).1.buffer
unfolding send_request enqueue_request
send_request-IsReady none s h = h
send_request-IsReady (some []) s h = h
send_request-IsReady (some (c ∷ cs)) s h =
    All-append IsReady s.buffer (new_request (c ∷ cs) ∷ []) h ((refl, refl), tt)

-- The socket after the request at the front.
abbrev answered : List Request → Socket → Socket
answered rest s = record s { buffer = rest; last_status = ok; answer = some (codes "OK") }

process_next_request-answered :
    (s : Socket) (r : Request) (q : List Request)
    → s.buffer ≡ r ∷ q
    → IsReady r
    → process_next_request s ≡ (ok, answered q s)
unfolding process_next_request
process_next_request-answered s r q e h = rw (e, h.0, h.1)

process_next_request-empty : (s : Socket) → s.buffer ≡ [] → process_next_request s ≡ (undefined, s)
unfolding process_next_request
process_next_request-empty s e = rw e

process_next_request-IsReady :
    (s : Socket) (q : List Request)
    → s.buffer ≡ q
    → All IsReady q
    → All IsReady (process_next_request s).1.buffer
process_next_request-IsReady s [] e h =
    rw (process_next_request-empty s e) (subst (All IsReady) (sym e) h)
process_next_request-IsReady s (r ∷ q) e h = rw (process_next_request-answered s r q e h.0) h.1

Used-IsReady : (s : Socket) → Used s → All IsReady s.buffer
unfolding new_socket close set_socket_path
Used-IsReady s (created path fd) = tt
Used-IsReady s (sent request t u) = send_request-IsReady request t (Used-IsReady t u)
Used-IsReady s (processed t u) = process_next_request-IsReady t t.buffer refl (Used-IsReady t u)
Used-IsReady s (shut t u) = Used-IsReady t u
Used-IsReady s (renamed path t u) = Used-IsReady t u

-- The socket after all its requests.
unfoldable pub drained : Socket → Socket
drained s = elim s.buffer [
  | [] ↦ s
  | next ∷ rest ↦ record s { buffer = []; last_status = ok; answer = some (codes "OK") }
]

process_loop-ok :
    (fuel : ℕ) (status : SocketStat) (s t : Socket)
    → process_next_request s ≡ (ok, t)
    → process_loop (suc fuel) status s ≡ process_loop fuel ok t
unfolding process_loop
process_loop-ok fuel status s t e =
    ap
      (λ step. elim step.0 [
        | undefined ↦ some (status, step.1)
        | ok ↦ process_loop fuel step.0 step.1
        | err ↦ process_loop fuel step.0 step.1
        | waiting ↦ process_loop fuel step.0 step.1
      ])
      e

process_loop-drained :
    (fuel : ℕ) (q : List Request) (status : SocketStat) (s : Socket)
    → s.buffer ≡ q
    → All IsReady q
    → length q < fuel
    → process_loop fuel status s ≡ some (if is_empty q then status else ok, drained s)
unfolding process_loop drained
process_loop-drained zero q status s e h m = absurd (omega arith)
process_loop-drained (suc fuel) [] status s e h m =
    rw (process_loop, process_next_request-empty s e) (rw e)
process_loop-drained (suc fuel) (r ∷ []) status s e h m =
    process_loop-ok fuel status s (answered [] s) (process_next_request-answered s r [] e h.0)
    ∙ (process_loop-drained fuel [] ok (answered [] s) refl h.1 (omega arith) ∙ rw e)
process_loop-drained (suc fuel) (r ∷ t ∷ q) status s e h m =
    process_loop-ok fuel status s (answered (t ∷ q) s)
      (process_next_request-answered s r (t ∷ q) e h.0)
    ∙ (process_loop-drained fuel (t ∷ q) ok (answered (t ∷ q) s) refl h.1 (omega arith) ∙ rw e)

-- processRequests comes to an end on every socket, in whatever order members were called on it, within
-- one round more than there are requests: no request is left, and it returns OK when there was one
-- and ERR when there was none.
pub process_requests-Used :
    (s : Socket) (fuel : ℕ)
    → Used s
    → length s.buffer < fuel
    → process_requests fuel s ≡ some (if is_empty s.buffer then err else ok, drained s)
unfolding process_requests
process_requests-Used s fuel u m =
    process_loop-drained fuel s.buffer err s refl (Used-IsReady s u) m

-- How often a descriptor stands in a list, and how often a member holds it.
unfoldable pub times : ℕ → List ℕ → ℕ
times fd [] = 0
times fd (g ∷ l) = (if g == fd then 1 else 0) + times fd l

abbrev pub holds : ℕ → Option ℕ → ℕ
holds fd none = 0
holds fd (some g) = if g == fd then 1 else 0

destroyed-times :
    (fd : ℕ) (server client : Option ℕ) (s : Socket)
    → s.server_fd ≡ server
    → s.client_fd ≡ client
    → times fd (destroy s).0 ≡ holds fd server + holds fd client
unfolding destroy times
destroyed-times fd none none s e f = rw (destroy, e, f)
destroyed-times fd none (some h) s e f = rw (destroy, e, f) (omega arith)
destroyed-times fd (some g) none s e f = rw (destroy, e, f) (omega arith)
destroyed-times fd (some g) (some h) s e f = rw (destroy, e, f) (omega arith)

destroy-times :
    (s : Socket) (fd : ℕ) → times fd (destroy s).0 ≡ holds fd s.server_fd + holds fd s.client_fd
destroy-times s fd = destroyed-times fd s.server_fd s.client_fd s refl refl

-- The destructor closes every descriptor once for each member that holds it, and no other; so do
-- `close` and the destructor behind it together, and a second `close` closes nothing and changes
-- nothing. In both cases the destructor unlinks the path of the socket.
pub close-destroy :
    (s : Socket) (fd : ℕ)
    → (times fd (destroy s).0 ≡ holds fd s.server_fd + holds fd s.client_fd)
      × (times fd ((close s).0 ++ (destroy (close s).1).0)
          ≡ holds fd s.server_fd + holds fd s.client_fd)
      × (close (close s).1 ≡ ([], (close s).1))
      × ((destroy s).1 ≡ s.socket_path)
      × ((destroy (close s).1).1 ≡ s.socket_path)
unfolding close destroy
close-destroy s fd = (
  destroy-times s fd,
  ap (times fd) (append-nil (destroy s).0) ∙ destroy-times s fd,
  refl,
  refl,
  refl,
)
