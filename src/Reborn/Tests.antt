-- ===== src/Reborn/Tests.antt =====
-- Requests through the buffer of include/reborn.
use clsync.Base.{◌≡◌, [], ◌++◌, some, none, arith}
use clsync.Text.{codes}
use clsync.Reborn.{Socket, ok, new_socket, send_request, process_requests, close, destroy}
use clsync.Reborn.Processing.{created, sent, drained, times, process_requests-Used, close-destroy}

abbrev fresh_socket : Socket
fresh_socket = new_socket (some (codes "clsync.sock")) (some 3)

abbrev with_messages : Socket
unfolding new_socket send_request
with_messages =
    (send_request (some (codes "SYNC FAILED"))
      (send_request none (send_request (some (codes "SYNC READY")) fresh_socket).1).1).1

process_requests-Used_example : process_requests 3 with_messages ≡ some (ok, drained with_messages)
unfolding new_socket send_request
process_requests-Used_example =
    process_requests-Used with_messages 3
      (sent (some (codes "SYNC FAILED")) _ (
        sent none _
          (sent (some (codes "SYNC READY")) _ (created (some (codes "clsync.sock")) (some 3)))))
      (omega arith)

close-destroy_example :
    (times 3 (destroy with_messages).0 ≡ 1)
    × (times 3 ((close with_messages).0 ++ (destroy (close with_messages).1).0) ≡ 1)
    × (close (close with_messages).1 ≡ ([], (close with_messages).1))
    × ((destroy with_messages).1 ≡ some (codes "clsync.sock"))
    × ((destroy (close with_messages).1).1 ≡ some (codes "clsync.sock"))
unfolding new_socket send_request
close-destroy_example = close-destroy with_messages 3
