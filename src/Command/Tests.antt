-- ===== src/Command/Tests.antt =====
-- Commands of net/SYNC_PROTOCOL.md: tests, and the theorems at them.
use clsync.Base.{◌≡◌, refl, [], ◌∷◌, some, arith}
use clsync.Text.{codes, is_space, is_digit}
use clsync.Manager.Lifecycle.{enqueue}
use clsync.Command.{download_task, upload_task, enqueue_ipc_command}
use clsync.Command.Numbers.{parse_size}
use clsync.Command.Numbers.Decimal.{value, decimal, parse_size-decimal, parse_size_minus}
use clsync.Command.RoundTrip.{
  download_command, upload_command, enqueue_ipc_command-download, enqueue_ipc_command-upload,
}
use clsync.Command.Tokens.{parse_tokens}
use clsync.Command.Tokens.Quoting.{join_tokens, parse_tokens-join_tokens}
use clsync.FileSystem.Memory.{plain_fs}
use clsync.Manager.{init}
use clsync.Task.Sample.{settings}

parse_tokens-words :
    parse_tokens (codes "DOWNLOAD a \"my file\" 'x y'\\ \"q\\\"r\"")
    ≡ codes "DOWNLOAD" ∷ codes "a" ∷ codes "my file" ∷ codes "x y\\" ∷ codes "q\"r" ∷ []
unfolding parse_tokens
parse_tokens-words = refl

-- A quotation mark that is left open ends a token, also an empty one.
parse_tokens-open : parse_tokens (codes "a \"") ≡ codes "a" ∷ [] ∷ []
unfolding parse_tokens
parse_tokens-open = refl

parse_size_runs : parse_size (codes " +42") ≡ some 42
unfolding parse_size is_space
parse_size_runs = refl

parse_tokens-join_tokens_example :
    parse_tokens (join_tokens (codes "a\"b" ∷ [] ∷ codes "c d" ∷ []))
    ≡ codes "a\"b" ∷ codes "c d" ∷ []
parse_tokens-join_tokens_example = parse_tokens-join_tokens (codes "a\"b" ∷ [] ∷ codes "c d" ∷ [])

parse_size_minus_example : parse_size (codes "-5") ≡ some 18446744073709551611
unfolding value is_digit
parse_size_minus_example = parse_size_minus b'5' [] refl (omega arith)

parse_size-decimal_example : parse_size (decimal 4096) ≡ some 4096
parse_size-decimal_example = parse_size-decimal 4096 (omega arith)

enqueue_ipc_command-download_example :
    enqueue_ipc_command
      (plain_fs 5)
      tt
      0
      (download_command (codes "a") (codes "http://h/a") (codes "a b") (some 5) [])
      []
      (init settings)
    ≡ enqueue
        (plain_fs 5)
        tt
        0
        (download_task (codes "a") (codes "http://h/a") (codes "a b") (some 5) [])
        []
        (init settings)
enqueue_ipc_command-download_example =
    enqueue_ipc_command-download (plain_fs 5) tt 0 (codes "a") (codes "http://h/a") (codes "a b")
      (some 5) [] [] (init settings) (λ e. cc) (λ e. cc) (λ e. cc) (omega arith) (λ e. cc)

enqueue_ipc_command-upload_example :
    enqueue_ipc_command
      (plain_fs 5)
      tt
      0
      (upload_command (codes "a") (codes "http://h/a") (codes "a b"))
      []
      (init settings)
    ≡ enqueue
        (plain_fs 5)
        tt
        0
        (upload_task (codes "a") (codes "http://h/a") (codes "a b"))
        []
        (init settings)
enqueue_ipc_command-upload_example =
    enqueue_ipc_command-upload (plain_fs 5) tt 0 (codes "a") (codes "http://h/a") (codes "a b") []
      (init settings) (λ e. cc) (λ e. cc) (λ e. cc)
