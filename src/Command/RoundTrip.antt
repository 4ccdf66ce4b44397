-- ===== src/Command/RoundTrip.antt =====
-- The IPC commands of net/SYNC_PROTOCOL.md, written out, mean the tasks that they were written for.
use clsync.Base.{
  ℕ, suc, ◌<◌, ◌^◌, ◌≡◌, ◌≢◌, refl, ◌∙◌, ap, true, false, List, [], ◌∷◌, Option, some, none, arith,
  if◌then◌else◌, all,
}
use clsync.Text.{Bytes, codes, equal, is_digit}
use clsync.Task.{SyncTask}
use clsync.FileSystem.{FileSystem}
use clsync.Manager.{SyncManager}
use clsync.Manager.Lifecycle.{enqueue}
use clsync.Command.Tokens.{parse_tokens}
use clsync.Command.Tokens.Quoting.{join_tokens, without_empty, parse_tokens-join_tokens}
use clsync.Command.Numbers.Decimal.{decimal, digits_of-ne-nil, digits_of-all, parse_size-decimal}
use clsync.Command.{
  asks, left_out, download_task, upload_task, read_tokens, answer, enqueue_ipc_command,
}

-- The field for an optional size and an optional checksum.
abbrev pub size_field : Option ℕ → Bytes
size_field none = codes "-"
size_field (some n) = decimal n

abbrev pub sha256_field : Bytes → Bytes
sha256_field [] = codes "-"
sha256_field (c ∷ cs) = c ∷ cs

unfoldable pub download_command : Bytes → Bytes → Bytes → Option ℕ → Bytes → Bytes
unfolding join_tokens
download_command id url path size sha256 =
    join_tokens (codes "DOWNLOAD" ∷ id ∷ url ∷ path ∷ size_field size ∷ sha256_field sha256 ∷ [])

unfoldable pub upload_command : Bytes → Bytes → Bytes → Bytes
unfolding join_tokens
upload_command id url path = join_tokens (codes "UPLOAD" ∷ id ∷ url ∷ path ∷ [])

abbrev pub SizeFits : Option ℕ → Type 0
SizeFits none = Unit {0}
SizeFits (some n) = n < 2 ^ 64

decimal-left_out : (n : ℕ) → left_out (decimal n) ≡ false
decimal-left_out n =
    digits-left_out (decimal n) (digits_of-ne-nil (suc n) n (omega arith)) (digits_of-all (suc n) n)
  where
    digits-left_out : (ds : Bytes) → ds ≢ [] → all is_digit ds ≡ true → left_out ds ≡ false
    digits-left_out [] ne h = absurd (ne refl)
    digits-left_out (c ∷ cs) ne h = unfold equal is_digit in ground arith

sha256-field :
    (sha256 : Bytes)
    → sha256 ≢ codes "-"
    → (if left_out (sha256_field sha256) then [] else sha256_field sha256)
      ≡ (if left_out sha256 then [] else sha256)
unfolding equal
sha256-field [] h = refl
sha256-field (c ∷ cs) h = refl

without_empty-cons :
    (t : Bytes) (ts : List Bytes) → t ≢ [] → without_empty (t ∷ ts) ≡ t ∷ without_empty ts
without_empty-cons [] ts h = absurd (h refl)
without_empty-cons (c ∷ cs) ts h = refl

size_field-ne-nil : (size : Option ℕ) → size_field size ≢ []
size_field-ne-nil none e = cc
size_field-ne-nil (some n) e = digits_of-ne-nil (suc n) n (omega arith) e

sha256_field-ne-nil : (sha256 : Bytes) → sha256_field sha256 ≢ []
sha256_field-ne-nil [] e = cc
sha256_field-ne-nil (c ∷ cs) e = cc

fields-kept :
    (size : Option ℕ) (sha256 : Bytes)
    → without_empty (size_field size ∷ sha256_field sha256 ∷ [])
      ≡ size_field size ∷ sha256_field sha256 ∷ []
fields-kept size sha256 =
    without_empty-cons (size_field size) (sha256_field sha256 ∷ []) (size_field-ne-nil size)
    ∙ ap (λ ts. size_field size ∷ ts)
        (without_empty-cons (sha256_field sha256) [] (sha256_field-ne-nil sha256))

module _ (id url path : Bytes) (i : id ≢ []) (u : url ≢ []) (p : path ≢ []) where
  task_tokens :
      (operation : Bytes) (fields : List Bytes)
      → operation ≢ []
      → without_empty (operation ∷ id ∷ url ∷ path ∷ fields)
        ≡ operation ∷ id ∷ url ∷ path ∷ without_empty fields
  task_tokens operation fields o = rw (
    without_empty-cons operation (id ∷ url ∷ path ∷ fields) o,
    without_empty-cons id (url ∷ path ∷ fields) i,
    without_empty-cons url (path ∷ fields) u,
    without_empty-cons path fields p,
  )

abbrev with_checksum : SyncTask → Bytes → SyncTask
with_checksum task s = record task {
  validation = record { expected_size = task.validation.expected_size; expected_sha256 = s };
}

read_tokens-download :
    (id url path : Bytes) (size : Option ℕ) (sha256 : Bytes)
    → SizeFits size
    → sha256 ≢ codes "-"
    → read_tokens (codes "DOWNLOAD" ∷ id ∷ url ∷ path ∷ size_field size ∷ sha256_field sha256 ∷ [])
      ≡ asks (download_task id url path size sha256)
unfolding read_tokens equal
read_tokens-download id url path none sha256 fits h =
    ap (λ s. asks (with_checksum (download_task id url path none []) s)) (sha256-field sha256 h)
read_tokens-download id url path (some n) sha256 fits h =
    rw (decimal-left_out n, parse_size-decimal n fits)
      (ap (λ s. asks (with_checksum (download_task id url path (some n) []) s))
        (sha256-field sha256 h))

-- A DOWNLOAD command for a task, its tokens quoted, is handed to `enqueue` as that task: id, URL,
-- path, size and checksum come through whatever bytes they hold, as long as the first three are
-- not empty, the size fits 64 bits and the checksum is not "-".
pub enqueue_ipc_command-download :
    (fs : FileSystem) (disk : fs.Disk) (now : ℕ) (id url path : Bytes) (size : Option ℕ)
    (sha256 text : Bytes) (m : SyncManager)
    → id ≢ []
    → url ≢ []
    → path ≢ []
    → SizeFits size
    → sha256 ≢ codes "-"
    → enqueue_ipc_command fs disk now (download_command id url path size sha256) text m
      ≡ enqueue fs disk now (download_task id url path size sha256) text m
unfolding enqueue_ipc_command answer download_command
enqueue_ipc_command-download fs disk now id url path size sha256 text m i u p fits sh =
    ap (λ r. answer fs disk now r text m)
      (ap read_tokens tokens ∙ read_tokens-download id url path size sha256 fits sh)
  where
    fields : List Bytes
    fields = size_field size ∷ sha256_field sha256 ∷ []

    tokens :
        parse_tokens (join_tokens (codes "DOWNLOAD" ∷ id ∷ url ∷ path ∷ fields))
        ≡ codes "DOWNLOAD" ∷ id ∷ url ∷ path ∷ fields
    tokens =
        parse_tokens-join_tokens (codes "DOWNLOAD" ∷ id ∷ url ∷ path ∷ fields)
        ∙ (task_tokens id url path i u p (codes "DOWNLOAD") fields (λ e. cc)
            ∙ ap (λ f. codes "DOWNLOAD" ∷ id ∷ url ∷ path ∷ f) (fields-kept size sha256))

-- An UPLOAD command, its tokens quoted, is handed to `enqueue` as an upload of these three fields.
pub enqueue_ipc_command-upload :
    (fs : FileSystem) (disk : fs.Disk) (now : ℕ) (id url path text : Bytes) (m : SyncManager)
    → id ≢ []
    → url ≢ []
    → path ≢ []
    → enqueue_ipc_command fs disk now (upload_command id url path) text m
      ≡ enqueue fs disk now (upload_task id url path) text m
unfolding enqueue_ipc_command answer upload_command
enqueue_ipc_command-upload fs disk now id url path text m i u p =
    ap (λ r. answer fs disk now r text m) (ap read_tokens tokens ∙ read)
  where
    tokens :
        parse_tokens (join_tokens (codes "UPLOAD" ∷ id ∷ url ∷ path ∷ []))
        ≡ codes "UPLOAD" ∷ id ∷ url ∷ path ∷ []
    tokens =
        parse_tokens-join_tokens (codes "UPLOAD" ∷ id ∷ url ∷ path ∷ [])
        ∙ task_tokens id url path i u p (codes "UPLOAD") [] (λ e. cc)

    read : read_tokens (codes "UPLOAD" ∷ id ∷ url ∷ path ∷ []) ≡ asks (upload_task id url path)
    read = unfold read_tokens equal in refl
