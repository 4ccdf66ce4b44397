-- ===== src/Network.antt =====
-- http_download_file of net/network.cpp. libcurl and the disk are parameters. `retries_` is below
-- 2 ^ 32 - 1, so that the loop counter does not wrap; net/sync_manager.cpp passes 0.
pub mod Download
pub mod Memory
pub mod Writing
pub mod Requests
mod Tests
use clsync.Base.{
  ℕ, zero, suc, Bool, true, false, ◌&&◌, ◌||◌, List, ◌++◌, Option, some, none, ◌==◌, leb, ltb, map,
  is_empty, if◌then◌else◌,
}
use clsync.Text.{Bytes, codes, to_lower, equal}
use clsync.Task.{DownloadValidation}
use clsync.FileSystem.{Answer, ok, fails}
use clsync.Command.Numbers.Decimal.{decimal}
use clsync.Sha256.{sha256_file}

-- The disk after `curl_easy_perform` and `close`; the text of the error, none for CURLE_OK; and
-- the response code.
pub record Fetched (Disk : Type 0) : Type 0 where
  pub disk : Disk
  pub failure : Option Bytes
  pub status : ℕ

pub record Medium : Type 1 where
  pub Disk : Type 0
  pub remove : Disk → Bytes → Disk
  -- The disk with the truncated file, or none where it does not open.
  pub open_truncated : Disk → Bytes → Option Disk
  -- The request for a URL, whose body is written to the open file.
  pub perform : Disk → Bytes → Bytes → Fetched Disk
  pub file_size : Disk → Bytes → Answer ℕ
  -- What sha256_file reads.
  pub read : Disk → Bytes → Option (List Bytes × Bool)
  -- From the first path to the second; with the message where it fails.
  pub rename : Disk → Bytes → Bytes → Disk × Option Bytes

abbrev pub partial_of : Bytes → Bytes
partial_of target = target ++ codes ".part"

-- `last_http_status_ == 0 || (last_http_status_ >= 200 && last_http_status_ < 300)`.
abbrev pub is_success : ℕ → Bool
is_success status = status == 0 || (leb 200 status && ltb status 300)

abbrev expected_text : Option ℕ → Bytes
expected_text none = codes "unknown"
expected_text (some size) = decimal size

abbrev size_message : Option ℕ → Bytes → Bytes
size_message expected actual =
    codes "File validation failed: expected_size="
    ++ (expected_text expected ++ (codes " actual_size=" ++ actual))

abbrev pub matches_size : Option ℕ → ℕ → Bool
matches_size none actual = true
matches_size (some size) actual = actual == size

module _ (net : Medium) where
  open net use {Disk, remove, open_truncated, perform, file_size, read, rename}

  -- The caller's `response` and `last_http_status_` go along with the disk.
  pub record Progress : Type 0 where
    pub disk : Disk
    pub response : Bytes
    pub status : ℕ

  -- The message of a size that is not right.
  unfoldable pub check_size : Disk → Bytes → Option ℕ → Option Bytes
  check_size disk partial expected = elim (file_size disk partial) [
    | fails message ↦ some (size_message expected (codes "unavailable"))
    | ok actual ↦
        if matches_size expected actual then none else some (size_message expected (decimal actual))
  ]

  abbrev pub matches_digest : Option Bytes → Bytes → Bool
  matches_digest none expected = false
  matches_digest (some actual) expected = equal actual (map to_lower expected)

  unfoldable pub check_sha256 : Disk → Bytes → Bytes → Option Bytes
  unfolding equal
  check_sha256 disk partial expected =
      if is_empty expected
      then none
      else if matches_digest (sha256_file (read disk partial)) expected
      then none
      else some (codes "File validation failed: SHA-256 mismatch.")

  -- What one round of the loop ends in: `return`, or the next round.
  pub data Round : Type 0 where
    returns : Bool → Progress → Round
    again : Progress → Round

  -- From `remove(target)` on.
  unfoldable pub replace_target : Disk → Bytes → ℕ → Round
  replace_target disk target status =
      let moved = rename (remove disk target) (partial_of target) target in
      elim moved.1 [
        | none ↦
            returns true (record { disk = moved.0; response = codes "Success"; status = status })
        | some message ↦ again (record { disk = moved.0; response = message; status = status })
      ]

  -- After a successful request.
  unfoldable pub validate : Disk → Bytes → DownloadValidation → ℕ → Round
  unfolding check_size check_sha256 replace_target
  validate disk target v status = elim (check_size disk (partial_of target) v.expected_size) [
    | some text ↦ again (record { disk = disk; response = text; status = status })
    | none ↦ elim (check_sha256 disk (partial_of target) v.expected_sha256) [
      | some text ↦ again (record { disk = disk; response = text; status = status })
      | none ↦ replace_target disk target status
    ]
  ]

  -- After the request.
  unfoldable pub judge : Fetched Disk → Bytes → DownloadValidation → Round
  unfolding validate
  judge got target v = elim got.failure [
    | some text ↦ again (record { disk = got.disk; response = text; status = got.status })
    | none ↦
        if is_success got.status
        then validate got.disk target v got.status
        else again (record {
          disk = got.disk;
          response = codes "Unexpected HTTP status: " ++ decimal got.status;
          status = got.status;
        })
  ]

  unfoldable pub download_round : Bytes → Bytes → DownloadValidation → Progress → Round
  unfolding judge
  download_round url target v s =
      let cleared = remove s.disk (partial_of target) in
      elim (open_truncated cleared (partial_of target)) [
        | none ↦
            returns false
              (record s { disk = cleared; response = codes "Failed to open file for writing." })
        | some opened ↦ judge (perform opened url (partial_of target)) target v
      ]

  -- The rounds that are left.
  unfoldable pub download_loop : ℕ → Bytes → Bytes → DownloadValidation → Progress → Bool × Progress
  unfolding download_round
  download_loop zero url target v s = (false, record s { disk = remove s.disk (partial_of target) })
  download_loop (suc rounds) url target v s = elim (download_round url target v s) [
    | returns value t ↦ (value, t)
    | again t ↦ download_loop rounds url target v t
  ]

  -- Whether `curl` is not null, and `retries_`.
  unfoldable pub http_download_file :
      Bool → ℕ → Bytes → Bytes → DownloadValidation → Progress → Bool × Progress
  unfolding download_loop
  http_download_file curl retries url target v s =
      if curl then download_loop (suc retries) url target v s else (false, s)
