-- ===== src/Network/Download.antt =====
-- The rounds of http_download_file (net/network.cpp), on a disk that keeps some laws.
pub mod Intact
pub mod Valid
use clsync.Base.{
  ℕ, zero, suc, ◌≡◌, ◌≢◌, refl, sym, ap, ◌∙◌, Bool, true, false, List, Option, some, none, length,
  length-append, arith, Bool-cases, Option-cases, inl, inr,
}
use clsync.Text.{Bytes, codes}
use clsync.Task.{DownloadValidation}
use clsync.FileSystem.{ok, Answer-cases}
use clsync.Sha256.Padding.{flatten}
use clsync.Network.{
  Medium, partial_of, matches_size, is_success, Progress, Round, returns, again, check_size,
  check_sha256, replace_target, validate, judge, download_round, download_loop,
}

-- What the operations on the disk do to the contents of the files.
pub record Laws (net : Medium) : Type 0 where
  pub content : net.Disk → Bytes → Option Bytes
  pub remove_other : (d : net.Disk) (p q : Bytes) → q ≢ p → content (net.remove d p) q ≡ content d q
  pub open_other :
      (d opened : net.Disk) (p q : Bytes)
      → net.open_truncated d p ≡ some opened
      → q ≢ p
      → content opened q ≡ content d q
  pub perform_other :
      (d : net.Disk) (url p q : Bytes) → q ≢ p → content (net.perform d url p).disk q ≡ content d q
  pub file_size_ok :
      (d : net.Disk) (p : Bytes) (n : ℕ)
      → net.file_size d p ≡ ok n
      → (bytes : Bytes) × (content d p ≡ some bytes) × (length bytes ≡ n)
  pub read_all :
      (d : net.Disk) (p bytes : Bytes) (chunks : List Bytes)
      → content d p ≡ some bytes
      → net.read d p ≡ some (chunks, false)
      → flatten chunks ≡ bytes
  pub rename_moves :
      (d : net.Disk) (p q : Bytes)
      → (net.rename d p q).1 ≡ none
      → content (net.rename d p q).0 q ≡ content d p
  pub rename_other :
      (d : net.Disk) (p q r : Bytes) → r ≢ p → r ≢ q → content (net.rename d p q).0 r ≡ content d r

pub none-ne-some : {A : Type 0} (a : A) → none ≢ some a
none-ne-some a e = cc

pub length-ne : (xs ys : Bytes) → length xs ≢ length ys → xs ≢ ys
length-ne xs ys h e = h (ap length e)

pub target-ne-partial : (target : Bytes) → target ≢ partial_of target
target-ne-partial target =
    let size = length-append target (codes ".part") in
    length-ne target (partial_of target) (λ e. omega arith)

module _ (net : Medium) (laws : Laws net) where
  open net use {Disk, remove, open_truncated, perform, file_size, read, rename}
  open laws use {
    content, remove_other, open_other, perform_other, file_size_ok, read_all, rename_moves,
    rename_other,
  }

  pub check_size-file_size :
      (disk : Disk) (p : Bytes) (expected : Option ℕ)
      → check_size net disk p expected ≡ none
      → (n : ℕ) × (file_size disk p ≡ ok n) × (matches_size expected n ≡ true)
  unfolding check_size
  check_size-file_size disk p expected h = elim (Answer-cases (file_size disk p)) [
    | inl (n, e) ↦ elim (Bool-cases (matches_size expected n)) [
      | inl m ↦ (n, e, m)
      | inr m ↦ absurd (none-ne-some _ (sym (rw (check_size, e, m) at h)))
    ]
    | inr (message, e) ↦ absurd (none-ne-some _ (sym (rw (check_size, e) at h)))
  ]

  -- A partial file of the size asked for is there, also once the target is removed.
  pub partial-held :
      (disk : Disk) (target : Bytes) (expected : Option ℕ)
      → check_size net disk (partial_of target) expected ≡ none
      → (bytes : Bytes) × (content (remove disk target) (partial_of target) ≡ some bytes)
  partial-held disk target expected h =
      let (n, size_read, size) = check_size-file_size disk (partial_of target) expected h in
      let (bytes, held, counted) = file_size_ok disk (partial_of target) n size_read in
      (
        bytes,
        remove_other disk target (partial_of target) (λ k. target-ne-partial target (sym k)) ∙ held,
      )

  -- What becomes of the fetched file: the disk stays, or the target is removed and the rename of
  -- the partial file succeeds or fails.
  pub data Judged (disk : Disk) (target : Bytes) (v : DownloadValidation) : Round net → Type 0 where
    kept : (t : Progress net) → t.disk ≡ disk → Judged disk target v (again t)
    replaced :
        (t : Progress net)
        → check_size net disk (partial_of target) v.expected_size ≡ none
        → check_sha256 net disk (partial_of target) v.expected_sha256 ≡ none
        → (rename (remove disk target) (partial_of target) target).1 ≡ none
        → t.disk ≡ (rename (remove disk target) (partial_of target) target).0
        → Judged disk target v (returns true t)
    lost :
        (t : Progress net) (message : Bytes)
        → check_size net disk (partial_of target) v.expected_size ≡ none
        → (rename (remove disk target) (partial_of target) target).1 ≡ some message
        → t.disk ≡ (rename (remove disk target) (partial_of target) target).0
        → Judged disk target v (again t)

  replace_target-Judged :
      (disk : Disk) (target : Bytes) (v : DownloadValidation) (status : ℕ)
      → check_size net disk (partial_of target) v.expected_size ≡ none
      → check_sha256 net disk (partial_of target) v.expected_sha256 ≡ none
      → Judged disk target v (replace_target net disk target status)
  unfolding replace_target
  replace_target-Judged disk target v status size digest =
      elim (Option-cases (rename (remove disk target) (partial_of target) target).1) [
        | inl e ↦ rw (replace_target, e) (replaced _ size digest e refl)
        | inr (message, e) ↦ rw (replace_target, e) (lost _ message size e refl)
      ]

  validate-Judged :
      (disk : Disk) (target : Bytes) (v : DownloadValidation) (status : ℕ)
      → Judged disk target v (validate net disk target v status)
  unfolding validate
  validate-Judged disk target v status =
      elim (Option-cases (check_size net disk (partial_of target) v.expected_size)) [
        | inr (text, e) ↦ rw (validate, e) (kept _ refl)
        | inl size ↦
            elim (Option-cases (check_sha256 net disk (partial_of target) v.expected_sha256)) [
              | inr (text, e) ↦ rw (validate, size, e) (kept _ refl)
              | inl digest ↦
                  rw (validate, size, digest)
                    (replace_target-Judged disk target v status size digest)
            ]
      ]

  judge-Judged :
      (disk : Disk) (failure : Option Bytes) (status : ℕ) (target : Bytes) (v : DownloadValidation)
      → Judged disk target v
          (judge net (record { disk = disk; failure = failure; status = status }) target v)
  unfolding judge
  judge-Judged disk (some text) status target v = kept _ refl
  judge-Judged disk none status target v = elim (Bool-cases (is_success status)) [
    | inr bad ↦ rw bad (kept _ refl)
    | inl good ↦ rw good (validate-Judged disk target v status)
  ]

  -- What one round does.
  pub data Rounded (url target : Bytes) (v : DownloadValidation) (s : Progress net)
      : Round net → Type 0 where
    unopened :
        (t : Progress net)
        → t.disk ≡ remove s.disk (partial_of target)
        → Rounded url target v s (returns false t)
    fetched :
        (opened : Disk) (r : Round net)
        → open_truncated (remove s.disk (partial_of target)) (partial_of target) ≡ some opened
        → Judged (perform opened url (partial_of target)).disk target v r
        → Rounded url target v s r

  download_round-Rounded :
      (url target : Bytes) (v : DownloadValidation) (s : Progress net)
      → Rounded url target v s (download_round net url target v s)
  unfolding download_round
  download_round-Rounded url target v s =
      elim (Option-cases (open_truncated (remove s.disk (partial_of target)) (partial_of target))) [
        | inl e ↦ rw (download_round, e) (unopened _ refl)
        | inr (opened, e) ↦
            let got = perform opened url (partial_of target) in
            rw (download_round, e)
              (fetched opened _ e (judge-Judged got.disk got.failure got.status target v))
      ]

  abbrev pub progress_of : Round net → Progress net
  progress_of (returns value t) = t
  progress_of (again t) = t

  -- Before the file is judged, only the partial file changes.
  pub fetch-other :
      (url target : Bytes) (s : Progress net) (opened : Disk) (q : Bytes)
      → open_truncated (remove s.disk (partial_of target)) (partial_of target) ≡ some opened
      → q ≢ partial_of target
      → content (perform opened url (partial_of target)).disk q ≡ content s.disk q
  fetch-other url target s opened q e off =
      perform_other opened url (partial_of target) q off
      ∙ open_other _ opened (partial_of target) q e off
      ∙ remove_other s.disk (partial_of target) q off

  Judged-other :
      (disk : Disk) (target q : Bytes) (v : DownloadValidation) (r : Round net)
      → q ≢ target
      → q ≢ partial_of target
      → Judged disk target v r
      → content (progress_of r).disk q ≡ content disk q
  Judged-other disk target q v r off_target off_partial (kept t e) = ap (λ d. content d q) e
  Judged-other disk target q v r off_target off_partial (replaced t size digest e f) =
      ap (λ d. content d q) f
      ∙ rename_other (remove disk target) (partial_of target) target q off_partial off_target
      ∙ remove_other disk target q off_target
  Judged-other disk target q v r off_target off_partial (lost t message size e f) =
      ap (λ d. content d q) f
      ∙ rename_other (remove disk target) (partial_of target) target q off_partial off_target
      ∙ remove_other disk target q off_target

  pub Rounded-other :
      (url target q : Bytes) (v : DownloadValidation) (s : Progress net) (r : Round net)
      → q ≢ target
      → q ≢ partial_of target
      → Rounded url target v s r
      → content (progress_of r).disk q ≡ content s.disk q
  Rounded-other url target q v s r off_target off_partial (unopened t e) =
      ap (λ d. content d q) e ∙ remove_other s.disk (partial_of target) q off_partial
  Rounded-other url target q v s r off_target off_partial (fetched opened r' e j) =
      Judged-other _ target q v r off_target off_partial j
      ∙ fetch-other url target s opened q e off_partial

  -- What holds of the last round, and of each round if it holds of those behind it, holds of the loop.
  module _ (url target : Bytes) (v : DownloadValidation)
      (Q : Progress net → Bool × Progress net → Type 0)
      (over : (s : Progress net)
        → Q s (false, record s { disk = remove s.disk (partial_of target) }))
      (last : (s t : Progress net) (value : Bool)
        → Rounded url target v s (returns value t)
        → Q s (value, t))
      (more : (s t : Progress net) (end : Bool × Progress net)
        → Rounded url target v s (again t)
        → Q t end
        → Q s end) where
    after_round :
        (n : ℕ) (s : Progress net) (r : Round net)
        → Rounded url target v s r
        → ((t : Progress net) → Q t (download_loop net n url target v t))
        → Q s
            (elim r [ returns value t ↦ (value, t) | again t ↦ download_loop net n url target v t ])
    after_round n s (returns value t) k rest = last s t value k
    after_round n s (again t) k rest = more s t _ k (rest t)

    pub download_loop-rule : (n : ℕ) (s : Progress net) → Q s (download_loop net n url target v s)
    unfolding download_loop
    download_loop-rule zero s = over s
    download_loop-rule (suc n) s =
        after_round n s (download_round net url target v s) (download_round-Rounded url target v s)
          (download_loop-rule n)
