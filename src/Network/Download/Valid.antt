-- ===== src/Network/Download/Valid.antt =====
-- The file that a successful http_download_file of net/network.cpp leaves.
use clsync.Base.{
  ℕ, suc, ◌≡◌, ◌≢◌, ◌⊎◌, refl, sym, ap, ◌∙◌, subst, Bool, true, false, List, [], ◌∷◌, Option, some,
  none, map, length, Bool-cases, inl, inr,
}
use clsync.Text.{Bytes, to_lower, equal_iff}
use clsync.Task.{DownloadValidation}
use clsync.Sha256.{sha256_file}
use clsync.Sha256.Padding.{sha256_file-flatten}
use clsync.Network.{
  Medium, partial_of, matches_size, matches_digest, Progress, returns, check_sha256,
  http_download_file,
}
use clsync.Network.Download.{
  Laws, none-ne-some, target-ne-partial, replaced, Rounded, unopened, fetched, check_size-file_size,
  download_loop-rule,
}

-- The size and the digest that the task asks for.
pub record IsValid (v : DownloadValidation) (bytes : Bytes) : Type 0 where
  pub size : matches_size v.expected_size (length bytes) ≡ true
  pub digest :
      (v.expected_sha256 ≡ [])
      ⊎ (sha256_file (some (bytes ∷ [], false)) ≡ some (map to_lower v.expected_sha256))

module _ (net : Medium) (laws : Laws net) where
  open net use {Disk, remove, open_truncated, perform, file_size, read, rename}
  open laws use {content, remove_other, file_size_ok, read_all, rename_moves}

  false-ne-true : false ≢ true
  false-ne-true e = cc

  matches_digest-sha256_file :
      (found : Option (List Bytes × Bool)) (expected : Bytes)
      → matches_digest net (sha256_file found) expected ≡ true
      → (chunks : List Bytes) × (found ≡ some (chunks, false))
        × (sha256_file (some (chunks, false)) ≡ some (map to_lower expected))
  unfolding sha256_file
  matches_digest-sha256_file none expected h = cc
  matches_digest-sha256_file (some (chunks, true)) expected h = cc
  matches_digest-sha256_file (some (chunks, false)) expected h =
      (chunks, refl, ap some ((equal_iff _ _).0 h))

  check_sha256-digest :
      (disk : Disk) (p expected bytes : Bytes)
      → content disk p ≡ some bytes
      → check_sha256 net disk p expected ≡ none
      → (expected ≡ []) ⊎ (sha256_file (some (bytes ∷ [], false)) ≡ some (map to_lower expected))
  unfolding check_sha256
  check_sha256-digest disk p [] bytes e h = inl refl
  check_sha256-digest disk p (c ∷ cs) bytes e h =
      elim (Bool-cases (matches_digest net (sha256_file (read disk p)) (c ∷ cs))) [
        | inl m ↦
            let (chunks, whole, same) = matches_digest-sha256_file (read disk p) (c ∷ cs) m in
            inr (
              ap (λ b. sha256_file (some (b ∷ [], false)))
                (sym (read_all disk p bytes chunks e whole))
              ∙ sym (sha256_file-flatten chunks)
              ∙ same)
        | inr m ↦ absurd (none-ne-some _ (sym (rw (check_sha256, m) at h)))
      ]

  Rounded-returns-IsValid :
      (url target : Bytes) (v : DownloadValidation) (s t : Progress net) (value : Bool)
      → Rounded net laws url target v s (returns value t)
      → value ≡ true
      → (bytes : Bytes) × (content t.disk target ≡ some bytes) × IsValid v bytes
  Rounded-returns-IsValid url target v s t value (unopened t' e) h = cc
  Rounded-returns-IsValid url target v s t value
        (fetched opened r e (replaced t' sized digested moved f)) h =
      let got = (perform opened url (partial_of target)).disk in
      let (n, size_read, size) =
        check_size-file_size net laws got (partial_of target) v.expected_size sized in
      let (bytes, held, counted) = file_size_ok got (partial_of target) n size_read in
      (
        bytes,
        ap (λ d. content d target) f
            ∙ rename_moves (remove got target) (partial_of target) target moved
            ∙ remove_other got target (partial_of target) (λ k. target-ne-partial target (sym k))
            ∙ held,
        record {
          size = ap (matches_size v.expected_size) counted ∙ size;
          digest =
              check_sha256-digest got (partial_of target) v.expected_sha256 bytes held digested;
        },
      )

  -- When http_download_file returns true, on a disk that keeps the laws, the target holds bytes of the size and with the SHA-256 digest
  -- that were asked for, each where it was asked for; letter case of the digest does not count.
  pub http_download_file-IsValid :
      (curl : Bool) (retries : ℕ) (url target : Bytes) (v : DownloadValidation) (s t : Progress net)
      → http_download_file net curl retries url target v s ≡ (true, t)
      → (bytes : Bytes) × (content t.disk target ≡ some bytes) × IsValid v bytes
  unfolding http_download_file
  http_download_file-IsValid false retries url target v s t h =
      absurd (false-ne-true (ap (λ o. o.0) h))
  http_download_file-IsValid true retries url target v s t h =
      subst (λ o. (bytes : Bytes) × (content o.1.disk target ≡ some bytes) × IsValid v bytes) h
        (download_loop-rule net laws url target v
          (λ a end.
            end.0 ≡ true
            → (bytes : Bytes) × (content end.1.disk target ≡ some bytes) × IsValid v bytes)
          (λ a f. absurd (false-ne-true f))
          (λ a b value k. Rounded-returns-IsValid url target v a b value k) (λ a b end k rest. rest)
          (suc retries) s (ap (λ o. o.0) h))
