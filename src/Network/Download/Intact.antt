-- ===== src/Network/Download/Intact.antt =====
-- The files that http_download_file of net/network.cpp leaves alone.
use clsync.Base.{ℕ, suc, ◌≡◌, ◌≢◌, refl, sym, ap, ◌∙◌, Bool, true, false, some, none}
use clsync.Text.{Bytes}
use clsync.Task.{DownloadValidation}
use clsync.Network.{Medium, partial_of, Progress, returns, again, download_loop, http_download_file}
use clsync.Network.Download.{
  Laws, none-ne-some, target-ne-partial, kept, replaced, lost, Rounded, unopened, fetched,
  fetch-other, partial-held, Rounded-other, download_loop-rule,
}

module _ (net : Medium) (laws : Laws net) where
  open net use {Disk, remove, open_truncated, perform, file_size, read, rename}
  open laws use {content, remove_other, file_size_ok, read_all, rename_moves}

  download_loop-other :
      (n : ℕ) (url target q : Bytes) (v : DownloadValidation) (s : Progress net)
      → q ≢ target
      → q ≢ partial_of target
      → content (download_loop net n url target v s).1.disk q ≡ content s.disk q
  download_loop-other n url target q v s off_target off_partial =
      download_loop-rule net laws url target v (λ a end. content end.1.disk q ≡ content a.disk q)
        (λ a. remove_other a.disk (partial_of target) q off_partial)
        (λ a t value k.
          Rounded-other net laws url target q v a (returns value t) off_target off_partial k)
        (λ a t end k rest.
          rest ∙ Rounded-other net laws url target q v a (again t) off_target off_partial k)
        n s

  -- A round that is tried again leaves the target alone, if such a rename never fails.
  Rounded-again-target :
      (url target : Bytes) (v : DownloadValidation) (s t : Progress net)
      → ((d : Disk) (bytes : Bytes)
          → content (remove d target) (partial_of target) ≡ some bytes
          → (rename (remove d target) (partial_of target) target).1 ≡ none)
      → Rounded net laws url target v s (again t)
      → content t.disk target ≡ content s.disk target
  Rounded-again-target url target v s t works (fetched opened r e (kept t' f)) =
      ap (λ d. content d target) f
      ∙ fetch-other net laws url target s opened target e (target-ne-partial target)
  Rounded-again-target url target v s t works (fetched opened r e (lost t' message size f g)) =
      let (bytes, held) = partial-held net laws _ target v.expected_size size in
      elim (none-ne-some _ (sym (works _ bytes held) ∙ f)) [ ]

  Rounded-returns-target :
      (url target : Bytes) (v : DownloadValidation) (s t : Progress net) (value : Bool)
      → Rounded net laws url target v s (returns value t)
      → value ≡ false
      → content t.disk target ≡ content s.disk target
  Rounded-returns-target url target v s t value (unopened t' e) f =
      ap (λ d. content d target) e
      ∙ remove_other s.disk (partial_of target) target (target-ne-partial target)
  Rounded-returns-target url target v s t value (fetched opened r e (replaced t' size digest g h))
        f =
      cc

  -- On a disk that keeps the laws, a download that fails leaves the target as it was, if the rename
  -- right behind the removal of the target never fails while the partial file is there.
  pub http_download_file-failed :
      (curl : Bool) (retries : ℕ) (url target : Bytes) (v : DownloadValidation) (s t : Progress net)
      → ((d : Disk) (bytes : Bytes)
          → content (remove d target) (partial_of target) ≡ some bytes
          → (rename (remove d target) (partial_of target) target).1 ≡ none)
      → http_download_file net curl retries url target v s ≡ (false, t)
      → content t.disk target ≡ content s.disk target
  unfolding http_download_file
  http_download_file-failed false retries url target v s t works h =
      ap (λ o. content o.1.disk target) (sym h)
  http_download_file-failed true retries url target v s t works h =
      ap (λ o. content o.1.disk target) (sym h)
      ∙ download_loop-rule net laws url target v
          (λ a end. end.0 ≡ false → content end.1.disk target ≡ content a.disk target)
          (λ a f. remove_other a.disk (partial_of target) target (target-ne-partial target))
          (λ a b value k f. Rounded-returns-target url target v a b value k f)
          (λ a b end k rest f. rest f ∙ Rounded-again-target url target v a b works k) (suc retries)
          s (ap (λ o. o.0) h)

  -- On a disk that keeps the laws, whatever the result, no file changes but the target and its
  -- partial file.
  pub http_download_file-other :
      (curl : Bool) (retries : ℕ) (url target q : Bytes) (v : DownloadValidation) (s : Progress net)
      → q ≢ target
      → q ≢ partial_of target
      → content (http_download_file net curl retries url target v s).1.disk q ≡ content s.disk q
  unfolding http_download_file
  http_download_file-other false retries url target q v s off_target off_partial = refl
  http_download_file-other true retries url target q v s off_target off_partial =
      download_loop-other (suc retries) url target q v s off_target off_partial
