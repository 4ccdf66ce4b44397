-- ===== src/Network/Requests/Release.antt =====
-- The forms of http_upload_file in net/network.cpp.
use clsync.Base.{
  ℕ, zero, suc, ◌+◌, ◌≤◌, ◌≡◌, refl, sym, ap, subst, Bool, true, List, [], ◌∷◌, Option, some, none,
  arith, if_cases, not,
}
use clsync.Text.{Bytes}
use clsync.Network.Requests.{
  Options, Curl, Network, Attempt, attempt, succeeded, note_status, conclude, first, perform_loop,
  Performed, perform, perform_on, is_open, Forms, no_forms, free_form, configure_upload,
  http_upload_file,
}

-- The first `n` numbers, the last one in front.
abbrev pub below : ℕ → List ℕ
below zero = []
below (suc n) = n ∷ below n

-- Every form but the one in use is freed, once.
abbrev IsKept : Forms → Type 0
IsKept f = (free_form f).freed ≡ below f.made

module _ (curl : Curl) (S : Type 0) (configure : S → Options × S) (P : ℕ → S → Type 0)
    (kept : (n : ℕ) (s : S) → P n s → P (suc n) (configure s).1) where
  note_status-captured : (a : Attempt curl S) → (note_status curl S a).captured ≡ a.captured
  note_status-captured a = ground arith

  conclude-captured : (a : Attempt curl S) → (conclude curl S a).captured ≡ a.captured
  conclude-captured a = ground arith

  -- What `configure` keeps holds at the end, with the number of its calls.
  perform_loop-captured :
      (n k : ℕ) (a : Attempt curl S)
      → P k a.captured
      → (j : ℕ) × (j ≤ n + k) × P j (perform_loop curl S n configure a).1.captured
  unfolding perform_loop
  perform_loop-captured zero k a h = (k, omega arith, subst (P k) (sym (conclude-captured a)) h)
  perform_loop-captured (suc n) k a h =
      let tried = attempt curl S configure a in
      let rest = perform_loop curl S n configure (note_status curl S tried) in
      let step = kept k a.captured h in
      let (j, within, held) =
        perform_loop-captured n (suc k) (note_status curl S tried)
          (subst (P (suc k)) (sym (note_status-captured tried)) step) in
      if_cases (λ (end : Bool × Attempt curl S). (j : ℕ) × (j ≤ suc n + k) × P j end.1.captured)
        (succeeded curl S tried) (true, tried) rest (λ good. (suc k, omega arith, step))
        (λ bad. (j, omega arith, held))

module _ (curl : Curl) where
  configure_upload-IsKept :
      (url : Bytes) (n : Network curl) (k : ℕ) (f : Forms)
      → IsKept f × (f.made ≡ k)
      → IsKept (configure_upload curl url n f).1 × ((configure_upload curl url n f).1.made ≡ suc k)
  configure_upload-IsKept url n k f h = (ap (◌∷◌ f.made) h.0, ap suc h.1)

  abbrev IsReleased : Network curl → Performed curl Forms → Type 0
  IsReleased n p = (p.captured.freed ≡ below p.captured.made) × (p.captured.made ≤ suc n.retries)

  perform_on-IsKept :
      (o : Option curl.Handle) (url response : Bytes) (n : Network curl)
      → let p = perform_on curl Forms o (configure_upload curl url n) no_forms response n in
        IsReleased n (record p { captured = free_form p.captured })
  perform_on-IsKept none url response n = (refl, omega arith)
  perform_on-IsKept (some handle) url response n =
      let (j, within, held) =
        perform_loop-captured curl Forms (configure_upload curl url n)
          (λ k f. IsKept f × (f.made ≡ k)) (λ k f h. configure_upload-IsKept url n k f h)
          (suc n.retries) 0 (first curl Forms handle n.last_http_status no_forms response)
          (refl, refl) in
      (held.0, omega (arith, held.1))

  -- Whatever happens, http_upload_file makes at most `retries_ + 1` forms and frees each of them once.
  pub http_upload_file-freed :
      (is_regular_file : Bool) (url response : Bytes) (n : Network curl)
      → let f = (http_upload_file curl is_regular_file url response n).captured in
        (f.freed ≡ below f.made) × (f.made ≤ suc n.retries)
  unfolding http_upload_file perform
  http_upload_file-freed is_regular_file url response n =
      if_cases (IsReleased n) (not (is_open n)) _ _ (λ closed. (refl, omega arith))
        (λ opened.
          if_cases (IsReleased n) (not is_regular_file) _ _ (λ missing. (refl, omega arith))
            (λ found. perform_on-IsKept n.handle url response n))
