-- ===== src/Network/Requests/Attempts.antt =====
-- How often `perform` of net/network.cpp sends a request, and what it returns.
use clsync.Base.{
  ℕ, zero, suc, ◌≤◌, ◌<◌, ◌≡◌, refl, sym, ap, ◌∙◌, Bool, true, false, some, arith, is_empty,
  if_cases, if◌then◌else◌, ◌==◌, ◌++◌,
}
use clsync.Text.{Bytes, codes}
use clsync.Command.Numbers.Decimal.{decimal}
use clsync.Network.Requests.{
  Options, Curl, Network, Attempt, attempt, succeeded, note_status, conclude, first, perform_loop,
  returned, perform_on, Performed, perform,
}

module _ (curl : Curl) (S : Type 0) (configure : S → Options × S) where
  -- So many attempts in a row that fail.
  pub data Tried : ℕ → Attempt curl S → Attempt curl S → Type 0 where
    untried : (a : Attempt curl S) → Tried 0 a a
    failed_once :
        (n : ℕ) (a b : Attempt curl S)
        → succeeded curl S (attempt curl S configure a) ≡ false
        → Tried n (note_status curl S (attempt curl S configure a)) b
        → Tried (suc n) a b

  -- How the loop ends: with the first attempt that succeeds, or after all of them.
  data Ended (n : ℕ) (a : Attempt curl S) : Bool × Attempt curl S → Type 0 where
    succeeds :
        (k : ℕ) (b : Attempt curl S)
        → k < n
        → Tried k a b
        → succeeded curl S (attempt curl S configure b) ≡ true
        → Ended n a (true, attempt curl S configure b)
    gives_up : (b : Attempt curl S) → Tried n a b → Ended n a (false, conclude curl S b)

  Ended-later :
      (n : ℕ) (a : Attempt curl S) (end : Bool × Attempt curl S)
      → succeeded curl S (attempt curl S configure a) ≡ false
      → Ended n (note_status curl S (attempt curl S configure a)) end
      → Ended (suc n) a end
  Ended-later n a end more (succeeds k b below tried good) =
      succeeds (suc k) b (omega arith) (failed_once k a b more tried) good
  Ended-later n a end more (gives_up b tried) = gives_up b (failed_once n a b more tried)

  perform_loop-Ended : (n : ℕ) (a : Attempt curl S) → Ended n a (perform_loop curl S n configure a)
  unfolding perform_loop
  perform_loop-Ended zero a = gives_up a (untried a)
  perform_loop-Ended (suc n) a =
      let tried = attempt curl S configure a in
      let rest = perform_loop curl S n configure (note_status curl S tried) in
      if_cases (Ended (suc n) a) (succeeded curl S tried) (true, tried) rest
        (λ good. succeeds 0 a (omega arith) (untried a) good)
        (λ bad. Ended-later n a rest bad (perform_loop-Ended n (note_status curl S tried)))

  -- What is said of a request, given its last attempt, which failed.
  abbrev pub failure_text : Attempt curl S → Bytes
  failure_text a =
      if a.code == 0
      then codes "Unexpected HTTP status: " ++ decimal a.status
      else if is_empty a.response
      then curl.strerror a.code
      else a.response

  conclude-note_status :
      (a : Attempt curl S)
      → ((conclude curl S (note_status curl S a)).status ≡ a.status)
        × ((conclude curl S (note_status curl S a)).response ≡ failure_text a)
  conclude-note_status a = ground arith

  Tried-last :
      (n : ℕ) (a b : Attempt curl S)
      → Tried (suc n) a b
      → (z : Attempt curl S) × Tried n a z
        × (succeeded curl S (attempt curl S configure z) ≡ false)
        × (b ≡ note_status curl S (attempt curl S configure z))
  Tried-last zero a b (failed_once m a' b' bad (untried c)) = (a, untried a, bad, refl)
  Tried-last (suc n) a b (failed_once m a' b' bad rest) =
      let (z, tried, fails, same) = Tried-last n _ b rest in
      (z, failed_once n a z bad tried, fails, same)

  Ended-true :
      (n : ℕ) (a : Attempt curl S) (end : Bool × Attempt curl S)
      → Ended n a end
      → end.0 ≡ true
      → (k : ℕ) × (b : Attempt curl S) × (k < n)
        × Tried k a b
        × (succeeded curl S (attempt curl S configure b) ≡ true)
        × (end.1 ≡ attempt curl S configure b)
  Ended-true n a end (succeeds k b below tried good) e = (k, b, below, tried, good, refl)
  Ended-true n a end (gives_up b tried) e = cc

  Ended-false :
      (n : ℕ) (a : Attempt curl S) (end : Bool × Attempt curl S)
      → Ended n a end
      → end.0 ≡ false
      → (b : Attempt curl S) × Tried n a b × (end.1 ≡ conclude curl S b)
  Ended-false n a end (succeeds k b below tried good) e = cc
  Ended-false n a end (gives_up b tried) e = (b, tried, refl)

  module _ (captured : S) (response : Bytes) (n : Network curl) (handle : curl.Handle)
      (opened : n.handle ≡ some handle) where
    abbrev start : Attempt curl S
    start = first curl S handle n.last_http_status captured response

    abbrev call : Performed curl S
    call = perform curl S configure captured response n

    perform-returned :
        call ≡ returned curl S n (perform_loop curl S (suc n.retries) configure start)
    unfolding perform
    perform-returned = ap (λ o. perform_on curl S o configure captured response n) opened

    -- When a request returns true, it was sent `k + 1` times, at most `retries_ + 1` times, all but the
    -- last one failed, and the response and the status are those of the last one, which libcurl counts
    -- as good and whose status is 0 or from 200 to 299.
    pub perform-succeeded :
        call.value ≡ true
        → (k : ℕ) × (b : Attempt curl S) × (k ≤ n.retries)
          × Tried k start b
          × (succeeded curl S (attempt curl S configure b) ≡ true)
          × (call.response ≡ (attempt curl S configure b).response)
          × (call.network.last_http_status ≡ (attempt curl S configure b).status)
    perform-succeeded good =
        let (k, b, below, tried, fine, same) =
          Ended-true _ start _ (perform_loop-Ended (suc n.retries) start)
            (ap (λ p. p.value) (sym perform-returned) ∙ good) in
        (
          k,
          b,
          omega arith,
          tried,
          fine,
          ap (λ p. p.response) perform-returned ∙ ap (λ a. a.response) same,
          ap (λ p. p.network.last_http_status) perform-returned ∙ ap (λ a. a.status) same,
        )

    -- When a request through a handle returns false, it was sent `retries_ + 1` times and failed each
    -- time. The status is that of the last attempt, and so is the response: a text with the status if
    -- libcurl counted the attempt as good, else the part of the body that came, or the text of
    -- libcurl's error if none came.
    pub perform-failed :
        call.value ≡ false
        → (z : Attempt curl S) × Tried n.retries start z
          × (succeeded curl S (attempt curl S configure z) ≡ false)
          × (call.network.last_http_status ≡ (attempt curl S configure z).status)
          × (call.response ≡ failure_text (attempt curl S configure z))
    perform-failed bad =
        let (b, tried, same) =
          Ended-false _ start _ (perform_loop-Ended (suc n.retries) start)
            (ap (λ p. p.value) (sym perform-returned) ∙ bad) in
        let (z, tried', failed, last) = Tried-last n.retries start b tried in
        let (status, said) = conclude-note_status (attempt curl S configure z) in
        (
          z,
          tried',
          failed,
          ap (λ p. p.network.last_http_status) perform-returned
              ∙ ap (λ a. a.status) same
              ∙ ap (λ a. (conclude curl S a).status) last
              ∙ status,
          ap (λ p. p.response) perform-returned
              ∙ ap (λ a. a.response) same
              ∙ ap (λ a. (conclude curl S a).response) last
              ∙ said,
        )
