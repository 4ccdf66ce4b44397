-- ===== src/Network/Writing.antt =====
-- FileWriteCallback of net/network.cpp, and what curl_easy_perform makes of its answers. The
-- std::ofstream is a parameter.
use clsync.Base.{
  ℕ, ◌≡◌, sym, ap, ◌∙◌, Bool, true, List, [], ◌∷◌, ◌++◌, Option, some, none, length, if◌then◌else◌,
  arith, append_assoc, append-nil, Bool-cases, inl, inr,
}
use clsync.Text.{Bytes}

pub record OutFile : Type 1 where
  pub State : Type 0
  pub write : State → Bytes → State
  pub good : State → Bool
  -- What the file holds.
  pub content : State → Bytes

-- A write that leaves the stream good has written every byte, and a write of nothing writes nothing.
abbrev pub IsWriting : OutFile → Type 0
IsWriting out =
    ((s : out.State) (bytes : Bytes)
      → out.good (out.write s bytes) ≡ true
      → out.content (out.write s bytes) ≡ out.content s ++ bytes)
    × ((s : out.State) → out.content (out.write s []) ≡ out.content s)

module _ (out : OutFile) where
  open out use {State, write, good, content}

  -- `size` is 1 in every call of libcurl, and `bytes` are the `size * nmemb` bytes at `ptr`.
  unfoldable pub file_write_callback : Bytes → Option State → Option State × ℕ
  file_write_callback bytes none = (none, 0)
  file_write_callback bytes (some stream) =
      let written = write stream bytes in (some written, if good written then length bytes else 0)

  -- Calls of it for one piece after the other, each answered with the size of the piece: any other
  -- answer makes libcurl give up with an error.
  pub data Accepts : List Bytes → State → State → Type 0 where
    finished : {s : State} → Accepts [] s s
    accepts :
        {s t u : State} (piece : Bytes) {pieces : List Bytes}
        → file_write_callback piece (some s) ≡ (some t, length piece)
        → Accepts pieces t u
        → Accepts (piece ∷ pieces) s u

  abbrev pub joined : List Bytes → Bytes
  joined [] = []
  joined (piece ∷ pieces) = piece ++ joined pieces

  written_piece :
      (s t : State) (piece : Bytes)
      → IsWriting out
      → file_write_callback piece (some s) ≡ (some t, length piece)
      → content t ≡ content s ++ piece
  unfolding file_write_callback
  written_piece s t [] laws e =
      let left : write s [] ≡ t = cc in
      ap content (sym left) ∙ (laws.1 s ∙ sym (append-nil (content s)))
  written_piece s t (b ∷ bytes) laws e =
      let left : write s (b ∷ bytes) ≡ t = cc in
      ap content (sym left)
      ∙ laws.0 s (b ∷ bytes) (elim (Bool-cases (good (write s (b ∷ bytes)))) [
        | inl well ↦ well
        | inr broken ↦ ground (arith, e)
      ])

  -- A body whose pieces are all accepted stands in the file, whole and in order.
  Accepts-content :
      {pieces : List Bytes} {s t : State}
      → IsWriting out
      → Accepts pieces s t
      → content t ≡ content s ++ joined pieces
  Accepts-content {s = s} laws finished = sym (append-nil (content s))
  Accepts-content {s = s} laws (accepts {t = t} piece {pieces} e rest) =
      Accepts-content laws rest
      ∙ (ap (λ l. l ++ joined pieces) (written_piece s t piece laws e)
          ∙ append_assoc (content s) piece (joined pieces))
