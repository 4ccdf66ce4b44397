-- ===== src/Command/Tokens.antt =====
-- `parse_tokens` of net/sync_manager.cpp.
pub mod Quoting
use clsync.Base.{
  ℕ, Bool, true, false, not, ◌&&◌, ◌||◌, List, [], ◌∷◌, ◌++◌, ◌==◌, if◌then◌else◌, is_empty,
}
use clsync.Text.{Bytes, is_space}

-- The variables of the loop.
pub record Scan : Type 0 where
  pub tokens : List Bytes
  pub current : Bytes
  pub in_quotes : Bool
  pub quote_char : ℕ

-- `current += ch`.
abbrev pub push : ℕ → Scan → Scan
push ch s = record s { current = s.current ++ ch ∷ [] }

-- White space outside quotes ends a token, if there is one.
abbrev pub end_token : Scan → Scan
end_token s =
    if not (is_empty s.current)
    then record s { tokens = s.tokens ++ s.current ∷ []; current = [] }
    else s

abbrev pub escapes : Scan → ℕ → Bool
escapes s ch = s.in_quotes && not (ch == s.quote_char) && ch == b'\\'

-- One character that does not make the loop skip to the next.
unfoldable pub take_byte : Scan → ℕ → Scan
unfolding is_space
take_byte s ch =
    if s.in_quotes
    then (if ch == s.quote_char then record s { in_quotes = false } else push ch s)
    else if ch == b'"' || ch == b'\''
    then record s { in_quotes = true; quote_char = ch }
    else if is_space ch
    then end_token s
    else push ch s

abbrev pub finish : Scan → List Bytes
finish s = if not (is_empty s.current) || s.in_quotes then s.tokens ++ s.current ∷ [] else s.tokens

-- The loop. A backslash in quotes takes the next character as it stands, if there is one.
unfoldable pub scan : Scan → Bytes → List Bytes
unfolding take_byte
scan s [] = finish s
scan s (ch ∷ []) = finish (take_byte s ch)
scan s (ch ∷ d ∷ rest) =
    let skips = scan (push d s) rest in
    let goes_on = scan (take_byte s ch) (d ∷ rest) in if escapes s ch then skips else goes_on

abbrev pub initial_scan : Scan
initial_scan = record { tokens = []; current = []; in_quotes = false; quote_char = 0 }

unfoldable pub parse_tokens : Bytes → List Bytes
unfolding scan
parse_tokens = scan initial_scan
