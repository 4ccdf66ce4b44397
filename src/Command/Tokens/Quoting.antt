-- ===== src/Command/Tokens/Quoting.antt =====
-- How parse_tokens of net/sync_manager.cpp reads a command back.
use clsync.Base.{
  ℕ, ◌≡◌, refl, ◌∙◌, ap, true, false, ◌||◌, List, [], ◌∷◌, ◌++◌, ◌==◌, arith, if◌then◌else◌,
  is_empty, append-nil, append_assoc, Bool-cases, inl, inr,
}
use clsync.Text.{Bytes}
use clsync.Command.Tokens.{Scan, push, escapes, take_byte, finish, scan, initial_scan, parse_tokens}

-- A token in double quotes, with a backslash before each double quote and backslash.
unfoldable pub escape : Bytes → Bytes
escape [] = []
escape (c ∷ cs) =
    let rest = escape cs in if c == b'"' || c == b'\\' then b'\\' ∷ c ∷ rest else c ∷ rest

scan-cons :
    (s : Scan) (ch : ℕ) (rest : Bytes)
    → escapes s ch ≡ false
    → scan s (ch ∷ rest) ≡ scan (take_byte s ch) rest
unfolding scan
scan-cons s ch [] h = refl
scan-cons s ch (d ∷ rest) h = rw h

scan_escaped :
    (s : Scan) (ch d : ℕ) (rest : Bytes)
    → escapes s ch ≡ true
    → scan s (ch ∷ d ∷ rest) ≡ scan (push d s) rest
unfolding scan
scan_escaped s ch d rest h = rw h

-- Inside and behind a token in double quotes.
abbrev inside : List Bytes → Bytes → Scan
inside ts cur = record { tokens = ts; current = cur; in_quotes = true; quote_char = b'"' }

abbrev behind : List Bytes → Bytes → Scan
behind ts cur = record { tokens = ts; current = cur; in_quotes = false; quote_char = b'"' }

take_byte-inside :
    (ts : List Bytes) (cur : Bytes) (c : ℕ)
    → (c == b'"') ≡ false
    → take_byte (inside ts cur) c ≡ inside ts (cur ++ c ∷ [])
unfolding take_byte
take_byte-inside ts cur c h = rw h

-- In double quotes the escaped text is read back, up to the closing quote.
scan-escape :
    (ts : List Bytes) (cur t rest : Bytes)
    → scan (inside ts cur) (escape t ++ (b'"' ∷ rest)) ≡ scan (behind ts (cur ++ t)) rest
unfolding escape
scan-escape ts cur [] rest = rw append-nil (scan-cons (inside ts cur) b'"' rest refl ∙ closes)
  where
    closes : scan (take_byte (inside ts cur) b'"') rest ≡ scan (behind ts cur) rest
    closes = unfold take_byte in refl
scan-escape ts cur (c ∷ cs) rest = elim (Bool-cases (c == b'"' || c == b'\\')) [
  | inl special ↦ rw special (
      scan_escaped (inside ts cur) b'\\' c (escape cs ++ (b'"' ∷ rest)) refl
      ∙ (scan-escape ts (cur ++ c ∷ []) cs rest ∙ regroup))
  | inr plain ↦ rw plain (
      scan-cons (inside ts cur) c (escape cs ++ (b'"' ∷ rest)) (ground arith)
      ∙ (ap (λ s. scan s (escape cs ++ (b'"' ∷ rest))) (take_byte-inside ts cur c (ground arith))
          ∙ (scan-escape ts (cur ++ c ∷ []) cs rest ∙ regroup)))
]
  where
    regroup : scan (behind ts ((cur ++ c ∷ []) ++ cs)) rest ≡ scan (behind ts (cur ++ c ∷ cs)) rest
    regroup = rw append_assoc

-- The same loop variables with more tokens in front.
abbrev prefixed : List Bytes → Scan → Scan
prefixed ts s = record s { tokens = ts ++ s.tokens }

take_byte-prefixed :
    (ts : List Bytes) (s : Scan) (ch : ℕ)
    → take_byte (prefixed ts s) ch ≡ prefixed ts (take_byte s ch)
unfolding take_byte
take_byte-prefixed ts s ch = ground (arith, append_assoc ts s.tokens (s.current ∷ []))

finish-prefixed : (ts : List Bytes) (s : Scan) → finish (prefixed ts s) ≡ ts ++ finish s
finish-prefixed ts s = ground (arith, append_assoc ts s.tokens (s.current ∷ []))

-- Tokens that are complete do not change what comes after.
scan-prefixed :
    (ts : List Bytes) (s : Scan) (xs : Bytes) → scan (prefixed ts s) xs ≡ ts ++ scan s xs
unfolding scan
scan-prefixed ts s [] = finish-prefixed ts s
scan-prefixed ts s (ch ∷ []) = rw take_byte-prefixed (finish-prefixed ts (take_byte s ch))
scan-prefixed ts s (ch ∷ d ∷ rest) = ground (
  arith,
  take_byte-prefixed ts s ch,
  scan-prefixed ts (push d s) rest,
  scan-prefixed ts (take_byte s ch) (d ∷ rest),
)

-- Outside quotes.
abbrev outside : Bytes → ℕ → Scan
outside cur q = record { tokens = []; current = cur; in_quotes = false; quote_char = q }

-- Outside quotes the last quotation mark does not matter.
scan-quote_char :
    (ts : List Bytes) (cur : Bytes) (p q : ℕ) (xs : Bytes)
    → scan (record { tokens = ts; current = cur; in_quotes = false; quote_char = p }) xs
      ≡ scan (record { tokens = ts; current = cur; in_quotes = false; quote_char = q }) xs
unfolding scan take_byte
scan-quote_char ts cur p q [] = refl
scan-quote_char ts cur p q (ch ∷ []) = ground arith
scan-quote_char ts cur p q (ch ∷ d ∷ rest) = ground (
  arith,
  scan-quote_char (ts ++ cur ∷ []) [] p q (d ∷ rest),
  scan-quote_char ts cur p q (d ∷ rest),
  scan-quote_char ts (cur ++ ch ∷ []) p q (d ∷ rest),
)

-- A token in double quotes.
abbrev pub quote : Bytes → Bytes
quote t = b'"' ∷ (escape t ++ b'"' ∷ [])

-- The quoted tokens with a space between any two.
unfoldable pub join_tokens : List Bytes → Bytes
unfolding escape
join_tokens [] = []
join_tokens (t ∷ []) = quote t
join_tokens (t ∷ u ∷ ts) = b'"' ∷ (escape t ++ (b'"' ∷ b' ' ∷ join_tokens (u ∷ ts)))

abbrev pub without_empty : List Bytes → List Bytes
without_empty [] = []
without_empty (t ∷ ts) = if is_empty t then without_empty ts else t ∷ without_empty ts

parse-quote :
    (t rest : Bytes) → parse_tokens (b'"' ∷ (escape t ++ (b'"' ∷ rest))) ≡ scan (behind [] t) rest
unfolding parse_tokens
parse-quote t rest =
    scan-cons initial_scan b'"' (escape t ++ (b'"' ∷ rest)) refl
    ∙ (opens ∙ scan-escape [] [] t rest)
  where
    opens :
        scan (take_byte initial_scan b'"') (escape t ++ (b'"' ∷ rest))
        ≡ scan (inside [] []) (escape t ++ (b'"' ∷ rest))
    opens = unfold take_byte in refl

scan-space :
    (t rest : Bytes)
    → scan (behind [] t) (b' ' ∷ rest)
      ≡ (if is_empty t then parse_tokens rest else t ∷ parse_tokens rest)
unfolding parse_tokens take_byte
scan-space [] rest = scan-cons (behind [] []) b' ' rest refl ∙ scan-quote_char [] [] b'"' 0 rest
scan-space (c ∷ cs) rest =
    scan-cons (behind [] (c ∷ cs)) b' ' rest refl
    ∙ (scan-quote_char ((c ∷ cs) ∷ []) [] b'"' 0 rest
        ∙ scan-prefixed ((c ∷ cs) ∷ []) initial_scan rest)

-- parse_tokens reads quoted tokens back, whatever bytes they hold, but for the empty ones, which
-- it drops.
pub parse_tokens-join_tokens : (ts : List Bytes) → parse_tokens (join_tokens ts) ≡ without_empty ts
unfolding join_tokens
parse_tokens-join_tokens [] = unfold parse_tokens scan in refl
parse_tokens-join_tokens (t ∷ []) = parse-quote t [] ∙ (unfold scan in ground arith)
parse_tokens-join_tokens (t ∷ u ∷ ts) = ground (
  arith,
  parse-quote t (b' ' ∷ join_tokens (u ∷ ts)),
  scan-space t (join_tokens (u ∷ ts)),
  parse_tokens-join_tokens (u ∷ ts),
)
