-- ===== src/Checks.antt =====
-- The tests on texts in net/sync_manager.cpp: `valid_checksum`, `is_http_url`, `is_retryable`.
pub mod Url
mod Tests
use clsync.Base.{
  ℕ, Bool, false, not, ◌&&◌, ◌||◌, [], ◌∷◌, map, ◌==◌, leb, if◌then◌else◌, is_empty, length, all,
}
use clsync.Text.{Bytes, codes, equal, contains, to_lower, is_xdigit}

unfoldable pub valid_checksum : Bytes → Bool
unfolding is_xdigit
valid_checksum value = is_empty value || (length value == 64 && all is_xdigit value)

-- `value.substr(0, value.find(':'))`: all of the text where it has no colon.
pub before_colon : Bytes → Bytes
before_colon [] = []
before_colon (c ∷ cs) = if c == b':' then [] else c ∷ before_colon cs

unfoldable pub is_http_url : Bytes → Bool
unfolding before_colon equal to_lower
is_http_url value =
    let scheme = map to_lower (before_colon value) in
    equal scheme (codes "http") || equal scheme (codes "https")

pub local_failure : Bytes → Bool
local_failure error_text =
    contains (codes "File does not exist") error_text
    || contains (codes "Failed to open file") error_text
    || contains (codes "Cannot read") error_text
    || contains (codes "Cannot create") error_text

unfoldable pub is_retryable : ℕ → Bytes → Bool
unfolding local_failure
is_retryable http_status error_text =
    if local_failure error_text
    then false
    else http_status == 0
      || http_status == 408
      || http_status == 425
      || http_status == 429
      || leb 500 http_status
      || contains (codes "validation failed") error_text
