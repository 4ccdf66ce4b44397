-- ===== src/Checks/Tests.antt =====
-- The tests on texts of net/sync_manager.cpp, at some texts.
use clsync.Base.{◌≡◌, refl, ◌↔◌, true, false}
use clsync.Text.{codes, contains}
use clsync.Checks.{is_http_url, is_retryable}
use clsync.Checks.Url.{IsHttpText, is_http_url_iff}

urls :
    (is_http_url (codes "HTTPS://h/a") ≡ true)
    × (is_http_url (codes "ftp://h") ≡ false)
    × (is_http_url (codes "http") ≡ true)
unfolding is_http_url
urls = (refl, refl, refl)

retries :
    (is_retryable 404 (codes "File validation failed: SHA-256 mismatch.") ≡ true)
    × (is_retryable 404 (codes "not found") ≡ false)
    × (is_retryable 503 (codes "Failed to open file for writing.") ≡ false)
unfolding is_retryable contains
retries = (refl, refl, refl)

is_http_url_iff_example : (is_http_url (codes "http:") ≡ true) ↔ IsHttpText (codes "http:")
is_http_url_iff_example = is_http_url_iff (codes "http:")
