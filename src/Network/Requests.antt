-- ===== src/Network/Requests.antt =====
-- `perform` of net/network.cpp and the requests that go through it. libcurl is a parameter.
-- `retries_` is below 2 ^ 32 - 1, so that the loop counter does not wrap.
pub mod Attempts
pub mod Release
mod Tests
use clsync.Base.{
  ℕ, zero, suc, ◌+◌, Bool, true, false, ◌&&◌, List, [], ◌∷◌, ◌++◌, Option, some, none, ◌==◌, length,
  not, is_empty, if◌then◌else◌,
}
use clsync.Text.{Bytes, codes}
use clsync.Command.Numbers.Decimal.{decimal}
use clsync.Network.{is_success}

-- The options of the handle that the requests set.
pub record Options : Type 0 where
  pub url : Bytes
  pub user_agent : Bytes
  pub fail_on_error : Bool
  pub no_signal : Bool
  pub timeout_ms : ℕ
  pub connect_timeout_ms : ℕ
  pub post : Bool
  pub custom_request : Option Bytes
  pub post_fields : Option Bytes
  pub post_field_size : Option ℕ
  -- The number of the form.
  pub mime_post : Option ℕ

-- What `curl_easy_perform` and `curl_easy_getinfo` give: the CURLcode, the response code, and the
-- pieces of the body that the write callback got.
pub record Sent (Handle : Type 0) : Type 0 where
  pub handle : Handle
  pub code : ℕ
  pub status : ℕ
  pub pieces : List Bytes

pub record Curl : Type 1 where
  pub Handle : Type 0
  pub send : Handle → Options → Sent Handle
  pub strerror : ℕ → Bytes

-- `none` is the null handle.
pub record Network (curl : Curl) : Type 0 where
  pub handle : Option curl.Handle
  pub timeout_ms : ℕ
  pub retries : ℕ
  pub user_agent : Bytes
  pub last_http_status : ℕ

-- The constructor; the handle is what `curl_easy_init` returns.
abbrev pub new_network : (curl : Curl) → Option curl.Handle → ℕ → ℕ → Bytes → Network curl
new_network curl handle timeout_ms retries user_agent = record {
  handle = handle;
  timeout_ms = timeout_ms;
  retries = retries;
  user_agent = if is_empty user_agent then codes "clsync/1.0" else user_agent;
  last_http_status = 0;
}

-- The destructor, with the handle that it passes to `curl_easy_cleanup`.
unfoldable pub destroy : (curl : Curl) → Network curl → Network curl × Option curl.Handle
destroy curl n = (record n { handle = none }, n.handle)

-- WriteCallback, once for each piece.
abbrev pub write_callback : List Bytes → Bytes → Bytes
write_callback [] response = response
write_callback (piece ∷ pieces) response = write_callback pieces (response ++ piece)

-- What configure_request sets on a handle that is reset; it clears `response` too.
abbrev pub configure_request : (timeout_ms : ℕ) (user_agent url : Bytes) → Options
configure_request timeout_ms user_agent url = record {
  url = url;
  user_agent = user_agent;
  fail_on_error = true;
  no_signal = true;
  timeout_ms = timeout_ms;
  connect_timeout_ms = timeout_ms;
  post = false;
  custom_request = none;
  post_fields = none;
  post_field_size = none;
  mime_post = none;
}

-- CURLE_FAILED_INIT.
abbrev failed_init : ℕ
failed_init = 2

-- `S` is the type of the variables that `configure` captures.
module _ (curl : Curl) (S : Type 0) where
  open curl use {Handle, send, strerror}

  -- One attempt of `perform` and what it leaves: the variables that `configure` captures, the
  -- caller's `response`, `last_http_status_` and `result`.
  pub record Attempt : Type 0 where
    pub handle : Handle
    pub captured : S
    pub response : Bytes
    pub status : ℕ
    pub code : ℕ

  abbrev pub attempt : (S → Options × S) → Attempt → Attempt
  attempt configure a =
      let set = configure a.captured in
      let sent = send a.handle set.0 in
      record {
        handle = sent.handle;
        captured = set.1;
        response = write_callback sent.pieces [];
        status = sent.status;
        code = sent.code;
      }

  abbrev pub succeeded : Attempt → Bool
  succeeded a = a.code == 0 && is_success a.status

  -- The end of a round that does not return.
  abbrev pub note_status : Attempt → Attempt
  note_status a =
      if a.code == 0
      then record a { response = codes "Unexpected HTTP status: " ++ decimal a.status }
      else a

  -- After the loop.
  abbrev pub conclude : Attempt → Attempt
  conclude a = if is_empty a.response then record a { response = strerror a.code } else a

  -- The rounds that are left.
  unfoldable pub perform_loop : ℕ → (S → Options × S) → Attempt → Bool × Attempt
  perform_loop zero configure a = (false, conclude a)
  perform_loop (suc rounds) configure a =
      let tried = attempt configure a in
      let rest = perform_loop rounds configure (note_status tried) in
      if succeeded tried then (true, tried) else rest

  abbrev pub first : Handle → ℕ → S → Bytes → Attempt
  first handle status captured response = record {
    handle = handle;
    captured = captured;
    response = response;
    status = status;
    code = failed_init;
  }

  -- What a call leaves: its value, the object, the captured variables and `response`.
  pub record Performed : Type 0 where
    pub value : Bool
    pub network : Network curl
    pub captured : S
    pub response : Bytes

  abbrev pub returned : Network curl → Bool × Attempt → Performed
  returned n (value, a) = record {
    value = value;
    network = record n { handle = some a.handle; last_http_status = a.status };
    captured = a.captured;
    response = a.response;
  }

  abbrev pub perform_on : Option Handle → (S → Options × S) → S → Bytes → Network curl → Performed
  perform_on none configure captured response n = record {
    value = false;
    network = n;
    captured = captured;
    response = response;
  }
  perform_on (some handle) configure captured response n =
      returned n
        (perform_loop (suc n.retries) configure (first handle n.last_http_status captured response))

  unfoldable pub perform : (S → Options × S) → S → Bytes → Network curl → Performed
  unfolding perform_loop
  perform configure captured response n = perform_on n.handle configure captured response n

-- The forms of http_upload_file: the one that `form` points to, how many there have been, and
-- those that are freed, the last one in front.
pub record Forms : Type 0 where
  pub form : Option ℕ
  pub made : ℕ
  pub freed : List ℕ

abbrev pub no_forms : Forms
no_forms = record { form = none; made = 0; freed = [] }

-- `if (form) curl_mime_free(form)`.
abbrev pub free_form : Forms → Forms
free_form f = record f { freed = elim f.form [ none ↦ f.freed | some form ↦ form ∷ f.freed ] }

-- `if (!curl)` is its negation.
abbrev pub is_open : {curl : Curl} → Network curl → Bool
is_open n = elim n.handle [ none ↦ false | some handle ↦ true ]

abbrev no_variables : (Unit {0} → Options) → Unit {0} → Options × Unit {0}
no_variables f captured = (f captured, captured)

module _ (curl : Curl) where
  -- `[&] { configure_request(url, response); … }`.
  abbrev plain : (Options → Options) → Bytes → Network curl → Unit {0} → Options × Unit {0}
  plain change url n =
      no_variables (λ captured. change (configure_request n.timeout_ms n.user_agent url))

  unfoldable pub http_get : Bytes → Bytes → Network curl → Performed curl (Unit {0})
  unfolding perform
  http_get url response n = perform curl (Unit {0}) (plain (λ o. o) url n) tt response n

  abbrev with_fields : Bytes → Options → Options
  with_fields fields o = record o {
    post_fields = some fields;
    post_field_size = some (length fields);
  }

  unfoldable pub http_post : Bytes → Bytes → Bytes → Network curl → Performed curl (Unit {0})
  unfolding perform
  http_post url fields response n =
      perform curl (Unit {0}) (plain (λ o. with_fields fields (record o { post = true })) url n) tt
        response n

  unfoldable pub http_put : Bytes → Bytes → Bytes → Network curl → Performed curl (Unit {0})
  unfolding perform
  http_put url fields response n =
      perform curl (Unit {0})
        (plain (λ o. with_fields fields (record o { custom_request = some (codes "PUT") })) url n)
        tt response n

  unfoldable pub http_delete : Bytes → Bytes → Network curl → Performed curl (Unit {0})
  unfolding perform
  http_delete url response n =
      perform curl (Unit {0})
        (plain (λ o. record o { custom_request = some (codes "DELETE") }) url n) tt response n

  abbrev pub configure_upload : Bytes → Network curl → Forms → Options × Forms
  configure_upload url n f = (
    record (configure_request n.timeout_ms n.user_agent url) { mime_post = some f.made },
    record (free_form f) { form = some f.made; made = suc f.made },
  )

  abbrev unsent : Bytes → Network curl → Performed curl Forms
  unsent response n = record {
    value = false;
    network = n;
    captured = no_forms;
    response = response;
  }

  -- Whether the file is a regular one is asked of the disk.
  unfoldable pub http_upload_file : Bool → Bytes → Bytes → Network curl → Performed curl Forms
  unfolding perform
  http_upload_file is_regular_file url response n =
      if not (is_open n)
      then unsent response n
      else if not is_regular_file
      then unsent (codes "File does not exist.") n
      else let sent = perform curl Forms (configure_upload url n) no_forms response n in
        record sent { captured = free_form sent.captured }
