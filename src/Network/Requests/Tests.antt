-- ===== src/Network/Requests/Tests.antt =====
-- Requests of net/network.cpp to a server that fails once.
use clsync.Base.{ℕ, suc, ◌≡◌, ◌≤◌, refl, true, false, [], ◌∷◌, some, if◌then◌else◌, ◌==◌}
use clsync.Text.{codes}
use clsync.Network.Requests.{
  Options, Curl, Network, new_network, configure_request, Attempt, attempt, succeeded, first,
  perform, Performed, http_get, http_upload_file,
}
use clsync.Network.Requests.Attempts.{Tried, failure_text, perform-succeeded, perform-failed}
use clsync.Network.Requests.Release.{below, http_upload_file-freed}

-- The handle counts the requests; the first one gets 503.
abbrev flaky : Curl
flaky = record {
  Handle = ℕ;
  send = λ h o. record {
    handle = suc h;
    code = if h == 0 then 22 else 0;
    status = if h == 0 then 503 else 200;
    pieces = codes "he" ∷ codes "llo" ∷ [];
  };
  strerror = λ code. codes "HTTP response code said error";
}

abbrev patient : Network flaky
patient = new_network flaky (some 0) 1000 1 (codes "")

abbrev hasty : Network flaky
hasty = new_network flaky (some 0) 1000 0 (codes "")

gets : (http_get flaky (codes "http://h") [] patient).response ≡ codes "hello"
unfolding http_get
gets = refl

uploads : (http_upload_file flaky true (codes "http://h") [] patient).captured.freed ≡ 1 ∷ 0 ∷ []
unfolding http_upload_file
uploads = refl

abbrev request : Unit {0} → Options × Unit {0}
request captured = (configure_request 1000 (codes "clsync/1.0") (codes "http://h"), captured)

abbrev got : Network flaky → Performed flaky (Unit {0})
got n = perform flaky (Unit {0}) request tt [] n

abbrev begun : Attempt flaky (Unit {0})
begun = first flaky (Unit {0}) 0 0 tt []

perform-succeeded_example :
    (k : ℕ) × (b : Attempt flaky (Unit {0})) × (k ≤ 1)
    × Tried flaky (Unit {0}) request k begun b
    × (succeeded flaky (Unit {0}) (attempt flaky (Unit {0}) request b) ≡ true)
    × ((got patient).response ≡ (attempt flaky (Unit {0}) request b).response)
    × ((got patient).network.last_http_status ≡ (attempt flaky (Unit {0}) request b).status)
unfolding perform
perform-succeeded_example = perform-succeeded flaky (Unit {0}) request tt [] patient 0 refl refl

perform-failed_example :
    (z : Attempt flaky (Unit {0})) × Tried flaky (Unit {0}) request 0 begun z
    × (succeeded flaky (Unit {0}) (attempt flaky (Unit {0}) request z) ≡ false)
    × ((got hasty).network.last_http_status ≡ (attempt flaky (Unit {0}) request z).status)
    × ((got hasty).response
        ≡ failure_text flaky (Unit {0}) request (attempt flaky (Unit {0}) request z))
unfolding perform
perform-failed_example = perform-failed flaky (Unit {0}) request tt [] hasty 0 refl refl

-- The part of the body that came stands in the place of the error.
keeps_part : (got hasty).response ≡ codes "hello"
unfolding perform
keeps_part = refl

http_upload_file-freed_example :
    let f = (http_upload_file flaky true (codes "http://h") [] patient).captured in
    (f.freed ≡ below f.made) × (f.made ≤ 2)
http_upload_file-freed_example = http_upload_file-freed flaky true (codes "http://h") [] patient
