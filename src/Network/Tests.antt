-- ===== src/Network/Tests.antt =====
-- Downloads of net/network.cpp on a disk in memory.
use clsync.Base.{◌≡◌, ◌≢◌, refl, sym, ap, ◌∙◌, Bool, true, false, [], some, none}
use clsync.Text.{Bytes, codes, equal, equal_iff, to_lower}
use clsync.Task.{DownloadValidation}
use clsync.Sha256.{compress, sha256_file}
use clsync.Network.{Medium, Progress, check_size, check_sha256, partial_of, http_download_file}
use clsync.Network.Download.Intact.{http_download_file-other, http_download_file-failed}
use clsync.Network.Download.Valid.{IsValid, http_download_file-IsValid}
use clsync.Network.Memory.{in_memory, in_memory_laws, move, move_present, write, size_of}

abbrev net : Medium
net = in_memory (codes "abc")

abbrev before : Progress net
before = record {
  disk = write (λ p. none) (codes "f") (some (codes "old"));
  response = [];
  status = 0;
}

abbrev asked : DownloadValidation
asked = record {
  expected_size = some 3;
  expected_sha256 = codes "BA7816BF8F01CFEA414140DE5DAE2223B00361A396177A9CB410FF61F20015AD";
}

abbrev too_long : DownloadValidation
too_long = record { expected_size = some 4; expected_sha256 = [] }

false-ne-true : false ≢ true
false-ne-true e = cc

differ : (a b : Bytes) → equal a b ≡ false → a ≢ b
differ a b h e = false-ne-true (sym h ∙ (equal_iff a b).1 e)

abbrev finished : Bool × Progress net
finished = http_download_file net true 0 (codes "http://h/f") (codes "f") asked before

downloads : finished.0 ≡ true
unfolding http_download_file check_size check_sha256 size_of equal write move sha256_file compress
    to_lower
downloads = refl

abbrev mismatched : Bool × Progress net
mismatched = http_download_file net true 1 (codes "http://h/f") (codes "f") too_long before

refuses : mismatched.0 ≡ false
unfolding http_download_file check_size check_sha256 size_of equal write
refuses = refl

http_download_file-IsValid_example :
    (bytes : Bytes) × (finished.1.disk (codes "f") ≡ some bytes) × IsValid asked bytes
unfolding in_memory_laws equal
http_download_file-IsValid_example =
    http_download_file-IsValid net (in_memory_laws (codes "abc")) true 0 (codes "http://h/f")
      (codes "f") asked before finished.1 (ap (λ b. (b, finished.1)) downloads)

http_download_file-failed_example : mismatched.1.disk (codes "f") ≡ before.disk (codes "f")
unfolding in_memory_laws equal
http_download_file-failed_example =
    http_download_file-failed net (in_memory_laws (codes "abc")) true 1 (codes "http://h/f")
      (codes "f") too_long before mismatched.1
      (λ d bytes held.
        move_present (net.remove d (codes "f")) (partial_of (codes "f")) (codes "f") bytes _ held)
      (ap (λ b. (b, mismatched.1)) refuses)

http_download_file-other_example : mismatched.1.disk (codes "g") ≡ before.disk (codes "g")
unfolding in_memory_laws equal
http_download_file-other_example =
    http_download_file-other net (in_memory_laws (codes "abc")) true 1 (codes "http://h/f")
      (codes "f") (codes "g") too_long before (differ (codes "g") (codes "f") refl)
      (differ (codes "g") (partial_of (codes "f")) refl)
