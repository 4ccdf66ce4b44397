-- ===== src/Sha256/Tests.antt =====
-- Digests of net/sha256.cpp.
use clsync.Base.{◌≡◌, refl, List, [], ◌∷◌, ◌++◌, some, false, replicate}
use clsync.Text.{Bytes, codes}
use clsync.Sha256.{compress, initial_state, digest, length_bytes, sha256_file}
use clsync.Sha256.Padding.{compress_all, flatten, padding, sha256_file-compress_all}

sha256-abc :
    sha256_file (some (codes "abc" ∷ [], false))
    ≡ some (codes "ba7816bf8f01cfea414140de5dae2223b00361a396177a9cb410ff61f20015ad")
unfolding sha256_file compress
sha256-abc = refl

-- 62 bytes read in two chunks leave no room for the length in their block.
abbrev two_chunks : List Bytes
two_chunks = codes "ab" ∷ replicate 60 0x61 ∷ []

abbrev two_blocks : List Bytes
two_blocks =
    (codes "ab" ++ replicate 60 0x61 ++ 0x80 ∷ 0 ∷ []) ∷ (replicate 56 0 ++ length_bytes 496) ∷ []

sha256_file-compress_all_example :
    sha256_file (some (two_chunks, false)) ≡ some (digest (compress_all initial_state two_blocks))
unfolding flatten padding
sha256_file-compress_all_example =
    sha256_file-compress_all two_chunks two_blocks (refl, (refl, tt)) refl
