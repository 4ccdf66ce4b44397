-- ===== src/Sha256.antt =====
-- class Sha256 and sha256_file of net/sha256.cpp. A byte is a number below 2 ^ 8, a word one below
-- 2 ^ 32; sums of words wrap.
pub mod Buffer
pub mod Padding
mod Tests
use Prim.Native.Nat.{bit_and, bit_or, bit_xor}
use clsync.Base.{
  ℕ, zero, suc, ◌+◌, ◌-◌, ◌*◌, ◌/◌, ◌%◌, ◌^◌, List, [], ◌∷◌, ◌++◌, Bool, Option, some, none, ◌==◌,
  ltb, if◌then◌else◌, get_or, set, replicate,
}
use clsync.Text.{Bytes}

k_constants : List ℕ
k_constants =
    0x428a2f98 ∷ 0x71374491 ∷ 0xb5c0fbcf ∷ 0xe9b5dba5 ∷ 0x3956c25b ∷ 0x59f111f1 ∷ 0x923f82a4
    ∷ 0xab1c5ed5 ∷ 0xd807aa98 ∷ 0x12835b01 ∷ 0x243185be ∷ 0x550c7dc3 ∷ 0x72be5d74 ∷ 0x80deb1fe
    ∷ 0x9bdc06a7 ∷ 0xc19bf174 ∷ 0xe49b69c1 ∷ 0xefbe4786 ∷ 0x0fc19dc6 ∷ 0x240ca1cc ∷ 0x2de92c6f
    ∷ 0x4a7484aa ∷ 0x5cb0a9dc ∷ 0x76f988da ∷ 0x983e5152 ∷ 0xa831c66d ∷ 0xb00327c8 ∷ 0xbf597fc7
    ∷ 0xc6e00bf3 ∷ 0xd5a79147 ∷ 0x06ca6351 ∷ 0x14292967 ∷ 0x27b70a85 ∷ 0x2e1b2138 ∷ 0x4d2c6dfc
    ∷ 0x53380d13 ∷ 0x650a7354 ∷ 0x766a0abb ∷ 0x81c2c92e ∷ 0x92722c85 ∷ 0xa2bfe8a1 ∷ 0xa81a664b
    ∷ 0xc24b8b70 ∷ 0xc76c51a3 ∷ 0xd192e819 ∷ 0xd6990624 ∷ 0xf40e3585 ∷ 0x106aa070 ∷ 0x19a4c116
    ∷ 0x1e376c08 ∷ 0x2748774c ∷ 0x34b0bcb5 ∷ 0x391c0cb3 ∷ 0x4ed8aa4a ∷ 0x5b9cca4f ∷ 0x682e6ff3
    ∷ 0x748f82ee ∷ 0x78a5636f ∷ 0x84c87814 ∷ 0x8cc70208 ∷ 0x90befffa ∷ 0xa4506ceb ∷ 0xbef9a3f7
    ∷ 0xc67178f2 ∷ []

-- Sums and shifts of std::uint32_t.
abbrev u32 : ℕ → ℕ
u32 n = n % 2 ^ 32

abbrev invert : ℕ → ℕ
invert w = 2 ^ 32 - 1 - w

rotate_right : ℕ → ℕ → ℕ
rotate_right value shift = bit_or (value / 2 ^ shift) (u32 (value * 2 ^ (32 - shift)))

-- `for (index = first; index < first + count; ++index) s = round(index, s)`.
each_index {ℓ} : {S : Type ℓ} → (ℕ → S → S) → (first count : ℕ) → S → S
each_index round first zero s = s
each_index round first (suc left) s = each_index round (suc first) left (round first s)

-- `words[index]` from four bytes, the first one on top.
load_word : Bytes → ℕ → List ℕ → List ℕ
load_word block index words = set words index (
    bit_or (get_or block (index * 4) 0 * 2 ^ 24) (
      bit_or (get_or block (index * 4 + 1) 0 * 2 ^ 16)
        (bit_or (get_or block (index * 4 + 2) 0 * 2 ^ 8) (get_or block (index * 4 + 3) 0))))

extend_word : ℕ → List ℕ → List ℕ
unfolding rotate_right
extend_word index words =
    let w15 = get_or words (index - 15) 0 in
    let w2 = get_or words (index - 2) 0 in
    let sigma0 = bit_xor (bit_xor (rotate_right w15 7) (rotate_right w15 18)) (w15 / 2 ^ 3) in
    let sigma1 = bit_xor (bit_xor (rotate_right w2 17) (rotate_right w2 19)) (w2 / 2 ^ 10) in
    set words index
      (u32 (get_or words (index - 16) 0 + sigma0 + get_or words (index - 7) 0 + sigma1))

-- The 64 words of a block.
schedule : Bytes → List ℕ
unfolding each_index load_word extend_word
schedule block = each_index extend_word 16 48 (each_index (load_word block) 0 16 (replicate 64 0))

pub record Vars : Type 0 where
  pub a : ℕ
  pub b : ℕ
  pub c : ℕ
  pub d : ℕ
  pub e : ℕ
  pub f : ℕ
  pub g : ℕ
  pub h : ℕ

-- One round of the second loop of `transform`.
mix : List ℕ → ℕ → Vars → Vars
unfolding rotate_right k_constants
mix words index v =
    let sum1 = bit_xor (bit_xor (rotate_right v.e 6) (rotate_right v.e 11)) (rotate_right v.e 25) in
    let choice = bit_xor (bit_and v.e v.f) (bit_and (invert v.e) v.g) in
    let first = u32 (v.h + sum1 + choice + get_or k_constants index 0 + get_or words index 0) in
    let sum0 = bit_xor (bit_xor (rotate_right v.a 2) (rotate_right v.a 13)) (rotate_right v.a 22) in
    let majority = bit_xor (bit_xor (bit_and v.a v.b) (bit_and v.a v.c)) (bit_and v.b v.c) in
    let second = u32 (sum0 + majority) in
    record {
      a = u32 (first + second);
      b = v.a;
      c = v.b;
      d = v.c;
      e = u32 (v.d + first);
      f = v.e;
      g = v.f;
      h = v.g;
    }

-- The new `state_` from the old one and the block.
unfoldable pub compress : Vars → Bytes → Vars
unfolding each_index schedule mix
compress s block =
    let v = each_index (mix (schedule block)) 0 64 s in
    record {
      a = u32 (s.a + v.a);
      b = u32 (s.b + v.b);
      c = u32 (s.c + v.c);
      d = u32 (s.d + v.d);
      e = u32 (s.e + v.e);
      f = u32 (s.f + v.f);
      g = u32 (s.g + v.g);
      h = u32 (s.h + v.h);
    }

pub record Sha256 : Type 0 where
  pub block : Bytes
  pub state : Vars
  pub block_length : ℕ
  pub bit_length : ℕ

abbrev pub initial_state : Vars
initial_state = record {
  a = 0x6a09e667;
  b = 0xbb67ae85;
  c = 0x3c6ef372;
  d = 0xa54ff53a;
  e = 0x510e527f;
  f = 0x9b05688c;
  g = 0x1f83d9ab;
  h = 0x5be0cd19;
}

abbrev pub new_hash : Sha256
new_hash = record {
  block = replicate 64 0;
  state = initial_state;
  block_length = 0;
  bit_length = 0;
}

unfoldable pub transform : Sha256 → Sha256
transform s = record s { state = compress s.state s.block }

-- `block_[block_length_++] = byte`.
abbrev pub put : Sha256 → ℕ → Sha256
put s byte = record s { block = set s.block s.block_length byte; block_length = suc s.block_length }

-- One round of `update`.
unfoldable pub update_byte : Sha256 → ℕ → Sha256
unfolding transform
update_byte s byte =
    let filled = put s byte in
    if filled.block_length == 64
    then record (transform filled) { bit_length = (s.bit_length + 512) % 2 ^ 64; block_length = 0 }
    else filled

unfoldable pub update : Sha256 → Bytes → Sha256
unfolding update_byte
update s [] = s
update s (byte ∷ bytes) = update (update_byte s byte) bytes

unfoldable pub put_all : Sha256 → Bytes → Sha256
put_all s [] = s
put_all s (byte ∷ bytes) = put_all (put s byte) bytes

-- `while (block_length_ < limit) block_[block_length_++] = 0`.
unfoldable pub fill_until : ℕ → Sha256 → Sha256
unfolding put_all
fill_until limit s = put_all s (replicate (limit - s.block_length) 0)

-- What the loop over the shifts writes.
abbrev pub length_bytes : ℕ → Bytes
length_bytes bits =
    (bits / 2 ^ 56 % 256)
    ∷ (bits / 2 ^ 48 % 256)
    ∷ (bits / 2 ^ 40 % 256)
    ∷ (bits / 2 ^ 32 % 256)
    ∷ (bits / 2 ^ 24 % 256)
    ∷ (bits / 2 ^ 16 % 256)
    ∷ (bits / 2 ^ 8 % 256)
    ∷ (bits % 256)
    ∷ []

-- The part of `finish` that makes room for the length.
unfoldable pub make_room : Sha256 → Sha256
unfolding fill_until transform
make_room s =
    if ltb 56 s.block_length
    then fill_until 56 (record (transform (fill_until 64 s)) { block_length = 0 })
    else fill_until 56 s

-- `finish` up to the text of the digest.
unfoldable pub finish_state : Sha256 → Vars
unfolding make_room put_all transform
finish_state s =
    let total_bits = (s.bit_length + s.block_length * 8) % 2 ^ 64 in
    (transform (put_all (make_room (put s 0x80)) (length_bytes total_bits))).state

abbrev hex_digit : ℕ → ℕ
hex_digit n = if ltb n 10 then n + b'0' else n - 10 + b'a'

-- `std::hex << std::setfill('0') << std::setw(8)`.
abbrev hex_word : ℕ → Bytes
hex_word w =
    hex_digit (w / 2 ^ 28 % 16)
    ∷ hex_digit (w / 2 ^ 24 % 16)
    ∷ hex_digit (w / 2 ^ 20 % 16)
    ∷ hex_digit (w / 2 ^ 16 % 16)
    ∷ hex_digit (w / 2 ^ 12 % 16)
    ∷ hex_digit (w / 2 ^ 8 % 16)
    ∷ hex_digit (w / 2 ^ 4 % 16)
    ∷ hex_digit (w % 16)
    ∷ []

unfoldable pub digest : Vars → Bytes
digest v =
    hex_word v.a
    ++ (hex_word v.b
        ++ (hex_word v.c
            ++ (hex_word v.d
                ++ (hex_word v.e ++ (hex_word v.f ++ (hex_word v.g ++ hex_word v.h))))))

unfoldable pub finish : Sha256 → Bytes
unfolding finish_state digest
finish s = digest (finish_state s)

-- What sha256_file reads: the chunks that `read` yields, and whether the stream is then bad.
-- `none` in place of them means that the file does not open.
unfoldable pub sha256_chunks : Sha256 → List Bytes → Sha256
unfolding update
sha256_chunks s [] = s
sha256_chunks s (chunk ∷ chunks) = sha256_chunks (update s chunk) chunks

unfoldable pub sha256_file : Option (List Bytes × Bool) → Option Bytes
unfolding sha256_chunks finish
sha256_file none = none
sha256_file (some (chunks, bad)) =
    if bad then none else some (finish (sha256_chunks new_hash chunks))
