-- ===== src/Sha256/Padding.antt =====
-- The padding of class Sha256 (net/sha256.cpp) against the standard's account: the message, then
-- 0x80, zeros and the length in bits, cut into blocks of 64 bytes.
use clsync.Base.{
  ℕ, suc, ◌+◌, ◌-◌, ◌*◌, ◌%◌, ◌^◌, ◌≤◌, ◌<◌, ◌≡◌, refl, ◌∙◌, sym, ap, ap₂, List, [], ◌∷◌, ◌++◌,
  true, false, some, ◌==◌, ltb, replicate, length, length-append, length-replicate, replicate-+,
  arith, append_assoc, Bool-cases, inl, inr, All,
}
use clsync.Text.{Bytes}
use clsync.Sha256.{
  Vars, compress, Sha256, initial_state, new_hash, transform, put, update_byte, update, put_all,
  fill_until, length_bytes, make_room, finish_state, digest, finish, sha256_chunks, sha256_file,
}
use clsync.Sha256.Buffer.{
  Absorbed, absorb, absorb_byte, fresh, Holds, update-Holds, put_all-append, absorb-append,
  put_all-full,
}

-- The padding of a message of `n` bytes.
unfoldable pub padding : ℕ → Bytes
padding n = 0x80 ∷ (replicate ((119 - n % 64) % 64) 0 ++ length_bytes (n * 8 % 2 ^ 64))

-- The compressions of the blocks one after the other.
unfoldable pub compress_all : Vars → List Bytes → Vars
compress_all v [] = v
compress_all v (block ∷ blocks) = compress_all (compress v block) blocks

unfoldable pub flatten : List Bytes → Bytes
flatten [] = []
flatten (xs ∷ xss) = xs ++ flatten xss

-- What `finish` writes in front of the length.
make_room-short :
    (s : Sha256) (byte : ℕ)
    → suc s.block_length ≤ 56
    → make_room (put s byte) ≡ put_all s (byte ∷ replicate (56 - suc s.block_length) 0)
unfolding make_room fill_until put_all
make_room-short s byte short =
    let fits : ltb 56 (suc s.block_length) ≡ false = ground arith in rw fits

make_room-long :
    (s : Sha256) (byte : ℕ)
    → 56 < suc s.block_length
    → make_room (put s byte)
      ≡ put_all
          (record (transform (put_all s (byte ∷ replicate (64 - suc s.block_length) 0))) {
            block_length = 0;
          })
          (replicate 56 0)
unfolding make_room fill_until put_all
make_room-long s byte long =
    let exceeds : ltb 56 (suc s.block_length) ≡ true = ground arith in rw exceeds

module _ (s : Sha256) (w : Absorbed) (n : ℕ) (h : Holds s w n) where
  finish_state-short : suc s.block_length ≤ 56 → finish_state s ≡ (absorb w (padding n)).state
  unfolding finish_state padding
  finish_state-short short =
      let total = (s.bit_length + s.block_length * 8) % 2 ^ 64 in
      let zeros = replicate {A = ℕ} (56 - suc s.block_length) 0 in
      let same_length = h.buffer.same_length in
      let same_count = h.same_count in
      let same_bits = h.same_bits in
      let room = h.room in
      let size = length-append (0x80 ∷ zeros) (length_bytes total) in
      let zeros_size = length-replicate {A = ℕ} (56 - suc s.block_length) 0 in
      ap (λ r. (transform (put_all r (length_bytes total))).state) (make_room-short s 0x80 short)
      ∙ ap (λ r. (transform r).state) (sym (put_all-append s (0x80 ∷ zeros) (length_bytes total)))
      ∙ (put_all-full s w ((0x80 ∷ zeros) ++ length_bytes total) h.buffer room
          (omega arith)).0.same_state
      ∙ ap (λ p. (absorb w p).state)
          (ap₂ (λ k bits. 0x80 ∷ (replicate k 0 ++ length_bytes bits)) (omega arith) (omega arith))

  finish_state-long : 56 < suc s.block_length → finish_state s ≡ (absorb w (padding n)).state
  unfolding finish_state padding
  finish_state-long long =
      let total = (s.bit_length + s.block_length * 8) % 2 ^ 64 in
      let first = 0x80 ∷ replicate {A = ℕ} (64 - suc s.block_length) 0 in
      let zeros = replicate {A = ℕ} 56 0 in
      let same_length = h.buffer.same_length in
      let same_count = h.same_count in
      let same_bits = h.same_bits in
      let room = h.room in
      let first_size = length-replicate {A = ℕ} (64 - suc s.block_length) 0 in
      let next = record (transform (put_all s first)) { block_length = 0 } in
      let full = put_all-full s w first h.buffer room (omega arith) in
      let none_left = ap length full.1 in
      ap (λ r. (transform (put_all r (length_bytes total))).state) (make_room-long s 0x80 long)
      ∙ ap (λ r. (transform r).state) (sym (put_all-append next zeros (length_bytes total)))
      ∙ (put_all-full next (absorb w first) (zeros ++ length_bytes total) full.0 (omega arith)
          (omega arith)).0.same_state
      ∙ ap (λ v. v.state) (sym (absorb-append w first (zeros ++ length_bytes total)))
      ∙ ap (λ p. (absorb w p).state)
          (sym (append_assoc first zeros (length_bytes total))
            ∙ ap (λ z. 0x80 ∷ (z ++ length_bytes total))
                (sym (replicate-+ (64 - suc s.block_length) 56 0))
            ∙ ap₂ (λ k bits. 0x80 ∷ (replicate k 0 ++ length_bytes bits)) (omega arith)
                (omega arith))

  finish_state-Holds : finish_state s ≡ (absorb w (padding n)).state
  finish_state-Holds = elim (Bool-cases (ltb 56 (suc s.block_length))) [
    | inl long ↦ finish_state-long (ground arith)
    | inr short ↦ finish_state-short (ground arith)
  ]

absorb-full :
    (v : Vars) (p xs : Bytes)
    → length p < 64
    → length p + length xs ≡ 64
    → absorb (record { state = v; pending = p }) xs
      ≡ record { state = compress v (p ++ xs); pending = [] }
unfolding absorb absorb_byte
absorb-full v p [] room full = absurd (omega arith)
absorb-full v p (x ∷ []) room full =
    let size = length-append p (x ∷ []) in
    let filled : (length (p ++ x ∷ []) == 64) ≡ true = ground arith in rw filled
absorb-full v p (x ∷ y ∷ xs) room full =
    let size = length-append p (x ∷ []) in
    let more : (length (p ++ x ∷ []) == 64) ≡ false = ground arith in
    rw more (
      absorb-full v (p ++ x ∷ []) (y ∷ xs) (omega arith) (omega arith)
      ∙ ap (λ b. record { state = compress v b; pending = [] }) (append_assoc p (x ∷ []) (y ∷ xs)))

absorb-blocks :
    (v : Vars) (blocks : List Bytes)
    → All (λ block. length block ≡ 64) blocks
    → absorb (record { state = v; pending = [] }) (flatten blocks)
      ≡ record { state = compress_all v blocks; pending = [] }
unfolding flatten compress_all absorb
absorb-blocks v [] h = refl
absorb-blocks v (block ∷ blocks) h =
    absorb-append (record { state = v; pending = [] }) block (flatten blocks)
    ∙ ap (λ w. absorb w (flatten blocks))
        (absorb-full v [] block (omega arith) (omega (arith, h.0)))
    ∙ absorb-blocks (compress v block) blocks h.1

update-append : (s : Sha256) (xs ys : Bytes) → update s (xs ++ ys) ≡ update (update s xs) ys
unfolding update
update-append s [] ys = refl
update-append s (x ∷ xs) ys = update-append (update_byte s x) xs ys

sha256_chunks-flatten :
    (s : Sha256) (chunks : List Bytes) → sha256_chunks s chunks ≡ update s (flatten chunks)
unfolding sha256_chunks flatten update
sha256_chunks-flatten s [] = refl
sha256_chunks-flatten s (chunk ∷ chunks) =
    sha256_chunks-flatten (update s chunk) chunks ∙ sym (update-append s chunk (flatten chunks))

new_hash-Holds : Holds new_hash fresh 0
new_hash-Holds = record {
  buffer = record { same_state = refl; same_length = refl; block_size = refl; same_bytes = refl };
  room = omega arith;
  same_count = refl;
  same_bits = refl;
}

-- Whatever the chunks in which a file is read to its end, sha256_file returns the digest of the
-- standard's blocks: when blocks of 64 bytes make up the bytes of the file and behind them the
-- padding, it is the text of the state after compressing these blocks in order.
pub sha256_file-compress_all :
    (chunks blocks : List Bytes)
    → All (λ block. length block ≡ 64) blocks
    → flatten blocks ≡ flatten chunks ++ padding (length (flatten chunks))
    → sha256_file (some (chunks, false)) ≡ some (digest (compress_all initial_state blocks))
unfolding sha256_file finish
sha256_file-compress_all chunks blocks sizes cut =
    let msg = flatten chunks in
    let held = update-Holds new_hash fresh 0 msg new_hash-Holds in
    ap (λ s. some (digest (finish_state s))) (sha256_chunks-flatten new_hash chunks)
    ∙ ap (λ v. some (digest v))
        (finish_state-Holds (update new_hash msg) (absorb fresh msg) (0 + length msg) held
          ∙ ap (λ k. (absorb (absorb fresh msg) (padding k)).state) (omega arith)
          ∙ ap (λ w. w.state) (sym (absorb-append fresh msg (padding (length msg))))
          ∙ ap (λ bytes. (absorb fresh bytes).state) (sym cut)
          ∙ ap (λ w. w.state) (absorb-blocks initial_state blocks sizes))

-- The digest of a file does not depend on its chunks.
pub sha256_file-flatten :
    (chunks : List Bytes)
    → sha256_file (some (chunks, false)) ≡ sha256_file (some (flatten chunks ∷ [], false))
unfolding sha256_file sha256_chunks
sha256_file-flatten chunks = ap (λ s. some (finish s)) (sha256_chunks-flatten new_hash chunks)
