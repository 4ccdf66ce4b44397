-- ===== src/Sha256/Buffer.antt =====
-- The buffer of class Sha256 (net/sha256.cpp) as bytes are written behind those it holds.
use clsync.Base.{
  ℕ, suc, ◌+◌, ◌*◌, ◌%◌, ◌^◌, ◌<◌, ◌≡◌, refl, ◌∙◌, sym, ap, ap₂, subst, [], ◌∷◌, ◌++◌, true, false,
  ◌==◌, if◌then◌else◌, take, length, length-append, length-set, take-set, take_all, set, arith,
  Bool-cases, inl, inr,
}
use clsync.Text.{Bytes}
use clsync.Sha256.{
  Vars, compress, Sha256, initial_state, transform, put, update_byte, update, put_all,
}

-- The state reached by all full blocks so far, and the bytes behind them.
pub record Absorbed : Type 0 where
  pub state : Vars
  pub pending : Bytes

-- One more byte; the 64th one completes a block.
unfoldable pub absorb_byte : Absorbed → ℕ → Absorbed
absorb_byte w byte =
    let longer = w.pending ++ byte ∷ [] in
    if length longer == 64
    then record { state = compress w.state longer; pending = [] }
    else record { state = w.state; pending = longer }

unfoldable pub absorb : Absorbed → Bytes → Absorbed
unfolding absorb_byte
absorb w [] = w
absorb w (byte ∷ bytes) = absorb (absorb_byte w byte) bytes

abbrev pub fresh : Absorbed
fresh = record { state = initial_state; pending = [] }

-- The buffer holds the pending bytes.
pub record Buffers (s : Sha256) (w : Absorbed) : Type 0 where
  pub same_state : s.state ≡ w.state
  pub same_length : s.block_length ≡ length w.pending
  pub block_size : length s.block ≡ 64
  pub same_bytes : take s.block_length s.block ≡ w.pending

-- It does, for a message of `n` bytes.
pub record Holds (s : Sha256) (w : Absorbed) (n : ℕ) : Type 0 where
  pub buffer : Buffers s w
  pub room : length w.pending < 64
  pub same_count : n % 64 ≡ length w.pending
  pub same_bits : (s.bit_length + 8 * length w.pending) % 2 ^ 64 ≡ n * 8 % 2 ^ 64

module _ (s : Sha256) (w : Absorbed) (byte : ℕ) (h : Buffers s w) where
  put_bytes :
      length w.pending < 64
      → take (suc s.block_length) (set s.block s.block_length byte) ≡ w.pending ++ byte ∷ []
  put_bytes room =
      take-set s.block s.block_length byte (omega (arith, h.same_length, h.block_size))
      ∙ ap (λ q. q ++ byte ∷ []) h.same_bytes

  absorb_byte-room :
      suc (length w.pending) < 64
      → absorb_byte w byte ≡ record { state = w.state; pending = w.pending ++ byte ∷ [] }
  unfolding absorb_byte
  absorb_byte-room room =
      let size = length-append w.pending (byte ∷ []) in
      let more : (length (w.pending ++ byte ∷ []) == 64) ≡ false = ground arith in rw more

  absorb_byte-full :
      suc (length w.pending) ≡ 64
      → absorb_byte w byte
        ≡ record { state = compress w.state (w.pending ++ byte ∷ []); pending = [] }
  unfolding absorb_byte
  absorb_byte-full full =
      let size = length-append w.pending (byte ∷ []) in
      let filled : (length (w.pending ++ byte ∷ []) == 64) ≡ true = ground arith in rw filled

  put-Buffers : suc (length w.pending) < 64 → Buffers (put s byte) (absorb_byte w byte)
  put-Buffers room =
      let same_length = h.same_length in
      let size = length-append w.pending (byte ∷ []) in
      rw (absorb_byte-room room) (record {
        same_state = h.same_state;
        same_length = omega arith;
        block_size = length-set s.block s.block_length byte ∙ h.block_size;
        same_bytes = put_bytes (omega arith);
      })

  put-full :
      suc (length w.pending) ≡ 64
      → Buffers (record (transform (put s byte)) { block_length = 0 }) (absorb_byte w byte)
  unfolding transform
  put-full full =
      let same_length = h.same_length in
      let size = length-set s.block s.block_length byte ∙ h.block_size in
      rw (absorb_byte-full full) (record {
        same_state =
            ap₂ compress h.same_state
              (sym (take_all _ (suc s.block_length) (omega arith)) ∙ put_bytes (omega arith));
        same_length = refl;
        block_size = size;
        same_bytes = refl;
      })

update_byte-Holds :
    (s : Sha256) (w : Absorbed) (n byte : ℕ)
    → Holds s w n
    → Holds (update_byte s byte) (absorb_byte w byte) (suc n)
unfolding update_byte
update_byte-Holds s w n byte h =
    let room = h.room in
    let same_length = h.buffer.same_length in
    let same_bits = h.same_bits in
    let same_count = h.same_count in
    let size = length-append w.pending (byte ∷ []) in
    elim (Bool-cases (suc s.block_length == 64)) [
      | inl full ↦
          (let filled : suc (length w.pending) ≡ 64 = ground arith in
            let b = put-full s w byte h.buffer filled in
            let none_left = absorb_byte-full s w byte h.buffer filled in
            rw full (record {
              buffer = record {
                same_state = b.same_state;
                same_length = b.same_length;
                block_size = b.block_size;
                same_bytes = b.same_bytes;
              };
              room = rw none_left (omega arith);
              same_count = rw none_left (omega arith);
              same_bits = rw none_left (omega arith);
            }))
      | inr more ↦
          (let unfilled : suc (length w.pending) < 64 = ground arith in
            let one_more = absorb_byte-room s w byte h.buffer unfilled in
            rw more (record {
              buffer = put-Buffers s w byte h.buffer unfilled;
              room = rw one_more (omega arith);
              same_count = rw one_more (omega arith);
              same_bits = rw one_more (omega arith);
            }))
    ]

pub update-Holds :
    (s : Sha256) (w : Absorbed) (n : ℕ) (msg : Bytes)
    → Holds s w n
    → Holds (update s msg) (absorb w msg) (n + length msg)
unfolding update absorb
update-Holds s w n [] h = subst (Holds s w) (omega arith) h
update-Holds s w n (byte ∷ msg) h =
    subst (Holds (update (update_byte s byte) msg) (absorb (absorb_byte w byte) msg)) (omega arith)
      (update-Holds (update_byte s byte) (absorb_byte w byte) (suc n) msg
        (update_byte-Holds s w n byte h))

pub put_all-append : (s : Sha256) (xs ys : Bytes) → put_all s (xs ++ ys) ≡ put_all (put_all s xs) ys
unfolding put_all
put_all-append s [] ys = refl
put_all-append s (x ∷ xs) ys = put_all-append (put s x) xs ys

pub absorb-append : (w : Absorbed) (xs ys : Bytes) → absorb w (xs ++ ys) ≡ absorb (absorb w xs) ys
unfolding absorb
absorb-append w [] ys = refl
absorb-append w (x ∷ xs) ys = absorb-append (absorb_byte w x) xs ys

pub put_all-Buffers :
    (s : Sha256) (w : Absorbed) (xs : Bytes)
    → Buffers s w
    → length w.pending + length xs < 64
    → Buffers (put_all s xs) (absorb w xs)
      × (length (absorb w xs).pending ≡ length w.pending + length xs)
unfolding put_all absorb
put_all-Buffers s w [] h room = (h, omega arith)
put_all-Buffers s w (x ∷ xs) h room =
    let unfilled : suc (length w.pending) < 64 = omega arith in
    let one_more = ap (λ v. length v.pending) (absorb_byte-room s w x h unfilled) in
    let size = length-append w.pending (x ∷ []) in
    let rest =
      put_all-Buffers (put s x) (absorb_byte w x) xs (put-Buffers s w x h unfilled) (omega arith) in
    (rest.0, omega (arith, rest.1))

-- Bytes that fill the block up to its end complete it.
pub put_all-full :
    (s : Sha256) (w : Absorbed) (xs : Bytes)
    → Buffers s w
    → length w.pending < 64
    → length w.pending + length xs ≡ 64
    → Buffers (record (transform (put_all s xs)) { block_length = 0 }) (absorb w xs)
      × ((absorb w xs).pending ≡ [])
unfolding put_all absorb
put_all-full s w [] h room full = absurd (omega arith)
put_all-full s w (x ∷ []) h room full =
    (put-full s w x h (omega arith), ap (λ v. v.pending) (absorb_byte-full s w x h (omega arith)))
put_all-full s w (x ∷ y ∷ xs) h room full =
    let unfilled : suc (length w.pending) < 64 = omega arith in
    let one_more = ap (λ v. length v.pending) (absorb_byte-room s w x h unfilled) in
    let size = length-append w.pending (x ∷ []) in
    put_all-full (put s x) (absorb_byte w x) (y ∷ xs) (put-Buffers s w x h unfilled) (omega arith)
      (omega arith)
