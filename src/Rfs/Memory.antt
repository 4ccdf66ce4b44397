-- ===== src/Rfs/Memory.antt =====
-- A stream over bytes in memory, for the tests of include/rfs: a disk that has every file, empty at
-- first, and lets the writes of a broken stream fail.
use clsync.Base.{
  ℕ, ◌+◌, ◌≡◌, inl, refl, Bool, true, false, Option, some, none, [], ◌++◌, length, take, drop, ℤ,
  pos, negsuc, if◌then◌else◌, arith, ap, ◌∙◌,
}
use clsync.Text.{Bytes}
use clsync.Rfs.{Stream, SeekDir, beg, cur, end}
use clsync.Rfs.Laws.{c_str, Laws, Positions}

pub record Bytestream : Type 0 where
  pub file : Option Bytes
  pub bad : Bool
  pub fail : Bool
  pub content : Bytes
  pub position : ℕ
  -- Whether writes break the stream.
  pub full : Bool

abbrev pub is_some : Option Bytes → Bool
is_some none = false
is_some (some p) = true

abbrev pub shift : ℕ → ℤ → ℕ
shift n (pos m) = n + m
shift n (negsuc m) = n

abbrev pub move : Bytestream → ℤ → SeekDir → Bytestream
move s offset beg = record s { position = shift 0 offset }
move s offset cur = record s { position = shift s.position offset }
move s offset end = record s { position = shift (length s.content) offset }

abbrev pub move_to : Bytestream → Option ℕ → Bytestream
move_to s none = record s { fail = true }
move_to s (some n) = record s { position = n }

abbrev pub open_bytes : Bytestream → Bytes → Option Bytes → Bytestream
open_bytes s p none = record s {
  file = some (c_str p);
  content = [];
  position = 0;
  fail = false;
  bad = false;
}
open_bytes s p (some q) = record s { fail = true }

abbrev pub in_memory : Stream
in_memory = record {
  State = Bytestream;
  is_open = λ s. is_some s.file;
  bad = λ s. s.bad;
  fail = λ s. s.fail;
  clear = λ s. record s { bad = false; fail = false };
  open_file = λ s p mode. open_bytes s p s.file;
  close_file = λ s. record s { file = none };
  read = λ s n. (
    record s { position = s.position + length (take n (drop s.position s.content)) },
    take n (drop s.position s.content),
  );
  write = λ s bytes. if s.full then record s { bad = true; fail = true } else record s {
    content = take s.position s.content ++ bytes;
    position = s.position + length bytes;
  };
  tellg = λ s. (s, some s.position);
  tellp = λ s. (s, some s.position);
  seekg = move;
  seekp = move;
  seekg_to = move_to;
  seekp_to = move_to;
}

open_bytes_closed :
    (s : Bytestream) (p : Bytes) (o : Option Bytes)
    → is_some o ≡ false
    → (open_bytes s p o).file ≡ some (c_str p)
open_bytes_closed s p none h = refl
open_bytes_closed s p (some q) h = cc

open_bytes_open :
    (s : Bytestream) (p : Bytes) (o : Option Bytes)
    → is_some o ≡ true
    → ((open_bytes s p o).file ≡ s.file) × ((open_bytes s p o).fail ≡ true)
open_bytes_open s p none h = cc
open_bytes_open s p (some q) h = (refl, refl)

move_file : (s : Bytestream) (n : ℤ) (d : SeekDir) → (move s n d).file ≡ s.file
move_file s n beg = refl
move_file s n cur = refl
move_file s n end = refl

move_to_file : (s : Bytestream) (o : Option ℕ) → (move_to s o).file ≡ s.file
move_to_file s none = refl
move_to_file s (some n) = refl

write_file : (s : Bytestream) (bytes : Bytes) → (in_memory.write s bytes).file ≡ s.file
write_file s bytes = ground arith

unfoldable pub in_memory_laws : Laws in_memory
unfolding open_bytes_closed open_bytes_open move_file move_to_file write_file
in_memory_laws = record {
  file = λ s. s.file;
  open_closed = λ s p mode h. inl (open_bytes_closed s p s.file h);
  open_open = λ s p mode h.
      let (same, failed) = open_bytes_open s p s.file h in (same, ap is_some same ∙ h, failed);
  close_closed = λ s. refl;
  clear_file = λ s. refl;
  read_file = λ s n. refl;
  write_file = write_file;
  tellg_file = λ s. refl;
  tellp_file = λ s. refl;
  seekg_file = move_file;
  seekp_file = move_file;
  seekg_to_file = move_to_file;
  seekp_to_file = move_to_file;
}

end_position : (s : Bytestream) → length s.content + 0 ≡ length s.content
end_position s = omega arith

unfoldable pub in_memory_positions : Positions in_memory
unfolding end_position
in_memory_positions = record {
  length_of = λ s. length s.content;
  position = λ s. s.position;
  clear_good = λ s h. ((h, refl, refl), refl, refl);
  tellg_good = λ s h. refl;
  seekg_end = λ s h. (h, end_position s, refl);
  seekg_back = λ s n h. (h, refl, refl);
  seekp_back = λ s n h. (h, refl, refl);
}
