-- ===== src/Network/Memory.antt =====
-- A disk in memory and a server that always sends the same bytes, for the tests.
use clsync.Base.{
  ℕ, ◌≡◌, ◌≢◌, refl, sym, ap, ◌∙◌, Bool, false, List, [], ◌∷◌, Option, some, none, length,
  if◌then◌else◌, append-nil, Bool-cases, inl, inr,
}
use clsync.Text.{Bytes, codes, equal, equal_iff, equal_refl}
use clsync.FileSystem.{Answer, ok, fails}
use clsync.Sha256.Padding.{flatten}
use clsync.Network.{Medium}
use clsync.Network.Download.{Laws}

abbrev Files : Type 0
Files = Bytes → Option Bytes

unfoldable pub write : Files → Bytes → Option Bytes → Files
write d p bytes q = if equal q p then bytes else d q

unfoldable pub size_of : Option Bytes → Answer ℕ
size_of none = fails (codes "No such file or directory")
size_of (some bytes) = ok (length bytes)

abbrev pub chunks_of : Option Bytes → Option (List Bytes × Bool)
chunks_of none = none
chunks_of (some bytes) = some (bytes ∷ [], false)

-- A file that is not there cannot be renamed.
unfoldable pub move : Files → Bytes → Bytes → Option Bytes → Files × Option Bytes
move d p q none = (d, some (codes "No such file or directory"))
move d p q (some bytes) = (write (write d p none) q (some bytes), none)

abbrev pub in_memory : (body : Bytes) → Medium
in_memory body = record {
  Disk = Files;
  remove = λ d p. write d p none;
  open_truncated = λ d p. some (write d p (some []));
  perform = λ d url p. record { disk = write d p (some body); failure = none; status = 200 };
  file_size = λ d p. size_of (d p);
  read = λ d p. chunks_of (d p);
  rename = λ d p q. move d p q (d p);
}

pub write_other : (d : Files) (p q : Bytes) (bytes : Option Bytes) → q ≢ p → write d p bytes q ≡ d q
unfolding write
write_other d p q bytes h = elim (Bool-cases (equal q p)) [
  | inl same ↦ absurd (h ((equal_iff q p).0 same))
  | inr other ↦ rw (write, other)
]

pub write_same : (d : Files) (p : Bytes) (bytes : Option Bytes) → write d p bytes p ≡ bytes
unfolding write
write_same d p bytes = rw (write, equal_refl p)

pub size_of_ok :
    (o : Option Bytes) (n : ℕ)
    → size_of o ≡ ok n
    → (bytes : Bytes) × (o ≡ some bytes) × (length bytes ≡ n)
unfolding size_of
size_of_ok none n h = cc
size_of_ok (some bytes) n h = (bytes, refl, cc)

pub chunks_of_all :
    (o : Option Bytes) (bytes : Bytes) (chunks : List Bytes)
    → o ≡ some bytes
    → chunks_of o ≡ some (chunks, false)
    → flatten chunks ≡ bytes
unfolding flatten
chunks_of_all none bytes chunks e h = cc
chunks_of_all (some held) bytes chunks e h =
    ap (λ o. elim o [ none ↦ [] | some found ↦ flatten found.0 ]) (sym h)
    ∙ append-nil held
    ∙ ap (λ o. elim o [ none ↦ [] | some found ↦ found ]) e

pub move_moves :
    (d : Files) (p q : Bytes) (o : Option Bytes)
    → d p ≡ o
    → (move d p q o).1 ≡ none
    → (move d p q o).0 q ≡ d p
unfolding move
move_moves d p q none e h = cc
move_moves d p q (some bytes) e h = write_same (write d p none) q (some bytes) ∙ sym e

pub move_other :
    (d : Files) (p q r : Bytes) (o : Option Bytes) → r ≢ p → r ≢ q → (move d p q o).0 r ≡ d r
unfolding move
move_other d p q r none h k = refl
move_other d p q r (some bytes) h k =
    write_other (write d p none) q r (some bytes) k ∙ write_other d p r none h

pub move_present :
    (d : Files) (p q bytes : Bytes) (o : Option Bytes) → o ≡ some bytes → (move d p q o).1 ≡ none
unfolding move
move_present d p q bytes none e = cc
move_present d p q bytes (some held) e = refl

unfoldable pub in_memory_laws : (body : Bytes) → Laws (in_memory body)
in_memory_laws body = record {
  content = λ d p. d p;
  remove_other = λ d p q h. write_other d p q none h;
  open_other = λ d opened p q e h.
      ap (λ o. elim o [ none ↦ none | some found ↦ found q ]) (sym e)
      ∙ write_other d p q (some []) h;
  perform_other = λ d url p q h. write_other d p q (some body) h;
  file_size_ok = λ d p n h. size_of_ok (d p) n h;
  read_all = λ d p bytes chunks e h. chunks_of_all (d p) bytes chunks e h;
  rename_moves = λ d p q h. move_moves d p q (d p) refl h;
  rename_other = λ d p q r h k. move_other d p q r (d p) h k;
}
