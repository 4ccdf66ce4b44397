-- ===== src/Rfs/Ntfs.antt =====
-- class NtfsFile of include/rfs/ntfs/ntfs.cpp, on POSIX. Its constructor and destructor are those of
-- File.
use clsync.Base.{
  ℕ, ◌≡◌, ◌-◌, ◌^◌, inl, inr, refl, ap, ◌∙◌, Bool, true, false, ◌||◌, List, Option, some, none, [],
  ◌∷◌, ◌++◌, ◌==◌, ltb, length, is_empty, if◌then◌else◌, pos, append_assoc, arith, if_cases,
}
use clsync.Text.{Bytes, codes}
use clsync.Rfs.{Stream, File, is_target_mounted_file, find_last_of, open_path}
use clsync.Rfs.Mounted.{Lacks, IsMountedName, is_target_mounted_file_iff}

pub record FileTime : Type 0 where
  pub low_date_time : ℕ
  pub high_date_time : ℕ

-- WIN32_FIND_DATAW as it stands for systems other than Windows, without __DEBUG__.
pub record FindData : Type 0 where
  pub file_attributes : ℕ
  pub creation_time : FileTime
  pub last_access_time : FileTime
  pub last_write_time : FileTime
  pub file_size_high : ℕ
  pub file_size_low : ℕ
  pub reserved0 : ℕ
  pub reserved1 : ℕ
  pub file_name : List ℕ
  pub alternate_file_name : List ℕ

abbrev pub is_null : Option FindData → Bool
is_null none = true
is_null (some info) = false

module _ (st : Stream) where
  unfoldable pub open_ntfs : Bytes → ℕ → File st → File st × Bool
  unfolding open_path
  open_ntfs path mode f =
      if is_empty path || ltb 32767 (length path)
      then (f, false)
      else if mode == 2 ^ 31 - 1
      then (f, false)
      else open_path st path mode f

  -- A null `info` is none. What it points to is left alone.
  unfoldable pub get_file_info : Option FindData → File st → File st × Bool
  unfolding is_target_mounted_file
  get_file_info info f =
      if is_null info || is_empty f.path
      then (f, false)
      else if is_target_mounted_file f.path
      then (record f { last_error = pos 2 }, false)
      else (record f { last_error = pos 1 }, false)

  unfoldable pub open_stream : Bytes → Bytes → ℕ → File st → File st × Bool
  unfolding open_ntfs
  open_stream path stream_name mode f = open_ntfs (path ++ (b':' ∷ stream_name)) mode f

Lacks-append : (c : ℕ) (s t : Bytes) → Lacks c s → Lacks c t → Lacks c (s ++ t)
unfolding find_last_of
Lacks-append c [] t h k = k
Lacks-append c (x ∷ s) t h k = ground (arith, Lacks-append c s t)

-- A stream of the hidden file is hidden too.
mounted-stream :
    (path stream_name : Bytes)
    → is_target_mounted_file path ≡ true
    → Lacks b'/' stream_name
    → is_target_mounted_file (path ++ (b':' ∷ stream_name)) ≡ true
unfolding find_last_of
mounted-stream path stream_name h plain =
    let (dir, name, same, ends, lacks, mounted) = (is_target_mounted_file_iff path).0 h in
    (is_target_mounted_file_iff (path ++ (b':' ∷ stream_name))).1 (
      dir,
      name ++ (b':' ∷ stream_name),
      ap (λ p. p ++ (b':' ∷ stream_name)) same ∙ append_assoc dir name (b':' ∷ stream_name),
      ends,
      Lacks-append b'/' name (b':' ∷ stream_name) lacks (ground (arith, plain)),
      stream_of mounted,
    )
  where
    stream_of : {name : Bytes} → IsMountedName name → IsMountedName (name ++ (b':' ∷ stream_name))
    stream_of (inl e) = inr (stream_name, ap (λ n. n ++ (b':' ∷ stream_name)) e)
    stream_of (inr (t, e)) = inr (
      t ++ (b':' ∷ stream_name),
      ap (λ n. n ++ (b':' ∷ stream_name)) e
          ∙ append_assoc (codes ".mounted:") t (b':' ∷ stream_name),
    )

abbrev Refuses : (st : Stream) → File st → File st × Bool → Type 0
Refuses st f r = (r.1 ≡ false) × (r.0.stream ≡ f.stream) × (r.0.path ≡ f.path)

open_path-Refuses :
    (st : Stream) (path : Bytes) (mode : ℕ) (f : File st)
    → is_target_mounted_file path ≡ true
    → Refuses st f (open_path st path mode f)
unfolding open_path
open_path-Refuses st path mode f h = rw (open_path, h) (refl, refl, refl)

open_ntfs-Refuses :
    (st : Stream) (path : Bytes) (mode : ℕ) (f : File st)
    → is_target_mounted_file path ≡ true
    → Refuses st f (open_ntfs st path mode f)
unfolding open_ntfs
open_ntfs-Refuses st path mode f h =
    if_cases (Refuses st f) (is_empty path || ltb 32767 (length path)) _ _
      (λ long. (refl, refl, refl))
      (λ short.
        if_cases (Refuses st f) (mode == 2 ^ 31 - 1) _ _ (λ odd. (refl, refl, refl))
          (λ fine. open_path-Refuses st path mode f h))

-- No stream of the hidden file is opened: open_stream returns false and leaves the stream and the path
-- of the object alone, for every name of a stream that has no "/" in it.
pub open_stream-mounted :
    (st : Stream) (path stream_name : Bytes) (mode : ℕ) (f : File st)
    → is_target_mounted_file path ≡ true
    → Lacks b'/' stream_name
    → ((open_stream st path stream_name mode f).1 ≡ false)
      × ((open_stream st path stream_name mode f).0.stream ≡ f.stream)
      × ((open_stream st path stream_name mode f).0.path ≡ f.path)
unfolding open_stream
open_stream-mounted st path stream_name mode f h plain =
    open_ntfs-Refuses st (path ++ (b':' ∷ stream_name)) mode f
      (mounted-stream path stream_name h plain)
