-- ===== src/Rfs/Reports.antt =====
-- What the members of File in include/rfs/fs_file.cpp report.
use clsync.Base.{ℕ, ◌≡◌, ◌≢◌, refl, ap, ◌∙◌, true, false, some, none, length, pos, arith}
use clsync.Text.{Bytes}
use clsync.Rfs.{
  Stream, end, error_of, File, current_pos, is_target_mounted_file, open_path, write, size,
}
use clsync.Rfs.Laws.{Laws, IsGood, Positions}

module _ (st : Stream) where
  error_of-fail : (s : st.State) → st.fail s ≡ true → error_of st s ≢ pos 0
  error_of-fail s h e = ground arith

  error_of-IsGood : (s : st.State) → IsGood st s → error_of st s ≡ pos 0
  error_of-IsGood s h = ground arith

  -- On an object that is open on a file, open of any other path but the hidden one returns true and
  -- takes the path over, and the stream stays on the file that it was open on; only the error tells.
  pub open_path-open :
      (laws : Laws st) (p : Bytes) (mode : ℕ) (f : File st)
      → st.is_open f.stream ≡ true
      → is_target_mounted_file p ≡ false
      → let r = open_path st p mode f in
        (r.1 ≡ true)
        × (r.0.path ≡ p)
        × (laws.file r.0.stream ≡ laws.file f.stream)
        × (r.0.last_error ≢ pos 0)
  unfolding open_path
  open_path-open laws p mode f opened plain =
      let (same, still, failed) = laws.open_open f.stream p mode opened in
      rw (open_path, plain) (still, refl, same, error_of-fail _ failed)

  -- A write that leaves the stream bad reports the whole length, as one that succeeds does.
  pub write-bad :
      (bytes : Bytes) (f : File st)
      → st.is_open f.stream ≡ true
      → st.bad (write st bytes f).0.stream ≡ true
      → ((write st bytes f).1 ≡ pos (length bytes)) × ((write st bytes f).0.last_error ≡ pos 2)
  unfolding write
  write-bad bytes f opened broken =
      let bad = rw (write, opened) at broken in
      rw (write, opened) (rw bad (ground (arith, bad), refl))

  current_pos-IsGood :
      (at : Positions st) (s : st.State)
      → IsGood st s
      → current_pos st s ≡ (s, some (at.position s))
  current_pos-IsGood at s good =
      ap (λ told. elim told.1 [ some n ↦ (told.0, some n) | none ↦ st.tellp told.0 ])
        (at.tellg_good s good)

  -- On an open object whose file can be positioned, size returns the length of the file, leaves the
  -- position and the length alone and reports no error.
  size-Positions :
      (at : Positions st) (f : File st)
      → st.is_open f.stream ≡ true
      → let r = size st f in
        (r.1 ≡ pos (at.length_of f.stream))
        × (at.position r.0.stream ≡ at.position f.stream)
        × (at.length_of r.0.stream ≡ at.length_of f.stream)
        × (r.0.last_error ≡ pos 0)
  unfolding size
  size-Positions at f opened =
      let cleared = st.clear f.stream in
      let (good, here, long) = at.clear_good f.stream opened in
      let now = current_pos-IsGood at cleared good in
      let last = st.seekg cleared (pos 0) end in
      let (good_end, at_end, long_end) = at.seekg_end cleared good in
      let (good_g, at_g, long_g) = at.seekg_back last (at.position cleared) good_end in
      let (good_p, at_p, long_p) = at.seekp_back _ (at.position cleared) good_g in
      rw (size, opened, now, at.tellg_good last good_end)
        (
          ap pos (at_end ∙ long),
          at_p ∙ here,
          long_p ∙ long_g ∙ long_end ∙ long,
          error_of-IsGood _ good_p,
        )
