-- ===== src/Rfs/Used.antt =====
-- The objects of class File and NtfsFile (include/rfs) after any calls.
use clsync.Base.{ℕ, ◌≡◌, ◌≢◌, ◌⊎◌, false, some, none, Option, ℤ}
use clsync.Text.{Bytes}
use clsync.Rfs.{
  Stream, SeekDir, File, new_file, is_target_mounted_file, open_path, close, read, write, seek,
  size,
}
use clsync.Rfs.Laws.{c_str, Laws}
use clsync.Rfs.Ntfs.{FindData, open_ntfs, get_file_info, open_stream}

module _ (st : Stream) (laws : Laws st) where
  open laws use {
    file, open_closed, open_open, close_closed, clear_file, read_file, write_file, tellg_file,
    tellp_file, seekg_file, seekp_file, seekg_to_file, seekp_to_file,
  }

  -- The objects that the constructor makes and the members change.
  pub data Used : File st → Type 0 where
    created : (s : st.State) → file s ≡ none → Used (new_file st s)
    opened : (p : Bytes) (mode : ℕ) (f : File st) → Used f → Used (open_path st p mode f).0
    opened_ntfs : (p : Bytes) (mode : ℕ) (f : File st) → Used f → Used (open_ntfs st p mode f).0
    opened_stream :
        (p name : Bytes) (mode : ℕ) (f : File st) → Used f → Used (open_stream st p name mode f).0
    asked : (info : Option FindData) (f : File st) → Used f → Used (get_file_info st info f).0
    closed : (f : File st) → Used f → Used (close st f)
    read_from : (n : ℕ) (f : File st) → Used f → Used (read st n f).0
    written : (bytes : Bytes) (f : File st) → Used f → Used (write st bytes f).0
    sought : (n : ℤ) (d : SeekDir) (f : File st) → Used f → Used (seek st n d f).0
    measured : (f : File st) → Used f → Used (size st f).0

  -- Either the name does not belong to the hidden file, or it is what the system saw of a longer
  -- string, with a zero byte, which does not.
  abbrev pub IsSeen : Bytes → Type 0
  IsSeen q =
      (is_target_mounted_file q ≡ false)
      ⊎ ((p : Bytes) × (q ≡ c_str p) × (c_str p ≢ p) × (is_target_mounted_file p ≡ false))

  -- The name that the stream is open on and the path of the object.
  pub record IsUnmounted (f : File st) : Type 0 where
    pub on_file : (q : Bytes) → file f.stream ≡ some q → IsSeen q
    pub on_path : is_target_mounted_file f.path ≡ false
