-- ===== src/Rfs.antt =====
-- The files of include/rfs, on POSIX: is_target_mounted_file and class File of fs_file.cpp. The
-- std::fstream is a parameter: a state, which holds what it sees of the disk too, and the members that
-- the class calls. Sizes of reads and writes are natural numbers.
pub mod Mounted
pub mod Windows
pub mod Ntfs
pub mod Laws
pub mod Used
pub mod Reports
pub mod Memory
mod Tests
use clsync.Base.{
  ℕ, suc, Bool, false, not, ◌&&◌, ◌||◌, [], ◌∷◌, Option, some, none, ◌==◌, length, drop,
  if◌then◌else◌, ℤ, pos, negsuc,
}
use clsync.Text.{Bytes, codes, equal, starts_with}

-- `find_last_of` for one character.
unfoldable pub find_last_of : ℕ → Bytes → Option ℕ
find_last_of c [] = none
find_last_of c (d ∷ ds) = elim (find_last_of c ds) [
  | some at ↦ some (suc at)
  | none ↦ if d == c then some 0 else none
]

unfoldable pub file_name : Bytes → Bytes
unfolding find_last_of
file_name path = elim (find_last_of b'/' path) [ none ↦ path | some sep ↦ drop (suc sep) path ]

unfoldable pub is_target_mounted_file : Bytes → Bool
unfolding file_name equal starts_with
is_target_mounted_file path =
    equal (file_name path) (codes ".mounted") || starts_with (codes ".mounted:") (file_name path)

pub data SeekDir : Type 0 where
  beg cur end : SeekDir

pub record Stream : Type 1 where
  pub State : Type 0
  pub is_open : State → Bool
  pub bad : State → Bool
  pub fail : State → Bool
  pub clear : State → State
  pub open_file : State → Bytes → ℕ → State
  pub close_file : State → State
  -- What was extracted; its length is `gcount()`.
  pub read : State → ℕ → State × Bytes
  pub write : State → Bytes → State
  -- The position; none for -1.
  pub tellg : State → State × Option ℕ
  pub tellp : State → State × Option ℕ
  pub seekg : State → ℤ → SeekDir → State
  pub seekp : State → ℤ → SeekDir → State
  pub seekg_to : State → Option ℕ → State
  pub seekp_to : State → Option ℕ → State

-- `streamsize` and `streampos` as integers.
abbrev pub offset_of : Option ℕ → ℤ
offset_of none = negsuc 0
offset_of (some n) = pos n

module _ (st : Stream) where
  -- The private fields.
  pub record File : Type 0 where
    pub stream : st.State
    pub path : Bytes
    pub last_error : ℤ

  -- The constructor; the stream is the one that no file is open on.
  abbrev pub new_file : st.State → File
  new_file closed = record { stream = closed; path = []; last_error = pos 0 }

  abbrev pub error_of : st.State → ℤ
  error_of s = if st.bad s then pos 2 else if st.fail s then pos 1 else pos 0

  abbrev pub update_error_state : File → File
  update_error_state f = record f { last_error = error_of f.stream }

  -- `last_error_ = -1`, where no file is open.
  abbrev unopened : File → File
  unopened f = record f { last_error = negsuc 0 }

  unfoldable pub is_open : File → Bool
  is_open f = st.is_open f.stream

  unfoldable pub get_last_error : File → ℤ
  get_last_error f = f.last_error

  unfoldable pub get_path : File → Bytes
  get_path f = f.path

  unfoldable pub open_path : Bytes → ℕ → File → File × Bool
  unfolding is_target_mounted_file
  open_path path mode f =
      if is_target_mounted_file path
      then (record f { last_error = pos 5 }, false)
      else (let opened =
            update_error_state
              (record f { stream = st.open_file f.stream path mode; path = path }) in
          (opened, st.is_open opened.stream))

  unfoldable pub close : File → File
  close f =
      if st.is_open f.stream
      then update_error_state (record f { stream = st.close_file f.stream })
      else f

  -- The destructor.
  unfoldable pub destroy : File → File
  unfolding close
  destroy f = if st.is_open f.stream then close f else f

  -- With what the buffer holds afterwards.
  unfoldable pub read : ℕ → File → File × ℤ × Bytes
  read size f =
      if not (st.is_open f.stream)
      then (unopened f, negsuc 0, [])
      else (let got = st.read f.stream size in
          (update_error_state (record f { stream = got.0 }), pos (length got.1), got.1))

  unfoldable pub write : Bytes → File → File × ℤ
  write bytes f =
      if not (st.is_open f.stream)
      then (unopened f, negsuc 0)
      else (let told = st.tellp (st.clear f.stream) in
          let written = update_error_state (record f { stream = st.write told.0 bytes }) in
          (
            written,
            if st.fail written.stream && not (st.bad written.stream)
                then negsuc 0
                else pos (length bytes),
          ))

  unfoldable pub seek : ℤ → SeekDir → File → File × Bool
  seek offset dir f =
      if not (st.is_open f.stream)
      then (unopened f, false)
      else (let moved = st.seekp (st.seekg (st.clear f.stream) offset dir) offset dir in
          let sought = update_error_state (record f { stream = moved }) in
          (sought, not (st.fail sought.stream)))

  -- The position to come back to.
  abbrev pub current_pos : st.State → st.State × Option ℕ
  current_pos s =
      let told = st.tellg s in elim told.1 [ some at ↦ (told.0, some at) | none ↦ st.tellp told.0 ]

  unfoldable pub size : File → File × ℤ
  size f =
      if not (st.is_open f.stream)
      then (unopened f, negsuc 0)
      else (let now = current_pos (st.clear f.stream) in
          let measured = st.tellg (st.seekg now.0 (pos 0) end) in
          let back = st.seekp_to (st.seekg_to measured.0 now.1) now.1 in
          (update_error_state (record f { stream = back }), offset_of measured.1))
