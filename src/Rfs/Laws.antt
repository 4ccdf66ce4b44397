-- ===== src/Rfs/Laws.antt =====
-- What the classes of include/rfs rely on in std::fstream.
use clsync.Base.{ℕ, ◌≡◌, ◌⊎◌, [], ◌∷◌, ◌==◌, if◌then◌else◌, true, false, Option, some, none, ℤ, pos}
use clsync.Text.{Bytes}
use clsync.Rfs.{Stream, SeekDir, end}

-- What the system sees of a string: `c_str()`, up to the first zero byte.
unfoldable pub c_str : Bytes → Bytes
c_str [] = []
c_str (c ∷ cs) = if c == 0 then [] else c ∷ c_str cs

-- What std::fstream says of the file that it is associated with.
pub record Laws (st : Stream) : Type 0 where
  -- The name that the file was opened by.
  pub file : st.State → Option Bytes
  pub open_closed :
      (s : st.State) (p : Bytes) (mode : ℕ)
      → st.is_open s ≡ false
      → (file (st.open_file s p mode) ≡ some (c_str p)) ⊎ (file (st.open_file s p mode) ≡ none)
  -- A stream that is open fails to open and stays as it is.
  pub open_open :
      (s : st.State) (p : Bytes) (mode : ℕ)
      → st.is_open s ≡ true
      → (file (st.open_file s p mode) ≡ file s)
        × (st.is_open (st.open_file s p mode) ≡ true)
        × (st.fail (st.open_file s p mode) ≡ true)
  pub close_closed : (s : st.State) → file (st.close_file s) ≡ none
  pub clear_file : (s : st.State) → file (st.clear s) ≡ file s
  pub read_file : (s : st.State) (n : ℕ) → file (st.read s n).0 ≡ file s
  pub write_file : (s : st.State) (bytes : Bytes) → file (st.write s bytes) ≡ file s
  pub tellg_file : (s : st.State) → file (st.tellg s).0 ≡ file s
  pub tellp_file : (s : st.State) → file (st.tellp s).0 ≡ file s
  pub seekg_file : (s : st.State) (n : ℤ) (d : SeekDir) → file (st.seekg s n d) ≡ file s
  pub seekp_file : (s : st.State) (n : ℤ) (d : SeekDir) → file (st.seekp s n d) ≡ file s
  pub seekg_to_file : (s : st.State) (n : Option ℕ) → file (st.seekg_to s n) ≡ file s
  pub seekp_to_file : (s : st.State) (n : Option ℕ) → file (st.seekp_to s n) ≡ file s

abbrev pub IsGood : (st : Stream) → st.State → Type 0
IsGood st s = (st.is_open s ≡ true) × (st.bad s ≡ false) × (st.fail s ≡ false)

-- The one position that reads and writes of a file share, where seeking works.
pub record Positions (st : Stream) : Type 0 where
  pub length_of : st.State → ℕ
  pub position : st.State → ℕ
  pub clear_good :
      (s : st.State)
      → st.is_open s ≡ true
      → IsGood st (st.clear s)
        × (position (st.clear s) ≡ position s)
        × (length_of (st.clear s) ≡ length_of s)
  pub tellg_good : (s : st.State) → IsGood st s → st.tellg s ≡ (s, some (position s))
  pub seekg_end :
      (s : st.State)
      → IsGood st s
      → IsGood st (st.seekg s (pos 0) end)
        × (position (st.seekg s (pos 0) end) ≡ length_of s)
        × (length_of (st.seekg s (pos 0) end) ≡ length_of s)
  pub seekg_back :
      (s : st.State) (n : ℕ)
      → IsGood st s
      → IsGood st (st.seekg_to s (some n))
        × (position (st.seekg_to s (some n)) ≡ n)
        × (length_of (st.seekg_to s (some n)) ≡ length_of s)
  pub seekp_back :
      (s : st.State) (n : ℕ)
      → IsGood st s
      → IsGood st (st.seekp_to s (some n))
        × (position (st.seekp_to s (some n)) ≡ n)
        × (length_of (st.seekp_to s (some n)) ≡ length_of s)
