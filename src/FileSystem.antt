-- ===== src/FileSystem.antt =====
-- The operations of std::filesystem through which net/sync_manager.cpp reads and changes the disk.
-- What they answer depends on the disk, so they are parameters of the model.
pub mod Memory
use clsync.Base.{ℕ, Option, ◌≡◌, refl, ◌⊎◌, inl, inr}
use clsync.Text.{Bytes}
use clsync.FilePath.{FilePath}

-- A value, or the message of the error_code.
pub data Answer {ℓ} (A : Type ℓ) : Type ℓ where
  ok : A → Answer A
  fails : Bytes → Answer A

pub Answer-cases {ℓ} :
    {A : Type ℓ} (r : Answer A) → ((a : A) × (r ≡ ok a)) ⊎ ((message : Bytes) × (r ≡ fails message))
Answer-cases (ok a) = inl (a, refl)
Answer-cases (fails message) = inr (message, refl)

pub record FileSystem : Type 1 where
  pub Disk : Type 0
  pub weakly_canonical : Disk → FilePath → Answer FilePath
  -- The disk afterwards, and the message where the call fails.
  pub create_directories : Disk → FilePath → Disk × Option Bytes
  pub file_size : Disk → FilePath → Answer ℕ
