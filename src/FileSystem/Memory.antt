-- ===== src/FileSystem/Memory.antt =====
-- A file system for the tests: every path is its own canonical form, directories can always be
-- created, and each file has the same size.
use clsync.Base.{ℕ, none}
use clsync.FileSystem.{ok, FileSystem}

abbrev pub plain_fs : ℕ → FileSystem
plain_fs size = record {
  Disk = Unit {0};
  weakly_canonical = λ disk p. ok p;
  create_directories = λ disk p. (disk, none);
  file_size = λ disk p. ok size;
}
