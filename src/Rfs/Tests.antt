-- ===== src/Rfs/Tests.antt =====
-- Files of include/rfs on a stream in memory.
use clsync.Base.{◌≡◌, refl, Bool, true, false, none, some, [], ◌∷◌, ◌++◌, pos}
use clsync.Text.{codes, equal, starts_with}
use clsync.Rfs.{beg, File, new_file, is_target_mounted_file, open_path, read, write, seek}
use clsync.Rfs.Laws.{c_str}
use clsync.Rfs.Memory.{Bytestream, in_memory, in_memory_laws}

abbrev stream : Bool → Bytestream
stream full = record {
  file = none;
  bad = false;
  fail = false;
  content = [];
  position = 0;
  full = full;
}

abbrev blank : File in_memory
blank = new_file in_memory (stream false)

abbrev opened_file : File in_memory
opened_file = (open_path in_memory (codes "d/a") 3 blank).0

abbrev full_file : File in_memory
full_file = (open_path in_memory (codes "d/a") 3 (new_file in_memory (stream true))).0

abbrev filled : File in_memory
filled = (write in_memory (codes "hello") opened_file).0

-- What a file is written, it reads back from its start.
reads_back : (read in_memory 5 (seek in_memory (pos 0) beg filled).0).2 ≡ codes "hello"
unfolding open_path equal starts_with write seek read
reads_back = refl

hides_streams : is_target_mounted_file (codes "/mnt/.mounted:x") ≡ true
unfolding is_target_mounted_file
hides_streams = refl

-- A zero byte hides the rest of a path from the system, not from the test.
opens_hidden :
    let r = open_path in_memory (codes "/mnt/.mounted" ++ 0 ∷ codes "x") 3 blank in
    (r.1 ≡ true)
    × (r.0.stream.file ≡ some (codes "/mnt/.mounted"))
    × (is_target_mounted_file (codes "/mnt/.mounted") ≡ true)
unfolding open_path equal starts_with c_str
opens_hidden = (refl, refl, refl)

-- A stream of another file whose name only ends like the hidden one is let through.
opens_stream : is_target_mounted_file (codes "ordinary.mounted:stream") ≡ false
unfolding is_target_mounted_file
opens_stream = refl

-- Opening an open object reports success, and keeps the old file under the new path.
opened_twice :
    let r = open_path in_memory (codes "b") 3 opened_file in
    (r.1 ≡ true) × (r.0.path ≡ codes "b") × (r.0.stream.file ≡ opened_file.stream.file)
unfolding open_path equal starts_with in_memory_laws
opened_twice = (refl, refl, refl)

-- A write that breaks the stream.
write_full :
    ((write in_memory (codes "hello") full_file).1 ≡ pos 5)
    × ((write in_memory (codes "hello") full_file).0.last_error ≡ pos 2)
unfolding open_path equal starts_with write
write_full = (refl, refl)
