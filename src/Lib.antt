-- ===== src/Lib.antt =====
-- Verification of clsync, a file synchronizer that moves files between a local directory and an
-- HTTP service.
--
-- The program is net/sync.cpp, which reads its settings, starts a SyncManager
-- (net/sync_manager.cpp), hands it the IPC commands of net/SYNC_PROTOCOL.md and waits until the
-- work is over. The manager checks each task and its path, puts it in the queue for small or large
-- files, and moves it through Pending, InProgress, Retry, Completed, Failed and Cancelled by worker
-- threads and a thread that watches the service.
--
-- Parts and files:
--   Task        the enums and structs of net/sync_manager.h and net/network.h
--   Results     `results_`, the map from ids to results; Order is about its order
--   Text        std::string as a list of bytes, with the <cctype> functions of the "C" locale
--   FilePath    std::filesystem::path on POSIX; Normal is about lexically_normal
--   FileSystem  the operations on the disk, as an interface; Memory is an instance for the tests
--   Resolve     is_descendant_of and resolve_local_path; Confined is about what they accept,
--               and Windows is the branch of path_part_equal for that system
--   Checks      valid_checksum, is_http_url, is_retryable
--   Command     parse_tokens (Tokens), stoull (Numbers) and enqueue_ipc_command
--   Manager     SyncManager: its state, Service (set_service_state, monitor_loop), Take (take_task),
--               Finish (complete_task, requeue_task), Work (process_task), Lifecycle (start, stop,
--               enqueue)
--   Sha256      class Sha256 and sha256_file of net/sha256.cpp; Buffer and Padding are about update and
--               finish
--   Reborn      the request buffer and the descriptors of Socket<Request> (include/reborn)
--   Settings    load_configuration of net/sync.cpp; Accepted and Decimal are about what it accepts
--   Network     http_download_file of net/network.cpp; Download and its children are about what it
--               leaves on the disk, and Memory is an instance for the tests. Requests has perform and
--               the requests that go through it; Attempts and Release are about them. Writing has
--               FileWriteCallback
--   Rfs         is_target_mounted_file and class File of include/rfs, and class NtfsFile (Ntfs), with
--               their branches for Windows (Windows); Mounted, Used and Reports are about them, Laws
--               says what they rely on in std::fstream, and Memory is an instance for the tests
--   Program     main of net/sync.cpp: startup, up to its loop, and Run, from there to the exit code as
--               steps beside those of the threads; Start, Kept, Flags, Reached, ExitCode and
--               Deadlock are about them
--   Shutdown    the last block of main in net/sync.cpp and the result callback, as steps of threads
--   Concurrent  the threads as interleavings of critical sections: Invariant, Idle, Stop, and
--               Sequential, which shows that the members are sequences of the steps; Lifecycle is what
--               a caller sees of one task; Crew has the worker threads one by one, and Progress says
--               how they get on; Tally counts the attempts of a run; Order lets `results_` change
--               its order at any time; Wake has the condition variables, with Kept, Sleeping and
--               Heard about who sleeps and who is woken; Crew.Through has runs of the worker threads that
--               take certain steps only
--
-- A member of SyncManager is a function on the record of its fields. What it does under one hold of
-- `mutex_` is one function; a step of Concurrent is one such section of one thread, and any thread
-- may go next. A call that may throw returns an Option. A wait on a condition variable ends a pass
-- of its loop, and the next pass sees any later state; monitor_loop and take_task take the list of
-- what their rounds see, so they need no fuel. Time is an argument. The order of an association
-- list stands for the unspecified order of an unordered_map, and Concurrent.Order says what becomes of
-- the model when that order changes. A notification changes no state but in Concurrent.Wake, where a
-- thread sleeps until one reaches it. The loop of processRequests takes fuel,
-- and Reborn.Processing gives the rounds that are enough; those of http_download_file and perform
-- take the number of their rounds, retries_ + 1, which stands for the loop of the source while
-- retries_ is not UINT_MAX; SyncManager passes 0. A path given to std::fstream is seen up to its first
-- zero byte.
--
-- Parameters: the file system (FileSystem), the transfers of class Network (Manager.Work), what
-- http_download_file uses of libcurl and the disk (Network, with its laws in Network.Download), what
-- the other requests use of libcurl (Network.Requests.Curl), std::fstream (Rfs.Stream), std::ofstream
-- (Network.Writing), towlower and the Windows API (the Windows modules), the chunks
-- of a file that sha256_file reads, std::getenv and the descriptor that ::socket returns.
--
-- Not modelled: the Windows branches of include/reborn; log output; include/kuse, which no build uses
-- and which does not compile; the test driver. That `start` is called while a `stop` of another thread joins
-- the workers is left out of Crew: net/sync.cpp calls both from one thread.
mod Base
pub mod Text
pub mod Task
pub mod Results
pub mod FilePath
pub mod FileSystem
pub mod Resolve
pub mod Checks
pub mod Manager
pub mod Concurrent
pub mod Command
pub mod Sha256
pub mod Reborn
pub mod Settings
pub mod Network
pub mod Shutdown
pub mod Rfs
pub mod Program
