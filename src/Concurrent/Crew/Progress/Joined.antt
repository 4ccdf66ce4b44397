-- ===== src/Concurrent/Crew/Progress/Joined.antt =====
-- That the joins in `stop` of net/sync_manager.cpp can return.
use clsync.Concurrent.Crew.{Crew}
use clsync.Concurrent.Crew.Through.{Through}
