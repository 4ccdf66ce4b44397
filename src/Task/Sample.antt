-- ===== src/Task/Sample.antt =====
-- A configuration and a task of net/sync_manager.h for the tests.
use clsync.Base.{[], some}
use clsync.Text.{codes}
use clsync.Task.{download, SyncConfig, SyncTask}

abbrev pub settings : SyncConfig
settings = record {
  local_root = codes "/data";
  health_url = codes "http://h";
  user_agent = codes "clsync/1.0";
  large_file_threshold = 100;
  small_file_workers = 1;
  large_file_workers = 1;
  max_retries = 1;
  network_timeout_ms = 30000;
  retry_delay = 500;
  monitor_interval = 1000;
}

abbrev pub fetch : SyncTask
fetch = record {
  id = codes "a";
  direction = download;
  url = codes "http://h/a";
  local_path = codes "a";
  validation = record { expected_size = some 5; expected_sha256 = [] };
}
