-- ===== src/Samples.antt =====
-- Jobs, configurations and stores of the tests.
use periodic.Prelude.{true, none, some, [], ◌∷◌, codes}
use periodic.Config.Model.{
  pos, one, many, RawSchedule, RawJob, RawConfig, minute_aligned, OverlapPolicy, MissedRunPolicy,
  EffectiveJob, EffectiveConfig,
}
use periodic.Validation.Job.{Machine}
use periodic.Store.Model.{Store}

abbrev pub machine : Machine
machine = record {
  exists = λ path. true;
  home = some (codes "/h");
  path_dirs = some (codes "/bin" ∷ []);
  join = λ dir name. name;
}

abbrev pub weekly : RawSchedule
weekly = record {
  every = some (many (codes "monday" ∷ codes "friday" ∷ []));
  at = some (codes "02:30");
  on_day = none;
  last_day = none;
  cron = none;
  timezone = some (codes "UTC");
}

abbrev pub raw_backup : RawJob
raw_backup = record {
  id = some (codes "backup");
  title = none;
  enabled = some true;
  schedule = weekly;
  execution = record { command = some (codes "/bin/b"); args = []; cwd = none };
  timeout = some (codes "10m");
  missed_run_policy = some (codes "skip");
  overlap_policy = some (codes "skip");
  retry = some (record { max_retries = some (pos 1) });
  tags = [];
  metadata = [];
}

abbrev pub raw_poll : RawJob
raw_poll = record raw_backup {
  id = some (codes "poll");
  schedule = record weekly { every = some (one (codes "15m")); at = none };
}

abbrev pub raw_config : RawConfig
raw_config = record { version = 1; defaults = none; jobs = raw_backup ∷ raw_poll ∷ [] }

abbrev pub poll : EffectiveJob
poll = record {
  id = some (codes "poll");
  title = none;
  enabled = true;
  schedule = minute_aligned 15;
  command = codes "/bin/p";
  args = [];
  cwd = none;
  timeout_secs = some 2;
  timezone = some (codes "UTC");
  overlap_policy = OverlapPolicy.skip;
  missed_run_policy = MissedRunPolicy.skip;
  max_retries = 1;
  tags = [];
}

abbrev pub folded_poll : EffectiveJob
folded_poll = record poll { timezone = some (codes "Folded") }

abbrev pub config : EffectiveConfig
config = record { version = 1; jobs = poll ∷ [] }

abbrev pub empty_store : Store
empty_store = record {
  runs = [];
  attempts = [];
  jobs_state = [];
  events = [];
  daemon_state = [];
  event_seq = 0;
}
