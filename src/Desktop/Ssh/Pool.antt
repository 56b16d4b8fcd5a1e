-- ===== src/Desktop/Ssh/Pool.antt =====
-- The channel slots of one SSH connection: `_acquireChannel`, `_releaseChannel` and
-- `_drainQueueWithError` of src/main/ssh/ssh-manager.ts. A job stands for the function that a caller
-- passes, and `running` for the functions that have not ended.
use monitc.Prelude.{ℕ, ◌+◌, ◌-◌, List, [], ◌∷◌, ◌++◌, if◌then◌else◌, ltb, ◌==◌, any}

-- `MAX_CHANNELS`.
abbrev pub max_channels : ℕ
max_channels = 6

pub record Channels : Type 0 where
  pub active_channels : ℕ
  pub channel_queue : List ℕ
  pub running : List ℕ
  -- The jobs that were run, and those whose callers were told the outcome; newest first.
  pub started : List ℕ
  pub settled : List ℕ

abbrev pub no_channels : Channels
no_channels = record {
  active_channels = 0;
  channel_queue = [];
  running = [];
  started = [];
  settled = [];
}

-- The closure `execute` of a job, up to the call of its function.
unfoldable pub execute : ℕ → Channels → Channels
execute job c = record c {
  active_channels = c.active_channels + 1;
  running = job ∷ c.running;
  started = job ∷ c.started;
}

unfoldable pub acquire_channel : ℕ → Channels → Channels
unfolding execute
acquire_channel job c =
    if ltb c.active_channels max_channels
    then execute job c
    else record c { channel_queue = c.channel_queue ++ job ∷ [] }

abbrev pub shift : List ℕ → Channels → Channels
shift [] c = c
shift (job ∷ rest) c = execute job (record c { channel_queue = rest })

unfoldable pub release_channel : Channels → Channels
unfolding execute
release_channel c = shift c.channel_queue c

abbrev pub erase_job : ℕ → List ℕ → List ℕ
erase_job job [] = []
erase_job job (j ∷ js) = let rest = erase_job job js in if j == job then js else j ∷ rest

-- A job's function ends, well or not: its caller learns it, and `finally` releases the slot.
unfoldable pub finish : ℕ → Channels → Channels
unfolding release_channel
finish job c = release_channel (record c {
  settled = job ∷ c.settled;
  running = erase_job job c.running;
  active_channels = c.active_channels - 1;
})

-- The queue is emptied; no callback of its slots is called.
unfoldable pub drain_queue_with_error : Channels → Channels
drain_queue_with_error c = record c { channel_queue = [] }

pub data Event : Type 0 where
  acquire : ℕ → Event
  ends : ℕ → Event
  drain : Event

-- Only a running function can end.
unfoldable pub step : Event → Channels → Channels
unfolding acquire_channel finish drain_queue_with_error
step (acquire job) c = acquire_channel job c
step (ends job) c = if any (λ j. j == job) c.running then finish job c else c
step drain c = drain_queue_with_error c

unfoldable pub run : List Event → Channels → Channels
run [] c = c
run (e ∷ es) c = run es (step e c)
