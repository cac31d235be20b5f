-- ===== src/Usage/Throughput.antt =====
-- `ThroughputTracker`: the rate of the last sample of each kind. Time is in whole seconds.
use rita.Common.{ℕ, ◌-◌, ◌/◌, ◌<◌, ◌≡◌, refl, Option, none, some, arith, ltb, if◌then◌else◌}
use rita.Usage.{UsageType, client, relay, exit, UpdateUsage, add_u64}

pub record ThroughputData : Type 0 where
  pub last_sample_time : Option ℕ
  pub duration_of_this_sample : ℕ
  pub bytes_used : ℕ

pub record ThroughputTracker : Type 0 where
  pub client_data : ThroughputData
  pub relay_data : ThroughputData
  pub exit_data : ThroughputData

unfoldable pub data_of : UsageType → ThroughputTracker → ThroughputData
data_of client t = t.client_data
data_of relay t = t.relay_data
data_of exit t = t.exit_data

abbrev sample_duration : ℕ → Option ℕ → ℕ → ℕ
sample_duration now none duration = duration
sample_duration now (some last) duration = if ltb last now then now - last else duration

-- For clients all traffic counts, for the others only what goes up.
abbrev pub sample_bytes : UsageType → UpdateUsage → ℕ
sample_bytes client msg = add_u64 msg.up msg.down
sample_bytes relay msg = msg.up
sample_bytes exit msg = msg.up

unfoldable pub sample : ℕ → UpdateUsage → ThroughputData → ThroughputData
sample now msg d = record {
  last_sample_time = some now;
  duration_of_this_sample = sample_duration now d.last_sample_time d.duration_of_this_sample;
  bytes_used = sample_bytes msg.kind msg;
}

unfoldable pub process_throughput_update : ℕ → UpdateUsage → ThroughputTracker → ThroughputTracker
unfolding sample
process_throughput_update now msg t = elim msg.kind [
  | client ↦ record t { client_data = sample now msg t.client_data }
  | relay ↦ record t { relay_data = sample now msg t.relay_data }
  | exit ↦ record t { exit_data = sample now msg t.exit_data }
]

abbrev throughput_of : ThroughputData → Option ℕ → Option ℕ
throughput_of d none = none
throughput_of d (some last) =
    if ltb 0 d.duration_of_this_sample
    then some (d.bytes_used / d.duration_of_this_sample)
    else none

unfoldable pub get_current_throughput : UsageType → ThroughputTracker → Option ℕ
unfolding data_of
get_current_throughput kind t = throughput_of (data_of kind t) (data_of kind t).last_sample_time

data_of-process :
    (now : ℕ) (msg : UpdateUsage) (kind : UsageType) (t : ThroughputTracker)
    → msg.kind ≡ kind
    → data_of kind (process_throughput_update now msg t) ≡ sample now msg (data_of kind t)
unfolding data_of process_throughput_update
data_of-process now msg client t h = ground arith
data_of-process now msg relay t h = ground arith
data_of-process now msg exit t h = ground arith

-- After two samples of one kind at different times, in their order, the throughput of that kind is
-- what the second brought over the seconds between them, rounded down, whatever came before.
pub throughput_of_two :
    (first second : ℕ) (a b : UpdateUsage) (t : ThroughputTracker)
    → a.kind ≡ b.kind
    → first < second
    → get_current_throughput b.kind
        (process_throughput_update second b (process_throughput_update first a t))
      ≡ some (sample_bytes b.kind b / (second - first))
unfolding get_current_throughput sample
throughput_of_two first second a b t same later =
    rw
      (
        data_of-process second b b.kind (process_throughput_update first a t) refl,
        data_of-process first a b.kind t same,
      )
      (ground arith)
