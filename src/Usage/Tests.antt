-- ===== src/Usage/Tests.antt =====
-- The usage tracker's theorems at concrete histories.
use rita.Common.{none, [], ◌∷◌, arith}
use rita.Types.{PaymentTx}
use rita.Samples.{alice, us}
use rita.Validator.State.Consistent.{Once, count}
use rita.Usage.{UpdateUsage, UsageTrackerStorage, UsageTrackerPayment, client}
use rita.Usage.Payments.{tracker_txids}
use rita.Usage.Throughput.{ThroughputData, ThroughputTracker}

abbrev told : UsageTrackerPayment
told = record { to = us; from = alice; amount = 30; txid = 501; index = 9 }

abbrev storage : UsageTrackerStorage
storage = record {
  last_save_hour = 0;
  client_bandwidth = (9, record { up = 5; down = 6; price = 7 }) ∷ [];
  relay_bandwidth = [];
  exit_bandwidth = [];
  payments = told ∷ [];
}

abbrev update : UpdateUsage
update = record { kind = client; up = 1; down = 2; price = 8 }

abbrev fresh : PaymentTx
fresh = record { to = us; from = alice; amount = 40; txid = 502 }

once : Once (tracker_txids storage.payments)
unfolding tracker_txids count
once a = ground arith

abbrev idle : ThroughputData
idle = record { last_sample_time = none; duration_of_this_sample = 0; bytes_used = 0 }

abbrev tracker : ThroughputTracker
tracker = record { client_data = idle; relay_data = idle; exit_data = idle }
