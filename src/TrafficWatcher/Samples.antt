-- ===== src/TrafficWatcher/Samples.antt =====
-- A debt keeper and a usage tracker with nothing in them, for the examples.
use rita.Common.{none, []}
use rita.TrafficWatcher.{System}

abbrev pub empty : System
empty = record {
  debt_keeper = record { last_save = none; debt_data = [] };
  usage = record {
    last_save_hour = 0;
    client_bandwidth = [];
    relay_bandwidth = [];
    exit_bandwidth = [];
    payments = [];
  };
}
