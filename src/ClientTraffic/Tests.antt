-- ===== src/ClientTraffic/Tests.antt =====
-- Examples of a client's round with its exit bob.
use rita.Common.{◌+◌, ◌*◌, ◌/◌, ◌≤◌, some, [], ◌∷◌, true, false, arith}
use rita.Common.Int.{pos}
use rita.Types.{v6, v6_network}
use rita.Samples.{bob}
use rita.TrafficWatcher.Samples.{empty}
use rita.ExitTraffic.{ExitSettings}
use rita.ClientTraffic.{ClientSystem, Query, debt}
use rita.ClientTraffic.Bills.{exit_bill, client_bill, client_bill_covers}

abbrev exit_settings : ExitSettings
exit_settings = record {
  our_id = some bob;
  mesh_ip = some (v6 2);
  exit_price = 10;
  local_fee = 5;
  max_fee = 50;
  tx_fee_percentage = 10;
}

-- 40 for a byte that is received, and 10 for one that is sent: the exit bills 4000 and 300 for the
-- fee, and 500; the client counts 400 for the fee.
client_bill_covers_example :
    (exit_bill exit_settings 30 100 50 + 100 * 10 / 10 ≤ client_bill exit_settings 30 100 50)
    × (client_bill exit_settings 30 100 50 ≤ exit_bill exit_settings 30 100 50 + 100 * 10 / 10 + 1)
client_bill_covers_example =
    client_bill_covers exit_settings 30 100 50 (omega arith) (omega arith) (omega arith)

abbrev query : Query
query = record {
  exit_id = bob;
  exit_price = 10;
  routes = record { prefix = v6_network 2 128; installed = true; price = 30 } ∷ [];
  counters = some ((22, record { upload = 50; download = 100 }) ∷ []);
  is_gateway = false;
  answer = debt (pos 77);
  now = 1000;
}

abbrev start : ClientSystem
start = record {
  watcher = record { last_read_input = 0; last_read_output = 0; last_exit_dest_price = 0 };
  system = empty;
}
