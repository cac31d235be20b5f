-- ===== src/ClientTraffic/Bills.antt =====
-- rita_client/src/traffic_watcher/mod.rs and rita_exit/src/traffic_watcher/mod.rs: the client's bill
-- for the bytes of a round beside the exit's.
use rita.Common.{ℕ, ◌+◌, ◌*◌, ◌/◌, ◌%◌, ◌^◌, ◌≤◌, ◌<◌, ◌≡◌, arith}
use native.Mathlib.Nat.{lt-div-mul-add, div-lt_iff_lt-mul, le-div_iff_mul-le, div-mul-le_self}
use rita.Usage.{add_u64}
use rita.ExitTraffic.{ExitSettings}
use rita.ExitTraffic
use rita.ClientTraffic.{input_value, output_value}

div_add_ge : (a b f : ℕ) → 0 < f → a / f + b / f ≤ (a + b) / f
div_add_ge a b f h =
    let spread : (a / f + b / f) * f ≡ a / f * f + b / f * f = grind arith in
    let below : (a / f + b / f) * f ≤ a + b =
      omega (arith, spread, div-mul-le_self a f, div-mul-le_self b f) in
    (le-div_iff_mul-le {k = f} {x = a / f + b / f} {y = a + b} h).1 below

div_add_le : (a b f : ℕ) → 0 < f → (a + b) / f ≤ a / f + b / f + 1
div_add_le a b f h =
    let spread : (a / f + b / f + 2) * f ≡ a / f * f + f + (b / f * f + f) = grind arith in
    let below : a + b < (a / f + b / f + 2) * f =
      omega (arith, spread, lt-div-mul-add {a = a} h, lt-div-mul-add {a = b} h) in
    omega (arith, (div-lt_iff_lt-mul {k = f} {x = a + b} {y = a / f + b / f + 2} h).1 below)

module _ (settings : ExitSettings) (dest input output : ℕ) where
  -- What an exit bills for a round, and what a client counts for the same bytes and prices: what
  -- the exit has sent is the input of the client.
  abbrev pub exit_bill : ℕ
  exit_bill = ExitTraffic.input_value settings output + ExitTraffic.output_value settings dest input

  abbrev pub client_bill : ℕ
  client_bill =
      input_value input (dest + settings.exit_price) settings.tx_fee_percentage
      + output_value settings.exit_price output

  -- For the same bytes, prices and percentage, where the percentage is not 0 and the sums and
  -- products of 64 bits fit, a client counts at least what the exit bills and the share of the fee
  -- on the exit's own price, which the exit does not charge, and at most 1 more.
  pub client_bill_covers :
      0 < settings.tx_fee_percentage
      → dest + settings.exit_price < 2 ^ 64
      → settings.exit_price * output < 2 ^ 64
      → (exit_bill + input * settings.exit_price / settings.tx_fee_percentage ≤ client_bill)
        × (client_bill ≤ exit_bill + input * settings.exit_price / settings.tx_fee_percentage + 1)
  unfolding add_u64
  client_bill_covers positive small fits =
      let f = settings.tx_fee_percentage in
      let p = settings.exit_price in
      let spread : input * (dest + p) ≡ dest * input + input * p = grind arith in
      let price : (dest + p) % 2 ^ 64 ≡ dest + p = omega arith in
      let sent : p * output % 2 ^ 64 ≡ p * output = omega arith in
      let swap : (dest + p) * input ≡ input * (dest + p) = grind arith in
      let low = div_add_ge (dest * input) (input * p) f positive in
      let high = div_add_le (dest * input) (input * p) f positive in
      rw (price, sent, swap, spread) (omega (arith, low, high))
