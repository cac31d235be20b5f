-- ===== src/Validator/Althea/Accept.antt =====
-- When a payment on Althea L1 is accepted, and when it is given up.
use rita.Common.{
  ℕ, ◌<◌, ◌≡◌, ◌≢◌, refl, ◌↔◌, ◌∙◌, ap, Bool, true, false, ◌⊎◌, inl, inr, Option, none, some,
  String, List, [], ◌∷◌, arith, ltb, ◌==◌, Option-cases, Bool-cases,
}
use rita.Types.{Identity, Denom}
use rita.Num256.{Num256}
use rita.Settings.{PaymentSettings}
use rita.Outcome.{ok}
use rita.Validator.State.{ToValidate}
use rita.Validator.Chain.{Books}
use rita.Validator.Althea.{
  Coin, MsgMicrotx, AltheaAnswer, ChainStatus, moving, syncing, waiting_to_start, accepted_denom,
  invalid, judge_althea, judge_coin, judge_microtx, handle_tx_messaging_althea, timed_out,
  handle_althea_tx_checking,
}

module _ (n : Num256) (payment : PaymentSettings) (now : ℕ) (us : Identity)
    (parse : String → Option ℕ) (althea_address : Identity → ℕ) (development : Bool) where
  -- A microtransaction of the payment's amount, in an accepted denomination, that went to us or
  -- came from us, and not both.
  abbrev pub IsGoodMicrotx : MsgMicrotx → ToValidate → Type 0
  IsGoodMicrotx m ts =
      (coin : Coin) × (denom : Denom) × (receiver : ℕ) × (sender : ℕ) × (m.amount ≡ some coin)
      × (accepted_denom coin.denom payment.althea_l1_accepted_denoms ≡ some denom)
      × (parse m.receiver ≡ some receiver)
      × (parse m.sender ≡ some sender)
      × (coin.amount ≡ ts.payment.amount)
      × (((receiver ≡ althea_address us) × (sender ≢ althea_address us))
          ⊎ ((receiver ≢ althea_address us) × (sender ≡ althea_address us)))

  judge_althea-accepts :
      (to_us from_us : Bool) (denom : Denom) (ts r : ToValidate) (b : Books)
      → (judge_althea n payment now
          (some us)
          parse
          althea_address
          development
          to_us
          from_us
          denom
          ts
          b).0
        ≡ ok (some (r, true))
      → (r ≡ ts) × (((to_us ≡ true) × (from_us ≡ false)) ⊎ ((to_us ≡ false) × (from_us ≡ true)))
  unfolding judge_althea
  judge_althea-accepts to_us from_us denom ts r b e = ground arith

  judge_coin-accepts :
      (receiver sender : ℕ) (coin : Coin) (found : Option Denom) (ts r : ToValidate) (b : Books)
      → (judge_coin n payment now
          (some us)
          parse
          althea_address
          development
          receiver
          sender
          coin
          found
          ts
          b).0
        ≡ ok (some (r, true))
      → (denom : Denom) × (found ≡ some denom)
        × (r ≡ ts)
        × (coin.amount ≡ ts.payment.amount)
        × (((receiver ≡ althea_address us) × (sender ≢ althea_address us))
            ⊎ ((receiver ≢ althea_address us) × (sender ≡ althea_address us)))
  unfolding judge_coin
  judge_coin-accepts receiver sender coin none ts r b e = ground arith
  judge_coin-accepts receiver sender coin (some denom) ts r b e =
      let facts : (r ≡ ts)
          × (coin.amount ≡ ts.payment.amount)
          × (((receiver ≡ althea_address us) × (sender ≢ althea_address us))
              ⊎ ((receiver ≢ althea_address us) × (sender ≡ althea_address us))) =
        ground (
          arith,
          judge_althea-accepts (receiver == althea_address us) (sender == althea_address us) denom
              ts r b,
        ) in
      (denom, refl, facts.0, facts.1, facts.2)

  judge_microtx-accepts :
      (m : MsgMicrotx) (amount : Option Coin) (receiver sender : Option ℕ) (ts r : ToValidate)
      (b : Books)
      → m.amount ≡ amount
      → parse m.receiver ≡ receiver
      → parse m.sender ≡ sender
      → (judge_microtx n payment now (some us) parse althea_address development m amount ts b).0
        ≡ ok (some (r, true))
      → (r ≡ ts) × IsGoodMicrotx m ts
  unfolding judge_microtx invalid
  judge_microtx-accepts m none receiver sender ts r b ea er es e = ground arith
  judge_microtx-accepts m (some coin) none sender ts r b ea er es e = ground arith
  judge_microtx-accepts m (some coin) (some receiver) none ts r b ea er es e = ground arith
  judge_microtx-accepts m (some coin) (some receiver) (some sender) ts r b ea er es e =
      let found = accepted_denom coin.denom payment.althea_l1_accepted_denoms in
      let (denom, ed, same, value, way) =
        judge_coin-accepts receiver sender coin found ts r b (rw (judge_microtx, er, es) at e) in
      (same, (coin, denom, receiver, sender, ea, ed, er, es, value, way))

  judge_transactions-accepts :
      (transactions : List MsgMicrotx) (ts r : ToValidate) (b : Books)
      → (handle_tx_messaging_althea n payment now
          (some us)
          parse
          althea_address
          development
          transactions
          ts
          b).0
        ≡ ok (some (r, true))
      → (m : MsgMicrotx) × (rest : List MsgMicrotx) × (transactions ≡ m ∷ rest)
        × (r ≡ ts)
        × IsGoodMicrotx m ts
  unfolding handle_tx_messaging_althea invalid
  judge_transactions-accepts [] ts r b e = ground arith
  judge_transactions-accepts (m ∷ rest) ts r b e =
      let (same, good) =
        judge_microtx-accepts m m.amount (parse m.receiver) (parse m.sender) ts r b refl refl refl
          e in
      (m, rest, refl, same, good)

  unknown-waits :
      (status : Option ChainStatus) (last : Option ℕ) (answer : AltheaAnswer) (ts r : ToValidate)
      (b : Books)
      → answer.transactions ≡ none
      → answer.status ≡ status
      → ts.timeout_block ≡ last
      → (handle_althea_tx_checking n payment now
          (some us)
          parse
          althea_address
          development
          answer
          ts
          b).0
        ≢ ok (some (r, true))
  unfolding handle_althea_tx_checking timed_out
  unknown-waits none last answer ts r b missing es el = ground arith
  unknown-waits (some (moving height)) none answer ts r b missing es el = ground arith
  unknown-waits (some (moving height)) (some last) answer ts r b missing es el = ground arith
  unknown-waits (some syncing) last answer ts r b missing es el = ground arith
  unknown-waits (some waiting_to_start) last answer ts r b missing es el = ground arith

  -- With an identity of our own, a payment on Althea L1 is accepted only if the node has its
  -- transaction, and the first microtransaction in it is of the payment's amount, in an accepted
  -- denomination, with addresses that parse, and went to us from someone else or from us to someone
  -- else.
  pub althea_accepts :
      (answer : AltheaAnswer) (ts r : ToValidate) (b : Books)
      → (handle_althea_tx_checking n payment now
          (some us)
          parse
          althea_address
          development
          answer
          ts
          b).0
        ≡ ok (some (r, true))
      → (m : MsgMicrotx) × (rest : List MsgMicrotx) × (answer.transactions ≡ some (m ∷ rest))
        × (r ≡ ts)
        × IsGoodMicrotx m ts
  unfolding handle_althea_tx_checking timed_out
  althea_accepts answer ts r b e = elim (Option-cases answer.transactions) [
    | inl missing ↦
        ground (arith, unknown-waits answer.status ts.timeout_block answer ts r b missing refl refl)
    | inr (transactions, found) ↦
        let (m, rest, shape, same, good) =
          judge_transactions-accepts transactions ts r b
            (rw (handle_althea_tx_checking, found) at e) in
        (m, rest, found ∙ ap some shape, same, good)
  ]

  gives_up_by :
      (status : Option ChainStatus) (last : Option ℕ) (answer : AltheaAnswer) (ts : ToValidate)
      (b : Books)
      → answer.transactions ≡ none
      → answer.status ≡ status
      → ts.timeout_block ≡ last
      → let (r, c) =
          handle_althea_tx_checking n payment now
            (some us)
            parse
            althea_address
            development
            answer
            ts
            b in
        (c ≡ b)
        × ((r ≡ ok (some (ts, false))) ⊎ (r ≡ ok none))
        × ((r ≡ ok (some (ts, false))) ↔ (
            (height : ℕ) × (last : ℕ) × (answer.status ≡ some (moving height))
            × (ts.timeout_block ≡ some last)
            × (last < height)))
  unfolding handle_althea_tx_checking timed_out
  gives_up_by none last answer ts b missing es el =
      rw (missing, es) (refl, inr refl, (ground arith, ground arith))
  gives_up_by (some syncing) last answer ts b missing es el =
      rw (missing, es) (refl, inr refl, (ground arith, ground arith))
  gives_up_by (some waiting_to_start) last answer ts b missing es el =
      rw (missing, es) (refl, inr refl, (ground arith, ground arith))
  gives_up_by (some (moving height)) none answer ts b missing es el =
      rw (missing, es, el) (refl, inr refl, (ground arith, ground arith))
  gives_up_by (some (moving height)) (some last) answer ts b missing es el =
      elim (Bool-cases (ltb last height)) [
        | inl passed ↦
            rw (missing, es, el, passed)
              (refl, inl refl, (λ e. (height, last, refl, refl, ground arith), λ p. refl))
        | inr waits ↦ rw (missing, es, el, waits) (refl, inr refl, (ground arith, ground arith))
      ]

  -- A payment whose transaction the node does not know is given up exactly when the chain moves and
  -- has passed the last block that could hold it; else it waits. The books are left alone.
  pub althea_gives_up :
      (answer : AltheaAnswer) (ts : ToValidate) (b : Books)
      → answer.transactions ≡ none
      → let (r, c) =
          handle_althea_tx_checking n payment now
            (some us)
            parse
            althea_address
            development
            answer
            ts
            b in
        (c ≡ b)
        × ((r ≡ ok (some (ts, false))) ⊎ (r ≡ ok none))
        × ((r ≡ ok (some (ts, false))) ↔ (
            (height : ℕ) × (last : ℕ) × (answer.status ≡ some (moving height))
            × (ts.timeout_block ≡ some last)
            × (last < height)))
  althea_gives_up answer ts b missing =
      gives_up_by answer.status ts.timeout_block answer ts b missing refl refl
