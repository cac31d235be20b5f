-- ===== src/Validator/Chain/Verdict.antt =====
-- When a payment is accepted, and what a rejected one leaves.
use rita.Common.{
  ℕ, ◌+◌, ◌≤◌, ◌<◌, ◌≡◌, ◌≢◌, ◌∙◌, ap, sym, refl, Bool, true, false, ◌⊎◌, inl, inr, Option, none,
  some, arith, ltb, leb, ◌==◌, Option-cases,
}
use rita.Num256.{Num256, uint256_limit}
use rita.Settings.{PaymentSettings}
use rita.Outcome.{Result, ok, err, panic}
use rita.Validator.State.{ToValidate}
use rita.Validator.Chain.{
  Books, Verdict, TransactionFields, TransactionResponse, get_xdai_transaction_details,
  payment_in_chain_xdai, payment_is_old, judge_xdai, judge_destination, handle_tx_messaging_xdai,
}

-- Whether a verdict accepts, or the call panics: only then may the books have changed.
abbrev pub may_book : Result Verdict → Bool
may_book (ok none) = false
may_book (ok (some (_, success))) = success
may_book (err e) = false
may_book panic = true

module _ (n : Num256) where
  in_chain_none : (height : ℕ) → payment_in_chain_xdai n height none ≡ some false
  unfolding payment_in_chain_xdai
  in_chain_none height = refl

  is_old_none : (height : ℕ) → payment_is_old n height none ≡ some false
  unfolding payment_is_old
  is_old_none height = refl

  pub in_chain_lem :
      (height block : ℕ)
      → height < uint256_limit
      → payment_in_chain_xdai n height (some block) ≡ some (leb (block + 4) height)
  unfolding payment_in_chain_xdai
  in_chain_lem height block h = ground (arith, n.usub_fits height block)

  pub is_old_lem :
      (height block : ℕ)
      → height < uint256_limit
      → payment_is_old n height (some block) ≡ some (ltb (block + 1440) height)
  unfolding payment_is_old
  is_old_lem height block h = ground (arith, n.usub_fits height block)

module _ (n : Num256) (payment : PaymentSettings) (now : ℕ) where
  -- A payment in block `block`, four to 1440 blocks below `height`, that went to us or came from us,
  -- and not both.
  abbrev pub IsGood : ℕ → TransactionFields → ToValidate → ℕ → Type 0
  IsGood our tx ts height =
      (tx.value ≡ ts.payment.amount)
      × ((block : ℕ) × (tx.block_number ≡ some block)
          × (block + 4 ≤ height)
          × (height ≤ block + 1440))
      × (((tx.to ≡ some our) × (tx.from ≢ our)) ⊎ ((tx.to ≢ some our) × (tx.from ≡ our)))

  judge_xdai-accepts :
      (to_us from_us deep : Bool) (ts r : ToValidate) (b : Books)
      → (judge_xdai n payment now to_us from_us deep ts b).0 ≡ ok (some (r, true))
      → (r ≡ ts)
        × (deep ≡ true)
        × (((to_us ≡ true) × (from_us ≡ false)) ⊎ ((to_us ≡ false) × (from_us ≡ true)))
  unfolding judge_xdai
  judge_xdai-accepts to_us from_us deep ts r b e = ground arith

  judge_destination-IsGood :
      (our : ℕ) (tx : TransactionFields) (ts r : ToValidate) (height : ℕ) (b : Books)
      (to block : Option ℕ)
      → tx.to ≡ to
      → tx.block_number ≡ block
      → height < uint256_limit
      → (judge_destination n payment now our tx ts height to b).0 ≡ ok (some (r, true))
      → (r ≡ ts) × IsGood our tx ts height
  unfolding judge_destination
  judge_destination-IsGood our tx ts r height b none block et eb h e = ground arith
  judge_destination-IsGood our tx ts r height b (some to) none et eb h e = ground (
    arith,
    in_chain_none n height,
    is_old_none n height,
    judge_xdai-accepts (to == our) (tx.from == our) false ts r b,
  )
  judge_destination-IsGood our tx ts r height b (some to) (some block) et eb h e =
      let facts : (r ≡ ts)
          × (tx.value ≡ ts.payment.amount)
          × (block + 4 ≤ height)
          × (height ≤ block + 1440)
          × (((to ≡ our) × (tx.from ≢ our)) ⊎ ((to ≢ our) × (tx.from ≡ our))) =
        ground (
          arith,
          in_chain_lem n height block h,
          is_old_lem n height block h,
          judge_xdai-accepts (to == our) (tx.from == our) (leb (block + 4) height) ts r b,
        ) in
      (facts.0, (facts.1, (block, eb, facts.2, facts.3), ground (arith, facts.4)))

  pub handle_at :
      (transaction : TransactionResponse) (ts : ToValidate) (our height : ℕ) (b : Books)
      → payment.eth_address ≡ some our
      → let tx = get_xdai_transaction_details transaction in
        handle_tx_messaging_xdai n payment now transaction ts height b
        ≡ judge_destination n payment now our tx ts height tx.to b
  unfolding handle_tx_messaging_xdai
  handle_at transaction ts our height b address = ground arith

  -- With an address of our own and a chain height below 2^256, a payment is accepted only if the
  -- chain shows its amount, in a block that is confirmed (at least four blocks below the height)
  -- and not too old (at most 1440), in a transaction that went to us from someone else, or from us
  -- to someone else.
  pub accepts_only_verified :
      (transaction : TransactionResponse) (ts r : ToValidate) (our height : ℕ) (b : Books)
      → payment.eth_address ≡ some our
      → height < uint256_limit
      → (handle_tx_messaging_xdai n payment now transaction ts height b).0 ≡ ok (some (r, true))
      → (r ≡ ts) × IsGood our (get_xdai_transaction_details transaction) ts height
  accepts_only_verified transaction ts r our height b address h e =
      let tx = get_xdai_transaction_details transaction in
      judge_destination-IsGood our tx ts r height b tx.to tx.block_number refl refl h
        (rw (handle_at transaction ts our height b address) at e)

  judge_xdai-untouched :
      (to_us from_us deep : Bool) (ts : ToValidate) (b : Books)
      → may_book (judge_xdai n payment now to_us from_us deep ts b).0 ≡ false
      → (judge_xdai n payment now to_us from_us deep ts b).1 ≡ b
  unfolding judge_xdai
  judge_xdai-untouched to_us from_us deep ts b e = ground arith

  judge_destination-untouched :
      (our : ℕ) (tx : TransactionFields) (ts : ToValidate) (height : ℕ) (b : Books) (to : Option ℕ)
      → may_book (judge_destination n payment now our tx ts height to b).0 ≡ false
      → (judge_destination n payment now our tx ts height to b).1 ≡ b
  unfolding judge_destination
  judge_destination-untouched our tx ts height b none e = refl
  judge_destination-untouched our tx ts height b (some to) e =
      elim (Option-cases (payment_in_chain_xdai n height tx.block_number)) [
        | inl failed ↦ ground arith
        | inr (deep, found) ↦
            ground (arith, judge_xdai-untouched (to == our) (tx.from == our) deep ts b)
      ]

  judge_destination-sender :
      (our : ℕ) (tx tx' : TransactionFields) (ts : ToValidate) (height : ℕ) (b : Books)
      (to : Option ℕ)
      → tx.value ≡ tx'.value
      → tx.block_number ≡ tx'.block_number
      → tx.from ≢ our
      → tx'.from ≢ our
      → judge_destination n payment now our tx ts height to b
        ≡ judge_destination n payment now our tx' ts height to b
  unfolding judge_destination
  judge_destination-sender our tx tx' ts height b none value block mine theirs = refl
  judge_destination-sender our tx tx' ts height b (some to) value block mine theirs =
      ground (arith, value, block)

  -- With an address of our own, a payment that is rejected or still waits leaves the books as they
  -- were.
  pub rejected_books :
      (transaction : TransactionResponse) (ts : ToValidate) (our height : ℕ) (b : Books)
      → payment.eth_address ≡ some our
      → may_book (handle_tx_messaging_xdai n payment now transaction ts height b).0 ≡ false
      → (handle_tx_messaging_xdai n payment now transaction ts height b).1 ≡ b
  rejected_books transaction ts our height b address e =
      let tx = get_xdai_transaction_details transaction in
      let same = handle_at transaction ts our height b address in
      rw same (judge_destination-untouched our tx ts height b tx.to (rw same at e))

  -- With an address of our own, the sender that the chain names is not compared with the one that
  -- the payment names: two transactions of any kinds that agree in destination, value and block, and
  -- neither of whose senders is ours, have the same outcome for a payment and leave the same books.
  pub sender_unchecked :
      (transaction other : TransactionResponse) (ts : ToValidate) (our height : ℕ) (b : Books)
      → let tx = get_xdai_transaction_details transaction in
        let tx' = get_xdai_transaction_details other in
        payment.eth_address ≡ some our
        → tx.to ≡ tx'.to
        → tx.value ≡ tx'.value
        → tx.block_number ≡ tx'.block_number
        → tx.from ≢ our
        → tx'.from ≢ our
        → handle_tx_messaging_xdai n payment now transaction ts height b
          ≡ handle_tx_messaging_xdai n payment now other ts height b
  sender_unchecked transaction other ts our height b address to value block mine theirs =
      let tx = get_xdai_transaction_details transaction in
      let tx' = get_xdai_transaction_details other in
      handle_at transaction ts our height b address
      ∙ judge_destination-sender our tx tx' ts height b tx.to value block mine theirs
      ∙ ap (λ x. judge_destination n payment now our tx' ts height x b) to
      ∙ sym (handle_at other ts our height b address)
