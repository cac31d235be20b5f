-- ===== src/Validator/Tick/Consistent.antt =====
-- Consistency of the validator's state over a tick.
use rita.Common.{
  ℕ, ◌≤◌, ◌≡◌, refl, Bool, true, Option, none, some, String, List, [], ◌∷◌, ◌++◌, arith,
}
use rita.Types.{Identity, SystemChain}
use rita.Num256.{Num256}
use rita.Settings.{PaymentSettings}
use rita.Outcome.{Result, Action, ok, err, panic}
use rita.Validator.State.{
  ToValidate, PaymentValidator, to_validate_eq, member, remove_item, is_consistent,
  add_to_validation_queue, store, remove,
}
use rita.Validator.State.Preserve.{add_to_validation_queue_consistent, remove_consistent}
use rita.Validator.Chain.{Books, Verdict}
use rita.Validator.Batch.{run_batches}
use rita.Validator.Tick.{
  Answer, timed_out_items, futures, collect_results, queue_all, remove_all, judge_all,
  tick_payment_validator, validate_transaction,
}
use rita.Validator.Tick.Own.{Own, validate_transaction-Own}
use rita.Validator.Tick.Tally.{
  tally, items_of, Respects, tally-member, tally-remove_item, tally-to_delete, to_validate_eq_refl,
  to_validate_eq_congr,
}

unvalidated-remove :
    (tx : ToValidate) (our_address : ℕ) (success : Bool) (v : PaymentValidator)
    → (remove tx our_address success v).0.unvalidated_transactions
      ≡ remove_item to_validate_eq tx v.unvalidated_transactions
unfolding remove store
unvalidated-remove tx our_address success v = ground arith

remove_all_consistent :
    (our_address : ℕ) (ds : List (ToValidate × Bool)) (v : PaymentValidator)
    → is_consistent v ≡ true
    → ((p : ToValidate → Bool)
        → Respects p
        → tally p (items_of ds) ≤ tally p v.unvalidated_transactions)
    → is_consistent (remove_all our_address ds v) ≡ true
unfolding remove_all tally
remove_all_consistent our_address [] v c below = c
remove_all_consistent our_address ((tx, success) ∷ ds) v c below =
    let v' = (remove tx our_address success v).0 in
    let waits : member to_validate_eq tx v.unvalidated_transactions ≡ true =
      tally-member tx v.unvalidated_transactions (
        ground (
          arith,
          to_validate_eq_refl tx,
          below (λ x. to_validate_eq x tx) (λ x y h. to_validate_eq_congr tx x y h),
        )) in
    remove_all_consistent our_address ds v' (remove_consistent tx our_address success v waits c).0
      (λ p alike. rw (unvalidated-remove tx our_address success v) (
        omega
          (arith, below p alike, tally-remove_item p tx v.unvalidated_transactions alike waits)))

queue_all_consistent :
    (payments : List ToValidate) (v : PaymentValidator)
    → is_consistent v ≡ true
    → is_consistent (queue_all payments v) ≡ true
unfolding queue_all
queue_all_consistent [] v c = c
queue_all_consistent (ts ∷ payments) v c =
    queue_all_consistent payments (add_to_validation_queue ts v).1
      (add_to_validation_queue_consistent ts v c)

module _ (validate : ToValidate → Action Books Verdict) (own : Own validate) (now : ℕ)
    (chain : SystemChain) where
  judge_all_consistent :
      (our_address : ℕ) (v : PaymentValidator) (xs : List ToValidate) (b : Books)
      (answers : Result (List (ToValidate × Bool)))
      → v.unvalidated_transactions ≡ xs
      → (collect_results validate (run_batches [] (futures now our_address chain xs)) b).0 ≡ answers
      → is_consistent v ≡ true
      → is_consistent (judge_all validate now chain our_address v xs (v, b)).1.0 ≡ true
  unfolding judge_all
  judge_all_consistent our_address v [] b answers ex ea c = c
  judge_all_consistent our_address v (x ∷ xs) b (err e) ex ea c = rw (judge_all, ea) c
  judge_all_consistent our_address v (x ∷ xs) b panic ex ea c = rw (judge_all, ea) c
  judge_all_consistent our_address v (x ∷ xs) b (ok results) ex ea c =
      rw (judge_all, ea)
        (remove_all_consistent our_address
          (timed_out_items now our_address chain (x ∷ xs) ++ results) v c
          (λ p alike.
            rw ex (tally-to_delete validate own now our_address chain p (x ∷ xs) b results ea)))

  tick-consistent_by :
      (eth_address : Option ℕ) (outgoing incoming : List ToValidate) (v : PaymentValidator)
      (b : Books)
      → is_consistent v ≡ true
      → is_consistent
          (tick_payment_validator validate now chain eth_address outgoing incoming (v, b)).1.0
        ≡ true
  unfolding tick_payment_validator
  tick-consistent_by none outgoing incoming v b c = queue_all_consistent (outgoing ++ incoming) v c
  tick-consistent_by (some our_address) outgoing incoming v b c =
      let queued = queue_all (outgoing ++ incoming) v in
      judge_all_consistent our_address queued queued.unvalidated_transactions b _ refl refl
        (queue_all_consistent (outgoing ++ incoming) v c)

module _ (n : Num256) (payment : PaymentSettings) (now : ℕ) (our_id : Option Identity)
    (parse : String → Option ℕ) (althea_address : Identity → ℕ) (development : Bool) where
  -- A tick keeps a consistent state consistent, whatever is queued, whatever the nodes answer, on
  -- every chain, and also where a validation panics.
  pub tick_consistent :
      (answer : ToValidate → Answer) (chain : SystemChain) (outgoing incoming : List ToValidate)
      (v : PaymentValidator) (b : Books)
      → is_consistent v ≡ true
      → is_consistent
          (tick_payment_validator
            (λ ts.
              validate_transaction n payment now our_id parse althea_address development
                (answer ts)
                chain
                ts)
            now
            chain
            payment.eth_address
            outgoing
            incoming
            (v, b)).1.0
        ≡ true
  tick_consistent answer chain outgoing incoming v b c =
      let validate = λ (ts : ToValidate).
        validate_transaction n payment now our_id parse althea_address development (answer ts) chain
          ts in
      tick-consistent_by validate
        (λ ts.
          validate_transaction-Own n payment now our_id parse althea_address development (answer ts)
            chain ts)
        now chain payment.eth_address outgoing incoming v b c
