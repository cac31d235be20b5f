-- ===== src/Validator/Tick/Tally.antt =====
-- What a tick deletes, counted against what waits.
use rita.Common.{ℕ, ◌+◌, ◌≤◌, ◌≡◌, refl, Bool, true, none, some, List, [], ◌∷◌, ◌++◌, arith}
use rita.Types.{identity_eq_refl, identity_eq_congr, SystemChain}
use rita.Outcome.{Result, Action, ok, err, panic}
use rita.Validator.State.{ToValidate, to_validate_eq, member, remove_item}
use rita.Validator.State.Consistent.{one_if}
use rita.Validator.Chain.{Books, Verdict}
use rita.Validator.Batch.{run_batches}
use rita.Validator.Tick.{timed_out_items, futures, collect_results}
use rita.Validator.Tick.Own.{Own}

-- How many items of a list satisfy `p`.
unfoldable pub tally : (ToValidate → Bool) → List ToValidate → ℕ
tally p [] = 0
tally p (x ∷ xs) = one_if (p x) + tally p xs

abbrev pub items_of : List (ToValidate × Bool) → List ToValidate
items_of [] = []
items_of ((tx, success) ∷ results) = tx ∷ items_of results

-- Items that compare equal are alike to `p`.
abbrev pub Respects : (ToValidate → Bool) → Type 0
Respects p = (x y : ToValidate) → to_validate_eq x y ≡ true → p x ≡ p y

tally-append :
    (p : ToValidate → Bool) (xs ys : List ToValidate) → tally p (xs ++ ys) ≡ tally p xs + tally p ys
unfolding tally
tally-append p [] ys = omega arith
tally-append p (x ∷ xs) ys = omega (arith, tally-append p xs ys)

items_of-append :
    (xs ys : List (ToValidate × Bool)) → items_of (xs ++ ys) ≡ items_of xs ++ items_of ys
items_of-append [] ys = refl
items_of-append ((tx, success) ∷ xs) ys = ground (arith, items_of-append xs ys)

pub to_validate_eq_refl : (x : ToValidate) → to_validate_eq x x ≡ true
unfolding to_validate_eq
to_validate_eq_refl x =
    ground (arith, identity_eq_refl x.payment.to, identity_eq_refl x.payment.from)

pub to_validate_eq_congr :
    (t x y : ToValidate) → to_validate_eq x y ≡ true → to_validate_eq x t ≡ to_validate_eq y t
unfolding to_validate_eq
to_validate_eq_congr t x y h = ground (
  arith,
  identity_eq_congr x.payment.to y.payment.to t.payment.to,
  identity_eq_congr x.payment.from y.payment.from t.payment.from,
)

pub tally-member :
    (t : ToValidate) (xs : List ToValidate)
    → 1 ≤ tally (λ x. to_validate_eq x t) xs
    → member to_validate_eq t xs ≡ true
unfolding tally member
tally-member t [] h = ground arith
tally-member t (x ∷ xs) h = ground (arith, tally-member t xs)

pub tally-remove_item :
    (p : ToValidate → Bool) (t : ToValidate) (xs : List ToValidate)
    → Respects p
    → member to_validate_eq t xs ≡ true
    → one_if (p t) + tally p (remove_item to_validate_eq t xs) ≡ tally p xs
unfolding tally member remove_item
tally-remove_item p t [] alike h = ground arith
tally-remove_item p t (x ∷ xs) alike h = ground (arith, tally-remove_item p t xs alike, alike x t)

module _ (now our_address : ℕ) (chain : SystemChain) (p : ToValidate → Bool) where
  -- Every item is timed out or becomes a future, once.
  tally-split :
      (xs : List ToValidate)
      → tally p (items_of (timed_out_items now our_address chain xs))
          + tally p (futures now our_address chain xs)
        ≡ tally p xs
  unfolding tally timed_out_items futures
  tally-split [] = refl
  tally-split (x ∷ xs) = ground (arith, tally-split xs)

tally-run_batches :
    (p : ToValidate → Bool) (buf xs : List ToValidate)
    → tally p (run_batches buf xs) ≤ tally p buf + tally p xs
unfolding tally run_batches
tally-run_batches p buf [] = omega arith
tally-run_batches p buf (x ∷ xs) = ground (
  arith,
  tally-run_batches p (buf ++ x ∷ []) xs,
  tally-run_batches p [] xs,
  tally-append p buf (x ∷ []),
  tally-append p buf (run_batches [] xs),
)

module _ (validate : ToValidate → Action Books Verdict) (own : Own validate) where
  results-step :
      (p : ToValidate → Bool) (ts : ToValidate) (futs : List ToValidate) (b : Books)
      (results : List (ToValidate × Bool)) (first : Result Verdict)
      (rest : Result (List (ToValidate × Bool)))
      → (validate ts b).0 ≡ first
      → (collect_results validate futs (validate ts b).1).0 ≡ rest
      → ((zs : List (ToValidate × Bool)) → rest ≡ ok zs → tally p (items_of zs) ≤ tally p futs)
      → (collect_results validate (ts ∷ futs) b).0 ≡ ok results
      → tally p (items_of results) ≤ tally p (ts ∷ futs)
  unfolding tally collect_results
  results-step p ts futs b results (err x) rest ef er below e = ground arith
  results-step p ts futs b results panic rest ef er below e = ground arith
  results-step p ts futs b results (ok v) (err x) ef er below e = ground arith
  results-step p ts futs b results (ok v) panic ef er below e = ground arith
  results-step p ts futs b results (ok none) (ok zs) ef er below e = ground (arith, below zs refl)
  results-step p ts futs b results (ok (some (r, s))) (ok zs) ef er below e =
      ground (arith, below zs refl, own ts r s b ef)

  tally-results :
      (p : ToValidate → Bool) (futs : List ToValidate) (b : Books)
      (results : List (ToValidate × Bool))
      → (collect_results validate futs b).0 ≡ ok results
      → tally p (items_of results) ≤ tally p futs
  unfolding tally collect_results
  tally-results p [] b results e = ground arith
  tally-results p (ts ∷ futs) b results e =
      results-step p ts futs b results (validate ts b).0
        (collect_results validate futs (validate ts b).1).0 refl refl
        (λ zs h. tally-results p futs (validate ts b).1 zs h) e

  -- What is to be deleted are items of the queue, none of them twice.
  pub tally-to_delete :
      (now our_address : ℕ) (chain : SystemChain) (p : ToValidate → Bool) (xs : List ToValidate)
      (b : Books) (results : List (ToValidate × Bool))
      → (collect_results validate (run_batches [] (futures now our_address chain xs)) b).0
        ≡ ok results
      → tally p (items_of (timed_out_items now our_address chain xs ++ results)) ≤ tally p xs
  unfolding tally
  tally-to_delete now our_address chain p xs b results e =
      let expired = timed_out_items now our_address chain xs in
      let futs = futures now our_address chain xs in
      rw (items_of-append expired results) (
        omega (
          arith,
          tally-append p (items_of expired) (items_of results),
          tally-results p (run_batches [] futs) b results e,
          tally-run_batches p [] futs,
          tally-split now our_address chain p xs,
        ))
