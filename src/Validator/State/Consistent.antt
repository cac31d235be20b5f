-- ===== src/Validator/State/Consistent.antt =====
-- What `is_consistent` decides: how often each txid is known.
use rita.Common.{
  ℕ, ◌+◌, ◌≤◌, ◌≡◌, refl, ◌↔◌, Bool, true, false, Option, none, some, List, [], ◌∷◌, ◌++◌, arith,
  ◌==◌, Bool-cases, inl, inr,
}
use rita.Validator.State.{
  PaymentValidator, contains, scan, is_consistent, waiting_txids, sent_txids, txids,
}

-- Every txid that the state knows of.
abbrev pub all_txids : PaymentValidator → List ℕ
all_txids v =
    waiting_txids v.unvalidated_transactions
    ++ (sent_txids v.previously_sent_payments ++ txids v.successful_transactions)

abbrev pub one_if : Bool → ℕ
one_if true = 1
one_if false = 0

unfoldable pub count : ℕ → List ℕ → ℕ
count a [] = 0
count a (x ∷ xs) = one_if (x == a) + count a xs

-- No txid is known twice.
abbrev pub Once : List ℕ → Type 0
Once xs = (a : ℕ) → count a xs ≤ 1

pub count-append : (a : ℕ) (xs ys : List ℕ) → count a (xs ++ ys) ≡ count a xs + count a ys
unfolding count
count-append a [] ys = omega arith
count-append a (x ∷ xs) ys = omega (arith, count-append a xs ys)

pub contains-count : (a : ℕ) (xs : List ℕ) → contains xs a ≡ true → 1 ≤ count a xs
unfolding contains count
contains-count a [] h = cc
contains-count a (x ∷ xs) h = ground (arith, contains-count a xs)

pub count-contains : (a : ℕ) (xs : List ℕ) → contains xs a ≡ false → count a xs ≡ 0
unfolding contains count
count-contains a [] h = refl
count-contains a (x ∷ xs) h = ground (arith, count-contains a xs)

pub is_some : Option (List ℕ) → Bool
is_some none = false
is_some (some _) = true

then_scan : Option (List ℕ) → List ℕ → Option (List ℕ)
then_scan none ys = none
then_scan (some seen) ys = scan seen ys

scan-append : (seen xs ys : List ℕ) → scan seen (xs ++ ys) ≡ then_scan (scan seen xs) ys
unfolding scan then_scan
scan-append seen [] ys = refl
scan-append seen (x ∷ xs) ys = ground (arith, scan-append (x ∷ seen) xs ys)

then_scan-append :
    (o : Option (List ℕ)) (xs ys : List ℕ) → then_scan o (xs ++ ys) ≡ then_scan (then_scan o xs) ys
unfolding then_scan
then_scan-append none xs ys = refl
then_scan-append (some seen) xs ys = scan-append seen xs ys

is_consistent-then_scan :
    (v : PaymentValidator)
    → is_consistent v
      ≡ is_some (
          then_scan
            (then_scan
              (scan [] (waiting_txids v.unvalidated_transactions))
              (sent_txids v.previously_sent_payments))
            (txids v.successful_transactions))
unfolding is_consistent then_scan is_some
is_consistent-then_scan v = ground arith

is_consistent-scan : (v : PaymentValidator) → is_consistent v ≡ is_some (scan [] (all_txids v))
is_consistent-scan v = rw (
  is_consistent-then_scan v,
  scan-append [] (waiting_txids v.unvalidated_transactions)
      (sent_txids v.previously_sent_payments ++ txids v.successful_transactions),
  then_scan-append (scan [] (waiting_txids v.unvalidated_transactions))
      (sent_txids v.previously_sent_payments) (txids v.successful_transactions),
)

Once-cons : (x : ℕ) (seen : List ℕ) → Once seen → contains seen x ≡ false → Once (x ∷ seen)
unfolding count
Once-cons x seen h e a = ground (arith, h a, count-contains x seen e)

scan-Once :
    (seen xs : List ℕ)
    → Once seen
    → is_some (scan seen xs) ≡ true
    → (a : ℕ) → count a xs + count a seen ≤ 1
unfolding scan count is_some
scan-Once seen [] h e a = omega (arith, h a)
scan-Once seen (x ∷ xs) h e a = elim (Bool-cases (contains seen x)) [
  | inl old ↦ ground arith
  | inr fresh ↦
      omega (arith, scan-Once (x ∷ seen) xs (Once-cons x seen h fresh) (rw (fresh, scan) at e) a)
]

Once-scan :
    (seen xs : List ℕ) → ((a : ℕ) → count a xs + count a seen ≤ 1) → is_some (scan seen xs) ≡ true
unfolding scan count is_some
Once-scan seen [] h = refl
Once-scan seen (x ∷ xs) h = elim (Bool-cases (contains seen x)) [
  | inl old ↦ absurd (ground (arith, h x, contains-count x seen old))
  | inr fresh ↦ rw (fresh, scan) (Once-scan (x ∷ seen) xs (λ a. omega (arith, h a)))
]

-- The check that the code makes of its state decides that no txid is known twice: not in one of the
-- three collections, nor across them.
pub is_consistent_iff : (v : PaymentValidator) → (is_consistent v ≡ true) ↔ Once (all_txids v)
unfolding count
is_consistent_iff v = rw (is_consistent-scan v) (
  λ e a. omega (arith, scan-Once [] (all_txids v) (λ b. omega arith) e a),
  λ h. Once-scan [] (all_txids v) (λ a. omega (arith, h a)),
)
