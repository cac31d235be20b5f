-- ===== src/Validator/Batch.antt =====
-- The batches in which `tick_payment_validator` runs its futures.
use rita.Common.{ℕ, suc, ◌+◌, ◌≤◌, ◌≡◌, refl, List, [], ◌∷◌, ◌++◌, arith, ltb, if◌then◌else◌}

abbrev pub validate_batch_size : ℕ
validate_batch_size = 10

module _ {A : Type 0} where
  abbrev pub length : List A → ℕ
  length [] = 0
  length (x ∷ xs) = suc (length xs)

  -- The futures that are run, in order, from a buffer and the futures that are left.
  unfoldable pub run_batches : List A → List A → List A
  run_batches buf [] = buf
  run_batches buf (f ∷ futs) =
      let pushed = run_batches (buf ++ f ∷ []) futs in
      let executed = buf ++ run_batches [] futs in
      if ltb (length buf) validate_batch_size then pushed else executed

  length-snoc : (xs : List A) (x : A) → length (xs ++ x ∷ []) ≡ suc (length xs)
  length-snoc [] x = refl
  length-snoc (y ∷ xs) x = ground (arith, length-snoc xs x)

  snoc-append : (xs ys : List A) (x : A) → (xs ++ x ∷ []) ++ ys ≡ xs ++ x ∷ ys
  snoc-append [] ys x = refl
  snoc-append (y ∷ xs) ys x = ground (arith, snoc-append xs ys x)

  append_nil : (xs : List A) → xs ++ [] ≡ xs
  append_nil [] = refl
  append_nil (x ∷ xs) = ground (arith, append_nil xs)

  -- A buffer with room takes what comes.
  run_batches-append :
      (buf xs ys : List A)
      → length buf + length xs ≤ 10
      → run_batches buf (xs ++ ys) ≡ run_batches (buf ++ xs) ys
  unfolding run_batches
  run_batches-append buf [] ys room = ground (arith, append_nil buf)
  run_batches-append buf (x ∷ xs) ys room =
      ground
        (arith, run_batches-append (buf ++ x ∷ []) xs ys, length-snoc buf x, snoc-append buf xs x)

  -- Up to ten futures are all run.
  pub run_batches_few : (xs : List A) → length xs ≤ 10 → run_batches [] xs ≡ xs
  unfolding run_batches
  run_batches_few xs few = ground (arith, run_batches-append [] xs [], append_nil xs)

  -- The future that follows the first ten is never run, and the batches start anew behind it.
  pub run_batches_drop :
      (xs ys : List A) (f : A)
      → length xs ≡ 10
      → run_batches [] (xs ++ f ∷ ys) ≡ xs ++ run_batches [] ys
  unfolding run_batches
  run_batches_drop xs ys f full =
      rw (run_batches-append [] xs (f ∷ ys) (omega (arith, full))) (ground arith)
