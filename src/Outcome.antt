-- ===== src/Outcome.antt =====
-- How a method ends: with a value, with an error, or by a panic. A method changes the state that it
-- is given, and what was written before an error or a panic stays written.
-- The errors are those of rita_common/src/error.rs that the modelled code returns; the crates with
-- errors of their own take the type of the errors as an argument.
use rita.Common.{String, Option, none, some, ◌≡◌, refl, ◌⊎◌, inl, inr}

pub data RitaCommonError : Type 0 where
  conversion_error : String → RitaCommonError
  misc_string_error : String → RitaCommonError
  duplicate_payment : RitaCommonError
  kernel_interface_error : RitaCommonError

pub data ResultOf {ℓ} (E : Type 0) (A : Type ℓ) : Type ℓ where
  ok : A → ResultOf E A
  err : E → ResultOf E A
  panic : ResultOf E A

pub ResultOf-cases :
    {E A : Type 0} (r : ResultOf E A)
    → ((a : A) × (r ≡ ok a)) ⊎ (((e : E) × (r ≡ err e)) ⊎ (r ≡ panic))
ResultOf-cases (ok a) = inl (a, refl)
ResultOf-cases (err e) = inr (inl (e, refl))
ResultOf-cases panic = inr (inr refl)

abbrev pub Result {ℓ} : Type ℓ → Type ℓ
Result A = ResultOf RitaCommonError A

abbrev pub ActionOf : Type 0 → Type 0 → Type 0 → Type 0
ActionOf E S A = S → ResultOf E A × S

abbrev pub Action : Type 0 → Type 0 → Type 0
Action S A = ActionOf RitaCommonError S A

module _ {E S A : Type 0} where
  abbrev pub pure : A → ActionOf E S A
  pure a s = (ok a, s)

  abbrev pub fail : E → ActionOf E S A
  fail e s = (err e, s)

  -- `unwrap`, `expect` and an operation that panics.
  abbrev pub or_panic : Option A → ActionOf E S A
  or_panic none s = (panic, s)
  or_panic (some a) s = (ok a, s)

  abbrev pub or_fail : Option A → E → ActionOf E S A
  or_fail none e s = (err e, s)
  or_fail (some a) e s = (ok a, s)

  -- `?` on a result.
  abbrev pub try : ResultOf E A → ActionOf E S A
  try r s = (r, s)

  abbrev pub gets : (S → A) → ActionOf E S A
  gets f s = (ok (f s), s)

module _ {E S : Type 0} where
  abbrev pub modify : (S → S) → ActionOf E S (Unit {0})
  modify f s = (ok tt, f s)

infixl 5 ◌>>=◌ ◌>>◌
abbrev pub ◌>>=◌ : {E S A B : Type 0} → ActionOf E S A → (A → ActionOf E S B) → ActionOf E S B
◌>>=◌ m f s =
    let (r, s') = m s in elim r [ ok a ↦ f a s' | err e ↦ (err e, s') | panic ↦ (panic, s') ]

abbrev pub ◌>>◌ : {E S B : Type 0} → ActionOf E S (Unit {0}) → ActionOf E S B → ActionOf E S B
m >> k = m >>= λ _. k
