-- ===== src/Forwarding/Write.antt =====
-- `write_all_spinlock` of antenna_forwarding_protocol/src/lib.rs. The stream is what each attempt
-- comes to, with the seconds since the start; what was written is kept with the outcome, which is
-- missing where the attempts given do not decide it.
use rita.Common.{
  ℕ, ◌≡◌, refl, sym, subst, ap, ◌∙◌, Bool, true, false, Option, none, some, List, [], ◌∷◌, ◌++◌,
  arith, ltb, ◌==◌, Option-cases, inl, inr, Bool-cases,
}
use rita.Common.Lists.{length, split_at, ++_assoc, ++_nil, split_at-++}
use rita.Outcome.{ResultOf, ok, err, panic}

pub data WriteError : Type 0 where
  space_allocation_error connection_down_error other_error : WriteError

-- What a write to the socket comes to.
pub data Attempt : Type 0 where
  wrote : ℕ → Attempt
  would_block failed : Attempt

abbrev pub spinlock_timeout : ℕ
spinlock_timeout = 600

abbrev pub Written : Type 0
Written = ResultOf WriteError (Unit {0}) × List ℕ

abbrev pub sent_before : List ℕ → Option Written → Option Written
sent_before front none = none
sent_before front (some (res, sent)) = some (res, front ++ sent)

unfoldable pub is_late : ℕ → Bool
is_late time = ltb spinlock_timeout time

unfoldable pub is_all : List ℕ → ℕ → Bool
is_all buffer bytes = length buffer == bytes

unfoldable pub is_none : ℕ → Bool
is_none bytes = bytes == 0

unfoldable pub write_loop : List ℕ → List (ℕ × Attempt) → Option Written
unfolding is_late is_all is_none
write_loop buffer [] = none
write_loop buffer ((time, attempt) ∷ attempts) = elim (is_late time) [
  | true ↦ some (err space_allocation_error, [])
  | false ↦ elim attempt [
    | failed ↦ some (err other_error, [])
    | would_block ↦ write_loop buffer attempts
    | wrote bytes ↦ elim (is_all buffer bytes) [
      | true ↦ some (ok tt, buffer)
      | false ↦ elim (is_none bytes) [
        | true ↦ some (err connection_down_error, [])
        | false ↦ elim (split_at bytes buffer) [
          | none ↦ some (panic, [])
          | some (front, back) ↦ sent_before front (write_loop back attempts)
        ]
      ]
    ]
  ]
]

-- `configured` is whether the stream could be made nonblocking and without delay.
unfoldable pub write_all_spinlock : Bool → List ℕ → List (ℕ × Attempt) → Option Written
unfolding write_loop
write_all_spinlock configured [] attempts = some (panic, [])
write_all_spinlock false (x ∷ xs) attempts = some (err other_error, [])
write_all_spinlock true (x ∷ xs) attempts = write_loop (x ∷ xs) attempts

-- What is written is the front of the buffer, and all of it where the outcome is `ok`.
abbrev pub Wrote : List ℕ → Written → Type 0
Wrote buffer (res, sent) = (rest : List ℕ) × ((buffer ≡ sent ++ rest) × (res ≡ ok tt → rest ≡ []))

abbrev Holds : List ℕ → Option Written → Type 0
Holds buffer none = Unit {0}
Holds buffer (some w) = Wrote buffer w

sent_before-Holds :
    (buffer front back : List ℕ) (w : Option Written)
    → buffer ≡ front ++ back
    → Holds back w
    → Holds buffer (sent_before front w)
sent_before-Holds buffer front back none e h = tt
sent_before-Holds buffer front back (some (res, sent)) e (rest, (s, r)) =
    (rest, (e ∙ ap (λ ys. front ++ ys) s ∙ sym (++_assoc front sent rest), r))

-- An attempt that writes nothing.
nothing-Wrote : (buffer : List ℕ) (e : WriteError) → Wrote buffer (err e, [])
nothing-Wrote buffer e = (buffer, (refl, λ p. ground arith))

panic-Wrote : (buffer : List ℕ) → Wrote buffer (panic, [])
panic-Wrote buffer = (buffer, (refl, λ p. ground arith))

write_loop-Holds :
    (buffer : List ℕ) (attempts : List (ℕ × Attempt)) → Holds buffer (write_loop buffer attempts)
unfolding write_loop
write_loop-Holds buffer [] = tt
write_loop-Holds buffer ((time, failed) ∷ attempts) = elim (Bool-cases (is_late time)) [
  | inl e ↦ rw (Holds, e) (nothing-Wrote buffer space_allocation_error)
  | inr e ↦ rw (Holds, e) (nothing-Wrote buffer other_error)
]
write_loop-Holds buffer ((time, would_block) ∷ attempts) = elim (Bool-cases (is_late time)) [
  | inl e ↦ rw (Holds, e) (nothing-Wrote buffer space_allocation_error)
  | inr e ↦ rw (Holds, e) (write_loop-Holds buffer attempts)
]
write_loop-Holds buffer ((time, wrote bytes) ∷ attempts) = elim (Bool-cases (is_late time)) [
  | inl e ↦ rw (Holds, e) (nothing-Wrote buffer space_allocation_error)
  | inr e ↦ elim (Bool-cases (is_all buffer bytes)) [
    | inl a ↦ rw (Holds, e, a) ([], (sym (++_nil buffer), λ p. refl))
    | inr a ↦ elim (Bool-cases (is_none bytes)) [
      | inl z ↦ rw (Holds, e, a, z) (nothing-Wrote buffer connection_down_error)
      | inr z ↦ elim (Option-cases (split_at bytes buffer)) [
        | inl n ↦ rw (Holds, e, a, z, n) (panic-Wrote buffer)
        | inr ((front, back), s) ↦
            rw (Holds, e, a, z, s)
              (sent_before-Holds buffer front back (write_loop back attempts)
                (split_at-++ bytes buffer front back s) (write_loop-Holds back attempts))
      ]
    ]
  ]
]

-- Where `write_all_spinlock` ends, what it wrote is the front of the buffer, in order, and where it
-- ends with `ok` it is all of the buffer.
pub write_all_spinlock-Wrote :
    (configured : Bool) (buffer : List ℕ) (attempts : List (ℕ × Attempt))
    (res : ResultOf WriteError (Unit {0})) (sent : List ℕ)
    → write_all_spinlock configured buffer attempts ≡ some (res, sent)
    → (rest : List ℕ) × ((buffer ≡ sent ++ rest) × (res ≡ ok tt → rest ≡ []))
unfolding write_all_spinlock
write_all_spinlock-Wrote configured [] attempts res sent e = subst (Holds []) e (panic-Wrote [])
write_all_spinlock-Wrote false (x ∷ xs) attempts res sent e =
    subst (Holds (x ∷ xs)) e (nothing-Wrote (x ∷ xs) other_error)
write_all_spinlock-Wrote true (x ∷ xs) attempts res sent e =
    subst (Holds (x ∷ xs)) e (write_loop-Holds (x ∷ xs) attempts)
