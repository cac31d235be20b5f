-- ===== src/Validator/Incoming.antt =====
-- `get_incoming_transaction_queue`: the queue that all instances of one process share, each item with
-- the number of the network namespace that it is for.
use rita.Common.{
  ℕ, zero, suc, ◌≤◌, ◌≡◌, refl, Bool, true, false, Option, none, some, List, [], ◌∷◌, ◌++◌, arith,
  ◌==◌,
}
use rita.Validator.State.{ToValidate}

abbrev pub Queue : Type 0
Queue = List (ℕ × ToValidate)

-- The loop, for at most so many rounds: `none` where it has not ended by then. An item for another
-- namespace goes back to the end of the queue.
unfoldable pub drain : ℕ → ℕ → List ToValidate → Queue → Option (List ToValidate × Queue)
drain our rounds ret [] = some (ret, [])
drain our zero ret (item ∷ queue) = none
drain our (suc rounds) ret ((netns, ts) ∷ queue) = elim (netns == our) [
  | true ↦ drain our rounds (ret ++ ts ∷ []) queue
  | false ↦ drain our rounds ret (queue ++ (netns, ts) ∷ [])
]

abbrev pub for_us : ℕ → List ToValidate → Queue
for_us our [] = []
for_us our (ts ∷ items) = (our, ts) ∷ for_us our items

abbrev pub size : Queue → ℕ
size [] = 0
size (item ∷ queue) = suc (size queue)

-- Whether an item waits for another namespace.
abbrev pub has_foreign : ℕ → Queue → Bool
has_foreign our [] = false
has_foreign our ((netns, ts) ∷ queue) = elim (netns == our) [
  | true ↦ has_foreign our queue
  | false ↦ true
]

append_assoc : (a b c : List ToValidate) → (a ++ b) ++ c ≡ a ++ (b ++ c)
append_assoc [] b c = refl
append_assoc (x ∷ a) b c = ground (arith, append_assoc a b c)

append_nil : (a : List ToValidate) → a ++ [] ≡ a
append_nil [] = refl
append_nil (x ∷ a) = ground (arith, append_nil a)

drain-for_us :
    (our rounds : ℕ) (ret items : List ToValidate)
    → size (for_us our items) ≤ rounds
    → drain our rounds ret (for_us our items) ≡ some (ret ++ items, [])
unfolding drain
drain-for_us our rounds ret [] enough = ground (arith, append_nil ret)
drain-for_us our zero ret (ts ∷ items) enough = ground arith
drain-for_us our (suc rounds) ret (ts ∷ items) enough =
    ground (arith, drain-for_us our rounds (ret ++ ts ∷ []) items, append_assoc ret (ts ∷ []) items)

-- Where every item is for us, as many rounds as there are items take them all, in their order, and
-- leave the queue empty.
pub drain_all :
    (our : ℕ) (items : List ToValidate)
    → drain our (size (for_us our items)) [] (for_us our items) ≡ some (items, [])
drain_all our items = drain-for_us our (size (for_us our items)) [] items (omega arith)

has_foreign-append :
    (our netns : ℕ) (ts : ToValidate) (queue : Queue)
    → (netns == our) ≡ false
    → has_foreign our (queue ++ (netns, ts) ∷ []) ≡ true
has_foreign-append our netns ts [] other = ground arith
has_foreign-append our netns ts ((m, us) ∷ queue) other =
    ground (arith, has_foreign-append our netns ts queue other)

-- While an item waits for another namespace the loop does not end, however many rounds it is given.
pub drain_never_ends :
    (our rounds : ℕ) (ret : List ToValidate) (queue : Queue)
    → has_foreign our queue ≡ true
    → drain our rounds ret queue ≡ none
unfolding drain
drain_never_ends our rounds ret [] foreign = ground arith
drain_never_ends our zero ret (item ∷ queue) foreign = refl
drain_never_ends our (suc rounds) ret ((netns, ts) ∷ queue) foreign = ground (
  arith,
  drain_never_ends our rounds (ret ++ ts ∷ []) queue,
  drain_never_ends our rounds ret (queue ++ (netns, ts) ∷ []),
  has_foreign-append our netns ts queue,
)
