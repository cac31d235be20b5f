-- ===== src/Forwarding/Stream.antt =====
-- The messages of a stream, in antenna_forwarding_protocol/src/lib.rs. A stream is what its reads
-- bring, one after the other, `none` where a read fails; the outcome comes with the number of pauses
-- of a tenth of a second, and is missing where the reads given do not decide it.
pub mod Burst
use rita.Common.{
  ℕ, ◌+◌, ◌<◌, Bool, true, false, ◌&&◌, Option, none, some, List, [], ◌∷◌, ◌++◌, ltb, leb,
  if◌then◌else◌,
}
use rita.Common.Lists.{length, split_at}
use rita.Outcome.{ResultOf, ok, err, panic}
use rita.Forwarding.{
  ForwardingProtocolError, ForwardingProtocolMessage, Json, Reading, slice_too_small, read_message,
  forwarding_close_message,
}
use rita.Forwarding.Sealed.{SealedBox, read_encrypted_forward_message}

pub data AntennaForwardingError : Type 0 where
  message_write_error end_not_found_error impossible_error : AntennaForwardingError
  double_read_failure : (a b : ForwardingProtocolError) → AntennaForwardingError
  unparsed_bytes_error :
      (messages : List ForwardingProtocolMessage) (remaining_bytes : List ℕ)
      → AntennaForwardingError

abbrev pub Messages : Type 0
Messages = ResultOf AntennaForwardingError (List ForwardingProtocolMessage)

abbrev pub Reads : Type 0
Reads = List (Option (List ℕ))

abbrev pub wait_time : ℕ
wait_time = 600

-- The limit of the start of a stream.
abbrev pub start_wait_time : ℕ
start_wait_time = 10

-- The pause before a read that is not the first or the second.
unfoldable pub pauses : ℕ → ℕ → ℕ
pauses limit depth = if ltb 1 depth && leb depth limit then 1 else 0

abbrev pub after : ℕ → Option (Messages × ℕ) → Option (Messages × ℕ)
after n none = none
after n (some (res, m)) = some (res, n + m)

-- The bytes there were, where more are expected.
abbrev pub unfinished : ForwardingProtocolError → Option ℕ
unfinished (slice_too_small expected actual) = some actual
unfinished _ = none

abbrev pub next_depth : ℕ → Option ℕ → ℕ → ℕ
next_depth actual none depth = depth + 1
next_depth actual (some last_actual) depth = if ltb last_actual actual then 0 else depth + 1

module _ (json : Json) where
  unfoldable pub read_messages_internal :
      Reads
      → (remaining_bytes : List ℕ) → List ForwardingProtocolMessage
      → (depth : ℕ) → (last_read_bytes : Option ℕ) → Option (Messages × ℕ)
  unfolding pauses
  read_messages_internal [] remaining messages depth last = elim (ltb wait_time depth) [
    | true ↦ some (err end_not_found_error, 0)
    | false ↦ none
  ]
  read_messages_internal (read ∷ reads) remaining messages depth last = elim (ltb wait_time depth) [
    | true ↦ some (err end_not_found_error, 0)
    | false ↦ after (pauses wait_time depth) (elim read [
      | none ↦ some (err message_write_error, 0)
      | some new ↦ elim (read_message json (remaining ++ new)) [
        | panic ↦ some (panic, 0)
        | ok (bytes, msg) ↦ elim (split_at bytes (remaining ++ new)) [
          | none ↦ some (panic, 0)
          | some (front, []) ↦ some (ok (messages ++ msg ∷ []), 0)
          | some (front, x ∷ xs) ↦
              read_messages_internal reads (x ∷ xs) (messages ++ msg ∷ []) (depth + 1) none
        ]
        | err e ↦ elim (unfinished e) [
          | some actual ↦
              read_messages_internal reads (remaining ++ new) messages
                (next_depth actual last depth) (some actual)
          | none ↦ elim (remaining ++ new) [
            | [] ↦ some (ok messages, 0)
            | x ∷ xs ↦ some (err (unparsed_bytes_error messages (x ∷ xs)), 0)
          ]
        ]
      ]
    ])
  ]

  unfoldable pub read_messages : Reads → Option (Messages × ℕ)
  unfolding read_messages_internal
  read_messages reads = read_messages_internal reads [] [] 0 none

abbrev is_close : ForwardingProtocolMessage → Bool
is_close forwarding_close_message = true
is_close _ = false

-- What the match on the two readings does: an answer, the rest of the stream behind a forward
-- message, or another round.
pub data Opening : Type 0 where
  answer : Messages → Opening
  forwarded : ℕ → ForwardingProtocolMessage → Opening
  again : Opening

abbrev pub with_message : ForwardingProtocolMessage → Reading → Opening
with_message msg panic = answer panic
with_message msg (ok (bytes_read, forward)) =
    if is_close msg
    then answer (ok (forwarding_close_message ∷ []))
    else forwarded bytes_read forward
with_message msg (err b) =
    if is_close msg
    then answer (ok (forwarding_close_message ∷ []))
    else elim (unfinished b) [ none ↦ answer (err impossible_error) | some actual ↦ again ]

abbrev pub with_error : ForwardingProtocolError → Reading → Opening
with_error a panic = answer panic
with_error a (ok (bytes_read, forward)) = forwarded bytes_read forward
with_error a (err b) = elim (unfinished a) [
  | some actual ↦ again
  | none ↦ elim (unfinished b) [
    | some actual ↦ again
    | none ↦ answer (err (double_read_failure a b))
  ]
]

unfoldable pub open_start : Reading → Reading → Opening
open_start panic sealed = answer panic
open_start (ok (bytes, msg)) sealed = with_message msg sealed
open_start (err a) sealed = with_error a sealed

module _ (json : Json) (box : SealedBox) (server_publickey client_secretkey : ℕ) where
  unfoldable pub read_messages_start_internal :
      Reads → (bytes : List ℕ) → (depth : ℕ) → Option (Messages × ℕ)
  unfolding pauses open_start read_messages_internal
  read_messages_start_internal [] bytes depth = elim (ltb start_wait_time depth) [
    | true ↦ some (err end_not_found_error, 0)
    | false ↦ none
  ]
  read_messages_start_internal (read ∷ reads) bytes depth = elim (ltb start_wait_time depth) [
    | true ↦ some (err end_not_found_error, 0)
    | false ↦ after (pauses start_wait_time depth) (elim read [
      | none ↦ some (err message_write_error, 0)
      | some new ↦
          elim (open_start (read_message json (bytes ++ new)) (
            read_encrypted_forward_message json box (bytes ++ new) server_publickey
              client_secretkey)) [
                | answer res ↦ some (res, 0)
                | again ↦ read_messages_start_internal reads (bytes ++ new) (depth + 1)
                | forwarded bytes_read msg ↦ elim (split_at bytes_read (bytes ++ new)) [
                  | none ↦ some (panic, 0)
                  | some (front, rest) ↦ read_messages_internal json reads rest (msg ∷ []) 0 none
                ]
              ]
    ])
  ]

  unfoldable pub read_messages_start : Reads → Option (Messages × ℕ)
  unfolding read_messages_start_internal
  read_messages_start reads = read_messages_start_internal reads [] 0
