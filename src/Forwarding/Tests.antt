-- ===== src/Forwarding/Tests.antt =====
-- Examples of the antenna forwarding messages, with a JSON of a few bytes and a box that does not
-- hide anything.
use rita.Common.{
  true, ℕ, zero, suc, ◌≡◌, ◌⊎◌, inl, inr, refl, some, List, [], ◌∷◌, ◌++◌, arith, ◌==◌,
  if◌then◌else◌, String,
}
use rita.Common.Lists.{length, split_at}
use rita.Common.Bytes.{be_bytes}
use rita.Outcome.{ok}
use rita.Types.{v4}
use rita.Forwarding.{
  ForwardingProtocolMessage, Json, header, forward_message, connection_data_message,
  keep_alive_message, forwarding_close_message, make_serde_packet, get_message, read_message,
  connection_data_message_type,
}
use rita.Forwarding.RoundTrip.{read_message-get_message}
use rita.Forwarding.Sealed.{
  SealedBox, get_encrypted_forward_message, read_encrypted_forward_message,
  read_encrypted-get_encrypted,
}
use rita.Forwarding.Stream.{read_messages}
use rita.Forwarding.Stream.Burst.{Frames, AllSent, wire, quiet, messages_of, read_messages-burst}
use rita.Forwarding.Write.{Wrote, write_all_spinlock, wrote, would_block, write_all_spinlock-Wrote}

abbrev to_bytes : ForwardingProtocolMessage → List ℕ
to_bytes (forward_message (v4 a) p q) = 1 ∷ a ∷ p ∷ q ∷ []
to_bytes forwarding_close_message = 5 ∷ []
to_bytes keep_alive_message = 6 ∷ []
to_bytes (connection_data_message stream_id payload) = 4 ∷ stream_id ∷ payload
to_bytes _ = []

abbrev of_data : List ℕ → ForwardingProtocolMessage ⊎ String
of_data [] = inr "unexpected"
of_data (stream_id ∷ payload) = inl (connection_data_message stream_id payload)

abbrev of_forward : List ℕ → ForwardingProtocolMessage ⊎ String
of_forward (a ∷ p ∷ q ∷ []) = inl (forward_message (v4 a) p q)
of_forward _ = inr "unexpected"

abbrev from_bytes : List ℕ → ForwardingProtocolMessage ⊎ String
from_bytes [] = inr "unexpected"
from_bytes (t ∷ rest) =
    if t == 4
    then of_data rest
    else if t == 1
    then of_forward rest
    else if t == 5
    then inl forwarding_close_message
    else inl keep_alive_message

abbrev json : Json
json = record { to_vec = to_bytes; from_slice = from_bytes }

abbrev box : SealedBox
box = record {
  seal = λ plaintext nonce pk sk. plaintext;
  open_box = λ ciphertext nonce pk sk. some ciphertext;
}

abbrev data_bytes : List ℕ
data_bytes = header connection_data_message_type 10 ++ (be_bytes 8 7 ++ 1 ∷ 2 ∷ [])

abbrev zeros : ℕ → List ℕ
zeros zero = []
zeros (suc n) = 0 ∷ zeros n

read_message-get_message_example :
    read_message json (data_bytes ++ 9 ∷ []) ≡ ok (32, connection_data_message 7 (1 ∷ 2 ∷ []))
unfolding be_bytes header get_message
read_message-get_message_example =
    read_message-get_message json (connection_data_message 7 (1 ∷ 2 ∷ [])) data_bytes (9 ∷ []) refl
      (omega arith) (omega arith) refl

read_encrypted-get_encrypted_example :
    (bytes : List ℕ) × ((get_encrypted_forward_message json box
          (zeros 24)
          5
          6
          (forward_message (v4 1) 80 443)
        ≡ ok bytes)
      × (read_encrypted_forward_message json box (bytes ++ 9 ∷ []) 7 8
          ≡ ok (length bytes, forward_message (v4 1) 80 443)))
read_encrypted-get_encrypted_example =
    read_encrypted-get_encrypted json box (v4 1) 80 443 (zeros 24) (9 ∷ []) 7 5 6 8 refl
      (omega arith) (λ plaintext. refl) refl

abbrev keep_alive_bytes : List ℕ
keep_alive_bytes = make_serde_packet json 6 keep_alive_message

abbrev keep_alives : ℕ → Frames
keep_alives zero = []
keep_alives (suc n) = (keep_alive_message, keep_alive_bytes) ∷ keep_alives n

keep_alives-AllSent : (n : ℕ) → AllSent json (keep_alives n)
unfolding get_message be_bytes
keep_alives-AllSent zero = tt
keep_alives-AllSent (suc n) = ((refl, (omega arith, (tt, refl))), keep_alives-AllSent n)

read_messages-burst_example :
    read_messages json (some (wire (keep_alives 4)) ∷ quiet 3)
    ≡ some (ok (messages_of (keep_alives 4)), 2)
read_messages-burst_example =
    read_messages-burst json keep_alive_message keep_alive_bytes (keep_alives 3)
      (keep_alives-AllSent 4) (omega arith)

two_attempts :
    write_all_spinlock true (1 ∷ 2 ∷ 3 ∷ []) ((0, wrote 1) ∷ (1, would_block) ∷ (2, wrote 2) ∷ [])
    ≡ some (ok tt, 1 ∷ 2 ∷ 3 ∷ [])
unfolding write_all_spinlock split_at
two_attempts = refl

write_all_spinlock-Wrote_example : Wrote (1 ∷ 2 ∷ 3 ∷ []) (ok tt, 1 ∷ 2 ∷ 3 ∷ [])
write_all_spinlock-Wrote_example =
    write_all_spinlock-Wrote true (1 ∷ 2 ∷ 3 ∷ [])
      ((0, wrote 1) ∷ (1, would_block) ∷ (2, wrote 2) ∷ []) (ok tt) (1 ∷ 2 ∷ 3 ∷ []) two_attempts
