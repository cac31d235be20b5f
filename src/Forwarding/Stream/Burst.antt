-- ===== src/Forwarding/Stream/Burst.antt =====
-- Messages that arrive in one piece, read by `read_messages_internal` of
-- antenna_forwarding_protocol/src/lib.rs.
use rita.Common.{
  ℕ, zero, suc, ◌+◌, ◌-◌, ◌≡◌, ◌≢◌, ◌≤◌, ◌<◌, ◌⊎◌, inl, inr, refl, sym, ap, ◌∙◌, Option, none, some,
  List, [], ◌∷◌, ◌++◌, arith, ltb, subst, Bool-cases,
}
use rita.Common.Lists.{length, ++_assoc, ++_nil, split_at, split_at-length}
use rita.Common.Bytes.{capacity}
use rita.Outcome.{ok, err}
use rita.Forwarding.{ForwardingProtocolMessage, Json, get_message, read_message}
use rita.Forwarding.RoundTrip.{StreamFits, read_message-get_message}
use rita.Forwarding.Stream.{
  Reads, after, pauses, wait_time, read_messages_internal, read_messages, end_not_found_error,
}

-- Messages with their bytes, and the bytes of all of them.
abbrev pub Frames : Type 0
Frames = List (ForwardingProtocolMessage × List ℕ)

unfoldable pub wire : Frames → List ℕ
wire [] = []
wire ((m, bytes) ∷ frames) = bytes ++ wire frames

abbrev pub messages_of : Frames → List ForwardingProtocolMessage
messages_of [] = []
messages_of ((m, bytes) ∷ frames) = m ∷ messages_of frames

-- So many reads that bring nothing.
abbrev pub quiet : ℕ → Reads
quiet zero = []
quiet (suc n) = some [] ∷ quiet n

-- The pauses of reading on from a depth, for so many messages more.
abbrev pub all_pauses : ℕ → ℕ → ℕ
all_pauses depth zero = pauses wait_time depth + 0
all_pauses depth (suc n) = pauses wait_time depth + all_pauses (depth + 1) n

List-cases : {A : Type 0} (xs : List A) → (xs ≡ []) ⊎ ((x : A) × ((ys : List A) × (xs ≡ x ∷ ys)))
List-cases [] = inl refl
List-cases (x ∷ xs) = inr (x, (xs, refl))

module _ (json : Json) where
  -- Each message with what `get_message` makes of it, within the bounds of the format.
  abbrev pub IsSent : ForwardingProtocolMessage → List ℕ → Type 0
  IsSent m bytes =
      (get_message json m ≡ some bytes)
      × ((length bytes < capacity 4)
          × (StreamFits json m × (json.from_slice (json.to_vec m) ≡ inl m)))

  abbrev pub AllSent : Frames → Type 0
  AllSent [] = Unit {0}
  AllSent ((m, bytes) ∷ frames) = IsSent m bytes × AllSent frames

  IsSent-read :
      (m : ForwardingProtocolMessage) (bytes rest : List ℕ)
      → IsSent m bytes
      → read_message json (bytes ++ rest) ≡ ok (length bytes, m)
  IsSent-read m bytes rest (e, (l, (s, law))) = read_message-get_message json m bytes rest e l s law

  IsSent-nonempty :
      (m : ForwardingProtocolMessage) (bytes rest : List ℕ) → IsSent m bytes → bytes ++ rest ≢ []
  unfolding read_message
  IsSent-nonempty m [] rest h e =
      let r = subst (λ ys. read_message json ys ≡ ok (0, m)) e (IsSent-read m [] rest h) in
      ground arith
  IsSent-nonempty m (x ∷ xs) rest h e = ground arith

  -- One round, where the bytes at hand begin with a message.
  module _ (m : ForwardingProtocolMessage) (n : ℕ) (front new remaining : List ℕ) (reads : Reads)
      (done : List ForwardingProtocolMessage) (depth : ℕ) (last : Option ℕ)
      (early : depth ≤ wait_time) (whole : read_message json (remaining ++ new) ≡ ok (n, m)) where
    step-last :
        split_at n (remaining ++ new) ≡ some (front, [])
        → read_messages_internal json (some new ∷ reads) remaining done depth last
          ≡ some (ok (done ++ m ∷ []), pauses wait_time depth + 0)
    unfolding read_messages_internal
    step-last e = ground (arith, whole, e)

    step-more :
        (x : ℕ) (xs : List ℕ)
        → split_at n (remaining ++ new) ≡ some (front, x ∷ xs)
        → read_messages_internal json (some new ∷ reads) remaining done depth last
          ≡ after
              (pauses wait_time depth)
              (read_messages_internal json reads (x ∷ xs) (done ++ m ∷ []) (depth + 1) none)
    unfolding read_messages_internal
    step-more x xs e = ground (arith, whole, e)

  -- Past the limit there is no answer but the error.
  read-late :
      (reads : Reads) (remaining : List ℕ) (done : List ForwardingProtocolMessage) (depth : ℕ)
      (last : Option ℕ)
      → wait_time < depth
      → read_messages_internal json reads remaining done depth last
        ≡ some (err end_not_found_error, 0)
  unfolding read_messages_internal
  read-late [] remaining done depth last h = ground arith
  read-late (read ∷ reads) remaining done depth last h = ground arith

  -- What a round finds, where the bytes at hand are those of some messages.
  frame-read :
      (m : ForwardingProtocolMessage) (bytes rest at_hand : List ℕ)
      → IsSent m bytes
      → at_hand ≡ bytes ++ rest
      → (read_message json at_hand ≡ ok (length bytes, m))
        × (split_at (length bytes) at_hand ≡ some (bytes, rest))
  frame-read m bytes rest at_hand sent e = (
    ap (read_message json) e ∙ IsSent-read m bytes rest sent,
    ap (split_at (length bytes)) e ∙ split_at-length bytes rest,
  )

  read-burst :
      (m : ForwardingProtocolMessage) (bytes : List ℕ) (frames : Frames)
      (done : List ForwardingProtocolMessage) (depth : ℕ) (last : Option ℕ) (new remaining : List ℕ)
      → AllSent ((m, bytes) ∷ frames)
      → remaining ++ new ≡ bytes ++ wire frames
      → depth + length frames ≤ wait_time
      → read_messages_internal json (some new ∷ quiet (length frames)) remaining done depth last
        ≡ some (ok (done ++ m ∷ messages_of frames), all_pauses depth (length frames))
  unfolding wire
  read-burst m bytes [] done depth last new remaining (sent, h) e k =
      let (r, s) = frame-read m bytes [] (remaining ++ new) sent e in
      step-last m (length bytes) bytes new remaining [] done depth last (omega arith) r s
  read-burst m bytes ((m', bytes') ∷ frames) done depth last new remaining (sent, (sent', h)) e k =
      elim (List-cases (bytes' ++ wire frames)) [
        | inl nil ↦ absurd (IsSent-nonempty m' bytes' (wire frames) sent' nil)
        | inr (x, (xs, cons)) ↦
            (let (r, s) =
                frame-read m bytes (x ∷ xs) (remaining ++ new) sent
                  (e ∙ ap (λ ys. bytes ++ ys) cons) in
              step-more m (length bytes) bytes new remaining (quiet (suc (length frames))) done
                depth last (omega arith) r x xs s
              ∙ ap (after (pauses wait_time depth)) (
                  read-burst m' bytes' frames (done ++ m ∷ []) (depth + 1) none [] (x ∷ xs)
                    (sent', h) (++_nil (x ∷ xs) ∙ sym cons) (omega arith))
              ∙ ap (λ ms. some (ok ms, all_pauses depth (suc (length frames))))
                  (++_assoc done (m ∷ []) (m' ∷ messages_of frames)))
      ]

  read-too_many :
      (m : ForwardingProtocolMessage) (bytes : List ℕ) (frames : Frames)
      (done : List ForwardingProtocolMessage) (depth : ℕ) (last : Option ℕ) (new remaining : List ℕ)
      → AllSent ((m, bytes) ∷ frames)
      → remaining ++ new ≡ bytes ++ wire frames
      → depth ≤ wait_time
      → wait_time < depth + length frames
      → (n : ℕ) × (read_messages_internal json
            (some new ∷ quiet (length frames))
            remaining
            done
            depth
            last
          ≡ some (err end_not_found_error, n))
  unfolding wire
  read-too_many m bytes [] done depth last new remaining (sent, h) e l k = absurd (omega arith)
  read-too_many m bytes ((m', bytes') ∷ frames) done depth last new remaining (sent, (sent', h)) e l
        k =
      elim (List-cases (bytes' ++ wire frames)) [
        | inl nil ↦ absurd (IsSent-nonempty m' bytes' (wire frames) sent' nil)
        | inr (x, (xs, cons)) ↦
            (let (r, s) =
                frame-read m bytes (x ∷ xs) (remaining ++ new) sent
                  (e ∙ ap (λ ys. bytes ++ ys) cons) in
              let step =
                step-more m (length bytes) bytes new remaining (quiet (suc (length frames))) done
                  depth last (omega arith) r x xs s in
              elim (Bool-cases (ltb depth wait_time)) [
                | inl early ↦
                    (let (n, p) =
                        read-too_many m' bytes' frames (done ++ m ∷ []) (depth + 1) none [] (x ∷ xs)
                          (sent', h) (++_nil (x ∷ xs) ∙ sym cons) (ground arith) (ground arith) in
                      (_, step ∙ ap (after (pauses wait_time depth)) p))
                | inr late ↦ (
                  _,
                  step
                      ∙ ap (after (pauses wait_time depth)) (
                          read-late (quiet (suc (length frames))) (x ∷ xs) (done ++ m ∷ [])
                            (depth + 1) none (ground arith)),
                )
              ])
      ]

-- From the third round on there is a pause before each.
all_pauses-late : (depth n : ℕ) → 2 ≤ depth → depth + n ≤ wait_time → all_pauses depth n ≡ n + 1
unfolding pauses
all_pauses-late depth zero h k = ground arith
all_pauses-late depth (suc n) h k =
    ground (arith, all_pauses-late (depth + 1) n (omega arith) (omega arith))

all_pauses-from_start : (n : ℕ) → n ≤ wait_time → all_pauses 0 n ≡ n - 1
unfolding pauses
all_pauses-from_start zero h = omega arith
all_pauses-from_start (suc zero) h = ground arith
all_pauses-from_start (suc (suc n)) h =
    ground (arith, all_pauses-late 2 n (omega arith) (omega arith))

module _ (json : Json) where
  -- At least one and at most 601 messages, each as `get_message` writes it and within the bounds of
  -- the format, that arrive in the first read of a stream, after which nothing arrives, are all
  -- returned by `read_messages` in their order. It pauses once for each message after the second.
  pub read_messages-burst :
      (m : ForwardingProtocolMessage) (bytes : List ℕ) (frames : Frames)
      → AllSent json ((m, bytes) ∷ frames)
      → length frames ≤ wait_time
      → read_messages json (some (wire ((m, bytes) ∷ frames)) ∷ quiet (length frames))
        ≡ some (ok (m ∷ messages_of frames), length frames - 1)
  unfolding read_messages wire
  read_messages-burst m bytes frames h k =
      read-burst json m bytes frames [] 0 none (bytes ++ wire frames) [] h refl (omega arith)
      ∙ ap (λ n. some (ok (m ∷ messages_of frames), n)) (all_pauses-from_start (length frames) k)

  -- More than 601 messages, each as `get_message` writes it and within the bounds of the format,
  -- that arrive in the first read of a stream, after which nothing arrives, end in
  -- EndNotFoundError.
  pub read_messages-too_many :
      (m : ForwardingProtocolMessage) (bytes : List ℕ) (frames : Frames)
      → AllSent json ((m, bytes) ∷ frames)
      → wait_time < length frames
      → (n : ℕ) × (read_messages json (some (wire ((m, bytes) ∷ frames)) ∷ quiet (length frames))
          ≡ some (err end_not_found_error, n))
  unfolding read_messages wire
  read_messages-too_many m bytes frames h k =
      read-too_many json m bytes frames [] 0 none (bytes ++ wire frames) [] h refl (omega arith)
        (omega arith)
