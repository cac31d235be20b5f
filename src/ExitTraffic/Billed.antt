-- ===== src/ExitTraffic/Billed.antt =====
-- rita_exit/src/traffic_watcher/mod.rs: what the two loops over the counters bill to each client.
use rita.Common.{
  ℕ, ◌≡◌, ◌∙◌, refl, ap, false, Option, none, some, List, [], ◌∷◌, arith, ◌==◌, if◌then◌else◌,
  Option-cases, inl, inr, ◌⊎◌,
}
use rita.Common.Int.{ℤ, pos, ◌+ℤ◌, ◌-ℤ◌}
use rita.Common.Map.{lookup, insert, nat_key, lookup-insert_ne}
use rita.Types.{Identity}
use rita.Debts.{is_in, share, is_among}
use rita.ExitTraffic.{
  WgUsage, Usages, Prices, ExitSettings, Round, sub_u64, entry_of, input_value, output_value,
}

abbrev pub download_of : Option WgUsage → Option ℕ
download_of none = none
download_of (some u) = some u.download

abbrev pub upload_of : Option WgUsage → Option ℕ
upload_of none = none
upload_of (some u) = some u.upload

-- No key stands twice.
abbrev pub Distinct : Usages → Type 0
Distinct [] = Unit {0}
Distinct ((k, u) ∷ counters) = (lookup nat_key k counters ≡ none) × Distinct counters

other_key :
    (k i : ℕ) (u : WgUsage) (counters : Usages)
    → lookup nat_key k ((i, u) ∷ counters) ≡ none
    → ((k == i) ≡ false) × (lookup nat_key k counters ≡ none)
unfolding lookup
other_key k i u counters e = ground (arith, e)

module _ (settings : ExitSettings) (identities : List (ℕ × Identity)) (destinations : Prices)
    (peers : List Identity) (j : Identity) where
  -- What one counter bills to `j`, by the price of the client's route and the bytes that the
  -- history has: something where the key is that of a client with a route.
  abbrev pub client_share : ℕ → Option ℕ → (ℕ → ℕ → ℕ) → ℤ
  client_share wg_key before value = elim (lookup nat_key wg_key identities) [
    | none ↦ pos 0
    | some id ↦ elim (lookup nat_key wg_key destinations) [
      | none ↦ pos 0
      | some dest ↦ elim before [
        | none ↦ pos 0
        | some bytes ↦
            if is_among id peers then share id j (pos 0 -ℤ pos (value dest bytes)) else pos 0
      ]
    ]
  ]

  abbrev pub input_owed : Usages → Usages → ℤ
  input_owed history [] = pos 0
  input_owed history ((k, u) ∷ counters) =
      client_share k (download_of (lookup nat_key k history))
        (λ dest bytes. input_value settings (sub_u64 u.download bytes))
      +ℤ input_owed history counters

  abbrev pub output_owed : Usages → Usages → ℤ
  output_owed history [] = pos 0
  output_owed history ((k, u) ∷ counters) =
      client_share k (upload_of (lookup nat_key k history))
        (λ dest bytes. output_value settings dest (sub_u64 u.upload bytes))
      +ℤ output_owed history counters

  abbrev pub Same : Round → Type 0
  Same r = (i : Identity) → is_in i r.debts ≡ is_among i peers

  -- What the history of a key is does not matter to the other counters.
  pub input_owed-insert :
      (k : ℕ) (v : WgUsage) (history counters : Usages)
      → lookup nat_key k counters ≡ none
      → input_owed (insert nat_key k v history) counters ≡ input_owed history counters
  input_owed-insert k v history [] e = refl
  input_owed-insert k v history ((i, u) ∷ counters) e =
      let (apart, rest) = other_key k i u counters e in
      ap
        (λ z.
          client_share i (download_of z)
            (λ dest bytes. input_value settings (sub_u64 u.download bytes))
          +ℤ input_owed (insert nat_key k v history) counters)
        (lookup-insert_ne nat_key k i v history apart)
      ∙ ap
          (λ z.
            client_share i (download_of (lookup nat_key i history))
              (λ dest bytes. input_value settings (sub_u64 u.download bytes))
            +ℤ z)
          (input_owed-insert k v history counters rest)

  pub output_owed-insert :
      (k : ℕ) (v : WgUsage) (history counters : Usages)
      → lookup nat_key k counters ≡ none
      → output_owed (insert nat_key k v history) counters ≡ output_owed history counters
  output_owed-insert k v history [] e = refl
  output_owed-insert k v history ((i, u) ∷ counters) e =
      let (apart, rest) = other_key k i u counters e in
      ap
        (λ z.
          client_share i (upload_of z)
            (λ dest bytes. output_value settings dest (sub_u64 u.upload bytes))
          +ℤ output_owed (insert nat_key k v history) counters)
        (lookup-insert_ne nat_key k i v history apart)
      ∙ ap
          (λ z.
            client_share i (upload_of (lookup nat_key i history))
              (λ dest bytes. output_value settings dest (sub_u64 u.upload bytes))
            +ℤ z)
          (output_owed-insert k v history counters rest)

  -- The history after one counter has other downloads, but for its key, and the same uploads.
  abbrev pub SameUploads : Usages → Usages → Type 0
  SameUploads h h' = (k : ℕ) → upload_of (lookup nat_key k h') ≡ upload_of (lookup nat_key k h)

  pub output_owed-SameUploads :
      (h h' counters : Usages) → SameUploads h h' → output_owed h' counters ≡ output_owed h counters
  output_owed-SameUploads h h' [] same = refl
  output_owed-SameUploads h h' ((i, u) ∷ counters) same =
      ap
        (λ z.
          client_share i z (λ dest bytes. output_value settings dest (sub_u64 u.upload bytes))
          +ℤ output_owed h' counters)
        (same i)
      ∙ ap
          (λ z.
            client_share i (upload_of (lookup nat_key i h))
              (λ dest bytes. output_value settings dest (sub_u64 u.upload bytes))
            +ℤ z)
          (output_owed-SameUploads h h' counters same)

  pub entry_of-some :
      (k : ℕ) (history : Usages) (id : Identity) (dest : ℕ) (usage : WgUsage)
      → entry_of settings identities destinations k history ≡ some (id, dest, usage)
      → (lookup nat_key k identities ≡ some id)
        × (lookup nat_key k destinations ≡ some dest)
        × (lookup nat_key k history ≡ some usage)
  unfolding entry_of
  entry_of-some k history id dest usage e = ground (arith, e)

  pub entry_of-none :
      (k : ℕ) (history : Usages) (value : ℕ → ℕ → ℕ)
      → entry_of settings identities destinations k history ≡ none
      → (client_share k (download_of (lookup nat_key k history)) value ≡ pos 0)
        × (client_share k (upload_of (lookup nat_key k history)) value ≡ pos 0)
  unfolding entry_of
  entry_of-none k history value e = ground (arith, e)

  pub entry_of-cases :
      (k : ℕ) (history : Usages)
      → (entry_of settings identities destinations k history ≡ none)
        ⊎ ((id : Identity) × (dest : ℕ) × (usage : WgUsage) × (entry_of settings identities
                destinations k history
              ≡ some (id, dest, usage)))
  entry_of-cases k history =
      elim (Option-cases (entry_of settings identities destinations k history)) [
        | inl h ↦ inl h
        | inr ((id, dest, usage), h) ↦ inr (id, dest, usage, h)
      ]
