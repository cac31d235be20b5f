-- ===== src/ExitTraffic/Merge.antt =====
-- rita_exit/src/traffic_watcher/mod.rs: the counters of the two interfaces together have no key
-- twice, as a HashMap has none.
use rita.Common.{ℕ, ◌≡◌, ◌∙◌, false, Option, none, some, [], ◌∷◌, arith, ◌==◌, Bool-cases, inl, inr}
use rita.Common.Map.{lookup, insert, nat_key, lookup-insert_ne, lookup-nil}
use rita.Usage.{add_u64}
use rita.ExitTraffic.{WgUsage, Usages, merge_counters}
use rita.ExitTraffic.Billed.{Distinct}

absent :
    (i k : ℕ) (v : WgUsage) (m : Usages)
    → (i == k) ≡ false
    → lookup nat_key i m ≡ none
    → lookup nat_key i (insert nat_key k v m) ≡ none
absent i k v m h e = lookup-insert_ne nat_key k i v m (ground (arith, h)) ∙ e

insert-Distinct : (k : ℕ) (v : WgUsage) (m : Usages) → Distinct m → Distinct (insert nat_key k v m)
unfolding insert
insert-Distinct k v [] d = (lookup-nil nat_key k, tt)
insert-Distinct k v ((i, u) ∷ m) (new, d) = elim (Bool-cases (i == k)) [
  | inl h ↦ rw h (new, d)
  | inr h ↦ rw h (absent i k v m h new, insert-Distinct k v m d)
]

-- One counter of the second interface.
add_one : ℕ → WgUsage → Usages → Usages
unfolding add_u64
add_one k e ret = elim (lookup nat_key k ret) [
  | none ↦ insert nat_key k e ret
  | some usage ↦
      insert nat_key k
        (record {
          upload = add_u64 usage.upload e.upload;
          download = add_u64 usage.download e.download;
        })
        ret
]

add_one-Distinct : (k : ℕ) (e : WgUsage) (ret : Usages) → Distinct ret → Distinct (add_one k e ret)
unfolding add_one
add_one-Distinct k e ret d =
    elim (lookup nat_key k ret)
      as (λ (found : Option WgUsage). Distinct (elim found [
        | none ↦ insert nat_key k e ret
        | some usage ↦
            insert nat_key k
              (record {
                upload = add_u64 usage.upload e.upload;
                download = add_u64 usage.download e.download;
              })
              ret
      ])) [
        | none ↦ insert-Distinct k e ret d
        | some usage ↦
            insert-Distinct k
              (record {
                upload = add_u64 usage.upload e.upload;
                download = add_u64 usage.download e.download;
              })
              ret d
      ]

pub merge_counters-Distinct :
    (ret new_counters : Usages) → Distinct ret → Distinct (merge_counters ret new_counters)
unfolding merge_counters add_one
merge_counters-Distinct ret [] d = d
merge_counters-Distinct ret ((k, e) ∷ new_counters) d =
    merge_counters-Distinct (add_one k e ret) new_counters (add_one-Distinct k e ret d)
