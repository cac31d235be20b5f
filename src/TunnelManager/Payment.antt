-- ===== src/TunnelManager/Payment.antt =====
-- Who has paid, and the limits of the interfaces, in rita_common/src/tunnel_manager/mod.rs. The
-- traffic control of the kernel is a parameter: its state, whether an interface has a limit, and the
-- two commands that change it, each of which may fail, with the state that it leaves then.
use rita.Common.{
  ℕ, ◌≡◌, sym, ap, subst, ◌∙◌, Bool, true, false, not, ◌&&◌, Option, none, some, List, [], ◌∷◌,
  arith, ◌==◌, if◌then◌else◌, map, Option-cases, Bool-cases, inl, inr,
}
use mathlib.Core.List.{Memᴰ}
use rita.Common.Map.{lookup, insert, lookup-insert_self}
use rita.Types.{identity_key}
use rita.DebtKeeper.Keeper.{TunnelAction, paid_on_time, payment_overdue, TunnelChange}
use rita.TunnelManager.{Tunnel, Tunnels, PaymentState, paid, overdue, tunnels_at}

unfoldable pub change_state : TunnelAction → Tunnel → Tunnel
change_state action t = elim action [
  | paid_on_time ↦ elim t.payment_state [
    | paid ↦ t
    | overdue ↦ record t { payment_state = paid; speed_limit = none }
  ]
  | payment_overdue ↦ elim t.payment_state [
    | paid ↦ record t { payment_state = overdue }
    | overdue ↦ t
  ]
]

abbrev pub is_overdue : PaymentState → Bool
is_overdue paid = false
is_overdue overdue = true

abbrev pub state_after : TunnelAction → PaymentState
state_after paid_on_time = paid
state_after payment_overdue = overdue

pub record Kernel (S : Type 0) : Type 0 where
  pub has_limit : ℕ → S → Option Bool
  pub set_classless_limit : ℕ → ℕ → S → Bool × S
  pub set_codel_shaping : ℕ → S → Bool × S

module _ {S : Type 0} (kernel : Kernel S) (free_tier_throughput : ℕ) (payment_issues : Bool) where
  -- Of one tunnel, with whether no call failed.
  unfoldable pub limit_one : Tunnel → S → Bool × S
  limit_one t s = elim (kernel.has_limit t.iface_name s) [
    | none ↦ (false, s)
    | some has_limit ↦
        if is_overdue t.payment_state && not has_limit && not payment_issues
        then kernel.set_classless_limit t.iface_name free_tier_throughput s
        else if not (is_overdue t.payment_state) && has_limit
        then kernel.set_codel_shaping t.iface_name s
        else (true, s)
  ]

  -- With whether all went well: the first failure ends it.
  unfoldable pub tunnel_bw_limit_update : List Tunnel → S → Bool × S
  tunnel_bw_limit_update [] s = (true, s)
  tunnel_bw_limit_update (t ∷ tunnels) s =
      let (fine, s') = limit_one t s in
      let rest = tunnel_bw_limit_update tunnels s' in if fine then rest else (false, s')

  unfoldable pub tunnel_payment_state_change : TunnelChange → Tunnels × S → Tunnels × S
  unfolding tunnel_bw_limit_update change_state
  tunnel_payment_state_change msg (tunnels, s) = elim (lookup identity_key msg.identity tunnels) [
    | none ↦ (tunnels, s)
    | some ts ↦
        (let ts' = map (change_state msg.action) ts in
          (insert identity_key msg.identity ts' tunnels, (tunnel_bw_limit_update ts' s).1))
  ]

-- Afterwards a tunnel of the node is in the state of the action.
change_state-after :
    (action : TunnelAction) (t : Tunnel)
    → (change_state action t).payment_state ≡ state_after action
unfolding change_state
change_state-after action t = ground arith

-- What the two commands do to the limits of the interfaces.
module _ {S : Type 0} (kernel : Kernel S) (bw : ℕ)
    (classless : (i j : ℕ) (s s' : S)
      → kernel.set_classless_limit i bw s ≡ (true, s')
      → kernel.has_limit j s' ≡ (if i == j then some true else kernel.has_limit j s))
    (codel : (i j : ℕ) (s s' : S)
      → kernel.set_codel_shaping i s ≡ (true, s')
      → kernel.has_limit j s' ≡ (if i == j then some false else kernel.has_limit j s)) where
  -- Every tunnel of a list is in one state.
  abbrev AllIn : PaymentState → List Tunnel → Type 0
  AllIn state [] = Unit {0}
  AllIn state (t ∷ tunnels) = (t.payment_state ≡ state) × AllIn state tunnels

  limit_one-sets :
      (t : Tunnel) (s s' : S)
      → limit_one kernel bw false t s ≡ (true, s')
      → kernel.has_limit t.iface_name s' ≡ some (is_overdue t.payment_state)
  unfolding limit_one
  limit_one-sets t s s' e =
      let i = t.iface_name in
      elim (Option-cases (kernel.has_limit i s)) [
        | inl n ↦ ground (arith, e, n)
        | inr (l, n) ↦ ground (arith, e, n, classless i i s s', codel i i s s')
      ]

  limit_one-keeps :
      (t : Tunnel) (j : ℕ) (s s' : S)
      → limit_one kernel bw false t s ≡ (true, s')
      → kernel.has_limit j s ≡ some (is_overdue t.payment_state)
      → kernel.has_limit j s' ≡ some (is_overdue t.payment_state)
  unfolding limit_one
  limit_one-keeps t j s s' e h =
      let i = t.iface_name in
      elim (Option-cases (kernel.has_limit i s)) [
        | inl n ↦ ground (arith, e, n)
        | inr (l, n) ↦ ground (arith, e, n, h, classless i j s s', codel i j s s')
      ]

  update-step :
      (t : Tunnel) (ts : List Tunnel) (s mid : S)
      → limit_one kernel bw false t s ≡ (true, mid)
      → tunnel_bw_limit_update kernel bw false (t ∷ ts) s
        ≡ tunnel_bw_limit_update kernel bw false ts mid
  unfolding tunnel_bw_limit_update
  update-step t ts s mid n = ground (arith, n)

  update-fails :
      (t : Tunnel) (ts : List Tunnel) (s : S)
      → (limit_one kernel bw false t s).0 ≡ false
      → (tunnel_bw_limit_update kernel bw false (t ∷ ts) s).0 ≡ false
  unfolding tunnel_bw_limit_update
  update-fails t ts s n = ground (arith, n)

  update-keeps :
      (state : PaymentState) (ts : List Tunnel) (j : ℕ) (s s' : S)
      → AllIn state ts
      → tunnel_bw_limit_update kernel bw false ts s ≡ (true, s')
      → kernel.has_limit j s ≡ some (is_overdue state)
      → kernel.has_limit j s' ≡ some (is_overdue state)
  unfolding tunnel_bw_limit_update
  update-keeps state [] j s s' a e h =
      subst (λ x. kernel.has_limit j x ≡ some (is_overdue state)) (ap (λ u. u.1) e) h
  update-keeps state (t ∷ ts) j s s' (p, a) e h =
      let mid = (limit_one kernel bw false t s).1 in
      elim (Bool-cases (limit_one kernel bw false t s).0) [
        | inr n ↦ ground (arith, e, update-fails t ts s n)
        | inl fine ↦
            let n : limit_one kernel bw false t s ≡ (true, mid) = ap (λ b. (b, mid)) fine in
            update-keeps state ts j mid s' a (sym (update-step t ts s mid n) ∙ e) (
              subst (λ st. kernel.has_limit j mid ≡ some (is_overdue st)) p
                (limit_one-keeps t j s mid n
                  (subst (λ st. kernel.has_limit j s ≡ some (is_overdue st)) (sym p) h)))
      ]

  -- After an update that does not fail, each interface has a limit just if the node has not paid.
  pub update-limits :
      (state : PaymentState) (ts : List Tunnel) (t : Tunnel) (s s' : S)
      → AllIn state ts
      → Memᴰ t ts
      → tunnel_bw_limit_update kernel bw false ts s ≡ (true, s')
      → kernel.has_limit t.iface_name s' ≡ some (is_overdue state)
  unfolding tunnel_bw_limit_update
  update-limits state [] t s s' a mem e = elim mem [ ]
  update-limits state (x ∷ ts) t s s' (p, a) (Memᴰ.head h) e =
      let mid = (limit_one kernel bw false x s).1 in
      elim (Bool-cases (limit_one kernel bw false x s).0) [
        | inr n ↦ ground (arith, e, update-fails x ts s n)
        | inl fine ↦
            let n : limit_one kernel bw false x s ≡ (true, mid) = ap (λ b. (b, mid)) fine in
            subst (λ y. kernel.has_limit y.iface_name s' ≡ some (is_overdue state)) (sym h)
              (update-keeps state ts x.iface_name mid s' a (sym (update-step x ts s mid n) ∙ e) (
                subst (λ st. kernel.has_limit x.iface_name mid ≡ some (is_overdue st)) p
                  (limit_one-sets x s mid n)))
      ]
  update-limits state (x ∷ ts) t s s' (p, a) (Memᴰ.tail mem) e =
      let mid = (limit_one kernel bw false x s).1 in
      elim (Bool-cases (limit_one kernel bw false x s).0) [
        | inr n ↦ ground (arith, e, update-fails x ts s n)
        | inl fine ↦
            let n : limit_one kernel bw false x s ≡ (true, mid) = ap (λ b. (b, mid)) fine in
            update-limits state ts t mid s' a mem (sym (update-step x ts s mid n) ∙ e)
      ]

  map-AllIn :
      (action : TunnelAction) (ts : List Tunnel)
      → AllIn (state_after action) (map (change_state action) ts)
  map-AllIn action [] = tt
  map-AllIn action (t ∷ ts) = (change_state-after action t, map-AllIn action ts)

  AllIn-state :
      (state : PaymentState) (ts : List Tunnel) (t : Tunnel)
      → AllIn state ts
      → Memᴰ t ts
      → t.payment_state ≡ state
  AllIn-state state [] t a mem = elim mem [ ]
  AllIn-state state (x ∷ ts) t (p, a) (Memᴰ.head h) = subst (λ y. y.payment_state ≡ state) (sym h) p
  AllIn-state state (x ∷ ts) t (p, a) (Memᴰ.tail mem) = AllIn-state state ts t a mem

  module _ (msg : TunnelChange) (tunnels : Tunnels) (ts : List Tunnel) (s : S)
      (e : lookup identity_key msg.identity tunnels ≡ some ts) where
    abbrev changed : List Tunnel
    changed = map (change_state msg.action) ts

    abbrev after : Tunnels × S
    after = tunnel_payment_state_change kernel bw false msg (tunnels, s)

    after-tunnels_at : tunnels_at msg.identity after.0 ≡ changed
    unfolding tunnel_payment_state_change
    after-tunnels_at =
        ground (arith, e, lookup-insert_self identity_key msg.identity changed tunnels)

    after-update : after.1 ≡ (tunnel_bw_limit_update kernel bw false changed s).1
    unfolding tunnel_payment_state_change
    after-update = ground (arith, e)

    -- After a message for a node that has tunnels, where the kernel works as it says, no call of it
    -- fails and no payment issue is detected, each tunnel of the node is in the payment state of
    -- the action, and its interface has a limit exactly when the node has not paid.
    pub state_change-limits :
        (t : Tunnel)
        → (tunnel_bw_limit_update kernel bw false changed s).0 ≡ true
        → Memᴰ t (tunnels_at msg.identity after.0)
        → (t.payment_state ≡ state_after msg.action)
          × (kernel.has_limit t.iface_name after.1 ≡ some (is_overdue (state_after msg.action)))
    state_change-limits t works mem =
        let here = subst (Memᴰ t) after-tunnels_at mem in
        let s' = (tunnel_bw_limit_update kernel bw false changed s).1 in
        let all = map-AllIn msg.action ts in
        (
          AllIn-state (state_after msg.action) changed t all here,
          subst (λ x. kernel.has_limit t.iface_name x ≡ some (is_overdue (state_after msg.action)))
              (sym after-update)
              (update-limits (state_after msg.action) changed t s s' all here
                (ap (λ b. (b, s')) works)),
        )
