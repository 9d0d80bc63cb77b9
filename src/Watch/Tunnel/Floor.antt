-- ===== src/Watch/Tunnel/Floor.antt =====
-- The usage that src/main/ipc-handlers.ts remembers for a session, and which of what it remembers
-- may be forgotten (`prunableUsageIds` of src/main/vpn/connect-decisions.ts).
use katacomb_vpn.Prelude.{
  ℕ, zero, suc, ◌+◌, ◌-◌, ◌≡◌, ◌≤◌, ◌<◌, ◌≢◌, ◌↔◌, refl, Bool, true, not, ◌&&◌, Option, none, some,
  List, [], ◌∷◌, arith, any, Mem, mem-filter, mem-of-filter,
}
use katacomb_vpn.Watch.Tunnel.{
  tunnel, proxy, Tracking, Usage, dropped, check_tunnel_stalled, connected_alive,
  remember_usage_for, prunable_usage_ids, is_active,
}

-- A tunnel interface that is gone adds nothing to the usage, however late the tick comes; in local
-- proxy mode, where there is none, the usage goes on up to the tick.
remember_usage_for-check_tunnel_stalled :
    (now later connected : ℕ) (base : Usage) (t : Tracking)
    → 0 < connected
    → connected ≤ now
    → ((check_tunnel_stalled tunnel now none t).0 ≡ some dropped)
      × ((remember_usage_for now
            (some connected)
            none
            base
            (check_tunnel_stalled tunnel now none t).1).duration
          ≤ base.duration + (t.alive_until - connected))
      × ((remember_usage_for
            (now + later)
            (some connected)
            none
            base
            (check_tunnel_stalled proxy now none t).1).duration
          ≡ base.duration + (now - connected))
unfolding remember_usage_for check_tunnel_stalled connected_alive
remember_usage_for-check_tunnel_stalled now later zero base t h k = absurd (omega arith)
remember_usage_for-check_tunnel_stalled now later (suc at) base t h k =
    (refl, ground arith, ground arith)

module _ {Key : Type 0} (same : Key → Key → Bool)
    (same_iff : (a b : Key) → (same a b ≡ true) ↔ (a ≡ b)) where
  mem-any : (id : Key) (xs : List Key) → (any (λ l. same l id) xs ≡ true) ↔ Mem id xs
  mem-any id [] = ((λ e. cc), λ m. absurd m)
  mem-any id (x ∷ xs) = ground (arith, same_iff x id, mem-any id xs)

  is_active_iff :
      (active : Option Key) (id : Key) → (is_active same active id ≡ true) ↔ (active ≡ some id)
  is_active_iff none id = ground arith
  is_active_iff (some a) id = ground (arith, same_iff a id)

  -- What is forgotten are exactly the remembered sessions that are neither among the rows nor the
  -- active one, and only when there are rows at all.
  mem-prunable_usage_ids_iff :
      (remembered live : List Key) (active : Option Key) (id : Key)
      → Mem id (prunable_usage_ids same remembered live active)
        ↔ (Mem id remembered × (live ≢ []) × (Mem id live → ⊥) × (active ≢ some id))
  unfolding prunable_usage_ids
  mem-prunable_usage_ids_iff remembered [] active id =
      (λ m. absurd m, λ (m, ne, n, r). absurd (ne refl))
  mem-prunable_usage_ids_iff remembered (x ∷ xs) active id = ground (
    arith,
    mem-any id (x ∷ xs),
    is_active_iff active id,
    mem-of-filter (λ id. not (any (λ l. same l id) (x ∷ xs)) && not (is_active same active id))
        {x = id} remembered,
    mem-filter (λ id. not (any (λ l. same l id) (x ∷ xs)) && not (is_active same active id))
        {x = id} remembered,
  )
