-- ===== src/Watch/Tunnel/Evidence.antt =====
-- On what evidence the watchdog of src/main/ipc-handlers.ts declares a tunnel dead.
use katacomb_vpn.Prelude.{
  ◌==◌, ◌||◌, ℕ, suc, ◌+◌, ◌-◌, ◌*◌, ◌≡◌, ◌≤◌, ◌<◌, ◌⊎◌, ◌↔◌, inl, inr, refl, false, Option, none,
  some, List, [], ◌∷◌, arith, ltb, if◌then◌else◌, All, Bool-cases,
}
use katacomb_vpn.Watch.Tunnel.{
  Bytes, Mode, Tracking, stalled, note_bytes, judge_bytes, check_tunnel_stalled, judge_handshake,
  is_tunnel_one_way, is_wireguard_peer_gone, reset_one_way_tracking,
}

-- A look at the interface's counters.
pub record Look : Type 0 where
  pub at : ℕ
  pub seen : Bytes

-- The looks of a tunnel, the latest first, each in its tick.
abbrev pub watch : Mode → Tracking → List Look → Tracking
watch mode t [] = reset_one_way_tracking t
watch mode t (l ∷ ls) = (check_tunnel_stalled mode l.at (some l.seen) (watch mode t ls)).1

-- Some look saw the last bytes that came in: from it on nothing more came in.
abbrev pub IsSilentSince : Look → List Look → Type 0
IsSilentSince first [] = ⊥
IsSilentSince first (l ∷ ls) = (l.seen.rx ≤ first.seen.rx) × ((l ≡ first) ⊎ IsSilentSince first ls)

-- What the counters hold of the looks.
abbrev Tracks : List Look → Tracking → Type 0
Tracks ls s =
    ((ls ≡ []) × (s.last_rx_moved_at ≡ 0))
    ⊎ ((first : Look) × (s.last_rx_moved_at ≡ first.at)
        × (s.last_rx_bytes ≡ first.seen.rx)
        × (s.last_tx_at_rx ≡ first.seen.tx)
        × (0 < first.at)
        × IsSilentSince first ls)

-- The same once there was a look.
abbrev TracksSome : List Look → Tracking → Type 0
TracksSome ls s =
    (first : Look) × (s.last_rx_moved_at ≡ first.at)
    × (s.last_rx_bytes ≡ first.seen.rx)
    × (s.last_tx_at_rx ≡ first.seen.tx)
    × (0 < first.at)
    × IsSilentSince first ls

note_bytes-Tracks :
    (l : Look) (ls : List Look) (s : Tracking)
    → 0 < l.at
    → Tracks ls s
    → TracksSome (l ∷ ls) (note_bytes l.at l.seen s)
note_bytes-Tracks l ls s pos h =
    elim (Bool-cases ((s.last_rx_moved_at == 0) || ltb s.last_rx_bytes l.seen.rx)) [
      | inl e ↦ rw e (l, refl, refl, refl, pos, (omega arith, inl refl))
      | inr e ↦ rw e (stay h e)
    ]
  where
    stay :
        Tracks ls s
        → ((s.last_rx_moved_at == 0) || ltb s.last_rx_bytes l.seen.rx) ≡ false
        → (first : Look) × (s.last_rx_moved_at ≡ first.at)
          × (s.last_rx_bytes ≡ first.seen.rx)
          × (s.last_tx_at_rx ≡ first.seen.tx)
          × (0 < first.at)
          × IsSilentSince first (l ∷ ls)
    stay (inl (_, z)) e = absurd (ground arith)
    stay (inr (first, m, r, x, p, q)) e = (first, m, r, x, p, (ground arith, inr q))

judge_bytes-Tracks :
    (now : ℕ) (b : Bytes) (ls : List Look) (s : Tracking)
    → TracksSome ls s
    → TracksSome ls (judge_bytes now b s).1
judge_bytes-Tracks now b ls s h =
    elim (Bool-cases (is_tunnel_one_way (b.tx - s.last_tx_at_rx) (now - s.last_rx_moved_at))) [
      | inl e ↦ rw e h
      | inr e ↦ rw e h
    ]

-- Every look comes after the start of the clock.
abbrev HasTimes : List Look → Type 0
HasTimes ls = All (λ l. 0 < l.at) ls

watch-Tracks :
    (mode : Mode) (t : Tracking) (ls : List Look) → HasTimes ls → Tracks ls (watch mode t ls)
unfolding check_tunnel_stalled reset_one_way_tracking
watch-Tracks mode t [] h = inl (refl, refl)
watch-Tracks mode t (l ∷ ls) (pos, h) = inr (
    judge_bytes-Tracks l.at l.seen (l ∷ ls) (note_bytes l.at l.seen (watch mode t ls))
      (note_bytes-Tracks l ls (watch mode t ls) pos (watch-Tracks mode t ls h)))

judge_bytes-stalled :
    (l : Look) (ls : List Look) (s : Tracking)
    → TracksSome ls s
    → (judge_bytes l.at l.seen s).0 ≡ some stalled
    → (first : Look) × IsSilentSince first ls
      × (first.at + 90000 ≤ l.at)
      × (first.seen.tx + 65536 ≤ l.seen.tx)
      × ((judge_bytes l.at l.seen s).1.alive_until ≡ first.at)
judge_bytes-stalled l ls s (first, m, r, x, pos, q) e =
    (first, q, ground arith, ground arith, ground arith)

-- A tunnel is called stalled on evidence only: over whatever looks at its counters, there was one
-- since which for 90 seconds nothing more came in while at least 64 KiB went out, and the usage is
-- counted up to that look and not beyond.
pub check_tunnel_stalled-IsSilentSince :
    (mode : Mode) (t : Tracking) (l : Look) (ls : List Look)
    → HasTimes (l ∷ ls)
    → (check_tunnel_stalled mode l.at (some l.seen) (watch mode t ls)).0 ≡ some stalled
    → (first : Look) × IsSilentSince first (l ∷ ls)
      × (first.at + 90000 ≤ l.at)
      × (first.seen.tx + 65536 ≤ l.seen.tx)
      × ((check_tunnel_stalled mode l.at (some l.seen) (watch mode t ls)).1.alive_until ≡ first.at)
unfolding check_tunnel_stalled
check_tunnel_stalled-IsSilentSince mode t l ls (pos, h) e =
    judge_bytes-stalled l (l ∷ ls) (note_bytes l.at l.seen (watch mode t ls))
      (note_bytes-Tracks l ls (watch mode t ls) pos (watch-Tracks mode t ls h)) e

-- The answers of the daemon about one tunnel, the latest first, with their times.
abbrev pub probes : Tracking → List (ℕ × Option ℕ) → Tracking
probes t [] = reset_one_way_tracking t
probes t ((now, age) ∷ ps) = (judge_handshake now age (probes t ps)).1

-- How many of the latest answers in a row say that the peer is gone.
abbrev gone_in_a_row : List (ℕ × Option ℕ) → ℕ
gone_in_a_row [] = 0
gone_in_a_row ((now, age) ∷ ps) = if is_wireguard_peer_gone age then suc (gone_in_a_row ps) else 0

probes-stale :
    (t : Tracking) (ps : List (ℕ × Option ℕ))
    → (probes t ps).stale_handshake_ticks ≡ gone_in_a_row ps
unfolding judge_handshake reset_one_way_tracking
probes-stale t [] = refl
probes-stale t ((now, none) ∷ ps) = refl
probes-stale t ((now, some age) ∷ ps) = ground (arith, probes-stale t ps)

-- A WireGuard tunnel is stood down for its handshake exactly from the third answer in a row that is
-- at least 180 seconds old; an answer that is younger or missing starts the count again. The usage
-- is then counted up to the last sign of life at most, and never further than before.
judge_handshake-stalled_iff :
    (t : Tracking) (now : ℕ) (age : Option ℕ) (ps : List (ℕ × Option ℕ))
    → (((judge_handshake now age (probes t ps)).0 ≡ some stalled)
        ↔ (3 ≤ gone_in_a_row ((now, age) ∷ ps)))
      × ((judge_handshake now age (probes t ps)).1.alive_until ≤ (probes t ps).alive_until)
      × ((seconds : ℕ)
          → age ≡ some seconds
          → (judge_handshake now age (probes t ps)).0 ≡ some stalled
          → ((judge_handshake now age (probes t ps)).1.alive_until ≤ now - seconds * 1000)
            ⊎ ((judge_handshake now age (probes t ps)).1.alive_until
                ≤ (judge_handshake now age (probes t ps)).1.last_rx_moved_at))
unfolding judge_handshake
judge_handshake-stalled_iff t now none ps =
    (ground arith, omega arith, λ s e f. absurd (ground arith))
judge_handshake-stalled_iff t now (some age) ps =
    (ground (arith, probes-stale t ps), ground arith, λ s e f. ground arith)
