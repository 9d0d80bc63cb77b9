-- ===== src/Guard/Endpoint/Pinning.antt =====
-- `pinWireguardEndpoint` and `extractWireguardEndpointHost` of src/main/config-guard.ts: what is read
-- out of a text that was pinned.
use katacomb_vpn.Prelude.{
  ℕ, ◌≡◌, refl, sym, ap, ◌∙◌, subst, ◌≢◌, inl, inr, true, false, not, ◌&&◌, Option, none, some,
  List, [], ◌∷◌, ◌++◌, map, arith, if◌then◌else◌, Bool-cases, if_both, all,
}
use katacomb_vpn.Guard.Text.{
  join_with, Text, is_empty, trim, split_at, cut_first, cut_last, starts_with,
}
use katacomb_vpn.Guard.Text.Trimming.{has, has-append, lacks-trim}
use katacomb_vpn.Guard.Text.Pieces.{
  and-right, lacks, split_at-join_with, split_at-nonempty, split_at-lacks, cut_first-some,
}
use katacomb_vpn.Guard.Text.Cuts.{cut_last-some}
use katacomb_vpn.Guard.Bypass.{is_ipv4}
use katacomb_vpn.Guard.Endpoint.{
  is_endpoint_key, extract_from, extract_wireguard_endpoint_host, pin_resolved, pin_host, pin_cut,
  pin_line, pin_wireguard_endpoint,
}
use katacomb_vpn.Guard.Endpoint.Addresses.{ipv4_lacks_newline}
use katacomb_vpn.Guard.Endpoint.Lines.{expected_from, extract_from-map}

-- Where a character is not in a whole, it is in no part.
lacks_parts : (c : ℕ) (a b : Text) → has c (a ++ b) ≡ false → (has c a ≡ false) × (has c b ≡ false)
lacks_parts c a b h = ground (arith, has-append c a b)

lacks_rest : (c d : ℕ) (t : Text) → has c (d ∷ t) ≡ false → has c t ≡ false
lacks_rest c d t h = ground arith

module _ (resolve : Text → Option Text) where
  pinned_lacks :
      (raw before port : Text) (o : Option Text)
      → has 10 raw ≡ false
      → has 10 before ≡ false
      → has 10 port ≡ false
      → has 10 (pin_resolved resolve raw before port o) ≡ false
  pinned_lacks raw before port none r b p = r
  pinned_lacks raw before port (some ip) r b p = elim (Bool-cases (is_ipv4 ip)) [
    | inl v ↦
        subst
          (λ x. has 10 (if not x then raw else before ++ (61 ∷ 32 ∷ (ip ++ (58 ∷ port)))) ≡ false)
          (sym v)
          (rw (has-append 10 before (61 ∷ 32 ∷ (ip ++ (58 ∷ port))))
            (rw (b) (rw (has-append 10 ip (58 ∷ port)) (rw (ipv4_lacks_newline ip v) p))))
    | inr v ↦
        subst
          (λ x. has 10 (if not x then raw else before ++ (61 ∷ 32 ∷ (ip ++ (58 ∷ port)))) ≡ false)
          (sym v) r
  ]

  host_lacks :
      (raw before value : Text) (cut : Option (Text × Text))
      → cut_last 58 value ≡ cut
      → has 10 raw ≡ false
      → has 10 before ≡ false
      → has 10 value ≡ false
      → has 10 (pin_host resolve raw before cut) ≡ false
  host_lacks raw before value none c r b v = r
  host_lacks raw before value (some (host, port)) c r b v =
      let (whole, _) = cut_last-some 58 value host port c in
      let (_, p) = lacks_parts 10 host (58 ∷ port) (sym (ap (has 10) whole) ∙ v) in
      if_both (λ t. has 10 t ≡ false) (is_empty host) r
        (if_both (λ t. has 10 t ≡ false) (is_ipv4 host) r
          (pinned_lacks raw before port (resolve host) r b (lacks_rest 10 58 port p)))

  cut_lacks :
      (raw : Text) (cut : Option (Text × Text))
      → cut_first 61 raw ≡ cut
      → has 10 raw ≡ false
      → has 10 (pin_cut resolve raw cut) ≡ false
  cut_lacks raw none c r = r
  cut_lacks raw (some (before, after)) c r =
      let (whole, _) = cut_first-some 61 raw before after c in
      let (b, a) = lacks_parts 10 before (61 ∷ after) (sym (ap (has 10) whole) ∙ r) in
      let v = lacks-trim 10 after (lacks_rest 10 61 after a) in
      if_both (λ t. has 10 t ≡ false) (not (is_endpoint_key before)) r
        (if_both (λ t. has 10 t ≡ false) (starts_with 91 (trim after)) r
          (host_lacks raw before (trim after) (cut_last 58 (trim after)) refl r b v))

  lines_lack :
      (lines : List Text)
      → all (lacks 10) lines ≡ true
      → all (lacks 10) (map (pin_line resolve) lines) ≡ true
  lines_lack [] h = refl
  lines_lack (raw ∷ rest) h = elim (Bool-cases (has 10 raw)) [
    | inl e ↦ absurd (cc (subst (λ b. (not b && all (lacks 10) rest) ≡ true) e h))
    | inr e ↦
        rw (cut_lacks raw (cut_first 61 raw) refl e)
          (lines_lack rest (and-right (lacks 10 raw) (all (lacks 10) rest) h))
  ]

  resplit :
      (lines : List Text)
      → lines ≢ []
      → all (lacks 10) lines ≡ true
      → split_at 10 (join_with 10 (map (pin_line resolve) lines)) ≡ map (pin_line resolve) lines
  resplit [] n h = absurd (n refl)
  resplit (raw ∷ rest) n h =
      split_at-join_with 10 (pin_line resolve raw) (map (pin_line resolve) rest)
        (lines_lack (raw ∷ rest) h)

  -- The host that the kill switch reads out of a pinned text is the one that the text named, with
  -- the resolver's address in its place where it had a port, was no address yet, and the resolver
  -- gave an address of version 4.
  pub extract-pin_wireguard_endpoint :
      (config : Text)
      → extract_wireguard_endpoint_host (pin_wireguard_endpoint resolve config)
        ≡ expected_from resolve (split_at 10 config)
  extract-pin_wireguard_endpoint config =
      ap extract_from
        (resplit (split_at 10 config) (split_at-nonempty 10 config) (split_at-lacks 10 config))
      ∙ extract_from-map resolve (split_at 10 config)
