-- ===== src/Guard/Endpoint/Lines.antt =====
-- What a line gives after `pinWireguardEndpoint` of src/main/config-guard.ts.
use katacomb_vpn.Prelude.{
  ◌≡◌, refl, sym, ap, ◌∙◌, subst, inl, inr, Bool, true, false, not, Option, none, some, List, [],
  ◌∷◌, ◌++◌, map, if◌then◌else◌, Bool-cases,
}
use katacomb_vpn.Guard.Text.{
  trim_start, trim_end, Text, codes, is_empty, same_text, trim, to_lower, cut_first, cut_last,
  starts_with,
}
use katacomb_vpn.Guard.Text.Trimming.{has, trim-trim_start, trim_end_idem}
use katacomb_vpn.Guard.Text.Pieces.{cut_first-some, cut_first-append}
use katacomb_vpn.Guard.Text.Cuts.{
  trim_end-append, cut_first-trim-some, cut_first-trim-none, trim-trim_end, cut_last-some,
  append-cancel,
}
use katacomb_vpn.Guard.Bypass.{is_ipv4}
use katacomb_vpn.Guard.Endpoint.{
  is_endpoint_key, host_of_value, host_before_port, bracketed_host, some_unless_empty, host_of_cut,
  host_of_line, extract_from, pin_resolved, pin_host, pin_cut, pin_line,
}
use katacomb_vpn.Guard.Endpoint.Addresses.{host_of_address, trim_address}

-- A trimmed line contributes what its parts say.
line_of_cut :
    (raw before after : Text)
    → cut_first 61 raw ≡ some (before, after)
    → host_of_line (trim raw)
      ≡ (if is_endpoint_key before then some (host_of_value (trim after)) else none)
line_of_cut raw before after e =
    ap host_of_cut (cut_first-trim-some 61 refl raw before after e)
    ∙ ap
        (λ k.
          if same_text (to_lower k) (codes "endpoint")
          then some (host_of_value (trim (trim_end after)))
          else none)
        (trim-trim_start before)
    ∙ ap (λ v. if is_endpoint_key before then some (host_of_value v) else none)
        (trim-trim_end after)

line_of_endpoint :
    (raw before after : Text)
    → cut_first 61 raw ≡ some (before, after)
    → is_endpoint_key before ≡ true
    → host_of_line (trim raw) ≡ some (host_of_value (trim after))
line_of_endpoint raw before after e k =
    line_of_cut raw before after e
    ∙ ap (λ b. if b then some (host_of_value (trim after)) else none) k

line_of_pinned :
    (before ip port : Text)
    → has 61 before ≡ false
    → is_endpoint_key before ≡ true
    → is_ipv4 ip ≡ true
    → trim_end port ≡ port
    → cut_last 58 port ≡ none
    → host_of_line (trim (before ++ (61 ∷ 32 ∷ (ip ++ (58 ∷ port))))) ≡ some (some ip)
line_of_pinned before ip port l k v t n =
    let after = 32 ∷ (ip ++ (58 ∷ port)) in
    line_of_endpoint (before ++ (61 ∷ after)) before after (cut_first-append 61 before after l) k
    ∙ ap (λ x. some (host_of_value x)) (trim_address ip port v t)
    ∙ ap some (host_of_address ip port v n)

-- The port of a trimmed value is trimmed.
trimmed_port :
    (value host port : Text)
    → trim_end value ≡ value
    → cut_last 58 value ≡ some (host, port)
    → (trim_end port ≡ port) × (cut_last 58 port ≡ none)
trimmed_port value host port t e =
    let (whole, n) = cut_last-some 58 value host port e in
    let same =
      append-cancel host
        (sym (trim_end-append 58 refl host port) ∙ sym (ap trim_end whole) ∙ t ∙ whole) in
    (cc same, n)

module _ (resolve : Text → Option Text) where
  -- The address that stands for a host: its own if it is one, or the resolver's if that is one.
  abbrev pinned_by : Text → Option Text → Text
  pinned_by host none = host
  pinned_by host (some ip) = if is_ipv4 ip then ip else host

  unfoldable pub pinned_host : Text → Text
  pinned_host host = if is_ipv4 host then host else pinned_by host (resolve host)

  -- What a text gives where each host with a port stands pinned.
  abbrev expected_host : Text → Option (Text × Text) → Option Text
  expected_host value none = some_unless_empty value
  expected_host value (some (host, port)) =
      if is_empty host then some value else some (pinned_host host)

  abbrev expected_value : Text → Option Text
  expected_value value =
      if starts_with 91 value then bracketed_host value else expected_host value (cut_last 58 value)

  abbrev expected_of_cut : Option (Text × Text) → Option (Option Text)
  expected_of_cut none = none
  expected_of_cut (some (before, after)) =
      if is_endpoint_key before then some (expected_value (trim after)) else none

  abbrev pub expected_from : List Text → Option Text
  expected_from [] = none
  expected_from (raw ∷ rest) =
      let later = expected_from rest in
      elim (expected_of_cut (cut_first 61 raw)) [ none ↦ later | some answer ↦ answer ]

  resolved_line :
      (raw before host port : Text) (o : Option Text)
      → host_of_line (trim raw) ≡ some (some host)
      → has 61 before ≡ false
      → is_endpoint_key before ≡ true
      → trim_end port ≡ port
      → cut_last 58 port ≡ none
      → host_of_line (trim (pin_resolved resolve raw before port o))
        ≡ some (some (pinned_by host o))
  resolved_line raw before host port none r l k t n = r
  resolved_line raw before host port (some ip) r l k t n = elim (Bool-cases (is_ipv4 ip)) [
    | inl v ↦
        subst
          (λ b.
            host_of_line (trim (if not b then raw else before ++ (61 ∷ 32 ∷ (ip ++ (58 ∷ port)))))
            ≡ some (some (if b then ip else host)))
          (sym v) (line_of_pinned before ip port l k v t n)
    | inr v ↦
        subst
          (λ b.
            host_of_line (trim (if not b then raw else before ++ (61 ∷ 32 ∷ (ip ++ (58 ∷ port)))))
            ≡ some (some (if b then ip else host)))
          (sym v) r
  ]

  named_line :
      (is_address : Bool) (raw before host port : Text)
      → host_of_line (trim raw) ≡ some (some host)
      → has 61 before ≡ false
      → is_endpoint_key before ≡ true
      → trim_end port ≡ port
      → cut_last 58 port ≡ none
      → host_of_line
          (trim (if is_address then raw else pin_resolved resolve raw before port (resolve host)))
        ≡ some (some (if is_address then host else pinned_by host (resolve host)))
  named_line true raw before host port r l k t n = r
  named_line false raw before host port r l k t n =
      resolved_line raw before host port (resolve host) r l k t n

  ported_line :
      (raw before value : Text) (cut : Option (Text × Text))
      → host_of_line (trim raw) ≡ some (host_before_port value cut)
      → cut_last 58 value ≡ cut
      → has 61 before ≡ false
      → is_endpoint_key before ≡ true
      → trim_end value ≡ value
      → host_of_line (trim (pin_host resolve raw before cut)) ≡ some (expected_host value cut)
  unfolding pinned_host
  ported_line raw before value none r c l k t = r
  ported_line raw before value (some (host, port)) r c l k t = elim (Bool-cases (is_empty host)) [
    | inl e ↦ rw (e) (r ∙ ap (λ b. some (if b then some value else some host)) e)
    | inr e ↦
        let (p, n) = trimmed_port value host port t c in
        rw (e) (
          named_line (is_ipv4 host) raw before host port
            (r ∙ ap (λ b. some (if b then some value else some host)) e) l k p n)
  ]

  valued_line :
      (bracket : Bool) (raw before value : Text)
      → host_of_line (trim raw)
        ≡ some
            (if bracket then bracketed_host value else host_before_port value (cut_last 58 value))
      → has 61 before ≡ false
      → is_endpoint_key before ≡ true
      → trim_end value ≡ value
      → host_of_line
          (trim (if bracket then raw else pin_host resolve raw before (cut_last 58 value)))
        ≡ some (if bracket then bracketed_host value else expected_host value (cut_last 58 value))
  valued_line true raw before value r l k t = r
  valued_line false raw before value r l k t =
      ported_line raw before value (cut_last 58 value) r refl l k t

  keyed_line :
      (raw before after : Text)
      → cut_first 61 raw ≡ some (before, after)
      → host_of_line (trim (pin_cut resolve raw (some (before, after))))
        ≡ expected_of_cut (some (before, after))
  unfolding host_of_value
  keyed_line raw before after c = elim (Bool-cases (is_endpoint_key before)) [
    | inl k ↦
        let (_, l) = cut_first-some 61 raw before after c in
        let value = trim after in
        rw (k) (
          valued_line (starts_with 91 value) raw before value
            (line_of_endpoint raw before after c k) l k (trim_end_idem (trim_start after)))
    | inr k ↦ rw (k) (
        line_of_cut raw before after c
        ∙ ap (λ b. if b then some (host_of_value (trim after)) else none) k)
  ]

  cut_line :
      (raw : Text) (cut : Option (Text × Text))
      → cut_first 61 raw ≡ cut
      → host_of_line (trim (pin_cut resolve raw cut)) ≡ expected_of_cut cut
  cut_line raw none c = ap host_of_cut (cut_first-trim-none 61 refl raw c)
  cut_line raw (some (before, after)) c = keyed_line raw before after c

  pub extract_from-map :
      (lines : List Text) → extract_from (map (pin_line resolve) lines) ≡ expected_from lines
  extract_from-map [] = refl
  extract_from-map (raw ∷ rest) =
      ap (λ o. elim o [ none ↦ extract_from (map (pin_line resolve) rest) | some answer ↦ answer ])
        (cut_line raw (cut_first 61 raw) refl)
      ∙ ap
          (λ later. elim (expected_of_cut (cut_first 61 raw)) [
            | none ↦ later
            | some answer ↦ answer
          ])
          (extract_from-map rest)
