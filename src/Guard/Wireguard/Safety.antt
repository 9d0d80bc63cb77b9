-- ===== src/Guard/Wireguard/Safety.antt =====
-- What the two guards of src/main/config-guard.ts let through.
use katacomb_vpn.Prelude.{
  ◌≡◌, refl, sym, ◌∙◌, subst, ◌⊎◌, inl, inr, Bool, true, false, ◌||◌, Option, none, some, List, [],
  ◌∷◌, ◌++◌, arith, if◌then◌else◌, Bool-cases, ok, All, Mem, All-mem,
}
use katacomb_vpn.Guard.Text.{
  Text, codes, is_empty, one_of, trim, to_lower, split_at, cut_first, one_of→Mem, one_of-append,
}
use katacomb_vpn.Prelude.{unless_thrown, unless_thrown-ok}
use katacomb_vpn.Guard.Wireguard.{
  Section, interface, peer, unless_thrown, check_key, check_cut, check_opened, check_line,
  check_lines, section_named, section_match, is_comment, wg_allowed, awg_allowed,
  assert_safe_wireguard_config, assert_safe_amnezia_wg_config, assert_safe_wireguard_value,
  assert_safe_amnezia_wg_value, wg_interface_keys, wg_peer_keys, awg_uint16_keys, awg_uint32_keys,
  awg_i_keys, awg_other_keys,
}

module _ (allowed : Section → Text → Bool) (safe_value : Text → Text → Bool) where
  -- A line that sets an allowed key to a value of its shape.
  unfoldable pub IsSafeAssignment : Text → Type 0
  IsSafeAssignment line =
      (s : Section) × (key : Text) × (value : Text) × (cut_first 61 line ≡ some (key, value))
      × (allowed s (to_lower (trim key)) ≡ true)
      × (safe_value (to_lower (trim key)) (trim value) ≡ true)

  -- A line that is skipped, that opens one of the two sections, or that is a safe assignment.
  unfoldable pub IsClean : Text → Type 0
  IsClean line =
      ((is_empty line || is_comment line) ≡ true)
      ⊎ (((name : Text) × (section_match line ≡ some name)
            × (one_of (to_lower (trim name)) (codes "interface" ∷ codes "peer" ∷ []) ≡ true))
          ⊎ IsSafeAssignment line)

  check_key-ok :
      (o : Option Section) (key value : Text) {s : Option Section}
      → check_key allowed safe_value o key value ≡ ok s
      → (t : Section) × (allowed t key ≡ true) × (safe_value key value ≡ true)
  unfolding check_key
  check_key-ok none key value e = cc
  check_key-ok (some t) key value e = elim (Bool-cases (allowed t key)) [
    | inl a ↦ elim (Bool-cases (safe_value key value)) [
      | inl v ↦ (t, a, v)
      | inr v ↦ absurd (ground (arith))
    ]
    | inr a ↦ absurd (ground (arith))
  ]

  check_cut-ok :
      (o : Option Section) (cut : Option (Text × Text)) {s : Option Section}
      → check_cut allowed safe_value o cut ≡ ok s
      → (t : Section) × (key : Text) × (value : Text) × (cut ≡ some (key, value))
        × (allowed t (to_lower (trim key)) ≡ true)
        × (safe_value (to_lower (trim key)) (trim value) ≡ true)
  check_cut-ok o none e = cc
  check_cut-ok o (some (key, value)) e =
      let (t, a, v) = check_key-ok o (to_lower (trim key)) (trim value) e in
      (t, key, value, refl, a, v)

  section_named-ok :
      (name : Text) {s : Option Section}
      → section_named name ≡ ok s
      → one_of name (codes "interface" ∷ codes "peer" ∷ []) ≡ true
  section_named-ok name e = ground (arith)

  abbrev IsCleanAt : Text → Option Text → Type 0
  IsCleanAt line match =
      ((name : Text) × (match ≡ some name)
        × (one_of (to_lower (trim name)) (codes "interface" ∷ codes "peer" ∷ []) ≡ true))
      ⊎ IsSafeAssignment line

  check_opened-ok :
      (o : Option Section) (line : Text) (match : Option Text) {s : Option Section}
      → check_opened allowed safe_value o line match ≡ ok s
      → IsCleanAt line match
  unfolding IsSafeAssignment
  check_opened-ok o line none e = inr (check_cut-ok o (cut_first 61 line) e)
  check_opened-ok o line (some name) e = inl (name, refl, section_named-ok (to_lower (trim name)) e)

  check_line-IsClean :
      (o : Option Section) (line : Text) {s : Option Section}
      → check_line allowed safe_value o line ≡ ok s
      → IsClean line
  unfolding IsClean
  check_line-IsClean o line {s} e = elim (Bool-cases (is_empty line || is_comment line)) [
    | inl skipped ↦ inl skipped
    | inr read ↦ inr (
        check_opened-ok o line (section_match line) (
          subst
            (λ b.
              (if b then ok o else check_opened allowed safe_value o line (section_match line))
              ≡ ok s)
            read e))
  ]

  check_lines-IsClean :
      (o : Option Section) (lines : List Text) {s : Option Section}
      → check_lines allowed safe_value o lines ≡ ok s
      → All (λ raw. IsClean (trim raw)) lines
  check_lines-IsClean o [] e = tt
  check_lines-IsClean o (raw ∷ rest) e =
      let (next, c, f) =
        unless_thrown-ok (check_line allowed safe_value o (trim raw))
          (λ n. check_lines allowed safe_value n rest) e in
      (check_line-IsClean o (trim raw) c, check_lines-IsClean next rest f)

-- Where one guard allows and passes no less than another, it accepts what the other accepts.
module _ (allowed wider : Section → Text → Bool) (safe_value laxer : Text → Text → Bool)
    (allow : (t : Section) (key : Text) → allowed t key ≡ true → wider t key ≡ true)
    (pass : (t : Section) (key value : Text)
      → allowed t key ≡ true
      → safe_value key value ≡ true
      → laxer key value ≡ true) where
  check_key-wider :
      (o : Option Section) (key value : Text) {s : Option Section}
      → check_key allowed safe_value o key value ≡ ok s
      → check_key wider laxer o key value ≡ ok s
  unfolding check_key
  check_key-wider none key value e = cc
  check_key-wider (some t) key value e = ground (arith, allow t key, pass t key value)

  check_cut-wider :
      (o : Option Section) (cut : Option (Text × Text)) {s : Option Section}
      → check_cut allowed safe_value o cut ≡ ok s
      → check_cut wider laxer o cut ≡ ok s
  check_cut-wider o none e = e
  check_cut-wider o (some (key, value)) e = check_key-wider o (to_lower (trim key)) (trim value) e

  check_opened-wider :
      (o : Option Section) (line : Text) (match : Option Text) {s : Option Section}
      → check_opened allowed safe_value o line match ≡ ok s
      → check_opened wider laxer o line match ≡ ok s
  check_opened-wider o line none e = check_cut-wider o (cut_first 61 line) e
  check_opened-wider o line (some name) e = e

  check_read-wider :
      (b : Bool) (o : Option Section) (line : Text) {s : Option Section}
      → (if b then ok o else check_opened allowed safe_value o line (section_match line)) ≡ ok s
      → (if b then ok o else check_opened wider laxer o line (section_match line)) ≡ ok s
  check_read-wider true o line e = e
  check_read-wider false o line e = check_opened-wider o line (section_match line) e

  check_lines-wider :
      (o : Option Section) (lines : List Text) {s : Option Section}
      → check_lines allowed safe_value o lines ≡ ok s
      → check_lines wider laxer o lines ≡ ok s
  check_lines-wider o [] e = e
  check_lines-wider o (raw ∷ rest) {s} e =
      let (next, c, f) =
        unless_thrown-ok (check_line allowed safe_value o (trim raw))
          (λ n. check_lines allowed safe_value n rest) e in
      subst (λ r. unless_thrown r (λ n. check_lines wider laxer n rest) ≡ ok s)
        (sym (check_read-wider (is_empty (trim raw) || is_comment (trim raw)) o (trim raw) c))
        (check_lines-wider next rest f)

wg_allowed-wider : (t : Section) (key : Text) → wg_allowed t key ≡ true → awg_allowed t key ≡ true
wg_allowed-wider interface key a =
    one_of-append key wg_interface_keys
      (awg_uint16_keys ++ (awg_uint32_keys ++ (awg_i_keys ++ awg_other_keys))) a
wg_allowed-wider peer key a = a

-- The two tests of a value agree on a key.
unfoldable AgreesOn : Text → Type 0
AgreesOn key =
    (value : Text) → assert_safe_amnezia_wg_value key value ≡ assert_safe_wireguard_value key value

interface_keys-AgreesOn : All AgreesOn wg_interface_keys
unfolding AgreesOn assert_safe_amnezia_wg_value assert_safe_wireguard_value
interface_keys-AgreesOn =
    ((λ v. refl), ((λ v. refl), ((λ v. refl), ((λ v. refl), ((λ v. refl), tt)))))

peer_keys-AgreesOn : All AgreesOn wg_peer_keys
unfolding AgreesOn assert_safe_amnezia_wg_value assert_safe_wireguard_value
peer_keys-AgreesOn = ((λ v. refl), ((λ v. refl), ((λ v. refl), ((λ v. refl), ((λ v. refl), tt)))))

wg_allowed-AgreesOn : (t : Section) (key : Text) → wg_allowed t key ≡ true → AgreesOn key
wg_allowed-AgreesOn interface key a =
    All-mem AgreesOn wg_interface_keys interface_keys-AgreesOn (one_of→Mem key wg_interface_keys a)
wg_allowed-AgreesOn peer key a =
    All-mem AgreesOn wg_peer_keys peer_keys-AgreesOn (one_of→Mem key wg_peer_keys a)

wg_value-lax :
    (t : Section) (key value : Text)
    → wg_allowed t key ≡ true
    → assert_safe_wireguard_value key value ≡ true
    → assert_safe_amnezia_wg_value key value ≡ true
unfolding AgreesOn
wg_value-lax t key value a v = wg_allowed-AgreesOn t key a value ∙ v

-- A WireGuard text that the guard accepts has, line by line, nothing but blank lines and comments,
-- headers of the two sections, and keys of the allow-list with values of their shape.
pub assert_safe_wireguard_config-IsClean :
    (config raw : Text) {s : Option Section}
    → assert_safe_wireguard_config config ≡ ok s
    → Mem raw (split_at 10 config)
    → IsClean wg_allowed assert_safe_wireguard_value (trim raw)
assert_safe_wireguard_config-IsClean config raw e m =
    All-mem (λ r. IsClean wg_allowed assert_safe_wireguard_value (trim r)) (split_at 10 config)
      (check_lines-IsClean wg_allowed assert_safe_wireguard_value none (split_at 10 config) e) m

-- Whatever the WireGuard guard accepts the AmneziaWG guard accepts, ending in the same section.
pub assert_safe_amnezia_wg_config-ok :
    (config : Text) {s : Option Section}
    → assert_safe_wireguard_config config ≡ ok s
    → assert_safe_amnezia_wg_config config ≡ ok s
assert_safe_amnezia_wg_config-ok config e =
    check_lines-wider wg_allowed awg_allowed assert_safe_wireguard_value
      assert_safe_amnezia_wg_value wg_allowed-wider wg_value-lax none (split_at 10 config) e
