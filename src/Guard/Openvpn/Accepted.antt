-- ===== src/Guard/Openvpn/Accepted.antt =====
-- The statements of a text that `assertSafeOpenVpnConfig` of src/main/config-guard.ts accepts.
use katacomb_vpn.Prelude.{
  ◌≡◌, refl, sym, ◌∙◌, subst, ◌⊎◌, inl, inr, Bool, true, ◌&&◌, Option, none, some, List, [], ◌∷◌,
  arith, Bool-cases, Option-cases, unless_thrown-ok, ok, all, All, Mem,
}
use katacomb_vpn.Guard.Text.{Text, one_of, trim, split_at, one_of→Mem}
use katacomb_vpn.Guard.Openvpn.{
  OvpnScan, read_in, read_line, read_lines, finish, before_first, assert_safe_openvpn_config,
  ovpn_inline_tags, ovpn_required,
}
use katacomb_vpn.Guard.Openvpn.Safety.{
  block_after, statement_of, onto_statements, statements, IsAllowed, IsFresh, Adds, read_in-Steps,
}

-- The directives that were seen behind the statements.
abbrev seen_after : List Text → List (Text × Text) → List Text
seen_after seen [] = seen
seen_after seen ((directive, value) ∷ rest) = seen_after (directive ∷ seen) rest

-- The block that is open behind a text.
abbrev pub block_behind : Option Text → List Text → Option Text
block_behind block [] = block
block_behind block (raw ∷ rest) = block_behind (block_after block (trim raw)) rest

abbrev Reads : List Text → List (Text × Text) → List Text → Type 0
Reads seen ss after = All IsAllowed ss × IsFresh seen ss × (after ≡ seen_after seen ss)

Adds-Reads :
    (seen : List Text) (said : Option (Text × Text)) (mid : List Text) (ss : List (Text × Text))
    (after : List Text)
    → Adds seen said mid
    → Reads mid ss after
    → Reads seen (onto_statements said ss) after
Adds-Reads seen none mid ss after a r = subst (λ m. Reads m ss after) a r
Adds-Reads seen (some (directive, value)) mid ss after (allowed, fresh, m) r =
    let (all_allowed, all_fresh, behind) = subst (λ m. Reads m ss after) m r in
    ((allowed, all_allowed), (fresh, all_fresh), behind)

read_lines-Reads :
    (block : Option Text) (st : OvpnScan) (lines : List Text) {last : OvpnScan}
    → st.open_block ≡ block
    → read_lines st lines ≡ ok last
    → (last.open_block ≡ block_behind block lines)
      × Reads st.seen_directives (statements block lines) last.seen_directives
read_lines-Reads block st [] o e = ground arith
read_lines-Reads block st (raw ∷ rest) {last} o e =
    let (next, c, f) = unless_thrown-ok (read_line st (trim raw)) (λ n. read_lines n rest) e in
    let (b, a) =
      read_in-Steps block st (trim raw) o (subst (λ k. read_in k st (trim raw) ≡ ok next) o c) in
    let (closed, r) = read_lines-Reads (block_after block (trim raw)) next rest b f in
    (
      closed,
      Adds-Reads st.seen_directives (statement_of block (trim raw)) next.seen_directives
          (statements (block_after block (trim raw)) rest) last.seen_directives a r,
    )

abbrev pub said_of : List (Text × Text) → List Text
said_of [] = []
said_of ((directive, value) ∷ rest) = directive ∷ said_of rest

said_seen :
    (d : Text) (seen : List Text) (ss : List (Text × Text))
    → Mem d (seen_after seen ss)
    → Mem d seen ⊎ Mem d (said_of ss)
said_seen d seen [] m = inl m
said_seen d seen ((directive, value) ∷ rest) m = elim (said_seen d (directive ∷ seen) rest m) [
  | inl (inl e) ↦ inr (inl e)
  | inl (inr k) ↦ inl k
  | inr k ↦ inr (inr k)
]

finish-ok :
    (st : OvpnScan) {last : OvpnScan}
    → finish st ≡ ok last
    → (last ≡ st)
      × (st.open_block ≡ none)
      × (all (λ tag. one_of tag st.seen_blocks) ovpn_inline_tags ≡ true)
      × (all (λ d. one_of d st.seen_directives) ovpn_required ≡ true)
unfolding finish
finish-ok st e = elim (Option-cases st.open_block) [
  | inl o ↦ ground arith
  | inr (t, o) ↦ ground arith
]

all-All :
    (p : Text → Bool) (P : Text → Type 0) (f : (t : Text) → p t ≡ true → P t) (ts : List Text)
    → all p ts ≡ true
    → All P ts
all-All p P f [] h = tt
all-All p P f (t ∷ ts) h = elim (Bool-cases (p t)) [
  | inl e ↦ (f t e, all-All p P f ts (subst (λ b. (b && all p ts) ≡ true) e h))
  | inr e ↦ absurd (cc)
]

-- Outside its blocks an accepted text holds directives of the map alone, each with a value that its
-- validator accepts and none of them twice; the required directives are among them, and no inline
-- block is open at the end.
pub assert_safe_openvpn_config-statements :
    (config : Text) {last : OvpnScan}
    → assert_safe_openvpn_config config ≡ ok last
    → All IsAllowed (statements none (split_at 10 config))
      × IsFresh [] (statements none (split_at 10 config))
      × All (λ d. Mem d (said_of (statements none (split_at 10 config)))) ovpn_required
      × (block_behind none (split_at 10 config) ≡ none)
assert_safe_openvpn_config-statements config e =
    let lines = split_at 10 config in
    let (st, r, f) = unless_thrown-ok (read_lines before_first lines) finish e in
    let (_, closed, _, required) = finish-ok st f in
    let (b, (allowed, fresh, seen)) = read_lines-Reads none before_first lines refl r in
    (
      allowed,
      fresh,
      all-All (λ d. one_of d st.seen_directives) (λ d. Mem d (said_of (statements none lines)))
          (λ d o.
            elim (said_seen d [] (statements none lines)
              (subst (λ s. Mem d s) seen (one_of→Mem d st.seen_directives o))) [
                | inl n ↦ absurd n
                | inr m ↦ m
              ])
          ovpn_required required,
      sym b ∙ closed,
    )
