-- ===== src/Nodes/Signature/Trust.antt =====
-- On what evidence a reply of src/main/protocols/reply-signature.ts counts as signed.
use katacomb_vpn.Prelude.{
  ◌≡◌, refl, subst, ◌⊎◌, inl, inr, Bool, true, false, not, ◌&&◌, Option, none, some, List, arith,
  ◌==◌, if◌then◌else◌, Bool-cases, ok, err, length,
}
use katacomb_vpn.Guard.Text.{Text, is_empty, same_text→≡}
use katacomb_vpn.Nodes.Signature.{
  Crypto, ReplySigner, node, hot_key, unsigned, SignatureError, Params, addresses_of, header_match,
  reply_digest, signer_of, verify_reply, with_addresses, with_data, with_key, with_header,
  check_reply_signature,
}

-- A header that is there and not empty.
abbrev pub has_header : Option Text → Bool
has_header none = false
has_header (some header) = not (is_empty header)

module _ (crypto : Crypto) (has_grant : Text → Text → Bool) where
  -- A key whose signature over this request and this reply holds, and which is the node's own or one
  -- that the node granted, as the signer says.
  pub record IsTrusted (p : Params) (key : Text) (who : ReplySigner) : Type 0 where
    pub content : Text
    pub addrs : List Text
    pub signature : Text
    pub same_content : p.reply.reply_data ≡ some content
    pub same_addrs : addresses_of p.reply.addrs ≡ some addrs
    pub holds :
        crypto.verify_signature signature
          (crypto.sha256
            (reply_digest crypto p.session_id p.request (crypto.from_base64 content) addrs))
          key
        ≡ true
    pub is_entitled :
        ((who ≡ node) × (crypto.raw_address key ≡ crypto.node_account p.node_address))
        ⊎ ((who ≡ hot_key)
            × (has_grant (crypto.node_account p.node_address) (crypto.raw_address key) ≡ true))

  signer_of-entitled :
      (account signer : Text) {who : ReplySigner}
      → signer_of crypto has_grant account signer ≡ ok who
      → ((who ≡ node) × (signer ≡ account)) ⊎ ((who ≡ hot_key) × (has_grant account signer ≡ true))
  unfolding signer_of
  signer_of-entitled account signer e = ground (arith, same_text→≡ signer account)

  verify_reply-IsTrusted :
      (p : Params) (key signature content : Text) (addrs : List Text) {who : ReplySigner}
      → p.reply.reply_data ≡ some content
      → addresses_of p.reply.addrs ≡ some addrs
      → verify_reply crypto has_grant p key signature content addrs ≡ ok who
      → IsTrusted p key who
  unfolding verify_reply
  verify_reply-IsTrusted p key signature content addrs {who} c a e =
      let digest = reply_digest crypto p.session_id p.request (crypto.from_base64 content) addrs in
      let account = crypto.node_account p.node_address in
      let signer = crypto.raw_address key in
      elim (Bool-cases (crypto.verify_signature signature (crypto.sha256 digest) key)) [
        | inl h ↦ record {
          content = content;
          addrs = addrs;
          signature = signature;
          same_content = c;
          same_addrs = a;
          holds = h;
          is_entitled = signer_of-entitled account signer (
              subst
                (λ b.
                  (if not b
                    then err SignatureError.mismatch
                    else signer_of crypto has_grant account signer)
                  ≡ ok who)
                h e);
        }
        | inr h ↦ absurd (
            cc (
              subst
                (λ b.
                  (if not b
                    then err SignatureError.mismatch
                    else signer_of crypto has_grant account signer)
                  ≡ ok who)
                h e))
      ]

  with_addresses-IsTrusted :
      (p : Params) (key signature content : Text) (addrs : Option (List Text)) {who : ReplySigner}
      → p.reply.reply_data ≡ some content
      → addresses_of p.reply.addrs ≡ addrs
      → with_addresses crypto has_grant p key signature content addrs ≡ ok who
      → IsTrusted p key who
  with_addresses-IsTrusted p key signature content none c a e = cc
  with_addresses-IsTrusted p key signature content (some addrs) c a e =
      verify_reply-IsTrusted p key signature content addrs c a e

  with_data-IsTrusted :
      (p : Params) (key signature : Text) (given : Option Text) {who : ReplySigner}
      → p.reply.reply_data ≡ given
      → with_data crypto has_grant p key signature given ≡ ok who
      → IsTrusted p key who
  with_data-IsTrusted p key signature none c e = cc
  with_data-IsTrusted p key signature (some content) c e =
      with_addresses-IsTrusted p key signature content (addresses_of p.reply.addrs) c refl e

  of_length :
      (b : Bool) (p : Params) (key signature : Text) {who : ReplySigner}
      → (if not b
          then err SignatureError.malformed_signature
          else with_data crypto has_grant p key signature p.reply.reply_data)
        ≡ ok who
      → IsTrusted p key who
  of_length false p key signature e = absurd (cc e)
  of_length true p key signature e = with_data-IsTrusted p key signature p.reply.reply_data refl e

  with_key-IsJustified :
      (p : Params) (found : Option (Text × Text)) {who : ReplySigner}
      → with_key crypto has_grant p found ≡ ok who
      → (key : Text) × IsTrusted p key who
  with_key-IsJustified p none e = absurd (cc e)
  with_key-IsJustified p (some (key64, signature64)) e =
      let key = crypto.from_base64 key64 in
      let signature = crypto.from_base64 signature64 in
      (key, of_length ((length key == 33) && (length signature == 64)) p key signature e)

  of_header :
      (b : Bool) (p : Params) (header : Text) {who : ReplySigner}
      → (if b then ok unsigned else with_key crypto has_grant p (header_match header)) ≡ ok who
      → ((not b ≡ false) × (who ≡ unsigned))
        ⊎ ((not b ≡ true) × ((key : Text) × IsTrusted p key who))
  of_header true p header e = inl (refl, ground arith)
  of_header false p header e = inr (refl, with_key-IsJustified p (header_match header) e)

  signed_or_not :
      (p : Params) (header : Option Text) {who : ReplySigner}
      → with_header crypto has_grant p header ≡ ok who
      → ((has_header header ≡ false) × (who ≡ unsigned))
        ⊎ ((has_header header ≡ true) × ((key : Text) × IsTrusted p key who))
  signed_or_not p none e = inl (refl, ground arith)
  signed_or_not p (some header) e = of_header (is_empty header) p header e

  -- A reply is let through unsigned exactly when it has no signature, and otherwise only under a key
  -- whose signature holds over the digest of this session, request and reply; the key is the node's
  -- own, or one that the chain says the node granted, as the answer says.
  pub check_reply_signature-IsTrusted :
      (p : Params) {who : ReplySigner}
      → check_reply_signature crypto has_grant p ≡ ok who
      → ((has_header p.header ≡ false) × (who ≡ unsigned))
        ⊎ ((has_header p.header ≡ true) × ((key : Text) × IsTrusted p key who))
  check_reply_signature-IsTrusted p e = signed_or_not p p.header e
