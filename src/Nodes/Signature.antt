-- ===== src/Nodes/Signature.antt =====
-- The signature of a node over its handshake reply: `checkReplySignature` and `replyDigest` of
-- src/main/protocols/reply-signature.ts. The code takes base64, hashes, the signature scheme and
-- addresses from libraries, which are the record `Crypto`; the chain's answer about a grant is a
-- parameter too.
pub mod Trust
use katacomb_vpn.Prelude.{
  ℕ, zero, suc, ◌+◌, ◌-◌, ◌*◌, ◌/◌, ◌%◌, ◌≤◌, ◌<◌, ◌≡◌, refl, sym, ap, ◌∙◌, subst, ◌≢◌, ◌↔◌, ◌⊎◌,
  inl, inr, Bool, true, false, not, ◌&&◌, ◌||◌, Option, none, some, List, [], ◌∷◌, ◌++◌, map, arith,
  ltb, leb, ◌==◌, if◌then◌else◌, ltb→lt, lt→ltb, leb→le, le→leb, ==_iff, tests, Bool-cases,
  Option-cases, is_none, is_some, if_both, unless_thrown, unless_thrown-ok, Result, ok, err,
  Result-cases, length, length-filter, filter, find, any, all, All, Mem, All-mem, All-of-mem,
  mem-filter, mem-of-filter,
}
use katacomb_vpn.Guard.Text.{
  onto_cut, trim_start, trim_end, before_trimmed, onto_first, join_with, Text, codes, is_empty,
  same_text, one_of, is_space, trim, to_lower, split_at, cut_first, cut_last, starts_with,
  strip_prefix, drop_optional, span, is_digit, is_letter, is_hex, is_number, value_of, between,
  same_text→≡, one_of→Mem, one_of-append,
}

pub record Crypto : Type 0 where
  -- `Buffer.from(_, 'base64')`, `sha256`.
  pub from_base64 : Text → Text
  pub sha256 : Text → Text
  -- `Secp256k1.verifySignature`: signature, message hash, public key.
  pub verify_signature : Text → Text → Text → Bool
  -- `rawSecp256k1PubkeyToRawAddress`, and the account of `fromBech32` of the node's address.
  pub raw_address : Text → Text
  pub node_account : Text → Text
  -- The eight bytes of `writeBigUInt64BE`.
  pub be64 : ℕ → Text

pub data ReplySigner : Type 0 where
  node hot_key unsigned : ReplySigner

pub data SignatureError : Type 0 where
  malformed_signature no_data malformed_addresses mismatch unauthorised : SignatureError

-- `result` of the reply: data and addresses, each as far as it is of its type. An address that is no
-- text is `none`.
pub data ReplyAddrs : Type 0 where
  undefined not_array : ReplyAddrs
  array : List (Option Text) → ReplyAddrs

pub record ReplyResult : Type 0 where
  pub reply_data : Option Text
  pub addrs : ReplyAddrs

pub record Params : Type 0 where
  pub header : Option Text
  pub session_id : ℕ
  pub request : Text
  pub reply : ReplyResult
  pub node_address : Text

abbrev all_texts : List (Option Text) → Option (List Text)
all_texts [] = some []
all_texts (none ∷ _) = none
all_texts (some t ∷ rest) = elim (all_texts rest) [ none ↦ none | some ts ↦ some (t ∷ ts) ]

-- `addrs`, where they are texts.
abbrev pub addresses_of : ReplyAddrs → Option (List Text)
addresses_of undefined = some []
addresses_of not_array = none
addresses_of (array as_given) = all_texts as_given

-- `REPLY_SIGNING_SCHEME`.
abbrev reply_signing_scheme : Text
reply_signing_scheme = codes "dvpnd/handshake-reply/v1"

-- `[A-Za-z0-9+/=]`.
abbrev is_base64_or_padding : ℕ → Bool
is_base64_or_padding c = is_letter c || is_digit c || (c == 43) || (c == 47) || (c == 61)

abbrev is_base64_text : Text → Bool
is_base64_text t = not (is_empty t) && all is_base64_or_padding t

abbrev key_and_signature : Text × Text → Option (Text × Text)
key_and_signature (key, signature) =
    if is_base64_text key && is_base64_text signature then some (key, signature) else none

abbrev match_body : Option Text → Option (Text × Text)
match_body none = none
match_body (some rest) = elim (cut_first 59 rest) [ none ↦ none | some cut ↦ key_and_signature cut ]

-- `match`: the key and the signature of a header.
unfoldable pub header_match : Text → Option (Text × Text)
header_match header = match_body (strip_prefix (codes "secp256k1:") (trim header))

-- `replyDigest`.
unfoldable pub reply_digest : Crypto → ℕ → Text → Text → List Text → Text
reply_digest crypto session_id request reply addrs = crypto.sha256 (
    reply_signing_scheme
    ++ (crypto.be64 session_id
        ++ (crypto.sha256 request ++ (crypto.sha256 reply ++ join_with 10 addrs))))

module _ (crypto : Crypto) (has_grant : Text → Text → Bool) where
  -- The tests behind a signature that holds.
  unfoldable pub signer_of : Text → Text → Result SignatureError ReplySigner
  signer_of account signer =
      if same_text signer account
      then ok node
      else if has_grant account signer
      then ok hot_key
      else err unauthorised

  unfoldable pub verify_reply :
      Params → Text → Text → Text → List Text → Result SignatureError ReplySigner
  verify_reply p key signature content addrs =
      let digest = reply_digest crypto p.session_id p.request (crypto.from_base64 content) addrs in
      if not (crypto.verify_signature signature (crypto.sha256 digest) key)
      then err mismatch
      else signer_of (crypto.node_account p.node_address) (crypto.raw_address key)

  abbrev pub with_addresses :
      Params → Text → Text → Text → Option (List Text) → Result SignatureError ReplySigner
  with_addresses p key signature content none = err malformed_addresses
  with_addresses p key signature content (some addrs) = verify_reply p key signature content addrs

  abbrev pub with_data : Params → Text → Text → Option Text → Result SignatureError ReplySigner
  with_data p key signature none = err no_data
  with_data p key signature (some content) =
      with_addresses p key signature content (addresses_of p.reply.addrs)

  abbrev pub with_key : Params → Option (Text × Text) → Result SignatureError ReplySigner
  with_key p none = err malformed_signature
  with_key p (some (key64, signature64)) =
      let key = crypto.from_base64 key64 in
      let signature = crypto.from_base64 signature64 in
      if not ((length key == 33) && (length signature == 64))
      then err malformed_signature
      else with_data p key signature p.reply.reply_data

  abbrev pub with_header : Params → Option Text → Result SignatureError ReplySigner
  with_header p none = ok unsigned
  with_header p (some header) =
      if is_empty header then ok unsigned else with_key p (header_match header)

  -- `checkReplySignature`.
  abbrev pub check_reply_signature : Params → Result SignatureError ReplySigner
  check_reply_signature p = with_header p p.header
