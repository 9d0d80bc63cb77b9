-- ===== src/Nodes/Tests.antt =====
-- Runs of the check of a reply's signature, with a toy scheme in which base64 is the text itself and
-- a signature holds if it starts with the first byte of the key.
use katacomb_vpn.Prelude.{
  ℕ, zero, suc, ◌≡◌, refl, ◌⊎◌, Bool, true, false, some, [], ◌∷◌, ◌++◌, ◌==◌, ok, err,
}
use katacomb_vpn.Guard.Text.{Text, codes}
use katacomb_vpn.Nodes.Signature.{
  Crypto, node, hot_key, unsigned, mismatch, unauthorised, Params, array, header_match,
  reply_digest, signer_of, verify_reply, check_reply_signature,
}
use katacomb_vpn.Nodes.Signature.Trust.{IsTrusted, has_header, check_reply_signature-IsTrusted}

abbrev repeated : ℕ → ℕ → Text
repeated zero c = []
repeated (suc n) c = c ∷ repeated n c

abbrev same_first : Text → Text → Bool
same_first (x ∷ _) (y ∷ _) = x == y
same_first _ _ = false

abbrev toy : Crypto
toy = record {
  from_base64 = λ t. t;
  sha256 = λ t. t;
  verify_signature = λ signature hash key. same_first signature key;
  raw_address = λ key. key;
  node_account = λ address. address;
  be64 = λ n. n ∷ [];
}

abbrev no_grant : Text → Text → Bool
no_grant granter grantee = false

abbrev any_grant : Text → Text → Bool
any_grant granter grantee = true

abbrev header_of : ℕ → ℕ → Text
header_of k s = codes "secp256k1:" ++ (repeated 33 k ++ (59 ∷ repeated 64 s))

abbrev signed_by : ℕ → ℕ → Params
signed_by k s = record {
  header = some (header_of k s);
  session_id = 7;
  request = codes "{}";
  reply = record {
    reply_data = some (codes "QUJD");
    addrs = array (some (codes "10.8.0.2/32") ∷ []);
  };
  node_address = repeated 33 65;
}

by_the_node : check_reply_signature toy no_grant (signed_by 65 65) ≡ ok node
unfolding header_match reply_digest signer_of verify_reply
by_the_node = refl

by_a_hot_key : check_reply_signature toy any_grant (signed_by 66 66) ≡ ok hot_key
unfolding header_match reply_digest signer_of verify_reply
by_a_hot_key = refl

by_a_stranger : check_reply_signature toy no_grant (signed_by 66 66) ≡ err unauthorised
unfolding header_match reply_digest signer_of verify_reply
by_a_stranger = refl

forged : check_reply_signature toy any_grant (signed_by 65 66) ≡ err mismatch
unfolding header_match reply_digest signer_of verify_reply
forged = refl

check_reply_signature-IsTrusted_example :
    ((has_header (signed_by 66 66).header ≡ false) × (hot_key ≡ unsigned))
    ⊎ ((has_header (signed_by 66 66).header ≡ true)
        × ((key : Text) × IsTrusted toy any_grant (signed_by 66 66) key hot_key))
check_reply_signature-IsTrusted_example =
    check_reply_signature-IsTrusted toy any_grant (signed_by 66 66) by_a_hot_key
