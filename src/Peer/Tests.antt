-- ===== src/Peer/Tests.antt =====
-- An envelope that is signed and encrypted, and one without a signature.
use tfgrid_sdk_go.Prelude.{
  ℕ, ◌+◌, ◌≡◌, ◌⊎◌, refl, Bool, true, false, List, [], ◌∷◌, none, some, ok, err, ◌==◌,
  if◌then◌else◌,
}
use tfgrid_sdk_go.Peer.{
  plain, cipher, response, Envelope, Twin, PeerEnv, char_to_sig_type, verify_bytes,
  verify_signature, refuse_error, decrypt_for, open_payload, handle_incoming,
}
use tfgrid_sdk_go.Peer.Verified.{IsSigned, IsAccepted, handle_incoming-IsAccepted}

-- Signatures of key 70 are those that begin with the hash; decryption adds the key.
abbrev begins_with : List ℕ → ℕ → Bool
begins_with [] hash = false
begins_with (b ∷ sig) hash = b == hash

abbrev test_peer : PeerEnv
test_peer = record {
  get_twin = λ id. if id == 7 then ok (record { public_key = 70; e2e_key = some 9 }) else err id;
  challenge = λ env. ok env.rest;
  verify = λ key_type key hash sig. begins_with sig hash;
  has_key = true;
  decrypt = λ body key. ok (body + key);
}

abbrev sealed : Envelope
sealed = record {
  uid = 3;
  source = some 7;
  signature = some (b's' ∷ 5 ∷ 1 ∷ []);
  message = response;
  schema = some 0;
  payload = cipher 33;
  rest = 5;
}

abbrev opened : Envelope
opened = record sealed { payload = plain 42 }

sealed_ok : handle_incoming test_peer sealed ≡ ok opened
unfolding handle_incoming verify_signature verify_bytes char_to_sig_type refuse_error open_payload
    decrypt_for
sealed_ok = refl

handle_incoming-IsAccepted_example :
    (source : ℕ) × (twin : Twin) × (sealed.source ≡ some source)
    × (test_peer.get_twin source ≡ ok twin)
    × ((sealed.signature ≡ none) ⊎ IsSigned test_peer twin sealed)
    × IsAccepted test_peer twin sealed opened
handle_incoming-IsAccepted_example = handle_incoming-IsAccepted test_peer sealed sealed_ok

-- Whoever sends it: without a signature, nothing is verified.
forged_ok :
    handle_incoming test_peer (record sealed { signature = none; payload = plain 42 })
    ≡ ok (record sealed { signature = none; payload = plain 42 })
unfolding handle_incoming verify_signature refuse_error open_payload
forged_ok = refl
