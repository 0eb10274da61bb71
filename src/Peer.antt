-- ===== src/Peer.antt =====
-- What a peer does with an incoming envelope: handleIncoming and process of rmb-sdk-go/peer/peer.go,
-- and VerifySignature of sig.go. A text that is only compared, a key and a block of data are numbers;
-- a signature is the list of its bytes. `errors.Wrap` gives no error for no error, as it documents.
pub mod Verified
mod Tests
use tfgrid_sdk_go.Prelude.{
  ℕ, Bool, true, false, List, [], ◌∷◌, Option, none, some, Result, ok, err, ◌>>=◌, ◌>>◌, ◌==◌,
  if◌then◌else◌, not,
}

pub data Message : Type 0 where
  request : ℕ → Message
  response : Message
  error_message : ℕ → Message
  other_message : Message

pub data Payload : Type 0 where
  plain : ℕ → Payload
  cipher : ℕ → Payload
  no_payload : Payload

-- The fields of an envelope that are read; `rest` is what else the signature covers.
pub record Envelope : Type 0 where
  pub uid : ℕ
  pub source : Option ℕ
  pub signature : Option (List ℕ)
  pub message : Message
  pub schema : Option ℕ
  pub payload : Payload
  pub rest : ℕ

pub record Twin : Type 0 where
  pub public_key : ℕ
  pub e2e_key : Option ℕ

pub data KeyType : Type 0 where
  ed25519 : KeyType
  sr25519 : KeyType

-- The last one is a panic: the first byte of an empty signature.
pub data PeerError : Type 0 where
  remote_error : ℕ → PeerError
  invalid_envelope : PeerError
  twin_error : ℕ → PeerError
  bad_signature_type : ℕ → PeerError
  challenge_error : ℕ → PeerError
  not_verified : PeerError
  not_encrypting : PeerError
  not_decrypted : ℕ → PeerError
  no_first_byte : PeerError

-- The twins of the chain, the hash that is signed, the two kinds of signatures, and the peer's key,
-- where it has one, with what it decrypts.
pub record PeerEnv : Type 0 where
  pub get_twin : ℕ → Result ℕ Twin
  pub challenge : Envelope → Result ℕ ℕ
  pub verify : KeyType → ℕ → ℕ → List ℕ → Bool
  pub has_key : Bool
  pub decrypt : ℕ → ℕ → Result ℕ ℕ

abbrev pub with_error : {A : Type 0} → (ℕ → PeerError) → Result ℕ A → Result PeerError A
with_error f (ok a) = ok a
with_error f (err e) = err (f e)

abbrev pub get_error : Message → Option ℕ
get_error (request command) = none
get_error response = none
get_error (error_message text) = some text
get_error other_message = none

abbrev pub is_response : Message → Bool
is_response (request command) = false
is_response response = true
is_response (error_message text) = false
is_response other_message = false

unfoldable pub char_to_sig_type : ℕ → Result PeerError KeyType
char_to_sig_type prefix =
    if prefix == b'e'
    then ok ed25519
    else if prefix == b's'
    then ok sr25519
    else err (bad_signature_type prefix)

unfoldable pub verify_bytes : PeerEnv → Twin → Envelope → List ℕ → Result PeerError (Unit {0})
verify_bytes p twin env [] = err no_first_byte
verify_bytes p twin env (prefix ∷ sig) = do
  key_type ← char_to_sig_type prefix
  hash ← with_error challenge_error (p.challenge env)
  if p.verify key_type twin.public_key hash sig then ok tt else err not_verified

-- An envelope without a signature gives `errors.Wrap(err, …)` where `err` is nil.
unfoldable pub verify_signature : PeerEnv → ℕ → Envelope → Result PeerError (Unit {0})
verify_signature p source env = do
  twin ← with_error twin_error (p.get_twin source)
  elim env.signature [ none ↦ ok tt | some sig ↦ verify_bytes p twin env sig ]

unfoldable pub refuse_error : Message → Result PeerError (Unit {0})
refuse_error m = elim (get_error m) [ none ↦ ok tt | some text ↦ err (remote_error text) ]

-- A twin without a key gives `errors.Wrap(err, …)` where `err` is nil, and the cipher stays.
unfoldable pub decrypt_for : PeerEnv → Twin → ℕ → Envelope → Result PeerError Envelope
decrypt_for p twin body env = elim twin.e2e_key [
  | none ↦ ok env
  | some key ↦ do
    output ← with_error not_decrypted (p.decrypt body key)
    ok record env { payload = plain output }
]

unfoldable pub open_payload : PeerEnv → ℕ → Envelope → Payload → Result PeerError Envelope
open_payload p source env (plain output) = ok env
open_payload p source env no_payload = ok env
open_payload p source env (cipher body) =
    if not p.has_key
    then err not_encrypting
    else do twin ← with_error twin_error (p.get_twin source); decrypt_for p twin body env

-- `handleIncoming` gives the envelope that the handler gets where there is no error.
unfoldable pub handle_incoming : PeerEnv → Envelope → Result PeerError Envelope
handle_incoming p env = elim env.source [
  | none ↦ do refuse_error env.message; err invalid_envelope
  | some source ↦ do
    verify_signature p source env
    refuse_error env.message
    open_payload p source env env.payload
]

-- `incomingEnv`: what `process` hands to the handler. On an error it is the envelope as it came.
pub record Incoming : Type 0 where
  pub env : Envelope
  pub error : Option PeerError

abbrev pub incoming_of : Envelope → Result PeerError Envelope → Incoming
incoming_of env (ok opened) = record { env = opened; error = none }
incoming_of env (err e) = record { env = env; error = some e }

unfoldable pub process : PeerEnv → Envelope → Incoming
process p env = incoming_of env (handle_incoming p env)
