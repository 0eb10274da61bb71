-- ===== src/Peer/Verified.antt =====
-- What an envelope that `handleIncoming` of rmb-sdk-go/peer/peer.go accepts has gone through.
use tfgrid_sdk_go.Prelude.{
  ℕ, ◌≡◌, refl, true, List, [], ◌∷◌, none, some, Result, ok, err, ◌⊎◌, inl, inr, Option-cases,
  Bool-cases, Result-cases, arith, ◌==◌,
}
use tfgrid_sdk_go.Peer.{
  Payload, plain, cipher, no_payload, Envelope, Twin, KeyType, ed25519, sr25519, PeerEnv,
  with_error, get_error, char_to_sig_type, verify_bytes, verify_signature, refuse_error,
  decrypt_for, open_payload, handle_incoming, PeerError,
}

-- The prefix of a signature that stands for a kind of keys.
abbrev pub prefix_of : KeyType → ℕ
prefix_of ed25519 = b'e'
prefix_of sr25519 = b's'

-- The envelope has a signature of the twin's key under its hash.
abbrev pub IsSigned : PeerEnv → Twin → Envelope → Type 0
IsSigned p twin env =
    (key_type : KeyType) × (sig : List ℕ) × (hash : ℕ) × (env.signature
      ≡ some (prefix_of key_type ∷ sig))
    × (p.challenge env ≡ ok hash)
    × (p.verify key_type twin.public_key hash sig ≡ true)

-- The payload was plain, there was none, it was decrypted by the key of the twin, or it stays a cipher
-- since the twin has no key.
abbrev pub IsOpened : PeerEnv → Twin → Payload → Payload → Type 0
IsOpened p twin (plain output) after = after ≡ plain output
IsOpened p twin no_payload after = after ≡ no_payload
IsOpened p twin (cipher body) after =
    (p.has_key ≡ true)
    × (((twin.e2e_key ≡ none) × (after ≡ cipher body))
        ⊎ ((key : ℕ) × (output : ℕ) × (twin.e2e_key ≡ some key)
            × (p.decrypt body key ≡ ok output)
            × (after ≡ plain output)))

with_error_ok :
    {A : Type 0} (f : ℕ → PeerError) (r : Result ℕ A) {a : A} → with_error f r ≡ ok a → r ≡ ok a
with_error_ok f (ok b) h = cc
with_error_ok f (err e) h = cc

verify_bytes-IsSigned :
    (p : PeerEnv) (twin : Twin) (env : Envelope) (bytes : List ℕ)
    → env.signature ≡ some bytes
    → verify_bytes p twin env bytes ≡ ok tt
    → IsSigned p twin env
unfolding verify_bytes char_to_sig_type
verify_bytes-IsSigned p twin env [] s h = cc
verify_bytes-IsSigned p twin env (prefix ∷ sig) s h = elim (Result-cases (p.challenge env)) [
  | inr (e, c) ↦ absurd (ground (arith, h, c))
  | inl (hash, c) ↦ elim (Bool-cases (prefix == b'e')) [
    | inl e ↦ (ed25519, sig, hash, ground (arith, s, e), c, ground (arith, h, e, c))
    | inr n ↦ elim (Bool-cases (prefix == b's')) [
      | inl e ↦ (sr25519, sig, hash, ground (arith, s, e), c, ground (arith, h, n, e, c))
      | inr m ↦ absurd (ground (arith, h, n, m))
    ]
  ]
]

verify_signature-IsSigned :
    (p : PeerEnv) (source : ℕ) (env : Envelope)
    → verify_signature p source env ≡ ok tt
    → (twin : Twin) × (p.get_twin source ≡ ok twin) × ((env.signature ≡ none) ⊎ IsSigned p twin env)
unfolding verify_signature
verify_signature-IsSigned p source env h = elim (Result-cases (p.get_twin source)) [
  | inr (e, t) ↦ absurd (ground (arith, h, t))
  | inl (twin, t) ↦ elim (Option-cases env.signature) [
    | inl n ↦ (twin, t, inl n)
    | inr (bytes, s) ↦
        (twin, t, inr (verify_bytes-IsSigned p twin env bytes s (ground (arith, h, t, s))))
  ]
]

-- What stays of an envelope that is accepted, and what its payload becomes.
abbrev pub IsAccepted : PeerEnv → Twin → Envelope → Envelope → Type 0
IsAccepted p twin env opened =
    (get_error env.message ≡ none)
    × (opened ≡ record env { payload = opened.payload })
    × IsOpened p twin env.payload opened.payload

open_payload-IsOpened :
    (p : PeerEnv) (source : ℕ) (twin : Twin) (env : Envelope) (before : Payload) {opened : Envelope}
    → env.payload ≡ before
    → p.get_twin source ≡ ok twin
    → open_payload p source env before ≡ ok opened
    → (opened ≡ record env { payload = opened.payload }) × IsOpened p twin before opened.payload
unfolding open_payload decrypt_for
open_payload-IsOpened p source twin env (plain output) b t h = (cc, ground (arith, h, b))
open_payload-IsOpened p source twin env no_payload b t h = (cc, ground (arith, h, b))
open_payload-IsOpened p source twin env (cipher body) b t h = elim (Option-cases twin.e2e_key) [
  | inl n ↦ (ground (arith, h, t, n, b), (ground (arith, h), inl (n, ground (arith, h, t, n, b))))
  | inr (key, k) ↦ elim (Result-cases (p.decrypt body key)) [
    | inr (e, d) ↦ absurd (ground (arith, h, t, k, d))
    | inl (output, d) ↦ (
      ground (arith, h, t, k, d),
      (ground (arith, h), inr (key, output, k, d, ground (arith, h, t, k, d))),
    )
  ]
]

-- If `handleIncoming` accepts an envelope, it names a source that the twins have; it has no signature
-- at all, or one of the twin's key under its hash, of the kind that its first byte names; it is no
-- error; only its payload may change, and this was plain or empty, or the peer has a key and
-- decrypted it by the key of the twin, or the twin has no such key and it stays encrypted.
pub handle_incoming-IsAccepted :
    (p : PeerEnv) (env : Envelope) {opened : Envelope}
    → handle_incoming p env ≡ ok opened
    → (source : ℕ) × (twin : Twin) × (env.source ≡ some source)
      × (p.get_twin source ≡ ok twin)
      × ((env.signature ≡ none) ⊎ IsSigned p twin env)
      × IsAccepted p twin env opened
unfolding handle_incoming refuse_error
handle_incoming-IsAccepted p env {opened} h = elim (Option-cases env.source) [
  | inl n ↦ absurd (ground (arith, h, n))
  | inr (source, s) ↦ elim (Result-cases (verify_signature p source env)) [
    | inr (e, v) ↦ absurd (ground (arith, h, s, v))
    | inl (u, v) ↦ elim (Option-cases (get_error env.message)) [
      | inr (text, m) ↦ absurd (ground (arith, h, s, v, m))
      | inl m ↦
          let (twin, t, signed) = verify_signature-IsSigned p source env v in
          let (same, opens) =
            open_payload-IsOpened p source twin env env.payload {opened = opened} refl t
              (ground (arith, h, s, v, m)) in
          (source, twin, s, t, signed, (m, same, opens))
    ]
  ]
]
