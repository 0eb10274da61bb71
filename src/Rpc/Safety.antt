-- ===== src/Rpc/Safety.antt =====
-- What a call of rmb-sdk-go/peer/rpc.go may rely on, and where the handler panics.
use tfgrid_sdk_go.Prelude.{
  ℕ, ◌≡◌, refl, sym, ap, ◌∙◌, subst, ok, Result-cases, Bool, true, false, Option, none, some, ◌⊎◌,
  inl, inr, Option-cases, arith,
}
use tfgrid_sdk_go.Peer.{
  Payload, plain, cipher, no_payload, Envelope, PeerEnv, Incoming, is_response, handle_incoming,
  process,
}
use tfgrid_sdk_go.Rpc.{
  Caller, is_default_schema, decode, answer_envelope, answer, Phase, not_called, registered,
  waiting, returning, closing, returned, RpcClient, set_at, offer, dispatch, Reach,
}
use tfgrid_sdk_go.Rpc.Invariant.{
  channel_in, closed_in, IsIncoming, came, IsResult, unsent, unanswered, answered, Reach-IsSound,
}

-- The envelope is the response to the call, and has a result that decodes where one is wanted.
abbrev pub IsResponse : (ℕ → Option ℕ) → Bool → Envelope → Type 0
IsResponse unmarshal wants env =
    (is_response env.message ≡ true)
    × (wants ≡ true
        → (is_default_schema env.schema ≡ true)
          × (output : ℕ) × (env.payload ≡ plain output)
          × (unmarshal output ≡ none))

decode-none :
    (unmarshal : ℕ → Option ℕ) (p : Payload)
    → decode unmarshal p ≡ none
    → (output : ℕ) × (p ≡ plain output) × (unmarshal output ≡ none)
unfolding decode
decode-none unmarshal (plain output) h = elim (Option-cases (unmarshal output)) [
  | inl e ↦ (output, refl, e)
  | inr (x, e) ↦ ground (arith, h, e)
]
decode-none unmarshal (cipher body) h = cc
decode-none unmarshal no_payload h = cc

answer-none :
    (unmarshal : ℕ → Option ℕ) (wants : Bool) (incoming : Incoming)
    → answer unmarshal wants incoming ≡ none
    → (incoming.error ≡ none) × IsResponse unmarshal wants incoming.env
unfolding answer answer_envelope
answer-none unmarshal wants incoming h = (
  ground (arith, h),
  (
    ground (arith, h),
    λ w.
        let (output, p, fine) = decode-none unmarshal incoming.env.payload (ground (arith, h, w)) in
        (ground (arith, h, w), output, p, fine),
  ),
)

-- What `process` hands on without an error is an envelope that `handleIncoming` accepts.
process_accepted :
    (p : PeerEnv) (env : Envelope)
    → (process p env).error ≡ none
    → handle_incoming p env ≡ ok (process p env).env
unfolding process
process_accepted p env h = elim (Result-cases (handle_incoming p env)) [
  | inl (opened, e) ↦ ground (arith, e)
  | inr (x, e) ↦ absurd (ground (arith, h, e))
]

-- In every state that the client reaches, whatever came in and whatever the order of the steps: if a
-- call has returned without an error, an envelope came in that `handleIncoming` accepts, and what it
-- hands on has the uid of this call, is a response, and where the call wants the result, has the
-- default schema and a plain payload that decodes; and the map has no channel for the call any more.
pub call-IsResponse :
    (c : Caller) {d : RpcClient} (id : ℕ)
    → Reach c d
    → d.phase id ≡ returned none
    → (d.responses id ≡ none)
      × (env : Envelope) × (opened : Envelope) × (handle_incoming c.peer env ≡ ok opened)
      × (opened.uid ≡ id)
      × IsResponse c.unmarshal (c.wants id) opened
call-IsResponse c {d} id r h =
    let s = Reach-IsSound c r in
    let (env, opened, accepted, own, response) = from (s.sourced id none (ground (arith, h))) in
    (ground (arith, s.held id, h), env, opened, accepted, own, response)
  where
    from :
        IsResult c id none
        → (env : Envelope) × (opened : Envelope) × (handle_incoming c.peer env ≡ ok opened)
          × (opened.uid ≡ id)
          × IsResponse c.unmarshal (c.wants id) opened
    from (unsent e x) = cc
    from (unanswered x) = cc
    from (answered incoming (came env e u) x) =
        let (fine, response) = answer-none c.unmarshal (c.wants id) incoming (sym x) in
        (
          env,
          incoming.env,
          subst (λ y. handle_incoming c.peer env ≡ ok y.env) (sym e)
              (process_accepted c.peer env (ap (λ y. y.error) (sym e) ∙ fine)),
          u,
          response,
        )

-- The envelope is kept for the call, unless an earlier one is.
abbrev pub IsKept : Caller → Incoming → RpcClient → RpcClient → Type 0
IsKept c x d d' =
    ((d.buffer x.env.uid ≡ none) × (d' ≡ record d { buffer = set_at d.buffer x.env.uid (some x) }))
    ⊎ ((old : Incoming) × (d.buffer x.env.uid ≡ some old) × IsIncoming c x.env.uid old × (d' ≡ d))

abbrev pub IsRouted : Caller → Phase → Incoming → RpcClient → RpcClient → Type 0
IsRouted c not_called x d d' = d' ≡ d
IsRouted c registered x d d' = IsKept c x d d'
IsRouted c waiting x d d' = IsKept c x d d'
IsRouted c (returning r) x d d' = IsKept c x d d'
IsRouted c (closing r) x d d' = d' ≡ record d { has_panicked = true }
IsRouted c (returned r) x d d' = d' ≡ d

dispatch-IsKept :
    (c : Caller) (x : Incoming) {d : RpcClient}
    → ((id : ℕ) (incoming : Incoming) → d.buffer id ≡ some incoming → IsIncoming c id incoming)
    → d.responses x.env.uid ≡ some x.env.uid
    → d.is_closed x.env.uid ≡ false
    → IsKept c x d (dispatch x d)
unfolding dispatch offer
dispatch-IsKept c x {d} own held open_still = elim (Option-cases (d.buffer x.env.uid)) [
  | inl e ↦ inl (e, rw (held, dispatch) (rw (open_still, offer) (rw (e, offer) refl)))
  | inr (old, e) ↦ inr (
    old,
    e,
    own x.env.uid old e,
    rw (held, dispatch) (rw (open_still, offer) (rw (e, offer) refl)),
  )
]

-- The same for the phase as a variable.
dispatch_in :
    (c : Caller) (x : Incoming) (d : RpcClient) (p : Phase)
    → ((id : ℕ) (incoming : Incoming) → d.buffer id ≡ some incoming → IsIncoming c id incoming)
    → d.responses x.env.uid ≡ channel_in x.env.uid p
    → d.is_closed x.env.uid ≡ closed_in p
    → IsRouted c p x d (dispatch x d)
unfolding dispatch offer
dispatch_in c x d not_called own held shut = rw (held, dispatch) refl
dispatch_in c x d registered own held shut = dispatch-IsKept c x own held shut
dispatch_in c x d waiting own held shut = dispatch-IsKept c x own held shut
dispatch_in c x d (returning r) own held shut = dispatch-IsKept c x own held shut
dispatch_in c x d (closing r) own held shut = rw (held, dispatch) (rw (shut, offer) refl)
dispatch_in c x d (returned r) own held shut = rw (held, dispatch) refl

-- In every state that the client reaches, what the handler gets is dropped where no call has its uid
-- or the call has returned; while the call runs up to its return it is kept for the call, unless
-- something that came in earlier with this uid is; and between the closing of the channel and its
-- removal from the map the handler panics. Nothing else changes.
pub dispatch-IsRouted :
    (c : Caller) {d : RpcClient} (x : Incoming)
    → Reach c d
    → IsRouted c (d.phase x.env.uid) x d (dispatch x d)
dispatch-IsRouted c {d} x r =
    let s = Reach-IsSound c r in
    dispatch_in c x d (d.phase x.env.uid) s.own (s.held x.env.uid) (s.open_until x.env.uid)
