-- ===== src/Rpc/Invariant.antt =====
-- What holds in every state that the client of rmb-sdk-go/peer/rpc.go reaches.
use tfgrid_sdk_go.Prelude.{
  ℕ, ◌≡◌, refl, Bool, true, false, ◌⊎◌, Option, none, some, arith, ◌==◌, ap, sym, ◌∙◌, subst,
  Bool-cases, inl, inr, ==_iff,
}
use tfgrid_sdk_go.Peer.{Envelope, Incoming, process}
use tfgrid_sdk_go.Rpc.{
  Caller, RpcError, send_failed, context_done, answer, Phase, not_called, registered, waiting,
  returning, closing, returned, RpcClient, new_rpc_client, set_at, register, send_request,
  give_up_waiting, receive, close_channel, delete_channel, offer, dispatch, Step, registers, sends,
  gives_up, receives, closes, deletes, routes, Reach, start, later,
}

-- The channel that the map has for the call `id`, by the call's phase.
abbrev pub channel_in : ℕ → Phase → Option ℕ
channel_in id not_called = none
channel_in id registered = some id
channel_in id waiting = some id
channel_in id (returning r) = some id
channel_in id (closing r) = some id
channel_in id (returned r) = none

abbrev pub closed_in : Phase → Bool
closed_in not_called = false
closed_in registered = false
closed_in waiting = false
closed_in (returning r) = false
closed_in (closing r) = true
closed_in (returned r) = true

abbrev pub result_in : Phase → Option (Option RpcError)
result_in not_called = none
result_in registered = none
result_in waiting = none
result_in (returning r) = some r
result_in (closing r) = some r
result_in (returned r) = some r

-- What came in for the call `id`.
pub data IsIncoming (c : Caller) (id : ℕ) (incoming : Incoming) : Type 0 where
  came :
      (env : Envelope)
      → incoming ≡ process c.peer env
      → incoming.env.uid ≡ id
      → IsIncoming c id incoming

-- Where a result comes from.
pub data IsResult (c : Caller) (id : ℕ) (r : Option RpcError) : Type 0 where
  unsent : (e : ℕ) → r ≡ some (send_failed e) → IsResult c id r
  unanswered : r ≡ some context_done → IsResult c id r
  answered :
      (incoming : Incoming)
      → IsIncoming c id incoming
      → r ≡ answer c.unmarshal (c.wants id) incoming
      → IsResult c id r

module _ (c : Caller) where
  pub record IsSound (d : RpcClient) : Type 0 where
    pub held : (id : ℕ) → d.responses id ≡ channel_in id (d.phase id)
    pub open_until : (id : ℕ) → d.is_closed id ≡ closed_in (d.phase id)
    pub own :
        (id : ℕ) (incoming : Incoming) → d.buffer id ≡ some incoming → IsIncoming c id incoming
    pub sourced : (id : ℕ) (r : Option RpcError) → result_in (d.phase id) ≡ some r → IsResult c id r

  new-IsSound : IsSound new_rpc_client
  new-IsSound = record {
    held = λ id. refl;
    open_until = λ id. refl;
    own = λ id incoming h. cc;
    sourced = λ id r h. cc;
  }

  sourced-set_at :
      (f : ℕ → Phase) (i : ℕ) (p : Phase)
      → ((id : ℕ) (r : Option RpcError) → result_in (f id) ≡ some r → IsResult c id r)
      → ((r : Option RpcError) → result_in p ≡ some r → IsResult c i r)
      → (id : ℕ) (r : Option RpcError) → result_in (set_at f i p id) ≡ some r
      → IsResult c id r
  sourced-set_at f i p before now id r h = elim (Bool-cases (i == id)) [
    | inl e ↦ subst (λ j. IsResult c j r) ((==_iff i id).0 e) (now r (ground (arith, e, h)))
    | inr e ↦ before id r (ground (arith, e, h))
  ]

  -- A call goes to the phase `p`, and its channel with it.
  module _ {d : RpcClient} (s : IsSound d) (i : ℕ) (p : Phase) where
    moved-IsSound :
        (d' : RpcClient)
        → ((id : ℕ) → d'.phase id ≡ set_at d.phase i p id)
        → ((id : ℕ) → d'.responses id ≡ set_at d.responses i (channel_in i p) id)
        → ((id : ℕ) → d'.is_closed id ≡ set_at d.is_closed i (closed_in p) id)
        → ((id : ℕ) (incoming : Incoming)
            → d'.buffer id ≡ some incoming
            → d.buffer id ≡ some incoming)
        → ((r : Option RpcError) → result_in p ≡ some r → IsResult c i r)
        → IsSound d'
    moved-IsSound d' f g c b now = record {
      held = λ id. ground (arith, s.held id, f id, g id);
      open_until = λ id. ground (arith, s.open_until id, f id, c id);
      own = λ id incoming h. s.own id incoming (b id incoming h);
      sourced =
          λ id r h. sourced-set_at d.phase i p s.sourced now id r (ap result_in (sym (f id)) ∙ h);
    }

  -- The handler changes only the buffer of the channel with the envelope's uid.
  dispatch-buffer :
      {d : RpcClient}
      → IsSound d
      → (x : Incoming) (id : ℕ) (incoming : Incoming) → (dispatch x d).buffer id ≡ some incoming
      → (d.buffer id ≡ some incoming) ⊎ ((incoming ≡ x) × (x.env.uid ≡ id))
  unfolding dispatch offer
  dispatch-buffer {d} s x id incoming h = ground (arith, h, s.held x.env.uid)

  dispatch-IsSound :
      {d : RpcClient} → IsSound d → (env : Envelope) → IsSound (dispatch (process c.peer env) d)
  unfolding dispatch offer
  dispatch-IsSound {d} s env =
      let x = process c.peer env in
      record {
        held = λ id. ground (arith, s.held id);
        open_until = λ id. ground (arith, s.open_until id);
        own = λ id incoming h. elim (dispatch-buffer s x id incoming h) [
          | inl old ↦ s.own id incoming old
          | inr (e, u) ↦ came env e (ap (λ y. y.env.uid) e ∙ u)
        ];
        sourced = λ id r h. s.sourced id r (ground (arith, h));
      }

  Step-IsSound : {d d' : RpcClient} → Step c d d' → IsSound d → IsSound d'
  unfolding register send_request give_up_waiting receive close_channel delete_channel
  Step-IsSound {d} (registers i p e) s = subst IsSound (sym e) (
      moved-IsSound s i registered (register i d) (λ id. refl) (λ id. refl)
        (λ id. ground (arith, s.open_until i, p)) (λ id incoming h. h) (λ r h. cc))
  Step-IsSound {d} (sends i none p e) s = subst IsSound (sym e) (
      moved-IsSound s i waiting (send_request i none d) (λ id. refl)
        (λ id. ground (arith, s.held i, p)) (λ id. ground (arith, s.open_until i, p))
        (λ id incoming h. h) (λ r h. cc))
  Step-IsSound {d} (sends i (some x) p e) s = subst IsSound (sym e) (
      moved-IsSound s i (returning (some (send_failed x))) (send_request i (some x) d) (λ id. refl)
        (λ id. ground (arith, s.held i, p)) (λ id. ground (arith, s.open_until i, p))
        (λ id incoming h. h) (λ r h. unsent x (cc)))
  Step-IsSound {d} (gives_up i p e) s = subst IsSound (sym e) (
      moved-IsSound s i (returning (some context_done)) (give_up_waiting i d) (λ id. refl)
        (λ id. ground (arith, s.held i, p)) (λ id. ground (arith, s.open_until i, p))
        (λ id incoming h. h) (λ r h. unanswered (cc)))
  Step-IsSound {d} (receives i x p b e) s = subst IsSound (sym e) (
      moved-IsSound s i (returning (answer c.unmarshal (c.wants i) x))
        (receive c.unmarshal (c.wants i) i x d) (λ id. refl) (λ id. ground (arith, s.held i, p))
        (λ id. ground (arith, s.open_until i, p)) (λ id incoming h. ground (arith, h))
        (λ r h. answered x (s.own i x b) (cc)))
  Step-IsSound {d} (closes i result p e) s = subst IsSound (sym e) (
      moved-IsSound s i (closing result) (close_channel i result d) (λ id. refl)
        (λ id. ground (arith, s.held i, p)) (λ id. refl) (λ id incoming h. h)
        (λ r h. s.sourced i r (ap result_in p ∙ h)))
  Step-IsSound {d} (deletes i result p e) s = subst IsSound (sym e) (
      moved-IsSound s i (returned result) (delete_channel i result d) (λ id. refl) (λ id. refl)
        (λ id. ground (arith, s.open_until i, p)) (λ id incoming h. h)
        (λ r h. s.sourced i r (ap result_in p ∙ h)))
  Step-IsSound {d} (routes x e) s = subst IsSound (sym e) (dispatch-IsSound s x)

  pub Reach-IsSound : {d : RpcClient} → Reach c d → IsSound d
  Reach-IsSound start = new-IsSound
  Reach-IsSound (later r calm step) = Step-IsSound step (Reach-IsSound r)
