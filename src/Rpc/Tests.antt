-- ===== src/Rpc/Tests.antt =====
-- One call that is answered, and one that gives up and is answered too late.
use tfgrid_sdk_go.Prelude.{
  ℕ, ◌≡◌, refl, true, false, [], ◌∷◌, ok, err, none, some, ◌==◌, if◌then◌else◌,
}
use tfgrid_sdk_go.Peer.{
  plain, response, Envelope, PeerEnv, Incoming, char_to_sig_type, verify_bytes, verify_signature,
  refuse_error, open_payload, handle_incoming, process,
}
use tfgrid_sdk_go.Rpc.{
  Caller, context_done, is_default_schema, decode, answer_envelope, answer, returned, RpcClient,
  new_rpc_client, register, send_request, give_up_waiting, receive, close_channel, delete_channel,
  offer, dispatch, registers, sends, gives_up, receives, closes, deletes, routes, Reach, start,
  later,
}
use tfgrid_sdk_go.Rpc.Safety.{IsResponse, IsRouted, call-IsResponse, dispatch-IsRouted}

-- One twin, whose key verifies every signature, and a peer that does not encrypt.
abbrev plain_peer : PeerEnv
plain_peer = record {
  get_twin = λ id. if id == 7 then ok (record { public_key = 70; e2e_key = none }) else err id;
  challenge = λ env. ok env.rest;
  verify = λ key_type key hash sig. key == 70;
  has_key = false;
  decrypt = λ body key. err 0;
}

-- Every output decodes, and every call wants its result.
abbrev caller : Caller
caller = record { peer = plain_peer; unmarshal = λ output. none; wants = λ id. true }

abbrev reply : ℕ → Envelope
reply id = record {
  uid = id;
  source = some 7;
  signature = some (b'e' ∷ 1 ∷ 2 ∷ []);
  message = response;
  schema = some 0;
  payload = plain 42;
  rest = 5;
}

incoming : ℕ → Incoming
incoming id = process plain_peer (reply id)

abbrev sent : ℕ → RpcClient
sent id = send_request id none (register id new_rpc_client)

sent-Reach : Reach caller (sent 3)
unfolding register send_request
sent-Reach = later (later start refl (registers 3 refl refl)) refl (sends 3 none refl refl)

abbrev answered_call : RpcClient
answered_call = delete_channel 3 none (
    close_channel 3 none
      (receive (λ output. none) true 3 (incoming 3) (dispatch (incoming 3) (sent 3))))

answered-Reach : Reach caller answered_call
unfolding register send_request dispatch offer receive answer answer_envelope is_default_schema
    decode close_channel delete_channel incoming process handle_incoming verify_signature
    verify_bytes char_to_sig_type refuse_error open_payload
answered-Reach =
    later
      (later
        (later (later sent-Reach refl (routes (reply 3) refl)) refl
          (receives 3 (incoming 3) refl refl refl))
        refl (closes 3 none refl refl))
      refl (deletes 3 none refl refl)

answered_phase : answered_call.phase 3 ≡ returned none
unfolding delete_channel
answered_phase = refl

call-IsResponse_example :
    (answered_call.responses 3 ≡ none)
    × (env : Envelope) × (opened : Envelope) × (handle_incoming plain_peer env ≡ ok opened)
    × (opened.uid ≡ 3)
    × IsResponse (λ output. none) true opened
call-IsResponse_example = call-IsResponse caller 3 answered-Reach answered_phase

-- The channel is closed and not removed yet.
abbrev late_call : RpcClient
late_call = close_channel 3 (some context_done) (give_up_waiting 3 (sent 3))

late-Reach : Reach caller late_call
unfolding register send_request give_up_waiting close_channel
late-Reach =
    later (later sent-Reach refl (gives_up 3 refl refl)) refl
      (closes 3 (some context_done) refl refl)

dispatch-IsRouted_example :
    IsRouted caller (late_call.phase 3) (incoming 3) late_call (dispatch (incoming 3) late_call)
unfolding incoming process handle_incoming verify_signature verify_bytes char_to_sig_type
    refuse_error open_payload
dispatch-IsRouted_example = dispatch-IsRouted caller (incoming 3) late-Reach

late_panics : (dispatch (incoming 3) late_call).has_panicked ≡ true
unfolding register send_request give_up_waiting close_channel dispatch offer incoming process
    handle_incoming verify_signature verify_bytes char_to_sig_type refuse_error open_payload
late_panics = refl
