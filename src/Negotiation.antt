-- ===== src/Negotiation.antt =====
-- The negotiation of `WebrtcSession`, src/webrtc/mod.rs: offers, answers and ICE candidates. The
-- peer connection is that of the `webrtc` crate: a parameter, `PeerOps`, of operations on a state
-- the model does not look into. The session keeps beside that state a record of the calls that the
-- code made, newest first. The callbacks that `new` registers only put events into a channel.
pub mod Pending
pub mod Restarts
pub mod Losses
pub mod Reoffers
mod Tests
use mumdota.Base.{
  ℕ, Bool, true, false, not, ◌||◌, String, List, [], ◌∷◌, ◌++◌, Option, none, some, length, ltb,
  if◌then◌else◌, Result, ok, err,
}
use mumdota.Messages.{IceCandidateData}

-- `RTCSignalingState`
pub data SignalingState : Type 0 where
  stable have_local_offer other_state : SignalingState

pub data WebrtcError : Type 0 where
  too_many_pending peer_failed : WebrtcError

-- What the code calls on an `RTCPeerConnection` of state `S`.
pub record PeerOps (S : Type 0) : Type 0 where
  pub signaling_state : S → SignalingState
  pub has_remote_description : S → Bool
  pub create_offer : Bool → S → Result WebrtcError String × S
  pub set_local_description : String → S → Result WebrtcError (Unit {0}) × S
  pub set_remote_description : String → S → Result WebrtcError (Unit {0}) × S
  pub add_ice_candidate : IceCandidateData → S → Result WebrtcError (Unit {0}) × S

-- The calls that change what the remote end sees: an offer with its `ice_restart` that the peer
-- created, and a candidate that was handed to the peer.
pub data PeerCall : Type 0 where
  created : Bool → PeerCall
  added : IceCandidateData → PeerCall

pub record WebrtcSession (S : Type 0) : Type 0 where
  pub peer : S
  pub calls : List PeerCall
  pub started : Bool
  pub needs_offer : Bool
  pub restart_pending : Bool
  pub pending_candidates : List IceCandidateData

abbrev pub fresh_session : {S : Type 0} → S → WebrtcSession S
fresh_session peer = record {
  peer = peer;
  calls = [];
  started = false;
  needs_offer = false;
  restart_pending = false;
  pending_candidates = [];
}

abbrev pub is_stable : SignalingState → Bool
is_stable stable = true
is_stable have_local_offer = false
is_stable other_state = false

abbrev pub is_offering : SignalingState → Bool
is_offering stable = false
is_offering have_local_offer = true
is_offering other_state = false

module _ {S : Type 0} (ops : PeerOps S) where
  -- The part of `offer` behind its two early returns.
  unfoldable pub make_offer : WebrtcSession S → Result WebrtcError (Option String) × WebrtcSession S
  make_offer s =
      let (offered, p) = ops.create_offer s.restart_pending s.peer in
      elim offered [
        | err e ↦ (err e, record s { peer = p })
        | ok sdp ↦
            (let (local, p') = ops.set_local_description sdp p in
              let s' : WebrtcSession S = record s {
                peer = p';
                calls = created s.restart_pending ∷ s.calls;
                restart_pending = false;
                needs_offer = false;
              } in
              elim local [ err e ↦ (err e, s') | ok _ ↦ (ok (some sdp), s') ])
      ]

  unfoldable pub offer :
      WebrtcSession S → Bool → Result WebrtcError (Option String) × WebrtcSession S
  unfolding make_offer
  offer s restart =
      let s' : WebrtcSession S = record s { restart_pending = s.restart_pending || restart } in
      if not s'.started
      then (ok none, s')
      else if not (is_stable (ops.signaling_state s'.peer))
      then (ok none, record s' { needs_offer = true })
      else make_offer s'

  -- The candidates of `drain(..)`, until the peer refuses one.
  unfoldable pub add_all :
      S → List PeerCall → List IceCandidateData → Result WebrtcError (Unit {0}) × S × List PeerCall
  add_all p calls [] = (ok tt, p, calls)
  add_all p calls (c ∷ cs) =
      let (r, p') = ops.add_ice_candidate c p in
      let rest = add_all p' (added c ∷ calls) cs in
      elim r [ err e ↦ (err e, p', added c ∷ calls) | ok _ ↦ rest ]

  unfoldable pub answer :
      WebrtcSession S → String → Result WebrtcError (Option String) × WebrtcSession S
  unfolding offer add_all
  answer s sdp =
      let (remote, p) = ops.set_remote_description sdp s.peer in
      elim remote [
        | err e ↦ (err e, record s { peer = p })
        | ok _ ↦
            (let (drained, p', calls) = add_all p s.calls s.pending_candidates in
              let s' : WebrtcSession S = record s {
                peer = p';
                calls = calls;
                pending_candidates = [];
              } in
              elim drained [
                | err e ↦ (err e, s')
                | ok _ ↦ if s'.needs_offer then offer s' false else (ok none, s')
              ])
      ]

  -- The test of `add_ice_candidate`: a candidate must wait for the answer.
  abbrev pub must_wait : S → Bool
  must_wait p = not (ops.has_remote_description p) || is_offering (ops.signaling_state p)

  unfoldable pub add_ice_candidate :
      WebrtcSession S → IceCandidateData → Result WebrtcError (Unit {0}) × WebrtcSession S
  add_ice_candidate s init =
      if must_wait s.peer
      then (if ltb (length s.pending_candidates) 128
          then (ok tt, record s { pending_candidates = s.pending_candidates ++ init ∷ [] })
          else (err too_many_pending, s))
      else (let (r, p) = ops.add_ice_candidate init s.peer in
          (r, record s { peer = p; calls = added init ∷ s.calls }))

  -- What the session manager and the event loop do with the session: `start` is the assignment of
  -- `started` in `SessionManager::start_voice`.
  pub data Call : Type 0 where
    start : Call
    offers : Bool → Call
    answers : String → Call
    candidate : IceCandidateData → Call

  unfoldable pub call : WebrtcSession S → Call → WebrtcSession S
  unfolding offer answer add_ice_candidate
  call s start = record s { started = true }
  call s (offers restart) = (offer s restart).1
  call s (answers sdp) = (answer s sdp).1
  call s (candidate init) = (add_ice_candidate s init).1

  unfoldable pub run_calls : WebrtcSession S → List Call → WebrtcSession S
  run_calls s [] = s
  run_calls s (c ∷ cs) = run_calls (call s c) cs
