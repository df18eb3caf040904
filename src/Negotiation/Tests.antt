-- ===== src/Negotiation/Tests.antt =====
-- Runs of the negotiation of src/webrtc/mod.rs with a small peer that has no errors.
use mumdota.Base.{
  ◌==◌, string_eq, err, ◌≤◌, ◌≡◌, refl, ◌⊎◌, Bool, true, false, List, [], ◌∷◌, ◌++◌, none, some,
  arith, length, any, ok, if◌then◌else◌,
}
use mumdota.Messages.{IceCandidateData}
use mumdota.Negotiation.{
  peer_failed, SignalingState, stable, have_local_offer, PeerOps, PeerCall, created, added,
  WebrtcSession, fresh_session, Call, start, offers, answers, candidate, run_calls, call, offer,
  answer, add_ice_candidate, make_offer, add_all,
}
use mumdota.Negotiation.Pending.{run_calls-bound}
use mumdota.Negotiation.Restarts.{is_restart, restart_not_forgotten}
use mumdota.Negotiation.Reoffers.{offer_put_off}

-- Whether an offer waits for its answer, and whether there has been an answer.
record Toy : Type 0 where
  signaling : SignalingState
  remote : Bool

abbrev toy_ops : PeerOps Toy
toy_ops = record {
  signaling_state = λ p. p.signaling;
  has_remote_description = λ p. p.remote;
  create_offer = λ restart p. (ok (if restart then "restart" else "offer"), p);
  set_local_description = λ sdp p. (ok tt, record p { signaling = have_local_offer });
  set_remote_description = λ sdp p. (ok tt, record { signaling = stable; remote = true });
  add_ice_candidate = λ c p. (ok tt, p);
}

abbrev toy : Toy
toy = record { signaling = stable; remote = false }

abbrev first_candidate : IceCandidateData
first_candidate = record { candidate = "a"; sdp_mid = none; sdp_mline_index = some 0 }

abbrev second_candidate : IceCandidateData
second_candidate = record { candidate = "b"; sdp_mid = none; sdp_mline_index = some 0 }

abbrev used : List (Call toy_ops)
used =
    start
    ∷ offers false
    ∷ candidate first_candidate
    ∷ offers true
    ∷ answers "answer"
    ∷ answers "answer"
    ∷ candidate second_candidate
    ∷ []

run_calls-used :
    (run_calls toy_ops (fresh_session toy) used).calls
    ≡ added second_candidate ∷ created true ∷ added first_candidate ∷ created false ∷ []
unfolding run_calls call offer answer add_ice_candidate make_offer add_all
run_calls-used = refl

run_calls-bound_example :
    length (run_calls toy_ops (fresh_session toy) used).pending_candidates ≤ 128
run_calls-bound_example = run_calls-bound toy_ops (fresh_session toy) used (omega arith)

-- A peer that refuses the candidates of one text.
abbrev strict_ops : PeerOps Toy
strict_ops = record toy_ops {
  add_ice_candidate = λ c p. (if c.candidate == "a" then err peer_failed else ok tt, p);
}

abbrev refused : List (Call strict_ops)
refused =
    start
    ∷ offers false
    ∷ candidate first_candidate
    ∷ candidate second_candidate
    ∷ answers "answer"
    ∷ candidate second_candidate
    ∷ []

run_calls-refused :
    (run_calls strict_ops (fresh_session toy) refused).calls
    ≡ added second_candidate ∷ added first_candidate ∷ created false ∷ []
unfolding run_calls call offer answer add_ice_candidate make_offer add_all
run_calls-refused = refl

restart_not_forgotten_example :
    let s' = run_calls toy_ops (offer toy_ops (fresh_session toy) true).1 used in
    (since : List PeerCall) × (s'.calls ≡ since ++ [])
    × ((s'.restart_pending ≡ true) ⊎ (any is_restart since ≡ true))
restart_not_forgotten_example = restart_not_forgotten toy_ops (fresh_session toy) used

abbrev waiting : WebrtcSession Toy
waiting = record (fresh_session toy) {
  peer = record { signaling = have_local_offer; remote = false };
  started = true;
}

offer_put_off_example :
    let (r, s1) = offer toy_ops waiting true in
    let (r', s2) = answer toy_ops s1 "answer" in
    (r ≡ ok none) × (r' ≡ ok (some "restart")) × (s2.calls ≡ created true ∷ [])
unfolding add_all
offer_put_off_example =
    offer_put_off toy_ops waiting true "answer" "restart" refl refl refl refl refl refl refl
