-- ===== src/Negotiation/Reoffers.antt =====
-- An offer of src/webrtc/mod.rs that came while an answer was due: it is made when the answer comes.
use mumdota.Base.{
  none, ◌≡◌, refl, sym, ap, ◌∙◌, Bool, true, false, ◌||◌, String, [], ◌∷◌, some, arith, ok,
}
use mumdota.Negotiation.{
  PeerOps, created, WebrtcSession, make_offer, offer, add_all, answer, is_stable,
}
use mumdota.Negotiation.Restarts.{asking, offer-free, offer-busy}

module _ {S : Type 0} (ops : PeerOps S) where
  -- The session when the peer has taken an answer and the candidates that waited for it.
  abbrev pub settled : WebrtcSession S → String → WebrtcSession S
  settled s text =
      let p = (ops.set_remote_description text s.peer).1 in
      let (_, p', calls) = add_all ops p s.calls s.pending_candidates in
      record s { peer = p'; calls = calls; pending_candidates = [] }

  make_offer-made :
      (s : WebrtcSession S) (sdp : String)
      → (ops.create_offer s.restart_pending s.peer).0 ≡ ok sdp
      → (ops.set_local_description sdp (ops.create_offer s.restart_pending s.peer).1).0 ≡ ok tt
      → ((make_offer ops s).0 ≡ ok (some sdp))
        × ((make_offer ops s).1.calls ≡ created s.restart_pending ∷ s.calls)
  unfolding make_offer
  make_offer-made s sdp made set = rw (make_offer, made, set) (refl, refl)

  -- An offer asked for while a started session waits for an answer is put off. When the answer comes,
  -- the peer takes it with the candidates that waited, and is stable then, the offer is made with the
  -- restart that was asked for: it is the last call made to the peer, and its text is returned, if
  -- the peer makes an offer and sets it.
  pub offer_put_off :
      (s : WebrtcSession S) (restart : Bool) (text sdp : String)
      → s.started ≡ true
      → is_stable (ops.signaling_state s.peer) ≡ false
      → (ops.set_remote_description text s.peer).0 ≡ ok tt
      → (add_all ops (ops.set_remote_description text s.peer).1 s.calls s.pending_candidates).0
        ≡ ok tt
      → is_stable (ops.signaling_state (settled s text).peer) ≡ true
      → (ops.create_offer (s.restart_pending || restart) (settled s text).peer).0 ≡ ok sdp
      → (ops.set_local_description sdp
          (ops.create_offer (s.restart_pending || restart) (settled s text).peer).1).0
        ≡ ok tt
      → let (r, s1) = offer ops s restart in
        let (r', s2) = answer ops s1 text in
        (r ≡ ok none)
        × (r' ≡ ok (some sdp))
        × (s2.calls ≡ created (s.restart_pending || restart) ∷ (settled s text).calls)
  unfolding offer answer
  offer_put_off s restart text sdp started busy answered clear free made set =
      let s1 : WebrtcSession S = record (asking ops s restart) { needs_offer = true } in
      let s2 : WebrtcSession S = asking ops (settled s1 text) false in
      let flag : (s.restart_pending || restart) ≡ s2.restart_pending = ground arith in
      let later : answer ops s1 text ≡ make_offer ops s2 =
        rw (answer, answered, clear) (offer-free ops (settled s1 text) false started free) in
      let (text_of, called) =
        make_offer-made s2 sdp
          (ap (λ b. (ops.create_offer b (settled s text).peer).0) (sym flag) ∙ made)
          (ap (λ b. (ops.set_local_description sdp (ops.create_offer b (settled s text).peer).1).0)
              (sym flag)
            ∙ set) in
      rw (offer-busy ops s restart started busy, later)
        (refl, text_of, called ∙ ap (λ b. created b ∷ (settled s text).calls) (sym flag))
