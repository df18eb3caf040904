-- ===== src/Negotiation/Restarts.antt =====
-- The offers of src/webrtc/mod.rs: a requested ICE restart is not forgotten.
use mumdota.Base.{
  subst, none, ◌⊎◌, append_assoc, ◌≡◌, refl, ap, ◌∙◌, sym, Bool, true, false, ◌||◌, String, List,
  [], ◌∷◌, ◌++◌, arith, any, if◌then◌else◌, Bool-cases, ok, Result-cases, inl, inr,
}
use mumdota.Messages.{IceCandidateData}
use mumdota.Negotiation.{
  PeerOps, PeerCall, created, added, WebrtcSession, make_offer, offer, add_all, answer, must_wait,
  add_ice_candidate, Call, start, offers, answers, candidate, call, run_calls, is_stable,
}

abbrev pub is_restart : PeerCall → Bool
is_restart (created restart) = restart
is_restart (added c) = false

any-append :
    (xs ys : List PeerCall) → any is_restart (xs ++ ys) ≡ any is_restart xs || any is_restart ys
any-append [] ys = refl
any-append (x ∷ xs) ys = ground (arith, any-append xs ys)

module _ {S : Type 0} where
  -- From `s` to `s'`, a restart that was pending is pending still or was in an offer created since.
  pub record NotForgotten (s s' : WebrtcSession S) : Type 0 where
    pub since : List PeerCall
    pub calls : s'.calls ≡ since ++ s.calls
    pub kept :
        s.restart_pending ≡ true → (s'.restart_pending ≡ true) ⊎ (any is_restart since ≡ true)

  forget_nothing :
      (s s' : WebrtcSession S)
      → s'.calls ≡ s.calls
      → s'.restart_pending ≡ s.restart_pending
      → NotForgotten s s'
  forget_nothing s s' same flag = record {
    since = [];
    calls = same;
    kept = λ asked. inl (flag ∙ asked);
  }

  then-NotForgotten :
      {s s' s'' : WebrtcSession S} → NotForgotten s s' → NotForgotten s' s'' → NotForgotten s s''
  then-NotForgotten {s} a b = record {
    since = b.since ++ a.since;
    calls = b.calls ∙ ap (λ l. b.since ++ l) a.calls ∙ sym (append_assoc b.since a.since s.calls);
    kept = λ asked.
        let split = any-append b.since a.since in
        elim (a.kept asked) [
          | inl pending ↦ elim (b.kept pending) [ inl p ↦ inl p | inr o ↦ inr (ground arith) ]
          | inr offered ↦ inr (ground arith)
        ];
  }

module _ {S : Type 0} (ops : PeerOps S) where
  make_offer-NotForgotten : (s : WebrtcSession S) → NotForgotten s (make_offer ops s).1
  unfolding make_offer
  make_offer-NotForgotten s =
      let (offered, p) = ops.create_offer s.restart_pending s.peer in
      elim (Result-cases offered) [
        | inl (sdp, made) ↦ record {
          since = created s.restart_pending ∷ [];
          calls = ground arith;
          kept = λ asked. inr (ground arith);
        }
        | inr (e, failed) ↦ forget_nothing s (make_offer ops s).1 (ground arith) (ground arith)
      ]

  -- An offer starts from the flag that it sets.
  abbrev pub asking : WebrtcSession S → Bool → WebrtcSession S
  asking s restart = record s { restart_pending = s.restart_pending || restart }

  pub offer-free :
      (s : WebrtcSession S) (restart : Bool)
      → s.started ≡ true
      → is_stable (ops.signaling_state s.peer) ≡ true
      → offer ops s restart ≡ make_offer ops (asking s restart)
  unfolding offer
  offer-free s restart started free = ground arith

  pub offer-busy :
      (s : WebrtcSession S) (restart : Bool)
      → s.started ≡ true
      → is_stable (ops.signaling_state s.peer) ≡ false
      → offer ops s restart ≡ (ok none, record (asking s restart) { needs_offer = true })
  unfolding offer
  offer-busy s restart started busy = ground arith

  offer-asked :
      (s : WebrtcSession S) (restart : Bool)
      → NotForgotten (asking s restart) (offer ops s restart).1
  unfolding offer
  offer-asked s restart =
      let s' = asking s restart in
      elim (Bool-cases s.started) [
        | inr idle ↦ forget_nothing s' (offer ops s restart).1 (ground arith) (ground arith)
        | inl running ↦ elim (Bool-cases (is_stable (ops.signaling_state s.peer))) [
          | inr busy ↦ forget_nothing s' (offer ops s restart).1 (ground arith) (ground arith)
          | inl free ↦
              subst (λ r. NotForgotten s' r.1) (sym (offer-free s restart running free))
                (make_offer-NotForgotten s')
        ]
      ]

  offer-NotForgotten :
      (s : WebrtcSession S) (restart : Bool) → NotForgotten s (offer ops s restart).1
  offer-NotForgotten s restart =
      let asked = offer-asked s restart in
      record {
        since = asked.since;
        calls = asked.calls;
        kept = λ pending. asked.kept (ap (λ b. b || restart) pending);
      }

  add_all-calls :
      (p : S) (calls : List PeerCall) (cs : List IceCandidateData)
      → (since : List PeerCall) × ((add_all ops p calls cs).2 ≡ since ++ calls)
  unfolding add_all
  add_all-calls p calls [] = ([], refl)
  add_all-calls p calls (c ∷ cs) =
      let (r, p') = ops.add_ice_candidate c p in
      let (since, more) = add_all-calls p' (added c ∷ calls) cs in
      elim (Result-cases r) [
        | inl (a, taken) ↦ (
          since ++ added c ∷ [],
          rw (add_all, taken) (more ∙ sym (append_assoc since (added c ∷ []) calls)),
        )
        | inr (e, refused) ↦ (added c ∷ [], rw (add_all, refused) refl)
      ]

  reoffer-NotForgotten :
      (s : WebrtcSession S) (again : Bool)
      → NotForgotten s (if again then offer ops s false else (ok none, s)).1
  reoffer-NotForgotten s true = offer-NotForgotten s false
  reoffer-NotForgotten s false = forget_nothing s s refl refl

  answer-NotForgotten : (s : WebrtcSession S) (sdp : String) → NotForgotten s (answer ops s sdp).1
  unfolding answer
  answer-NotForgotten s sdp =
      let (r, p) = ops.set_remote_description sdp s.peer in
      let drained = add_all ops p s.calls s.pending_candidates in
      let (since, calls) = add_all-calls p s.calls s.pending_candidates in
      let s' : WebrtcSession S = record s {
        peer = drained.1;
        calls = drained.2;
        pending_candidates = [];
      } in
      let handed : NotForgotten s s' = record {
        since = since;
        calls = calls;
        kept = λ pending. inl pending;
      } in
      elim (Result-cases r) [
        | inl (a, set) ↦ elim (Result-cases drained.0) [
          | inl (b, clear) ↦
              rw (answer, set, clear)
                (then-NotForgotten handed (reoffer-NotForgotten s' s.needs_offer))
          | inr (e, stuck) ↦ rw (answer, set, stuck) handed
        ]
        | inr (e, refused) ↦ forget_nothing s (answer ops s sdp).1 (ground arith) (ground arith)
      ]

  candidate-NotForgotten :
      (s : WebrtcSession S) (init : IceCandidateData)
      → NotForgotten s (add_ice_candidate ops s init).1
  unfolding add_ice_candidate
  candidate-NotForgotten s init = elim (Bool-cases (must_wait ops s.peer)) [
    | inl waits ↦ forget_nothing s (add_ice_candidate ops s init).1 (ground arith) (ground arith)
    | inr free ↦ record {
      since = added init ∷ [];
      calls = ground arith;
      kept = λ pending. inl (ground arith);
    }
  ]

  call-NotForgotten : (s : WebrtcSession S) (c : Call ops) → NotForgotten s (call ops s c)
  unfolding call
  call-NotForgotten s start = forget_nothing s (record s { started = true }) refl refl
  call-NotForgotten s (offers restart) = offer-NotForgotten s restart
  call-NotForgotten s (answers sdp) = answer-NotForgotten s sdp
  call-NotForgotten s (candidate init) = candidate-NotForgotten s init

  run_calls-NotForgotten :
      (s : WebrtcSession S) (cs : List (Call ops)) → NotForgotten s (run_calls ops s cs)
  unfolding run_calls
  run_calls-NotForgotten s [] = forget_nothing s s refl refl
  run_calls-NotForgotten s (c ∷ cs) =
      then-NotForgotten (call-NotForgotten s c) (run_calls-NotForgotten (call ops s c) cs)

  -- Whatever the peer answers: after `offer` was asked for an ICE restart, and however the session
  -- is used from then on, the restart is still pending, or since that request the peer created an
  -- offer with `ice_restart`; the calls made before the request are still recorded below.
  pub restart_not_forgotten :
      (s : WebrtcSession S) (cs : List (Call ops))
      → let s' = run_calls ops (offer ops s true).1 cs in
        (since : List PeerCall) × (s'.calls ≡ since ++ s.calls)
        × ((s'.restart_pending ≡ true) ⊎ (any is_restart since ≡ true))
  restart_not_forgotten s cs =
      let all =
        then-NotForgotten (offer-asked s true) (run_calls-NotForgotten (offer ops s true).1 cs) in
      (all.since, all.calls, all.kept (ground arith))
