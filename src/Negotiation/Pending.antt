-- ===== src/Negotiation/Pending.antt =====
-- The candidates of src/webrtc/mod.rs that wait for an answer: how many, and in which order they
-- reach the peer.
use mumdota.Base.{
  not, none, ◌⊎◌, append-nil, append_assoc, ◌≤◌, ◌≡◌, refl, ap, ◌∙◌, sym, Bool, true, false, ◌||◌,
  String, List, [], ◌∷◌, ◌++◌, arith, length, length-append, ltb, if◌then◌else◌, Bool-cases, Result,
  ok, err, Result-cases, inl, inr,
}
use mumdota.Messages.{IceCandidateData}
use mumdota.Negotiation.{
  PeerOps, PeerCall, created, added, WebrtcError, WebrtcSession, make_offer, offer, add_all, answer,
  must_wait, add_ice_candidate, Call, start, offers, answers, candidate, call, run_calls,
}

module _ {S : Type 0} (ops : PeerOps S) where
  offer-keeps :
      (s : WebrtcSession S) (restart : Bool)
      → (offer ops s restart).1.pending_candidates ≡ s.pending_candidates
  unfolding offer
  offer-keeps s restart = ground arith

  answer_pending :
      (s : WebrtcSession S) (sdp : String)
      → ((answer ops s sdp).1.pending_candidates ≡ [])
        ⊎ ((answer ops s sdp).1.pending_candidates ≡ s.pending_candidates)
  unfolding answer
  answer_pending s sdp = ground arith

  call-bound :
      (s : WebrtcSession S) (c : Call ops)
      → length s.pending_candidates ≤ 128
      → length (call ops s c).pending_candidates ≤ 128
  unfolding call
  call-bound s start h = h
  call-bound s (offers restart) h = rw (offer-keeps s restart) h
  call-bound s (answers sdp) h = elim (answer_pending s sdp) [
    | inl none_left ↦ rw none_left (omega arith)
    | inr same ↦ rw same h
  ]
  call-bound s (candidate init) h = ground (arith, length-append s.pending_candidates (init ∷ []))

  -- However the session is used, whatever the peer answers, at most 128 candidates wait, if no more
  -- than that waited before.
  pub run_calls-bound :
      (s : WebrtcSession S) (cs : List (Call ops))
      → length s.pending_candidates ≤ 128
      → length (run_calls ops s cs).pending_candidates ≤ 128
  unfolding run_calls
  run_calls-bound s [] h = h
  run_calls-bound s (c ∷ cs) h = run_calls-bound (call ops s c) cs (call-bound s c h)

-- The candidates that reached the peer, the first one first.
unfoldable pub adds : List PeerCall → List IceCandidateData
adds [] = []
adds (created restart ∷ calls) = adds calls
adds (added c ∷ calls) = adds calls ++ c ∷ []

abbrev pub if_taken : Bool → IceCandidateData → List IceCandidateData
if_taken true init = init ∷ []
if_taken false init = []

-- Whether a candidate is handed to the peer or put behind those that wait: it is not if it must wait
-- and 128 do.
abbrev pub has_room : {S : Type 0} → PeerOps S → WebrtcSession S → Bool
has_room ops s = not (must_wait ops s.peer) || ltb (length s.pending_candidates) 128

-- The candidates of a sequence of calls that there was room for.
unfoldable pub taken :
    {S : Type 0} (ops : PeerOps S) → WebrtcSession S → List (Call ops) → List IceCandidateData
taken ops s [] = []
taken ops s (c ∷ cs) =
    let rest = taken ops (call ops s c) cs in
    elim c [
      | start ↦ rest
      | offers restart ↦ rest
      | answers sdp ↦ rest
      | candidate init ↦ if_taken (has_room ops s) init ++ rest
    ]

-- What the peer said to the candidates that it was given with its answer.
abbrev pub drained :
    {S : Type 0} (ops : PeerOps S)
    → WebrtcSession S
    → Result WebrtcError (Unit {0}) × S
    → Result WebrtcError (Unit {0})
drained ops s (err e, p) = ok tt
drained ops s (ok done, p) = (add_all ops p s.calls s.pending_candidates).0

-- In this sequence of calls the peer refused none of the candidates that had waited.
unfoldable pub NoneRefused :
    {S : Type 0} (ops : PeerOps S) → WebrtcSession S → List (Call ops) → Type 0
NoneRefused ops s [] = Unit
NoneRefused ops s (c ∷ cs) =
    let rest = NoneRefused ops (call ops s c) cs in
    elim c [
      | start ↦ rest
      | offers restart ↦ rest
      | answers sdp ↦ (drained ops s (ops.set_remote_description sdp s.peer) ≡ ok tt) × rest
      | candidate init ↦ rest
    ]

-- A peer that only a remote description lets go on: making an offer and setting it leave it waiting
-- for an answer, and a description that it refuses changes nothing.
pub record Orderly {S : Type 0} (ops : PeerOps S) : Type 0 where
  pub create_waits :
      (restart : Bool) (p : S)
      → must_wait ops p ≡ true
      → must_wait ops (ops.create_offer restart p).1 ≡ true
  pub local_waits :
      (sdp : String) (p : S)
      → must_wait ops p ≡ true
      → must_wait ops (ops.set_local_description sdp p).1 ≡ true
  pub refused_waits :
      (sdp : String) (p : S) (e : WebrtcError)
      → (ops.set_remote_description sdp p).0 ≡ err e
      → must_wait ops p ≡ true
      → must_wait ops (ops.set_remote_description sdp p).1 ≡ true

module _ {S : Type 0} (ops : PeerOps S) (orderly : Orderly ops) where
  -- Candidates wait only while the peer waits.
  abbrev pub InOrder : WebrtcSession S → Type 0
  InOrder s = (must_wait ops s.peer ≡ true) ⊎ (s.pending_candidates ≡ [])

  abbrev pub handed_over : WebrtcSession S → List IceCandidateData
  handed_over s = adds s.calls ++ s.pending_candidates

  -- What a step of the session keeps: the order, and what has been handed over or waits.
  abbrev pub Keeps : WebrtcSession S → WebrtcSession S → Type 0
  Keeps s s' = InOrder s' × (handed_over s' ≡ handed_over s)

  make_offer-Keeps : (s : WebrtcSession S) → InOrder s → Keeps s (make_offer ops s).1
  unfolding make_offer adds
  make_offer-Keeps s h =
      let (offered, p) = ops.create_offer s.restart_pending s.peer in
      let waits = orderly.create_waits s.restart_pending s.peer in
      elim (Result-cases offered) [
        | inl (sdp, made) ↦ let still = orderly.local_waits sdp p in ground arith
        | inr (e, failed) ↦ ground arith
      ]

  pub offer-Keeps :
      (s : WebrtcSession S) (restart : Bool) → InOrder s → Keeps s (offer ops s restart).1
  unfolding offer
  offer-Keeps s restart h =
      let kept = make_offer-Keeps (record s { restart_pending = s.restart_pending || restart }) h in
      ground arith

  add_all-adds :
      (p : S) (calls : List PeerCall) (cs : List IceCandidateData)
      → (add_all ops p calls cs).0 ≡ ok tt
      → adds (add_all ops p calls cs).2 ≡ adds calls ++ cs
  unfolding add_all adds
  add_all-adds p calls [] clear = sym (append-nil (adds calls))
  add_all-adds p calls (c ∷ cs) clear =
      let (r, p') = ops.add_ice_candidate c p in
      elim (Result-cases r) [
        | inl (done, passed) ↦
            let on : (add_all ops p' (added c ∷ calls) cs).0 ≡ ok tt = ground arith in
            rw (add_all, passed)
              (add_all-adds p' (added c ∷ calls) cs on ∙ append_assoc (adds calls) (c ∷ []) cs)
        | inr (e, refused) ↦ ground arith
      ]

  reoffer-Keeps :
      (s : WebrtcSession S) (again : Bool)
      → InOrder s
      → Keeps s (if again then offer ops s false else (ok none, s)).1
  reoffer-Keeps s true h = offer-Keeps s false h
  reoffer-Keeps s false h = (h, refl)

  pub answer-Keeps :
      (s : WebrtcSession S) (sdp : String)
      → InOrder s
      → drained ops s (ops.set_remote_description sdp s.peer) ≡ ok tt
      → Keeps s (answer ops s sdp).1
  unfolding answer
  answer-Keeps s sdp h clear =
      let (r, p) = ops.set_remote_description sdp s.peer in
      elim (Result-cases r) [
        | inl (a, set) ↦
            let through = add_all ops p s.calls s.pending_candidates in
            let passed : through.0 ≡ ok tt = ap (λ x. drained ops s (x, p)) (sym set) ∙ clear in
            let whole = add_all-adds p s.calls s.pending_candidates passed in
            let s' : WebrtcSession S = record s {
              peer = through.1;
              calls = through.2;
              pending_candidates = [];
            } in
            let (waits, handed) = reoffer-Keeps s' s.needs_offer (inr refl) in
            rw (answer, set, passed) (waits, handed ∙ append-nil (adds through.2) ∙ whole)
        | inr (e, refused) ↦
            let waits = orderly.refused_waits sdp s.peer e refused in
            rw (answer, refused) (elim h [ inl w ↦ inl (waits w) | inr n ↦ inr n ], refl)
      ]

  pub candidate_step :
      (s : WebrtcSession S) (init : IceCandidateData)
      → InOrder s
      → InOrder (add_ice_candidate ops s init).1
        × (handed_over (add_ice_candidate ops s init).1
            ≡ handed_over s ++ if_taken (has_room ops s) init)
  unfolding add_ice_candidate adds
  candidate_step s init h = elim (Bool-cases (must_wait ops s.peer)) [
    | inl waits ↦ elim (Bool-cases (ltb (length s.pending_candidates) 128)) [
      | inl room ↦
          rw (add_ice_candidate, waits, room)
            (inl waits, sym (append_assoc (adds s.calls) s.pending_candidates (init ∷ [])))
      | inr full ↦ rw (add_ice_candidate, waits, full) (inl waits, sym (append-nil (handed_over s)))
    ]
    | inr free ↦
        let empty : s.pending_candidates ≡ [] = ground arith in
        rw (add_ice_candidate, free)
          (
            inr empty,
            rw empty (
                append-nil (adds s.calls ++ init ∷ [])
                ∙ ap (λ l. l ++ init ∷ []) (sym (append-nil (adds s.calls)))),
          )
  ]
