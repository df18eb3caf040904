-- ===== src/Events/Speaking.antt =====
-- Whom the event loop of src/session.rs treats as a speaker: never the user himself.
use mumdota.Base.{
  ℕ, ◌⊎◌, subst, ◌≡◌, refl, inl, inr, Bool, false, List, [], ◌∷◌, Option, some, arith, nat_eq,
  Bool-cases, ◌==◌, Result, any, keep, map, if_cases,
}
use mumdota.Messages.{UserInfo, ChannelInfo, ErrorText, ServerMessage}
use mumdota.Control
use mumdota.Events.{
  EventState, Answers, Arm, mumble, webrtc, ended, Reaction, Next, goes_on, stops, on_user_left,
  insert_speaker, without, is_own, on_connected, on_user_joined, on_arm, as_left, process_events,
  WebrtcEvent,
}

abbrev pub speaks : ℕ → List ℕ → Bool
speaks id ids = any (λ i. i == id) ids

-- The own session is not among the speakers.
abbrev pub IsApart : EventState → Type 0
IsApart s = (own : ℕ) → s.session_id ≡ some own → speaks own s.known_speakers ≡ false

Next-cases : (n : Next) → (n ≡ goes_on) ⊎ ((e : Option ServerMessage) × (n ≡ stops e))
Next-cases goes_on = inl refl
Next-cases (stops e) = inr (e, refl)

speaks-without : (id : ℕ) (ids : List ℕ) → speaks id (without id ids) ≡ false
unfolding keep
speaks-without id [] = refl
speaks-without id (i ∷ ids) = ground (arith, speaks-without id ids)

speaks-without_other :
    (id other : ℕ) (ids : List ℕ) → speaks id ids ≡ false → speaks id (without other ids) ≡ false
unfolding keep
speaks-without_other id other [] h = refl
speaks-without_other id other (i ∷ ids) h = ground (arith, speaks-without_other id other ids)

insert_speaker-apart :
    (session_id : Option ℕ) (id own : ℕ) (ids : List ℕ)
    → is_own session_id id ≡ false
    → session_id ≡ some own
    → speaks own ids ≡ false
    → speaks own (insert_speaker id ids) ≡ false
insert_speaker-apart session_id id own ids other mine h = ground arith

on_user_joined-IsApart :
    (s : EventState) (added : Result ErrorText ℕ) (user : UserInfo)
    → IsApart s
    → IsApart (on_user_joined s added user).0
unfolding on_user_joined
on_user_joined-IsApart s added user h =
    let P : Reaction → Type 0 = λ r. IsApart r.0 in
    elim (Bool-cases (is_own s.session_id user.session_id)) [
      | inl own ↦ rw (on_user_joined, own) h
      | inr other ↦
          let apart : (own : ℕ)
              → s.session_id ≡ some own
              → speaks own (insert_speaker user.session_id s.known_speakers) ≡ false =
            λ own mine.
              insert_speaker-apart s.session_id user.session_id own s.known_speakers other mine
                (h own mine) in
          rw (on_user_joined, other) (if_cases P s.started _ _ apart apart)
    ]

on_connected-IsApart :
    (s : EventState) (a : Answers) (session_id : ℕ) (channels : List ChannelInfo)
    (users : List UserInfo)
    → IsApart s
    → IsApart (on_connected s a.ice session_id channels users).0
unfolding on_connected
on_connected-IsApart s a session_id channels users h =
    let ids = map (λ (u : UserInfo). u.session_id) users in
    let P : Reaction → Type 0 = λ r. IsApart r.0 in
    let apart : (own : ℕ)
        → some session_id ≡ some own
        → speaks own (without session_id ids) ≡ false =
      λ own e.
        let same : session_id ≡ own = cc in
        subst (λ k. speaks k (without session_id ids) ≡ false) same
          (speaks-without session_id ids) in
    if_cases P s.closed _ _ h apart

on_arm-IsApart : (s : EventState) (a : Answers) (arm : Arm) → IsApart s → IsApart (on_arm s a arm).0
unfolding on_arm on_user_left
on_arm-IsApart s a (mumble (Control.connected session_id channels users)) h =
    on_connected-IsApart s a session_id channels users h
on_arm-IsApart s a (mumble (Control.user_joined user)) h = on_user_joined-IsApart s a.added user h
on_arm-IsApart s a (mumble (Control.user_left session_id)) h =
    λ own e. speaks-without_other own session_id s.known_speakers (h own e)
on_arm-IsApart s a (mumble (Control.user_state_changed state)) h = h
on_arm-IsApart s a (mumble (Control.channel_added ch)) h = h
on_arm-IsApart s a (mumble (Control.channel_updated ch)) h = h
on_arm-IsApart s a (mumble (Control.channel_removed id)) h = h
on_arm-IsApart s a (mumble (Control.chat_message sender channel_id message)) h = h
on_arm-IsApart s a (mumble (Control.disconnected why)) h = h
on_arm-IsApart s a (webrtc (WebrtcEvent.ice_candidate c)) h = h
on_arm-IsApart s a (webrtc WebrtcEvent.negotiation_needed) h = h
on_arm-IsApart s a (webrtc (WebrtcEvent.connection_state_changed is_lost state)) h = h
on_arm-IsApart s a ended h = h

-- Whatever the loop takes, and whatever happens to the session in between: if the own session is not
-- among the known speakers at the start (it has no number yet), then it is not at the end, also when
-- Mumble reports it as a user that joins.
pub process_events-IsApart :
    (s : EventState) (arms : List (Answers × Arm)) → IsApart s → IsApart (process_events s arms).0
unfolding process_events
process_events-IsApart s [] h = h
process_events-IsApart s ((a, arm) ∷ arms) h =
    let (s', messages, next) = on_arm (as_left s a) a arm in
    let handled = on_arm-IsApart (as_left s a) a arm h in
    elim (Next-cases next) [
      | inl on ↦ rw (process_events, on) (process_events-IsApart s' arms handled)
      | inr (e, off) ↦ rw (process_events, off) handled
    ]
