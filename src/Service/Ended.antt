-- ===== src/Service/Ended.antt =====
-- What a WebSocket connection of src/ws/handler.rs leaves behind in the session manager of
-- src/session.rs and in the TURN service of src/turn/mod.rs.
use mathlib.Core.Bool.{false≢true}
use mumdota.Base.{
  ℕ, ◌≡◌, refl, sym, ap, ◌∙◌, subst, Bool, true, false, get_elem?, Option-cases, not, String, List,
  Option, none, some, Bool-cases, inl, inr, arith, lookup, ◌==◌, string_eq,
}
use mumdota.Credentials.{Credential, revoke as revoke_credentials}
use mumdota.Credentials.Sessions.{lookup-retain, filter_option}
use mumdota.Turn.{TurnService, revoke as turn_revoke}
use mumdota.Sessions.{SessionManager, disconnect_user}
use mumdota.Sessions.Slots.{permits}
use mumdota.Sessions.Closing.{has_slot, disconnect_user-releases}
use mumdota.Handler.{Incoming, new_connection, serve, handle_ws_connection}
use mumdota.Handler.Guards.{IsKept, serve-kept}
use mumdota.Service.{World, Service, enter, leave, revoked_in, revoke_turn, session_manager}
use mumdota.Service.Keeps.{SoundTurn, Kept, revoked_in-Kept, enter-Kept}
use mumdota.Service.Calls.{leave-Kept, session_manager-IsKept, disconnect_user-gone}

-- A username that authenticates for a connection.
abbrev pub Owns : String → Option TurnService → String → Type 0
Owns conn_id none username = ⊥
Owns conn_id (some turn) username =
    (c : Credential) × (lookup username turn.credentials.entries ≡ some c)
    × ((c.session == conn_id) ≡ true)

filter_option-some :
    (test : Credential → Bool) (o : Option Credential) {c : Credential}
    → filter_option test o ≡ some c
    → test c ≡ true
filter_option-some test none h = cc
filter_option-some test (some d) {c} h = elim (Bool-cases (test d)) [
  | inl passes ↦ let same : d ≡ c = ground (arith, h, passes) in ap test (sym same) ∙ passes
  | inr fails ↦ ground (arith, h, fails)
]

module _ {S : Type 0} (world : World S) where
  revoke_turn-Owns :
      (s : Service S) (conn_id username : String) (o : Option TurnService)
      → SoundTurn o
      → Owns conn_id (revoked_in world s conn_id o).turn username
      → s.turn ≡ o
      → ⊥
  unfolding turn_revoke revoke_credentials
  revoke_turn-Owns s conn_id username none sound h same =
      subst (λ t. Owns conn_id t username) same h
  revoke_turn-Owns s conn_id username (some turn) sound (c, found, mine) same =
      let passes : not (c.session == conn_id) ≡ true =
        filter_option-some (λ d. not (d.session == conn_id))
          (lookup username turn.credentials.entries)
          (sym (
              lookup-retain (λ d. not (d.session == conn_id)) username turn.credentials.entries
                sound)
            ∙ found) in
      false≢true (ap not (sym mine) ∙ passes)

  -- The session that a connection has, if any, holds a permit.
  abbrev pub holds_slot : SessionManager → Option ℕ → Bool
  holds_slot m none = false
  holds_slot m (some ref) = has_slot (get_elem? m.heap ref)

  leave-releases :
      (m : SessionManager) (conn_id : String)
      → holds_slot (disconnect_user m conn_id) (lookup conn_id m.sessions) ≡ false
  leave-releases m conn_id = elim (Option-cases (lookup conn_id m.sessions)) [
    | inl absent ↦ rw absent refl
    | inr (ref, there) ↦ rw there (disconnect_user-releases m conn_id ref there)
  ]

  -- How a WebSocket connection ends, whatever it sent and however it ended, whatever Mumble and the
  -- peer connections answered, and whatever the other tasks did before and between its calls, the last
  -- one included. When `disconnect_user` is through, the table has no session for the connection, and
  -- the session that it had there, if any, holds no permit any more. At the end there are as many
  -- permits as before, free or held, and the TURN service, if there is one, has no credential of the
  -- connection, provided that its credentials stood under their own usernames, once each, at the start.
  pub handle_ws_connection-ended :
      (conn_id : String) (ws_tx : ℕ) (s : Service S) (frames : List Incoming)
      → SoundTurn s.turn
      → let session_manager = session_manager world conn_id ws_tx in
        let served = (serve session_manager (new_connection s) frames).manager in
        let left = session_manager.disconnect_user served in
        let after = (handle_ws_connection session_manager s frames).manager in
        (lookup conn_id left.manager.sessions ≡ none)
        × (holds_slot left.manager (lookup conn_id (enter world served).manager.sessions) ≡ false)
        × (permits after.manager ≡ permits s.manager)
        × ((username : String) → ¬ Owns conn_id after.turn username)
  unfolding handle_ws_connection session_manager revoke_turn leave
  handle_ws_connection-ended conn_id ws_tx s frames sound =
      let total = permits s.manager in
      let kept : IsKept (session_manager world conn_id ws_tx) (Kept world total) =
        session_manager-IsKept world total conn_id ws_tx in
      let served : Service S =
        (serve (session_manager world conn_id ws_tx) (new_connection s) frames).manager in
      let h : Kept world total served =
        serve-kept (session_manager world conn_id ws_tx) (Kept world total) kept (new_connection s)
          frames (refl, sound) in
      let left : Service S = leave world conn_id served in
      let last : Service S = enter world left in
      let k : Kept world total last =
        enter-Kept world total left (leave-Kept world total conn_id served h) in
      (
        disconnect_user-gone world total (enter world served).manager conn_id,
        leave-releases (enter world served).manager conn_id,
        (revoked_in-Kept world total last conn_id last.turn k.1 k).0,
        λ username owned. revoke_turn-Owns last conn_id username last.turn k.1 owned refl,
      )
