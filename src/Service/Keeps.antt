-- ===== src/Service/Keeps.antt =====
-- What every method of the session manager of src/session.rs keeps: its permits, and the TURN
-- credentials in order.
use mumdota.Base.{
  ℕ, ◌≡◌, ◌∙◌, Bool, true, false, String, List, [], ◌∷◌, Option, none, some, get_elem?, if_cases,
  Result, ok, err, string_eq,
}
use mumdota.Credentials.{Draw}
use mumdota.Turn.{TurnService, issues, revokes, step}
use mumdota.Turn.Revoked.{Sound, step-Sound}
use mumdota.Sessions.{UserSession, SessionError, run_steps}
use mumdota.Sessions.Slots.{
  permits, run_steps-permits, begin_connect-permits, fail_connect-permits, finish_connect-permits,
}
use mumdota.Service.{
  Media, Meanwhile, manager_step, authenticated, gets_credentials, task_ended, on_authenticated,
  World, Service, learn, happen, enter, set_up, go_on, connect_user, session_ice_config, revoked_in,
}

-- The credentials of the TURN service, if there is one, each under its own username, once.
abbrev pub SoundTurn : Option TurnService → Type 0
SoundTurn none = Unit
SoundTurn (some turn) = Sound turn

module _ {S : Type 0} (world : World S) (total : ℕ) where
  -- All permits are there, and the credentials are in order.
  abbrev pub Kept : Service S → Type 0
  Kept s = (permits s.manager ≡ total) × SoundTurn s.turn

  learn-Kept :
      (s : Service S) (ref session_id : ℕ) (speakers : List ℕ) (o : Option (Media S))
      → Kept s
      → Kept (learn world s ref session_id speakers o)
  learn-Kept s ref session_id speakers none h = h
  learn-Kept s ref session_id speakers (some m) h = h

  pub session_ice_config-Kept :
      (s : Service S) (conn_id : String) (now : ℕ) (draw : Draw) (o : Option TurnService)
      → SoundTurn o
      → Kept s
      → Kept (session_ice_config world s conn_id now draw o).1
  unfolding step
  session_ice_config-Kept s conn_id now draw none sound h = h
  session_ice_config-Kept s conn_id now draw (some turn) sound h =
      (h.0, step-Sound turn (issues conn_id now draw) sound)

  pub revoked_in-Kept :
      (s : Service S) (conn_id : String) (o : Option TurnService)
      → SoundTurn o
      → Kept s
      → Kept (revoked_in world s conn_id o)
  unfolding step
  revoked_in-Kept s conn_id none sound h = h
  revoked_in-Kept s conn_id (some turn) sound h = (h.0, step-Sound turn (revokes conn_id) sound)

  on_authenticated-Kept :
      (s : Service S) (ref session_id : ℕ) (speakers : List ℕ) (o : Option UserSession)
      → Kept s
      → Kept (on_authenticated world s ref session_id speakers o)
  on_authenticated-Kept s ref session_id speakers none h = h
  on_authenticated-Kept s ref session_id speakers (some u) h =
      if_cases Kept u.closed s _ h (learn-Kept s ref session_id speakers (get_elem? s.media ref) h)

  happen-Kept : (s : Service S) (ms : List Meanwhile) → Kept s → Kept (happen world s ms)
  unfolding happen
  happen-Kept s [] h = h
  happen-Kept s (manager_step a ∷ rest) h =
      happen-Kept (record s { manager = run_steps s.manager (a ∷ []) }) rest
        (run_steps-permits s.manager (a ∷ []) ∙ h.0, h.1)
  happen-Kept s (authenticated ref session_id speakers ∷ rest) h =
      happen-Kept (on_authenticated world s ref session_id speakers (get_elem? s.manager.heap ref))
        rest (on_authenticated-Kept s ref session_id speakers (get_elem? s.manager.heap ref) h)
  happen-Kept s (gets_credentials conn_id now draw ∷ rest) h =
      happen-Kept (session_ice_config world s conn_id now draw s.turn).1 rest
        (session_ice_config-Kept s conn_id now draw s.turn h.1 h)
  happen-Kept s (task_ended conn_id ∷ rest) h =
      happen-Kept (revoked_in world s conn_id s.turn) rest (revoked_in-Kept s conn_id s.turn h.1 h)

  pub enter-Kept : (s : Service S) → Kept s → Kept (enter world s)
  enter-Kept s h = happen-Kept _ (world.meanwhile s.calls) h

  set_up-Kept : (s : Service S) (b : Bool) → Kept s → Kept (set_up world s b).1
  set_up-Kept s false h = (fail_connect-permits s.manager 0 ∙ h.0, h.1)
  set_up-Kept s true h = (finish_connect-permits s.manager 0 ∙ h.0, h.1)

  go_on-Kept :
      (s : Service S) (r : Result SessionError (Unit {0})) → Kept s → Kept (go_on world s r).1
  go_on-Kept s (err e) h = h
  go_on-Kept s (ok done) h = set_up-Kept s (world.is_set_up s.calls) h

  pub connect_user-Kept :
      (conn_id username : String) (ws_tx : ℕ) (s : Service S)
      → Kept s
      → Kept (connect_user world conn_id ws_tx username s).1
  unfolding connect_user
  connect_user-Kept conn_id username ws_tx s h =
      let k : Kept (enter world s) = enter-Kept s h in
      go_on-Kept _ _
        (begin_connect-permits (enter world s).manager conn_id username ws_tx ∙ k.0, k.1)
