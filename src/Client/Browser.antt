-- ===== src/Client/Browser.antt =====
-- From the wire of src/mumble/client.rs to the browser, through the event loop of src/session.rs.
use mumdota.Base.{
  ℕ, nat_eq, ◌≡◌, refl, ap, ◌∙◌, sym, true, String, List, [], ◌∷◌, ◌++◌, ok, lookup, All,
}
use mumdota.Control
use mumdota.Control.{MumbleEvent, disconnected, Sizes, initial_control, control_run}
use mumdota.Control.Replica.{Replica, hear_all, hear_all-append, no_tables, control_run-SameTables}
use mumdota.Client.{Arm, run_client}
use mumdota.Client.Handled.{IsFarewell, packets_of, run_client-handled}
use mumdota.Events.{EventState, Answers, process_events}
use mumdota.Events
use mumdota.Events.Browser.{browse_all, heard, process_events-browse}

hear_all-farewell : (r : Replica) (es : List MumbleEvent) → All IsFarewell es → hear_all r es ≡ r
unfolding hear_all
hear_all-farewell r [] h = refl
hear_all-farewell r (disconnected why ∷ es) (_, h) = hear_all-farewell r es h
hear_all-farewell r (Control.connected i cs us ∷ es) (h, _) = elim h [ ]
hear_all-farewell r (Control.user_joined u ∷ es) (h, _) = elim h [ ]
hear_all-farewell r (Control.user_left i ∷ es) (h, _) = elim h [ ]
hear_all-farewell r (Control.user_state_changed d ∷ es) (h, _) = elim h [ ]
hear_all-farewell r (Control.channel_added c ∷ es) (h, _) = elim h [ ]
hear_all-farewell r (Control.channel_updated c ∷ es) (h, _) = elim h [ ]
hear_all-farewell r (Control.channel_removed i ∷ es) (h, _) = elim h [ ]
hear_all-farewell r (Control.chat_message i c t ∷ es) (h, _) = elim h [ ]

hear_all-append_farewell :
    (r : Replica) (es last : List MumbleEvent)
    → All IsFarewell last
    → hear_all r (es ++ last) ≡ hear_all r es
hear_all-append_farewell r es last h =
    hear_all-append r es last ∙ hear_all-farewell (hear_all r es) last h

-- From the Mumble server to the browser, whatever comes to the task of the control connection and in
-- whatever order, commands, pings and failures included: if the connection is synchronised and the
-- event loop took all events of the task but those that say farewell at their end, then a browser that
-- followed the messages of the loop has, under every session number, the user that the task has,
-- whatever else the loop took in between.
pub browser-run_client :
    (sizes : Sizes) (username : String) (arms : List Arm) (s : EventState)
    (taken : List (Answers × Events.Arm)) (last : List MumbleEvent)
    → let t = run_client sizes username (ok tt) (ok tt) arms in
      t.control.is_connected ≡ true
      → t.events ≡ heard s taken ++ last
      → All IsFarewell last
      → (k : ℕ) → lookup k (browse_all [] (process_events s taken).1) ≡ lookup k t.control.users
browser-run_client sizes username arms s taken last up all farewell k =
    let t = run_client sizes username (ok tt) (ok tt) arms in
    let (handled, _, last', _, _, farewell', control, events, _) =
      run_client-handled sizes username arms in
    let ps = packets_of handled in
    let same = control_run-SameTables sizes ps (ap (λ c. c.is_connected) (sym control) ∙ up) in
    ap (λ users. lookup k users) (process_events-browse no_tables s taken)
    ∙ ap (λ (r : Replica). lookup k r.users)
        (sym (hear_all-append_farewell no_tables (heard s taken) last farewell)
          ∙ ap (hear_all no_tables) (sym all ∙ events)
          ∙ hear_all-append_farewell no_tables (control_run sizes initial_control ps).1 last'
              farewell')
    ∙ same.same_users k
    ∙ ap (λ c. lookup k c.users) (sym control)
