-- ===== src/Client/Handled.antt =====
-- What the task of src/mumble/client.rs makes of its arms: its tables and its events come from the
-- packets alone, its packets from the commands and the ticks alone, each in order.
use mumdota.Base.{
  ℕ, ◌≡◌, refl, Bool, Option, some, none, ◌⊎◌, Result, err, Result-cases, ap, ◌∙◌, sym, true, false,
  String, List, [], ◌∷◌, ◌++◌, append_assoc, append-nil, arith, ok, inl, inr, All,
}
use mumdota.Control.{
  MumbleEvent, disconnected, send_chat, join_channel, set_mute, set_deaf, disconnect, ControlPacket,
  ControlState, initial_control, Sizes, handle_control_packet, control_run, MumbleCommand,
  CryptState, crypt_state_from_message, crypt_setup, channel_state, channel_remove, user_remove,
  server_sync, reject, other, on_channel_state, on_user_state, on_crypt_setup, on_server_sync,
}
use mumdota.Control
use mumdota.Messages.{stream_error, connection_closed}
use mumdota.Client.{
  Outgoing, Arm, received, stream_failed, stream_ended, commanded, commands_ended, ticked, Turn,
  serve, run_client, version, authenticate, text_message, user_state, ping, sending, on_command,
}
use mumdota.Proto.{
  build_version_message, build_authenticate_message, no_user_state, build_text_message,
  build_user_state_channel, build_user_state_mute, build_user_state_deaf, build_ping,
}

unfoldable pub packets_of : List Arm → List ControlPacket
packets_of [] = []
packets_of (received packet ∷ arms) = packet ∷ packets_of arms
packets_of (a ∷ arms) = packets_of arms

-- The packet that goes out for an arm, field by field, if it goes out.
abbrev pub wanted : Arm → List Outgoing
wanted (commanded (send_chat channel_id message) true) =
    text_message (record { channel_id = channel_id ∷ []; message = message }) ∷ []
wanted (commanded (join_channel channel_id) true) =
    user_state (record no_user_state { channel_id = some channel_id }) ∷ []
wanted (commanded (set_mute muted) true) =
    user_state (record no_user_state { self_mute = some muted }) ∷ []
wanted (commanded (set_deaf true) true) =
    user_state (record no_user_state { self_deaf = some true; self_mute = some true }) ∷ []
wanted (commanded (set_deaf false) true) =
    user_state (record no_user_state { self_deaf = some false }) ∷ []
wanted (ticked now true) = ping (record { timestamp = now }) ∷ []
wanted _ = []

-- What the arms put on the wire.
unfoldable pub outgoing_of : List Arm → List Outgoing
outgoing_of [] = []
outgoing_of (a ∷ arms) = wanted a ++ outgoing_of arms

sent-wanted :
    (s : ControlState) (c : MumbleCommand) (is_sent : Bool)
    → (on_command s c is_sent).sent ≡ wanted (commanded c is_sent)
unfolding on_command build_text_message build_user_state_channel build_user_state_mute
    build_user_state_deaf
sent-wanted s (send_chat channel_id message) true = refl
sent-wanted s (send_chat channel_id message) false = refl
sent-wanted s (join_channel channel_id) true = refl
sent-wanted s (join_channel channel_id) false = refl
sent-wanted s (set_mute muted) true = refl
sent-wanted s (set_mute muted) false = refl
sent-wanted s (set_deaf true) true = refl
sent-wanted s (set_deaf false) true = refl
sent-wanted s (set_deaf true) false = refl
sent-wanted s (set_deaf false) false = refl
sent-wanted s disconnect true = refl
sent-wanted s disconnect false = refl

ping-wanted :
    (s : ControlState) (now : ℕ) (is_sent : Bool)
    → (sending s is_sent (ping (build_ping now))).sent ≡ wanted (ticked now is_sent)
unfolding build_ping
ping-wanted s now true = refl
ping-wanted s now false = refl

abbrev if_broken : {E : Type 0} → Result E CryptState → Option (List MumbleEvent)
if_broken (ok c) = none
if_broken (err reason) = some []

-- The arms that stop the loop, with what it reports last: an error or the end of the stream, a
-- disconnect, the end of the commands, and a key setup that is malformed, which is reported already.
abbrev pub stops : Sizes → Arm → Option (List MumbleEvent)
stops sizes (received (crypt_setup msg)) = if_broken (crypt_state_from_message sizes msg)
stops sizes (stream_failed e) = some (disconnected (stream_error e) ∷ [])
stops sizes stream_ended = some (disconnected connection_closed ∷ [])
stops sizes (commanded disconnect is_sent) = some []
stops sizes commands_ended = some []
stops sizes _ = none

-- The first arm that stops the loop is the last one handled, and only without one are all of them.
abbrev pub Ends : Sizes → List Arm → List Arm → List MumbleEvent → Bool → Type 0
Ends sizes [] rest last goes_on = (rest ≡ []) × (last ≡ []) × (goes_on ≡ true)
Ends sizes (a ∷ handled) rest last goes_on =
    ((stops sizes a ≡ none) × Ends sizes handled rest last goes_on)
    ⊎ ((stops sizes a ≡ some last) × (handled ≡ []) × (goes_on ≡ false))

goes_on-stops :
    (sizes : Sizes) (s : ControlState) (p : ControlPacket)
    → ((stops sizes (received p) ≡ none) × ((handle_control_packet sizes s p).2 ≡ true))
      ⊎ ((stops sizes (received p) ≡ some []) × ((handle_control_packet sizes s p).2 ≡ false))
unfolding handle_control_packet on_channel_state on_user_state on_crypt_setup on_server_sync
goes_on-stops sizes s (channel_state msg) = inl (refl, ground arith)
goes_on-stops sizes s (channel_remove id) = inl (refl, refl)
goes_on-stops sizes s (Control.user_state msg) = inl (refl, ground arith)
goes_on-stops sizes s (user_remove session_id) = inl (refl, refl)
goes_on-stops sizes s (crypt_setup msg) = elim (Result-cases (crypt_state_from_message sizes msg)) [
  | inl (c, whole) ↦ inl (ap if_broken whole, rw (on_crypt_setup, whole) refl)
  | inr (e, broken) ↦ inr (ap if_broken broken, rw (on_crypt_setup, broken) refl)
]
goes_on-stops sizes s (server_sync session_id) = inl (refl, refl)
goes_on-stops sizes s (Control.text_message actor channel_ids message) = inl (refl, refl)
goes_on-stops sizes s (reject kind why) = inl (refl, refl)
goes_on-stops sizes s other = inl (refl, refl)

abbrev pub IsFarewell : MumbleEvent → Type 0
IsFarewell (disconnected why) = Unit {0}
IsFarewell e = ⊥

-- How the loop came to where it is: the arms it took, and the event that it ended with.
pub record Handles (sizes : Sizes) (s : ControlState) (arms : List Arm) (t : Turn) : Type 0 where
  pub handled : List Arm
  pub rest : List Arm
  pub last : List MumbleEvent
  pub split : arms ≡ handled ++ rest
  pub control : t.control ≡ (control_run sizes s (packets_of handled)).0
  pub events : t.events ≡ (control_run sizes s (packets_of handled)).1 ++ last
  pub farewell : All IsFarewell last
  pub sent : t.sent ≡ outgoing_of handled
  pub ends : Ends sizes handled rest last t.goes_on

-- An arm without a packet that sends what it sends and goes on.
sending-Handles :
    (sizes : Sizes) (s : ControlState) (a : Arm) (arms : List Arm) (t : Turn)
    → ((later : List Arm) → packets_of (a ∷ later) ≡ packets_of later)
    → stops sizes a ≡ none
    → (own : List Outgoing) → own ≡ wanted a
    → Handles sizes s arms t
    → Handles sizes s (a ∷ arms) (record t { sent = own ++ t.sent })
unfolding outgoing_of
sending-Handles sizes s a arms t none_of_it calm own same h = record {
  handled = a ∷ h.handled;
  rest = h.rest;
  last = h.last;
  split = ap (λ l. a ∷ l) h.split;
  control = h.control ∙ ap (λ ps. (control_run sizes s ps).0) (sym (none_of_it h.handled));
  events = h.events ∙ ap (λ ps. (control_run sizes s ps).1 ++ h.last) (sym (none_of_it h.handled));
  farewell = h.farewell;
  sent = ap (λ l. own ++ l) h.sent ∙ ap (λ l. l ++ outgoing_of h.handled) same;
  ends = inl (calm, h.ends);
}

-- An arm without a packet that ends the loop.
ending-Handles :
    (sizes : Sizes) (s : ControlState) (a : Arm) (arms : List Arm) (last : List MumbleEvent)
    → packets_of (a ∷ []) ≡ []
    → All IsFarewell last
    → stops sizes a ≡ some last
    → wanted a ≡ []
    → Handles sizes s (a ∷ arms) (record { control = s; events = last; sent = []; goes_on = false })
unfolding outgoing_of control_run
ending-Handles sizes s a arms last alone farewell stop silent = record {
  handled = a ∷ [];
  rest = arms;
  last = last;
  split = refl;
  control = ap (λ ps. (control_run sizes s ps).0) (sym alone);
  events = ap (λ ps. (control_run sizes s ps).1 ++ last) (sym alone);
  farewell = farewell;
  sent = sym (append-nil _ ∙ silent);
  ends = inr (stop, refl, refl);
}

received-Handles :
    (sizes : Sizes) (s : ControlState) (p : ControlPacket) (arms : List Arm)
    → Handles sizes
        (handle_control_packet sizes s p).0
        arms
        (serve sizes (handle_control_packet sizes s p).0 arms)
    → Handles sizes s (received p ∷ arms) (serve sizes s (received p ∷ arms))
unfolding serve packets_of outgoing_of control_run
received-Handles sizes s p arms h =
    let (s', events, goes_on) = handle_control_packet sizes s p in
    elim (goes_on-stops sizes s p) [
      | inl (calm, on) ↦ record {
        handled = received p ∷ h.handled;
        rest = h.rest;
        last = h.last;
        split = ap (λ l. received p ∷ l) h.split;
        control = rw on h.control;
        events = rw on (ap (λ l. events ++ l) h.events ∙ sym (append_assoc events _ h.last));
        farewell = h.farewell;
        sent = rw on h.sent;
        ends = rw on (inl (calm, h.ends));
      }
      | inr (stop, off) ↦ record {
        handled = received p ∷ [];
        rest = arms;
        last = [];
        split = refl;
        control = rw off refl;
        events = rw off (sym (append-nil events));
        farewell = tt;
        sent = rw off refl;
        ends = rw off (inr (stop, refl, refl));
      }
    ]

serve-Handles :
    (sizes : Sizes) (s : ControlState) (arms : List Arm) → Handles sizes s arms (serve sizes s arms)
unfolding serve packets_of outgoing_of control_run
serve-Handles sizes s [] = record {
  handled = [];
  rest = [];
  last = [];
  split = refl;
  control = refl;
  events = refl;
  farewell = tt;
  sent = refl;
  ends = (refl, refl, refl);
}
serve-Handles sizes s (received p ∷ arms) =
    received-Handles sizes s p arms (serve-Handles sizes (handle_control_packet sizes s p).0 arms)
serve-Handles sizes s (stream_failed e ∷ arms) =
    ending-Handles sizes s (stream_failed e) arms _ refl (tt, tt) refl refl
serve-Handles sizes s (stream_ended ∷ arms) =
    ending-Handles sizes s stream_ended arms _ refl (tt, tt) refl refl
serve-Handles sizes s (commanded disconnect is_sent ∷ arms) =
    ending-Handles sizes s (commanded disconnect is_sent) arms [] refl tt refl refl
serve-Handles sizes s (commanded (send_chat channel_id message) is_sent ∷ arms) =
    sending-Handles sizes s (commanded (send_chat channel_id message) is_sent) arms _
      (λ later. refl) refl _ (sent-wanted s (send_chat channel_id message) is_sent)
      (serve-Handles sizes s arms)
serve-Handles sizes s (commanded (join_channel channel_id) is_sent ∷ arms) =
    sending-Handles sizes s (commanded (join_channel channel_id) is_sent) arms _ (λ later. refl)
      refl _ (sent-wanted s (join_channel channel_id) is_sent) (serve-Handles sizes s arms)
serve-Handles sizes s (commanded (set_mute muted) is_sent ∷ arms) =
    sending-Handles sizes s (commanded (set_mute muted) is_sent) arms _ (λ later. refl) refl _
      (sent-wanted s (set_mute muted) is_sent) (serve-Handles sizes s arms)
serve-Handles sizes s (commanded (set_deaf deafened) is_sent ∷ arms) =
    sending-Handles sizes s (commanded (set_deaf deafened) is_sent) arms _ (λ later. refl) refl _
      (sent-wanted s (set_deaf deafened) is_sent) (serve-Handles sizes s arms)
serve-Handles sizes s (commands_ended ∷ arms) =
    ending-Handles sizes s commands_ended arms [] refl tt refl refl
serve-Handles sizes s (ticked now is_sent ∷ arms) =
    sending-Handles sizes s (ticked now is_sent) arms _ (λ later. refl) refl _
      (ping-wanted s now is_sent) (serve-Handles sizes s arms)

-- The task once its greeting is sent, whatever arms it is given: it handles the arms in their order up
-- to the first that stops it, which is an error or the end of the stream, a disconnect, the end of the
-- commands or a malformed key setup, and all of them if there is none. Its tables are those of the
-- packets among them; its events are the events of those packets and, behind them, the farewell of an
-- error or the end of the stream; and what it sends is the version, the authentication, and then for
-- each command and tick that could be sent, in their order, the packet that says what it says.
pub run_client-handled :
    (sizes : Sizes) (username : String) (arms : List Arm)
    → let t = run_client sizes username (ok tt) (ok tt) arms in
      (handled : List Arm) × (rest : List Arm) × (last : List MumbleEvent) × (arms
        ≡ handled ++ rest)
      × Ends sizes handled rest last t.goes_on
      × All IsFarewell last
      × (t.control ≡ (control_run sizes initial_control (packets_of handled)).0)
      × (t.events ≡ (control_run sizes initial_control (packets_of handled)).1 ++ last)
      × (t.sent
          ≡ version build_version_message
            ∷ authenticate (build_authenticate_message username)
            ∷ outgoing_of handled)
unfolding run_client
run_client-handled sizes username arms =
    let h = serve-Handles sizes initial_control arms in
    let greeted = λ (l : List Outgoing).
      version build_version_message ∷ authenticate (build_authenticate_message username) ∷ l in
    (h.handled, h.rest, h.last, h.split, h.ends, h.farewell, h.control, h.events, ap greeted h.sent)
