-- ===== src/Proto/Echo.antt =====
-- The changes of state that src/mumble/proto.rs asks for, once the server has sent them back and
-- src/mumble/client.rs has merged them.
use mumdota.Base.{
  Map, List, [], ◌∷◌, Bool-cases, inl, inr, sym, ℕ, nat_eq, ◌≡◌, refl, ap, ◌∙◌, true, false, ◌||◌,
  some, lookup, lookup-insert, ◌==◌, if◌then◌else◌,
}
use mumdota.Messages.{UserInfo}
use mumdota.Control.{
  MumbleCommand, send_chat, join_channel, set_mute, set_deaf, disconnect, UserState, ControlState,
  user_state, Sizes, ControlPacket, control_run, handle_control_packet, on_user_state,
  merge_user_state,
}
use mumdota.Client
use mumdota.Client.{Outgoing, on_command}
use mumdota.Proto.{build_user_state_channel, build_user_state_mute, build_user_state_deaf}

-- What the server sends back of what it was sent: each change of a user's state, with his number.
abbrev pub echo : ℕ → List Outgoing → List ControlPacket
echo session [] = []
echo session (Client.user_state msg ∷ rest) =
    user_state (record msg { session = some session }) ∷ echo session rest
echo session (p ∷ rest) = echo session rest

-- What the command means for the user.
abbrev pub obey : MumbleCommand → UserInfo → UserInfo
obey (join_channel channel_id) u = record u { channel_id = channel_id }
obey (set_mute muted) u = record u { self_mute = muted }
obey (set_deaf deafened) u = record u { self_deaf = deafened; self_mute = deafened || u.self_mute }
obey (send_chat channel_id message) u = u
obey disconnect u = u

merged-lookup :
    (sizes : Sizes) (s : ControlState) (msg : UserState) (session : ℕ) (u v : UserInfo) (k : ℕ)
    → s.is_connected ≡ true
    → lookup session s.users ≡ some u
    → merge_user_state u (record msg { session = some session }) ≡ v
    → lookup k
        (control_run sizes s (user_state (record msg { session = some session }) ∷ [])).0.users
      ≡ (if session == k then some v else lookup k s.users)
unfolding control_run handle_control_packet on_user_state
merged-lookup sizes s msg session u v k up known merged =
    rw (on_user_state, up, known)
      (lookup-insert session k (merge_user_state u (record msg { session = some session })) s.users
        ∙ ap (λ (w : UserInfo). if session == k then some w else lookup k s.users) merged)

unchanged-lookup :
    (users : Map ℕ UserInfo) (session : ℕ) (u : UserInfo) (k : ℕ)
    → lookup session users ≡ some u
    → lookup k users ≡ (if session == k then some u else lookup k users)
unchanged-lookup users session u k known = elim (Bool-cases (session == k)) [
  | inl same ↦ rw same (ap (λ n. lookup n users) (sym ((nat_eq.same_iff session k).0 same)) ∙ known)
  | inr other ↦ rw other refl
]

-- When the server sends back the packets that the control task sends for a command, for a user that
-- the synchronised task knows, then that user is as the command says and otherwise as before, and
-- every other user is as before: joining moves him, muting mutes him, deafening deafens and mutes
-- him, and the end of deafening leaves him muted if he was.
pub command-echoed :
    (sizes : Sizes) (s : ControlState) (c : MumbleCommand) (session : ℕ) (u : UserInfo) (k : ℕ)
    → s.is_connected ≡ true
    → lookup session s.users ≡ some u
    → lookup k (control_run sizes s (echo session (on_command s c true).sent)).0.users
      ≡ (if session == k then some (obey c u) else lookup k s.users)
unfolding on_command control_run merge_user_state build_user_state_channel build_user_state_mute
    build_user_state_deaf
command-echoed sizes s (join_channel channel_id) session u k up known =
    merged-lookup sizes s (build_user_state_channel channel_id) session u _ k up known refl
command-echoed sizes s (set_mute muted) session u k up known =
    merged-lookup sizes s (build_user_state_mute muted) session u _ k up known refl
command-echoed sizes s (set_deaf true) session u k up known =
    merged-lookup sizes s (build_user_state_deaf true) session u _ k up known refl
command-echoed sizes s (set_deaf false) session u k up known =
    merged-lookup sizes s (build_user_state_deaf false) session u _ k up known refl
command-echoed sizes s (send_chat channel_id message) session u k up known =
    unchanged-lookup s.users session u k known
command-echoed sizes s disconnect session u k up known = unchanged-lookup s.users session u k known
