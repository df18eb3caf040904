-- ===== src/Control/Replica.antt =====
-- A listener that sees only the events of src/mumble/client.rs knows its tables.
use mumdota.Base.{
  ℕ, ◌≡◌, refl, ap, ◌∙◌, sym, true, false, List, [], ◌∷◌, ◌++◌, Option, none, some, arith, nat_eq,
  Option-cases, Result-cases, Bool-cases, inl, inr, ◌⊎◌, Map, lookup, insert, remove, rebuild,
  lookup-insert, lookup-remove, lookup-rebuild, is_some,
}
use mumdota.Messages.{ChannelInfo, UserInfo, UserStateData}
use mumdota.Control.{
  MumbleEvent, connected, user_joined, user_left, user_state_changed, channel_added,
  channel_updated, channel_removed, chat_message, disconnected, get_or, ControlState,
  initial_control, ControlPacket, channel_state, channel_remove, user_state, user_remove,
  crypt_setup, server_sync, text_message, reject, other, Sizes, UserState, ChannelState, CryptSetup,
  merge_user_state, user_info, channel_info, on_channel_state, on_user_state, on_crypt_setup,
  on_server_sync, handle_control_packet, control_run, crypt_state_from_message,
}
use mumdota.Control.Tables.{
  channel_id_of, user_id_of, IsKeyed, handle_control_packet-IsKeyed, hand_over_keys_tables,
  on_crypt_setup_state,
}

-- What a listener keeps.
pub record Replica : Type 0 where
  pub users : Map ℕ UserInfo
  pub channels : Map ℕ ChannelInfo

abbrev pub no_tables : Replica
no_tables = record { users = []; channels = [] }

-- The fields that a change of state names, over the user that is known.
abbrev pub update_user : UserInfo → UserStateData → UserInfo
update_user u d = record {
  session_id = u.session_id;
  name = get_or d.name u.name;
  channel_id = get_or d.channel_id u.channel_id;
  mute = get_or d.mute u.mute;
  deaf = get_or d.deaf u.deaf;
  self_mute = get_or d.self_mute u.self_mute;
  self_deaf = get_or d.self_deaf u.self_deaf;
}

abbrev pub change_user : Option UserInfo → UserStateData → Map ℕ UserInfo → Map ℕ UserInfo
change_user none d users = users
change_user (some u) d users = insert d.session_id (update_user u d) users

abbrev pub hear_event : Replica → MumbleEvent → Replica
hear_event r (connected session_id channels users) = record {
  users = rebuild user_id_of users;
  channels = rebuild channel_id_of channels;
}
hear_event r (user_joined u) = record r { users = insert u.session_id u r.users }
hear_event r (user_left session_id) = record r { users = remove session_id r.users }
hear_event r (user_state_changed d) = record r {
  users = change_user (lookup d.session_id r.users) d r.users;
}
hear_event r (channel_added c) = record r { channels = insert c.id c r.channels }
hear_event r (channel_updated c) = record r { channels = insert c.id c r.channels }
hear_event r (channel_removed id) = record r { channels = remove id r.channels }
hear_event r (chat_message sender channel message) = r
hear_event r (disconnected reason) = r

unfoldable pub hear_all : Replica → List MumbleEvent → Replica
hear_all r [] = r
hear_all r (e ∷ es) = hear_all (hear_event r e) es

pub hear_all-append :
    (r : Replica) (xs ys : List MumbleEvent) → hear_all r (xs ++ ys) ≡ hear_all (hear_all r xs) ys
unfolding hear_all
hear_all-append r [] ys = refl
hear_all-append r (x ∷ xs) ys = hear_all-append (hear_event r x) xs ys

-- The same entry under every number.
pub record SameTables (r : Replica) (s : ControlState) : Type 0 where
  pub same_users : (k : ℕ) → lookup k r.users ≡ lookup k s.users
  pub same_channels : (k : ℕ) → lookup k r.channels ≡ lookup k s.channels

insert-same :
    {V : Type 0} (j : ℕ) (v : V) (m n : Map ℕ V)
    → ((k : ℕ) → lookup k m ≡ lookup k n)
    → (k : ℕ) → lookup k (insert j v m) ≡ lookup k (insert j v n)
insert-same j v m n h k = rw (lookup-insert j k v m, lookup-insert j k v n, h k)

remove-same :
    {V : Type 0} (j : ℕ) (m n : Map ℕ V)
    → ((k : ℕ) → lookup k m ≡ lookup k n)
    → (k : ℕ) → lookup k (remove j m) ≡ lookup k (remove j n)
remove-same j m n h k = rw (lookup-remove j k m, lookup-remove j k n, h k)

channel_state-SameTables :
    (r : Replica) (s : ControlState) (msg : ChannelState)
    → s.is_connected ≡ true
    → SameTables r s
    → let (s', events, _) = on_channel_state s msg in SameTables (hear_all r events) s'
unfolding on_channel_state hear_all
channel_state-SameTables r s msg up h =
    let info = channel_info msg in
    let grown = insert-same info.id info r.channels s.channels h.same_channels in
    elim (Bool-cases (is_some (lookup info.id s.channels))) [
      | inl there ↦ rw (up, there) (record { same_users = h.same_users; same_channels = grown })
      | inr new ↦ rw (up, new) (record { same_users = h.same_users; same_channels = grown })
    ]

user_state-SameTables :
    (r : Replica) (s : ControlState) (msg : UserState)
    → s.is_connected ≡ true
    → SameTables r s
    → let (s', events, _) = on_user_state s msg in SameTables (hear_all r events) s'
unfolding on_user_state hear_all
user_state-SameTables r s msg up h =
    let info = user_info msg in
    elim (Option-cases (lookup info.session_id s.users)) [
      | inl absent ↦
          rw (up, absent)
            (record {
              same_users = insert-same info.session_id info r.users s.users h.same_users;
              same_channels = h.same_channels;
            })
      | inr (u, e) ↦
          rw (up, e, h.same_users info.session_id ∙ e)
            (record {
              same_users =
                  insert-same info.session_id (merge_user_state u msg) r.users s.users h.same_users;
              same_channels = h.same_channels;
            })
    ]

sync-SameTables :
    (r : Replica) (s : ControlState) (session_id : ℕ)
    → IsKeyed s
    → let (s', events, _) = on_server_sync s session_id in SameTables (hear_all r events) s'
unfolding on_server_sync hear_all
sync-SameTables r s session_id v =
    let (us, cs, up) = hand_over_keys_tables (record s { is_connected = true }) s.crypt_state in
    record {
      same_users = λ k. lookup-rebuild user_id_of k s.users v.users_keyed ∙ ap (lookup k) (sym us);
      same_channels =
          λ k. lookup-rebuild channel_id_of k s.channels v.channels_keyed ∙ ap (lookup k) (sym cs);
    }

crypt_setup-SameTables :
    (sizes : Sizes) (r : Replica) (s : ControlState) (msg : CryptSetup)
    → SameTables r s
    → let (s', events, _) = on_crypt_setup sizes s msg in SameTables (hear_all r events) s'
unfolding on_crypt_setup hear_all
crypt_setup-SameTables sizes r s msg h = elim (Result-cases (crypt_state_from_message sizes msg)) [
  | inl (c, e) ↦
      rw (on_crypt_setup, e) (record { same_users = h.same_users; same_channels = h.same_channels })
  | inr (c, e) ↦ rw (on_crypt_setup, e) h
]

step-SameTables :
    (sizes : Sizes) (r : Replica) (s : ControlState) (p : ControlPacket)
    → IsKeyed s
    → s.is_connected ≡ true
    → SameTables r s
    → let (s', events, _) = handle_control_packet sizes s p in SameTables (hear_all r events) s'
unfolding handle_control_packet hear_all
step-SameTables sizes r s (channel_state msg) v up h = channel_state-SameTables r s msg up h
step-SameTables sizes r s (channel_remove id) v up h = rw up (record {
  same_users = h.same_users;
  same_channels = remove-same id r.channels s.channels h.same_channels;
})
step-SameTables sizes r s (user_state msg) v up h = user_state-SameTables r s msg up h
step-SameTables sizes r s (user_remove id) v up h = rw up (record {
  same_users = remove-same id r.users s.users h.same_users;
  same_channels = h.same_channels;
})
step-SameTables sizes r s (crypt_setup msg) v up h = crypt_setup-SameTables sizes r s msg h
step-SameTables sizes r s (server_sync id) v up h = sync-SameTables r s id v
step-SameTables sizes r s (text_message actor ids message) v up h = h
step-SameTables sizes r s (reject kind why) v up h = h
step-SameTables sizes r s other v up h = h

-- Only the server's synchronisation connects.
step_before :
    (sizes : Sizes) (r : Replica) (s : ControlState) (p : ControlPacket)
    → IsKeyed s
    → s.is_connected ≡ false
    → let (s', events, _) = handle_control_packet sizes s p in
      (s'.is_connected ≡ false) ⊎ SameTables (hear_all r events) s'
unfolding handle_control_packet on_channel_state on_user_state
step_before sizes r s (channel_state msg) v down = inl (ground arith)
step_before sizes r s (channel_remove id) v down = inl down
step_before sizes r s (user_state msg) v down = inl (ground arith)
step_before sizes r s (user_remove id) v down = inl down
step_before sizes r s (crypt_setup msg) v down = inl ((on_crypt_setup_state sizes s msg).2 ∙ down)
step_before sizes r s (server_sync id) v down = inr (sync-SameTables r s id v)
step_before sizes r s (text_message actor ids message) v down = inl down
step_before sizes r s (reject kind why) v down = inl down
step_before sizes r s other v down = inl down

-- What holds of a listener and the loop: the tables agree once the connection is synchronised.
record Tracks (r : Replica) (s : ControlState) : Type 0 where
  keyed : IsKeyed s
  same : s.is_connected ≡ true → SameTables r s

step-Tracks :
    (sizes : Sizes) (r : Replica) (s : ControlState) (p : ControlPacket)
    → Tracks r s
    → let (s', events, _) = handle_control_packet sizes s p in Tracks (hear_all r events) s'
step-Tracks sizes r s p t = record {
  keyed = handle_control_packet-IsKeyed sizes s p t.keyed;
  same = λ up'. elim (Bool-cases s.is_connected) [
    | inl up ↦ step-SameTables sizes r s p t.keyed up (t.same up)
    | inr down ↦ elim (step_before sizes r s p t.keyed down) [
      | inl still ↦ cc
      | inr tables ↦ tables
    ]
  ];
}

control_run-Tracks :
    (sizes : Sizes) (r : Replica) (s : ControlState) (ps : List ControlPacket)
    → Tracks r s
    → let (s', events) = control_run sizes s ps in Tracks (hear_all r events) s'
unfolding control_run hear_all
control_run-Tracks sizes r s [] t = t
control_run-Tracks sizes r s (p ∷ ps) t =
    let (s', events, goes_on) = handle_control_packet sizes s p in
    let stepped = step-Tracks sizes r s p t in
    let rest = control_run-Tracks sizes (hear_all r events) s' ps stepped in
    elim (Bool-cases goes_on) [
      | inl on ↦ rw (on, hear_all-append r events (control_run sizes s' ps).1) rest
      | inr off ↦ rw off stepped
    ]

-- For every sequence of packets from the Mumble server: once the connection is synchronised, a
-- listener that started with empty tables and heard only the events holds, under every number, the
-- same user and the same channel as the control loop's own tables.
pub control_run-SameTables :
    (sizes : Sizes) (ps : List ControlPacket)
    → (control_run sizes initial_control ps).0.is_connected ≡ true
    → let (s, events) = control_run sizes initial_control ps in
      SameTables (hear_all no_tables events) s
control_run-SameTables sizes ps =
    let start : Tracks no_tables initial_control = record {
      keyed = record { users_keyed = tt; channels_keyed = tt };
      same = λ up. cc;
    } in
    (control_run-Tracks sizes no_tables initial_control ps start).same
