-- ===== src/Control/Tables.antt =====
-- The tables of src/mumble/client.rs: each channel and each user stands once, under its own number.
use mumdota.Base.{
  ℕ, ◌≡◌, refl, true, [], ◌∷◌, Option, none, some, arith, nat_eq, Option-cases, inl, inr, Map,
  lookup, Keyed, insert-Keyed, remove-Keyed,
}
use mumdota.Messages.{ChannelInfo, UserInfo}
use mumdota.Control.{
  ControlState, ControlPacket, channel_state, channel_remove, user_state, user_remove, crypt_setup,
  server_sync, text_message, reject, other, Sizes, CryptState, UserState, ChannelState, CryptSetup,
  merge_user_state, user_info, channel_info, on_channel_state, on_user_state, on_crypt_setup,
  on_server_sync, hand_over_keys, handle_control_packet,
}

abbrev pub channel_id_of : ChannelInfo → ℕ
channel_id_of c = c.id

abbrev pub user_id_of : UserInfo → ℕ
user_id_of u = u.session_id

pub record IsKeyed (s : ControlState) : Type 0 where
  pub users_keyed : Keyed user_id_of s.users
  pub channels_keyed : Keyed channel_id_of s.channels

lookup-Keyed :
    (k : ℕ) (m : Map ℕ UserInfo) (u : UserInfo)
    → Keyed user_id_of m
    → lookup k m ≡ some u
    → u.session_id ≡ k
unfolding lookup
lookup-Keyed k [] u h e = cc
lookup-Keyed k ((j, v) ∷ m) u h e = ground (arith, lookup-Keyed k m u h.2)

on_channel_state-IsKeyed :
    (s : ControlState) (msg : ChannelState) → IsKeyed s → IsKeyed (on_channel_state s msg).0
unfolding on_channel_state
on_channel_state-IsKeyed s msg v =
    let info = channel_info msg in
    let kept = insert-Keyed channel_id_of info.id info s.channels refl v.channels_keyed in
    ground (arith, kept)

merge_user_state-id :
    (u : UserInfo) (msg : UserState) → (merge_user_state u msg).session_id ≡ u.session_id
unfolding merge_user_state
merge_user_state-id u msg = refl

on_user_state-IsKeyed :
    (s : ControlState) (msg : UserState) → IsKeyed s → IsKeyed (on_user_state s msg).0
unfolding on_user_state
on_user_state-IsKeyed s msg v =
    let session_id = (user_info msg).session_id in
    let joined = insert-Keyed user_id_of session_id (user_info msg) s.users refl v.users_keyed in
    elim (Option-cases (lookup session_id s.users)) [
      | inl absent ↦ ground (arith, joined)
      | inr (u, e) ↦
          let same = lookup-Keyed session_id s.users u v.users_keyed e in
          let merged = merge_user_state u msg in
          ground
            (arith, joined, insert-Keyed user_id_of session_id merged s.users same v.users_keyed)
    ]

pub hand_over_keys_tables :
    (s : ControlState) (c : Option CryptState)
    → ((hand_over_keys s c).users ≡ s.users)
      × ((hand_over_keys s c).channels ≡ s.channels)
      × ((hand_over_keys s c).is_connected ≡ s.is_connected)
unfolding hand_over_keys
hand_over_keys_tables s none = (refl, refl, refl)
hand_over_keys_tables s (some c) = ground arith

pub on_crypt_setup_state :
    (sizes : Sizes) (s : ControlState) (msg : CryptSetup)
    → let s' = (on_crypt_setup sizes s msg).0 in
      (s'.users ≡ s.users) × (s'.channels ≡ s.channels) × (s'.is_connected ≡ s.is_connected)
unfolding on_crypt_setup
on_crypt_setup_state sizes s msg = ground arith

pub handle_control_packet-IsKeyed :
    (sizes : Sizes) (s : ControlState) (p : ControlPacket)
    → IsKeyed s
    → IsKeyed (handle_control_packet sizes s p).0
unfolding handle_control_packet on_server_sync
handle_control_packet-IsKeyed sizes s (channel_state msg) v = on_channel_state-IsKeyed s msg v
handle_control_packet-IsKeyed sizes s (channel_remove id) v = record {
  users_keyed = v.users_keyed;
  channels_keyed = remove-Keyed channel_id_of id s.channels v.channels_keyed;
}
handle_control_packet-IsKeyed sizes s (user_state msg) v = on_user_state-IsKeyed s msg v
handle_control_packet-IsKeyed sizes s (user_remove id) v = record {
  users_keyed = remove-Keyed user_id_of id s.users v.users_keyed;
  channels_keyed = v.channels_keyed;
}
handle_control_packet-IsKeyed sizes s (crypt_setup msg) v =
    let (us, cs, up) = on_crypt_setup_state sizes s msg in
    record { users_keyed = rw us v.users_keyed; channels_keyed = rw cs v.channels_keyed }
handle_control_packet-IsKeyed sizes s (server_sync id) v =
    let (us, cs, up) = hand_over_keys_tables (record s { is_connected = true }) s.crypt_state in
    record { users_keyed = rw us v.users_keyed; channels_keyed = rw cs v.channels_keyed }
handle_control_packet-IsKeyed sizes s (text_message actor ids message) v = v
handle_control_packet-IsKeyed sizes s (reject kind why) v = v
handle_control_packet-IsKeyed sizes s other v = v
