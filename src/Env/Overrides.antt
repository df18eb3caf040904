-- ===== src/Env/Overrides.antt =====
-- The overrides from the environment, `apply_env_overrides` of src/config.rs. A TOML table is known as
-- far as it is read here: `Other` is a value of the `toml` crate that is neither read nor written.
pub mod Applied
use Prim.Native.Char.{code}
use mumdota.Base.{
  ℕ, zero, suc, ◌+◌, ◌-◌, ◌*◌, ◌^◌, Bool, true, false, not, ◌&&◌, ◌||◌, String, string_eq, List, [],
  ◌∷◌, ◌++◌, map, Option, none, some, ◌==◌, nat_eq, leb, ltb, keep, if◌then◌else◌, Map, lookup,
  insert,
}
use mumdota.Capture.{to_ascii_lowercase}
use mumdota.Handler.{is_whitespace}
use mumdota.Env.{Text, Environment, text}

pub data ℤ : Type 0 where
  pos negsuc : ℕ → ℤ

pub data Setting (Other : Type 0) : Type 0 where
  string : Text → Setting Other
  integer : ℤ → Setting Other
  boolean : Bool → Setting Other
  array : List Text → Setting Other
  unread : Other → Setting Other

pub data Section (Other : Type 0) : Type 0 where
  table : Map String (Setting Other) → Section Other
  no_table : Other → Section Other

abbrev pub Table : Type 0 → Type 0
Table Other = Map String (Section Other)

-- `str::parse::<i64>`
abbrev pub digits : ℕ → Text → Option ℕ
digits n [] = some n
digits n (c ∷ rest) =
    let after = digits (10 * n + (c - b'0')) rest in
    if leb b'0' c && leb c b'9' then after else none

abbrev pub number : Text → Option ℕ
number [] = none
number (c ∷ rest) = digits 0 (c ∷ rest)

abbrev pub positive : Option ℕ → Option ℤ
positive none = none
positive (some n) = if ltb n (2 ^ 63) then some (pos n) else none

abbrev pub negative : Option ℕ → Option ℤ
negative none = none
negative (some zero) = some (pos 0)
negative (some (suc n)) = if ltb n (2 ^ 63) then some (negsuc n) else none

unfoldable pub parse_i64 : Text → Option ℤ
parse_i64 [] = none
parse_i64 (c ∷ rest) =
    if c == b'-'
    then negative (number rest)
    else if c == b'+'
    then positive (number rest)
    else positive (number (c ∷ rest))

-- A value that is `1`, `true` or `yes` in lower case. No character beyond ASCII has a letter of these
-- words as its lower case.
abbrev pub same_text : Text → Text → Bool
same_text [] [] = true
same_text [] (d ∷ t) = false
same_text (c ∷ s) [] = false
same_text (c ∷ s) (d ∷ t) = c == d && same_text s t

unfoldable pub is_true : Text → Bool
is_true val =
    let lower = map to_ascii_lowercase val in
    same_text lower (text "1") || same_text lower (text "true") || same_text lower (text "yes")

-- `str::split(',')`
abbrev pub push_front : ℕ → List Text → List Text
push_front c [] = (c ∷ []) ∷ []
push_front c (part ∷ parts) = (c ∷ part) ∷ parts

unfoldable pub split_commas : Text → List Text
split_commas [] = [] ∷ []
split_commas (c ∷ rest) =
    let parts = split_commas rest in if c == b',' then [] ∷ parts else push_front c parts

abbrev pub trim_start : Text → Text
trim_start [] = []
trim_start (c ∷ rest) =
    let trimmed = trim_start rest in if is_whitespace c then trimmed else c ∷ rest

abbrev pub trim_end : Text → Text
trim_end [] = []
trim_end (c ∷ rest) = elim (trim_end rest) [
  | [] ↦ if is_whitespace c then [] else c ∷ []
  | d ∷ trimmed ↦ c ∷ d ∷ trimmed
]

abbrev pub trim : Text → Text
trim s = trim_start (trim_end s)

abbrev pub is_empty : Text → Bool
is_empty [] = true
is_empty (c ∷ rest) = false

-- How a value is read: by `override_str!`, `override_int!`, `override_bool!`, as the STUN servers and
-- as the allowed origins.
pub data Reading : Type 0 where
  text_value int_value bool_value list_value nonempty_list_value : Reading

pub record Override : Type 0 where
  pub reading : Reading
  pub section : String
  pub key : String
  pub variable : String

module _ {Other : Type 0} where
  abbrev integer_setting : Option ℤ → Option (Setting Other)
  integer_setting none = none
  integer_setting (some n) = some (integer n)

  -- The setting that a value of the environment gives, if any.
  unfoldable pub read_value : Reading → Text → Option (Setting Other)
  unfolding parse_i64 is_true split_commas
  read_value text_value val = some (string val)
  read_value int_value val = integer_setting (parse_i64 val)
  read_value bool_value val = some (boolean (is_true val))
  read_value list_value val = some (array (map trim (split_commas val)))
  read_value nonempty_list_value val =
      some (array (keep (λ s. not (is_empty s)) (map trim (split_commas val))))

  abbrev pub in_section : String → Setting Other → Option (Section Other) → Option (Section Other)
  in_section key value none = some (table ((key, value) ∷ []))
  in_section key value (some (table entries)) = some (table (insert key value entries))
  in_section key value (some (no_table other)) = none

  abbrev pub store : String → Table Other → Option (Section Other) → Option (Table Other)
  store section t none = none
  store section t (some entries) = some (insert section entries t)

  -- `entry(section).or_insert(..).as_table_mut().unwrap().insert(key, value)`: nothing if it panics.
  unfoldable pub put_setting : String → String → Setting Other → Table Other → Option (Table Other)
  put_setting section key value t = store section t (in_section key value (lookup section t))

  -- The setting that an override makes of the environment.
  unfoldable pub setting_of : Environment → Override → Option (Setting Other)
  unfolding read_value
  setting_of env o = elim (env (text o.variable)) [
    | none ↦ none
    | some val ↦ read_value o.reading val
  ]

  unfoldable pub put_if_set : Override → Table Other → Option (Setting Other) → Option (Table Other)
  put_if_set o t none = some t
  put_if_set o t (some value) = put_setting o.section o.key value t

  unfoldable pub apply_override : Environment → Override → Table Other → Option (Table Other)
  unfolding setting_of put_if_set
  apply_override env o t = put_if_set o t (setting_of env o)

  unfoldable pub apply_all : Environment → List Override → Table Other → Option (Table Other)
  unfolding apply_override
  apply_all env [] t = some t
  apply_all env (o ∷ rest) t = elim (apply_override env o t) [
    | none ↦ none
    | some changed ↦ apply_all env rest changed
  ]

abbrev override : Reading → String → String → String → Override
override reading section key variable = record {
  reading = reading;
  section = section;
  key = key;
  variable = variable;
}

-- The calls of `apply_env_overrides`, in their order.
abbrev pub overrides : List Override
overrides =
    override text_value "server" "listen_addr" "MUMDOTA_SERVER_LISTEN_ADDR"
    ∷ override int_value "server" "listen_port" "MUMDOTA_SERVER_LISTEN_PORT"
    ∷ override int_value "server" "max_connections" "MUMDOTA_SERVER_MAX_CONNECTIONS"
    ∷ override text_value "mumble" "host" "MUMDOTA_MUMBLE_HOST"
    ∷ override int_value "mumble" "port" "MUMDOTA_MUMBLE_PORT"
    ∷ override bool_value "mumble" "accept_invalid_certs" "MUMDOTA_MUMBLE_ACCEPT_INVALID_CERTS"
    ∷ override list_value "webrtc" "stun_servers" "MUMDOTA_WEBRTC_STUN_SERVERS"
    ∷ override int_value "webrtc" "udp_port" "MUMDOTA_WEBRTC_UDP_PORT"
    ∷ override text_value "webrtc" "public_ip" "MUMDOTA_WEBRTC_PUBLIC_IP"
    ∷ override bool_value "turn" "enabled" "MUMDOTA_TURN_ENABLED"
    ∷ override text_value "turn" "listen_addr" "MUMDOTA_TURN_LISTEN_ADDR"
    ∷ override text_value "turn" "public_ip" "MUMDOTA_TURN_PUBLIC_IP"
    ∷ override text_value "turn" "public_host" "MUMDOTA_TURN_PUBLIC_HOST"
    ∷ override text_value "turn" "realm" "MUMDOTA_TURN_REALM"
    ∷ override text_value "turn" "tls_cert" "MUMDOTA_TURN_TLS_CERT"
    ∷ override text_value "turn" "tls_key" "MUMDOTA_TURN_TLS_KEY"
    ∷ override int_value "turn" "port" "MUMDOTA_TURN_PORT"
    ∷ override int_value "turn" "tls_port" "MUMDOTA_TURN_TLS_PORT"
    ∷ override int_value "turn" "relay_min_port" "MUMDOTA_TURN_RELAY_MIN_PORT"
    ∷ override int_value "turn" "relay_max_port" "MUMDOTA_TURN_RELAY_MAX_PORT"
    ∷ override int_value "turn" "credential_ttl_secs" "MUMDOTA_TURN_CREDENTIAL_TTL_SECS"
    ∷ override nonempty_list_value "server" "allowed_origins" "MUMDOTA_SERVER_ALLOWED_ORIGINS"
    ∷ []

abbrev pub apply_env_overrides : {Other : Type 0} → Environment → Table Other → Option (Table Other)
apply_env_overrides env = apply_all env overrides
