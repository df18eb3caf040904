-- ===== src/Env/Tests.antt =====
-- Runs of `expand_env_vars` of src/config.rs, the first three on the inputs of its tests.
use mumdota.Base.{
  lookup, insert, string_eq, ℕ, ◌==◌, nat_eq, ◌≡◌, ◌≢◌, ◌↔◌, refl, [], ◌∷◌, ◌++◌, none, some,
  String, Result, ok, err, true, if◌then◌else◌,
}
use mumdota.Env.{
  text, Text, Environment, unclosed, empty_name, out_of_fuel, unset, expand_env_vars, expand_loop,
  take_inner, split_default, resolve,
}
use mumdota.Env.Grammar.{Expansion, put}
use mumdota.Env.Placeholders.{expand_env_vars-Expansion, expand_env_vars-ends}
use mumdota.Config.{Config, default_turn, default_media_port, validate, validate_turn}
use mumdota.Env.Overrides.{
  same_text, integer, pos, array, table, no_table, Table, parse_i64, setting_of, put_if_set,
  put_setting, apply_override, apply_all, apply_env_overrides, read_value, is_true, split_commas,
}
use mumdota.Env.Load.{load, load-loaded}
use mumdota.Env.Sequences.{expand_env_vars-append, expand_env_vars-unset}

-- `A` alone is set.
abbrev environment : Environment
environment [] = none
environment (c ∷ []) = if c == b'A' then some (text "x.org") else none
environment (c ∷ d ∷ name) = none

expand-set : expand_env_vars environment (text "host = \"${A}\"") ≡ ok (text "host = \"x.org\"")
unfolding expand_env_vars expand_loop take_inner split_default resolve
expand-set = refl

expand-default :
    expand_env_vars environment (text "port = \"${B:-64738}\"") ≡ ok (text "port = \"64738\"")
unfolding expand_env_vars expand_loop take_inner split_default resolve
expand-default = refl

expand-missing : expand_env_vars environment (text "host = ${B}") ≡ err (unset (text "B"))
unfolding expand_env_vars expand_loop take_inner split_default resolve
expand-missing = refl

expand-unclosed : expand_env_vars environment (text "${A} $ ${A") ≡ err unclosed
unfolding expand_env_vars expand_loop take_inner split_default resolve
expand-unclosed = refl

expand-nameless : expand_env_vars environment (text "${:-x}") ≡ err empty_name
unfolding expand_env_vars expand_loop take_inner split_default resolve
expand-nameless = refl

expand-host : expand_env_vars environment (text "h${A}") ≡ ok (text "hx.org")
unfolding expand_env_vars expand_loop take_inner split_default resolve
expand-host = refl

expand_env_vars-Expansion_example :
    (expand_env_vars environment (text "h${A}") ≡ ok (text "hx.org"))
    ↔ Expansion environment (text "h${A}") (ok (text "hx.org"))
expand_env_vars-Expansion_example =
    expand_env_vars-Expansion environment (text "h${A}") (ok (text "hx.org"))

expand_env_vars-ends-text : expand_env_vars environment (text "${A${:-}}") ≢ err out_of_fuel
expand_env_vars-ends-text = expand_env_vars-ends environment (text "${A${:-}}")

expand_env_vars-append_example :
    expand_env_vars environment (text "h${A}" ++ text ":${B:-1}")
    ≡ put (text "hx.org") (expand_env_vars environment (text ":${B:-1}"))
expand_env_vars-append_example =
    expand_env_vars-append environment (text "h${A}") (text ":${B:-1}") (text "hx.org") expand-host
      refl

expand_env_vars-unset_example :
    expand_env_vars environment (text "h${A}" ++ (b'$' ∷ b'{' ∷ text "B" ++ b'}' ∷ text " ${A"))
    ≡ err (unset (text "B"))
expand_env_vars-unset_example =
    expand_env_vars-unset environment (text "h${A}") (text "B") (text " ${A") (text "hx.org")
      expand-host (λ e. cc) (refl, tt) (refl, tt) refl

-- A number with a sign, one that is no number, and a list.
abbrev container : Environment
container name =
    if same_text name (text "MUMDOTA_SERVER_LISTEN_PORT")
    then some (text "+8080")
    else if same_text name (text "MUMDOTA_MUMBLE_PORT")
    then some (text "80 80")
    else if same_text name (text "MUMDOTA_WEBRTC_STUN_SERVERS")
    then some (text "a , b,")
    else none

abbrev parsed : Table ℕ
parsed =
    ("server", table (("listen_port", integer (pos 80)) ∷ []))
    ∷ ("mumble", table (("port", integer (pos 64738)) ∷ []))
    ∷ ("title", no_table 7)
    ∷ []

apply_env_overrides-parsed :
    apply_env_overrides container parsed
    ≡ some (
        ("server", table (("listen_port", integer (pos 8080)) ∷ []))
        ∷ ("mumble", table (("port", integer (pos 64738)) ∷ []))
        ∷ ("title", no_table 7)
        ∷ ("webrtc", table (("stun_servers", array (text "a" ∷ text "b" ∷ [] ∷ [])) ∷ []))
        ∷ [])
unfolding apply_all apply_override setting_of read_value put_if_set put_setting parse_i64 is_true
    split_commas lookup insert
apply_env_overrides-parsed = refl

-- Where `server` is no table, an override of it panics.
apply_env_overrides-panics :
    apply_env_overrides {Other = ℕ} container (("server", no_table 3) ∷ []) ≡ none
unfolding apply_all apply_override setting_of read_value put_if_set put_setting parse_i64 is_true
    split_commas lookup insert
apply_env_overrides-panics = refl

abbrev plain_config : Config
plain_config = record {
  server = record {
    listen_addr = "::";
    listen_port = 8080;
    max_connections = 9;
    allowed_origins = [];
  };
  mumble = record { host = "x.org"; port = 64738; accept_invalid_certs = true };
  webrtc = record { stun_servers = []; udp_port = default_media_port; public_ip = none };
  turn = default_turn;
}

abbrev from_str : Text → Result String (Table ℕ)
from_str [] = err "empty"
from_str (c ∷ s) = ok parsed

abbrev try_into : Table ℕ → Result String Config
try_into [] = err "no server"
try_into (entry ∷ entries) = ok plain_config

load-plain : load from_str try_into environment (text "h${A}") ≡ ok plain_config
unfolding load expand_env_vars expand_loop take_inner split_default resolve validate validate_turn
    apply_all apply_override setting_of put_if_set
load-plain = refl

load-loaded-file :
    (expanded : Text) × (before : Table ℕ) × (after : Table ℕ) × Expansion environment
      (text "h${A}")
      (ok expanded)
    × (from_str expanded ≡ ok before)
    × (apply_env_overrides environment before ≡ some after)
    × (try_into after ≡ ok plain_config)
    × (validate plain_config ≡ ok tt)
load-loaded-file = load-loaded from_str try_into environment (text "h${A}") plain_config load-plain
