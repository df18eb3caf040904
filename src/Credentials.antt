-- ===== src/Credentials.antt =====
-- The session credentials of src/turn/credentials.rs. Times are seconds since the epoch. The two
-- things that the code takes from elsewhere are arguments: the random texts of the `uuid` crate,
-- and the `turn` crate's `generate_auth_key`.
pub mod Sessions
pub mod Expiries
pub mod Bounds
mod Tests
use text.Mathlib.Text.{starts_with}
use mumdota.Base.{
  ℕ, ◌+◌, ◌≡◌, ◌&&◌, not, Bool, String, List, [], ◌∷◌, map, Option, none, some, ltb, ◌==◌,
  string_eq, if◌then◌else◌, keep, find_first, Map, values, lookup, insert, Result, ok, err,
}

pub record IceServer : Type 0 where
  pub urls : String
  pub username : Option String
  pub credential : Option String

pub record IceConfig : Type 0 where
  pub ice_servers : List IceServer
  pub expires_at : Option ℕ

pub record Credential : Type 0 where
  pub session : String
  pub username : String
  pub password : String
  pub key : List ℕ
  pub expires_at : ℕ

pub record Credentials : Type 0 where
  pub realm : String
  pub ttl : ℕ
  pub entries : Map String Credential

unfoldable pub new : String → ℕ → Credentials
new realm ttl = record { realm = realm; ttl = ttl; entries = [] }

-- `entries.retain(|_, c| test c)`
unfoldable pub retain : (Credential → Bool) → Map String Credential → Map String Credential
retain test entries = keep (λ e. test e.1) entries

-- What one call may draw: the username, which the code makes of the expiry and a random id, the
-- random password, and the key that `generate_auth_key` derives from both and the realm.
pub record Draw : Type 0 where
  pub username : String
  pub password : String
  pub key : List ℕ

abbrev pub is_reusable : String → ℕ → Credential → Bool
is_reusable session now c = c.session == session && ltb (now + 90) c.expires_at

abbrev pub fresh_credential : Credentials → String → ℕ → Draw → Credential
fresh_credential cs session now draw = record {
  session = session;
  username = draw.username;
  password = draw.password;
  key = draw.key;
  expires_at = now + cs.ttl;
}

-- The credential that a call hands out, and the map after it.
unfoldable pub choose :
    Credentials → String → ℕ → Draw → Map String Credential → Credential × Map String Credential
choose cs session now draw entries = elim (find_first (is_reusable session now) (values entries)) [
  | some c ↦ (c, entries)
  | none ↦ let c = fresh_credential cs session now draw in (c, insert draw.username c entries)
]

abbrev pub when_turn : String → String → Option String
when_turn url text = if starts_with url "turn" then some text else none

abbrev pub ice_server : Credential → String → IceServer
ice_server c url = record {
  urls = url;
  username = when_turn url c.username;
  credential = when_turn url c.password;
}

unfoldable pub issue_at : Credentials → String → List String → ℕ → Draw → IceConfig × Credentials
unfolding choose retain
issue_at cs session urls now draw =
    let live = retain (λ c. ltb now c.expires_at) cs.entries in
    let (c, entries) = choose cs session now draw live in
    (
      record { ice_servers = map (ice_server c) urls; expires_at = some c.expires_at },
      record cs { entries = entries },
    )

unfoldable pub revoke : Credentials → String → List String × Credentials
unfolding retain
revoke cs session = (
  map (λ c. c.username) (keep (λ c. c.session == session) (values cs.entries)),
  record cs { entries = retain (λ c. not (c.session == session)) cs.entries },
)

pub data TurnError : Type 0 where
  invalid_realm unknown_credential : TurnError

abbrev pub key_of : Option Credential → ℕ → Result TurnError (List ℕ)
key_of none now = err unknown_credential
key_of (some c) now = if ltb now c.expires_at then ok c.key else err unknown_credential

unfoldable pub authenticate_at : Credentials → String → String → ℕ → Result TurnError (List ℕ)
authenticate_at cs username realm now =
    if realm == cs.realm then key_of (lookup username cs.entries) now else err invalid_realm
