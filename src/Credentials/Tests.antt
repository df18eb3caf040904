-- ===== src/Credentials/Tests.antt =====
-- Runs of the credential store of src/turn/credentials.rs, on the inputs of its own test.
use mumdota.Base.{
  ℕ, ◌+◌, ◌≤◌, ◌<◌, ◌≡◌, refl, String, List, [], ◌∷◌, some, arith, string_eq, lookup, insert, All,
  length, ok, err, keep, find_first,
}
use mumdota.Credentials.{
  Credential, Credentials, new, Draw, issue_at, revoke, unknown_credential, authenticate_at,
  fresh_credential,
}
use mumdota.Credentials.Sessions.{IsSound, Lists, issue_at-authenticate_at, revoke-authenticate_at}
use mumdota.Credentials.Expiries.{expiries}
use mumdota.Credentials.Bounds.{Reach, start, issued, Reach-bound}

abbrev urls : List String
urls = "stun:localhost:3478" ∷ "turn:localhost:3478" ∷ []

abbrev draw : String → Draw
draw name = record { username = name; password = "secret"; key = 1 ∷ [] }

abbrev after_a : Credentials
after_a = (issue_at (new "test" 300) "a" urls 1000 (draw "1300:u1")).1

abbrev after_b : Credentials
after_b = (issue_at after_a "b" urls 1000 (draw "1300:u2")).1

abbrev refreshed : Credentials
refreshed = (issue_at after_b "a" urls 1250 (draw "1550:u3")).1

authenticate_at-after_b : authenticate_at after_b "1300:u1" "test" 1299 ≡ ok (1 ∷ [])
unfolding authenticate_at issue_at new insert lookup keep find_first
authenticate_at-after_b = refl

authenticate_at_expired : authenticate_at after_b "1300:u1" "test" 1300 ≡ err unknown_credential
unfolding authenticate_at issue_at new insert lookup keep find_first
authenticate_at_expired = refl

revoke-refreshed : (revoke refreshed "a").0 ≡ "1300:u1" ∷ "1550:u3" ∷ []
unfolding revoke issue_at new insert lookup keep find_first
revoke-refreshed = refl

abbrev stored : Credentials
stored = record {
  realm = "test";
  ttl = 300;
  entries = ("1300:u1", fresh_credential (new "test" 300) "a" 1000 (draw "1300:u1")) ∷ [];
}

stored-IsSound : IsSound stored.entries
unfolding lookup
stored-IsSound = (refl, refl, tt)

issue_at-authenticate_at_example :
    let (config, cs') = issue_at stored "a" urls 1250 (draw "1550:u3") in
    (c : Credential) × (c.session ≡ "a")
    × Lists c urls config.ice_servers
    × (config.expires_at ≡ some c.expires_at)
    × (1250 + 90 < c.expires_at)
    × ((later : ℕ) → later < c.expires_at → authenticate_at cs' c.username "test" later ≡ ok c.key)
    × ((later : ℕ)
        → c.expires_at ≤ later
        → authenticate_at cs' c.username "test" later ≡ err unknown_credential)
issue_at-authenticate_at_example =
    issue_at-authenticate_at stored "a" urls 1250 (draw "1550:u3") stored-IsSound (omega arith)

authenticate_at-revoked :
    authenticate_at (revoke stored "a").1 "1300:u1" "test" 1251 ≡ err unknown_credential
authenticate_at-revoked =
    revoke-authenticate_at stored "a" "1300:u1" "test" 1251
      (fresh_credential (new "test" 300) "a" 1000 (draw "1300:u1")) stored-IsSound
      (unfold lookup in refl)

two_refreshes : Reach "test" 300 refreshed 1250
unfolding issue_at new insert lookup keep find_first
two_refreshes =
    issued "a" urls 1250 (draw "1550:u3")
      (issued "b" urls 1000 (draw "1300:u2")
        (issued "a" urls 1000 (draw "1300:u1") start (omega arith) refl) (omega arith) refl)
      (omega arith) refl

Reach-bound_example :
    (length (expiries "a" refreshed.entries) ≤ 2)
    × All (λ x. 1250 < x) (expiries "a" refreshed.entries)
    × IsSound refreshed.entries
Reach-bound_example = Reach-bound (omega arith) two_refreshes "a"
