-- ===== src/Turn/Slots.antt =====
-- The slots of the stream listeners of src/turn/mod.rs, and the servers that can be reached.
use mumdota.Base.{
  length-set_elem, length-remove_elem, All-set_elem, All-get, ℕ, ◌+◌, ◌*◌, ◌≡◌, refl, sym, ap, ◌∙◌,
  subst, Bool, true, ◌||◌, List, [], ◌∷◌, ◌++◌, Option, none, some, Option-cases, Bool-cases, inl,
  inr, arith, length, get_elem?, keep, ◌==◌, nat_eq, nat_beq_iff, not, ◌⊎◌, if_cases, All, ◌&&◌,
  is_some,
}
use mumdota.Config.{Config}
use mumdota.Turn.{
  Client, handshaking, making, serving, Listener, TurnService, has, new_server, list_server,
  make_server, bound, start, on_accept, update, with_client, without_client, client_of, client,
  drop_server, serve_client, end_client, ice_config, revoke, close, stop, Step, accepts, makes,
  serves, ends, udp_ends, stops, issues, revokes, closes, step, run,
}

pub has-append : (id : ℕ) (xs ys : List ℕ) → has id (xs ++ ys) ≡ (has id xs || has id ys)
has-append id [] ys = refl
has-append id (x ∷ xs) ys = ground (arith, has-append id xs ys)

pub has-keep :
    (id : ℕ) (p : ℕ → Bool) (xs : List ℕ)
    → has id xs ≡ true
    → p id ≡ true
    → has id (keep p xs) ≡ true
unfolding keep
has-keep id p [] h k = cc
has-keep id p (x ∷ xs) h k = elim (Bool-cases (x == id)) [
  | inl same ↦ let kept : p x ≡ true = ap p ((nat_beq_iff x id).0 same) ∙ k in rw (kept, same) refl
  | inr other ↦
      let later : has id xs ≡ true = subst (λ t. (t || has id xs) ≡ true) other h in
      if_cases (λ l. has id l ≡ true) (p x) (x ∷ keep p xs) (keep p xs)
        (rw other (has-keep id p xs later k)) (has-keep id p xs later k)
]

has-keep_sub : (id : ℕ) (p : ℕ → Bool) (xs : List ℕ) → has id (keep p xs) ≡ true → has id xs ≡ true
unfolding keep
has-keep_sub id p [] h = h
has-keep_sub id p (x ∷ xs) h = ground (arith, has-keep_sub id p xs)

-- The slots of a listener are free or held by a client.
abbrev pub Conserved : Config → Listener → Type 0
Conserved config l = l.slots + length l.clients ≡ config.server.max_connections * 2

-- Every server that is still held stands in the list that `revoke` goes through, or waits to be put
-- there.
abbrev pub Tracked : TurnService → Type 0
Tracked s = (id : ℕ) → has id s.live ≡ true → (has id s.servers ≡ true) ⊎ (has id s.unlisted ≡ true)

pub record Holds (config : Config) (s : TurnService) : Type 0 where
  pub same : s.config ≡ config
  pub conserved : All (Conserved config) s.listeners
  pub tracked : Tracked s

update-Holds :
    (config : Config) (s : TurnService) (i : ℕ) (f : Listener → Listener)
    → ((l : Listener)
        → get_elem? s.listeners i ≡ some l
        → Conserved config l
        → Conserved config (f l))
    → Holds config s
    → Holds config (update s i (get_elem? s.listeners i) f)
update-Holds config s i f keeps h = elim (Option-cases (get_elem? s.listeners i)) [
  | inl absent ↦ rw absent h
  | inr (l, found) ↦ rw found (record {
    same = h.same;
    conserved =
        All-set_elem (Conserved config) s.listeners i (f l)
          (keeps l found (All-get (Conserved config) s.listeners i h.conserved found)) h.conserved;
    tracked = h.tracked;
  })
]

on_accept-Conserved :
    (config : Config) (is_accepted : Bool) (l : Listener)
    → Conserved config l
    → Conserved config (on_accept is_accepted l)
unfolding on_accept
on_accept-Conserved config is_accepted l h = ground arith

has-head : (id n : ℕ) (xs : List ℕ) → (n == id) ≡ true → has id (n ∷ xs) ≡ true
has-head id n xs same = rw same refl

has-tail : (id n : ℕ) (xs : List ℕ) → has id xs ≡ true → has id (n ∷ xs) ≡ true
has-tail id n xs later = elim (Bool-cases (n == id)) [
  | inl same ↦ has-head id n xs same
  | inr other ↦ rw other later
]

new_server-Holds :
    (config : Config) (s : TurnService) → Holds config s → Holds config (new_server s)
unfolding new_server
new_server-Holds config s h = record {
  same = h.same;
  conserved = h.conserved;
  tracked = λ id live. elim (Bool-cases (s.next_server == id)) [
    | inl same ↦ inr (has-head id s.next_server s.unlisted same)
    | inr other ↦
        let before : has id s.live ≡ true = subst (λ t. (t || has id s.live) ≡ true) other live in
        elim (h.tracked id before) [
          | inl listed ↦ inl listed
          | inr waits ↦ inr (has-tail id s.next_server s.unlisted waits)
        ]
  ];
}

list_server-Holds :
    (config : Config) (n : ℕ) (s : TurnService) → Holds config s → Holds config (list_server n s)
unfolding list_server
list_server-Holds config n s h = record {
  same = h.same;
  conserved = h.conserved;
  tracked = λ id live.
      let appended = has-append id (keep (λ m. has m s.live) s.servers) (n ∷ []) in
      elim (h.tracked id live) [
        | inl listed ↦
            let kept = has-keep id (λ m. has m s.live) s.servers listed live in
            inl (appended ∙ ground arith)
        | inr waits ↦ elim (Bool-cases (n == id)) [
          | inl same ↦ inl (appended ∙ ground arith)
          | inr other ↦ inr (has-keep id (λ m. not (m == n)) s.unlisted waits (ground arith))
        ]
      ];
}

drop_server-Holds :
    (config : Config) (n : ℕ) (s : TurnService) → Holds config s → Holds config (drop_server n s)
drop_server-Holds config n s h = record {
  same = h.same;
  conserved = h.conserved;
  tracked = λ id live. h.tracked id (has-keep_sub id _ s.live live);
}

with_client-Conserved :
    (config : Config) (l : Listener) (j : ℕ) (c : Client)
    → Conserved config l
    → Conserved config (with_client j c l)
with_client-Conserved config l j c k = ap (λ n. l.slots + n) (length-set_elem l.clients j c) ∙ k

make_server-Holds :
    (config : Config) (s : TurnService) (i j : ℕ) (c : Option Client)
    → Holds config s
    → Holds config (make_server s i j c)
unfolding make_server
make_server-Holds config s i j (some handshaking) h =
    update-Holds config (new_server s) i (with_client j (making s.next_server))
      (λ l found. with_client-Conserved config l j (making s.next_server))
      (new_server-Holds config s h)
make_server-Holds config s i j (some (making id)) h = h
make_server-Holds config s i j (some (serving id)) h = h
make_server-Holds config s i j none h = h

serve_client-Holds :
    (config : Config) (s : TurnService) (i j : ℕ) (c : Option Client)
    → Holds config s
    → Holds config (serve_client s i j c)
unfolding serve_client
serve_client-Holds config s i j (some (making id)) h =
    update-Holds config (list_server id s) i (with_client j (serving id))
      (λ l found. with_client-Conserved config l j (serving id)) (list_server-Holds config id s h)
serve_client-Holds config s i j (some handshaking) h = h
serve_client-Holds config s i j (some (serving id)) h = h
serve_client-Holds config s i j none h = h

without_client-Conserved :
    (config : Config) (l : Listener) (j : ℕ) {c : Client}
    → get_elem? l.clients j ≡ some c
    → Conserved config l
    → Conserved config (without_client j l)
without_client-Conserved config l j found h = omega (arith, h, length-remove_elem l.clients j found)

end_client-Holds :
    (config : Config) (s : TurnService) (i j : ℕ) (c : Option Client)
    → client s i j ≡ c
    → Holds config s
    → Holds config (end_client s i j c)
unfolding end_client
end_client-Holds config s i j (some handshaking) e h =
    update-Holds config s i (without_client j)
      (λ l found. without_client-Conserved config l j (ap (λ o. client_of o j) (sym found) ∙ e)) h
end_client-Holds config s i j (some (making id)) e h = h
end_client-Holds config s i j (some (serving id)) e h =
    update-Holds config (drop_server id s) i (without_client j)
      (λ l found. without_client-Conserved config l j (ap (λ o. client_of o j) (sym found) ∙ e))
      (drop_server-Holds config id s h)
end_client-Holds config s i j none e h = h

pub step-Holds :
    (config : Config) (s : TurnService) (a : Step) → Holds config s → Holds config (step s a)
unfolding step ice_config revoke close
step-Holds config s (accepts i is_accepted) h =
    update-Holds config s i (on_accept is_accepted)
      (λ l found. on_accept-Conserved config is_accepted l) h
step-Holds config s (makes i j) h = make_server-Holds config s i j (client s i j) h
step-Holds config s (serves i j) h = serve_client-Holds config s i j (client s i j) h
step-Holds config s (ends i j) h = end_client-Holds config s i j (client s i j) refl h
step-Holds config s udp_ends h =
    if_cases (Holds config) s.shutdown _ s (drop_server-Holds config 0 s h) h
step-Holds config s (stops i) h =
    if_cases (Holds config) s.shutdown _ s (update-Holds config s i stop (λ l found k. k) h) h
step-Holds config s (issues session now draw) h = record {
  same = h.same;
  conserved = h.conserved;
  tracked = h.tracked;
}
step-Holds config s (revokes session) h = record {
  same = h.same;
  conserved = h.conserved;
  tracked = h.tracked;
}
step-Holds config s closes h = record {
  same = h.same;
  conserved = h.conserved;
  tracked = h.tracked;
}

pub run-Holds :
    (config : Config) (s : TurnService) (steps : List Step)
    → Holds config s
    → Holds config (run s steps)
unfolding run
run-Holds config s [] h = h
run-Holds config s (a ∷ steps) h = run-Holds config (step s a) steps (step-Holds config s a h)

pub start-Holds : (config : Config) → Holds config (start config)
unfolding start
start-Holds config = list_server-Holds config 0 (new_server (bound config)) (
    new_server-Holds config (bound config) (record {
      same = refl;
      conserved =
          if_cases (All (Conserved config))
            (is_some config.turn.tls_cert && is_some config.turn.tls_key) _ _
            (omega arith, (omega arith, tt)) (omega arith, tt);
      tracked = λ id live. inl live;
    }))

-- At every moment of the service, whatever its clients, the network and the calls of the sessions do:
-- each stream listener has twice `max_connections` slots, free or held by one of its clients, and every
-- server that is still held stands in the list that `revoke` goes through or is about to be put there.
pub run-Tracked :
    (config : Config) (steps : List Step)
    → let s = run (start config) steps in All (Conserved config) s.listeners × Tracked s
run-Tracked config steps =
    let h : Holds config (run (start config) steps) =
      run-Holds config (start config) steps (start-Holds config) in
    (h.conserved, h.tracked)
