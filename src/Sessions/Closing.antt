-- ===== src/Sessions/Closing.antt =====
-- The end of the server in src/session.rs: `close` of the session manager, when nothing else runs.
use mumdota.Base.{
  ℕ, ◌≡◌, refl, ap, ◌∙◌, sym, Bool, true, false, ◌||◌, String, List, [], ◌∷◌, Option, none, some,
  arith, get_elem?, ◌==◌, nat_eq, string_eq, if◌then◌else◌, err, Bool-cases, Option-cases, Map,
  lookup, remove, keys, inl, inr, lookup-remove, ◌≢◌, ◌⊎◌, suc, length,
}
use mumdota.Sessions.{
  UserSession, SessionManager, shutting_down, shut, shutdown_user_session, take_out,
  disconnect_user, begin_connect, new_manager, Step, run_steps,
}
use mumdota.Sessions.Slots.{held, permits, shutdown-permits, permits-initial}
use mumdota.Sessions.Table.{shutdown-others, shutdown-same, get_elem?-changed}

unfoldable pub disconnect_all : SessionManager → List String → SessionManager
disconnect_all m [] = m
disconnect_all m (conn_id ∷ ids) = disconnect_all (disconnect_user m conn_id) ids

abbrev pub begin_shutdown : SessionManager → SessionManager
begin_shutdown m = record m { shutdown = true }

-- `close`, without the sockets of the WebRTC crate that are closed at its end.
unfoldable pub close : SessionManager → SessionManager
unfolding disconnect_all
close m = disconnect_all (begin_shutdown m) (keys m.sessions)

-- Whether a session holds a permit.
abbrev pub has_slot : Option UserSession → Bool
has_slot none = false
has_slot (some u) = u.slot

abbrev listed : String → List String → Bool
listed asked [] = false
listed asked (conn_id ∷ ids) = conn_id == asked || listed asked ids

listed-keys :
    {V : Type 0} (asked : String) (entries : Map String V) (v : V)
    → lookup asked entries ≡ some v
    → listed asked (keys entries) ≡ true
unfolding lookup
listed-keys asked [] v e = cc
listed-keys asked ((first, value) ∷ entries) v e = ground (arith, listed-keys asked entries v)

shutdown-releases :
    (m : SessionManager) (ref : ℕ)
    → has_slot (get_elem? (shutdown_user_session m ref).heap ref) ≡ false
unfolding shutdown_user_session
shutdown-releases m ref = elim (Option-cases (get_elem? m.heap ref)) [
  | inl missing ↦ rw (shutdown_user_session, missing) (ap has_slot missing)
  | inr (u, found) ↦ elim (Bool-cases u.slot) [
    | inl held ↦
        rw (shutdown_user_session, found, held)
          (ap has_slot (get_elem?-changed m.heap ref u (shut u) found))
    | inr free ↦ rw (shutdown_user_session, found, free) (ap has_slot found ∙ free)
  ]
]

shutdown-keeps_released :
    (m : SessionManager) (ref other : ℕ)
    → has_slot (get_elem? m.heap other) ≡ false
    → has_slot (get_elem? (shutdown_user_session m ref).heap other) ≡ false
shutdown-keeps_released m ref other free = elim (Bool-cases (ref == other)) [
  | inl same ↦
      let e = (nat_eq.same_iff ref other).0 same in
      ap (λ r. has_slot (get_elem? (shutdown_user_session m ref).heap r)) (sym e)
      ∙ shutdown-releases m ref
  | inr apart ↦
      let ne : ref ≢ other = λ e. ground (arith, nat_eq.same_iff ref other) in
      ap has_slot (shutdown-others m ref other ne) ∙ free
]

disconnect_user-sessions :
    (m : SessionManager) (conn_id : String)
    → (disconnect_user m conn_id).sessions ≡ remove conn_id m.sessions
unfolding disconnect_user take_out
disconnect_user-sessions m conn_id = elim (Option-cases (lookup conn_id m.sessions)) [
  | inl absent ↦ rw (disconnect_user, absent) refl
  | inr (ref, there) ↦ rw (disconnect_user, there) (shutdown-same (take_out m conn_id) ref).0
]

disconnect_user-keeps_released :
    (m : SessionManager) (conn_id : String) (ref : ℕ)
    → has_slot (get_elem? m.heap ref) ≡ false
    → has_slot (get_elem? (disconnect_user m conn_id).heap ref) ≡ false
unfolding disconnect_user take_out
disconnect_user-keeps_released m conn_id ref free =
    elim (Option-cases (lookup conn_id m.sessions)) [
      | inl absent ↦ rw (disconnect_user, absent) free
      | inr (own, there) ↦
          rw (disconnect_user, there) (shutdown-keeps_released (take_out m conn_id) own ref free)
    ]

pub disconnect_user-releases :
    (m : SessionManager) (conn_id : String) (ref : ℕ)
    → lookup conn_id m.sessions ≡ some ref
    → has_slot (get_elem? (disconnect_user m conn_id).heap ref) ≡ false
unfolding disconnect_user take_out
disconnect_user-releases m conn_id ref there =
    rw (disconnect_user, there) (shutdown-releases (take_out m conn_id) ref)

disconnect_all-keeps_released :
    (m : SessionManager) (ids : List String) (ref : ℕ)
    → has_slot (get_elem? m.heap ref) ≡ false
    → has_slot (get_elem? (disconnect_all m ids).heap ref) ≡ false
unfolding disconnect_all
disconnect_all-keeps_released m [] ref free = free
disconnect_all-keeps_released m (conn_id ∷ ids) ref free =
    disconnect_all-keeps_released (disconnect_user m conn_id) ids ref
      (disconnect_user-keeps_released m conn_id ref free)

disconnect_all-releases :
    (m : SessionManager) (ids : List String) (conn_id : String) (ref : ℕ)
    → listed conn_id ids ≡ true
    → lookup conn_id m.sessions ≡ some ref
    → has_slot (get_elem? (disconnect_all m ids).heap ref) ≡ false
unfolding disconnect_all
disconnect_all-releases m [] conn_id ref here there = cc
disconnect_all-releases m (first ∷ ids) conn_id ref here there =
    elim (Bool-cases (first == conn_id)) [
      | inl same ↦
          let e = (string_eq.same_iff first conn_id).0 same in
          disconnect_all-keeps_released (disconnect_user m first) ids ref
            (disconnect_user-releases m first ref (ap (λ k. lookup k m.sessions) e ∙ there))
      | inr apart ↦
          let behind : listed conn_id ids ≡ true = ground arith in
          disconnect_all-releases (disconnect_user m first) ids conn_id ref behind (
            ap (lookup conn_id) (disconnect_user-sessions m first)
            ∙ lookup-remove first conn_id m.sessions
            ∙ ap (λ b. if b then none else lookup conn_id m.sessions) apart
            ∙ there)
    ]

disconnect_all-absent :
    (m : SessionManager) (ids : List String) (asked : String)
    → (lookup asked m.sessions ≡ none) ⊎ (listed asked ids ≡ true)
    → lookup asked (disconnect_all m ids).sessions ≡ none
unfolding disconnect_all
disconnect_all-absent m [] asked (inl absent) = absent
disconnect_all-absent m [] asked (inr here) = cc
disconnect_all-absent m (first ∷ ids) asked h =
    let left =
      ap (lookup asked) (disconnect_user-sessions m first) ∙ lookup-remove first asked m.sessions in
    disconnect_all-absent (disconnect_user m first) ids asked (ground arith)

-- What closing a session leaves as it is, wherever its permit is.
abbrev Same : SessionManager → SessionManager → Type 0
Same m m' = (m'.shutdown ≡ m.shutdown) × (m'.in_flight ≡ m.in_flight) × (permits m' ≡ permits m)

shutdown-Same : (m : SessionManager) (ref : ℕ) → Same m (shutdown_user_session m ref)
unfolding shutdown_user_session
shutdown-Same m ref =
    let conserved = shutdown-permits m ref in
    elim (Option-cases (get_elem? m.heap ref)) [
      | inl missing ↦ ground arith
      | inr (u, found) ↦ ground arith
    ]

disconnect_user-Same : (m : SessionManager) (conn_id : String) → Same m (disconnect_user m conn_id)
unfolding disconnect_user take_out
disconnect_user-Same m conn_id = elim (Option-cases (lookup conn_id m.sessions)) [
  | inl absent ↦ rw (disconnect_user, absent) (refl, refl, refl)
  | inr (ref, there) ↦ rw (disconnect_user, there) (shutdown-Same (take_out m conn_id) ref)
]

disconnect_all-Same : (m : SessionManager) (ids : List String) → Same m (disconnect_all m ids)
unfolding disconnect_all
disconnect_all-Same m [] = (refl, refl, refl)
disconnect_all-Same m (first ∷ ids) =
    let (d, f, p) = disconnect_user-Same m first in
    let (d', f', p') = disconnect_all-Same (disconnect_user m first) ids in (d' ∙ d, f' ∙ f, p' ∙ p)

held-none : (us : List UserSession) → ((i : ℕ) → has_slot (get_elem? us i) ≡ false) → held us ≡ 0
unfolding held
held-none [] free = refl
held-none (u ∷ us) free =
    let first = free 0 in let rest = held-none us (λ i. free (suc i)) in ground arith

close-releases :
    (m : SessionManager) (owner : ℕ → String)
    → ((ref : ℕ)
        → has_slot (get_elem? m.heap ref) ≡ true
        → lookup (owner ref) m.sessions ≡ some ref)
    → (ref : ℕ) → has_slot (get_elem? (close m).heap ref) ≡ false
unfolding close
close-releases m owner in_table ref = elim (Bool-cases (has_slot (get_elem? m.heap ref))) [
  | inr free ↦ disconnect_all-keeps_released (begin_shutdown m) (keys m.sessions) ref free
  | inl held_still ↦
      let there = in_table ref held_still in
      disconnect_all-releases (begin_shutdown m) (keys m.sessions) (owner ref) ref
        (listed-keys (owner ref) m.sessions ref there) there
]

close-absent : (m : SessionManager) (asked : String) → lookup asked (close m).sessions ≡ none
unfolding close
close-absent m asked =
    disconnect_all-absent (begin_shutdown m) (keys m.sessions) asked
      (elim (Option-cases (lookup asked m.sessions)) [
        | inl absent ↦ inl absent
        | inr (ref, there) ↦ inr (listed-keys asked m.sessions ref there)
      ])

-- In every state that steps lead to from a fresh manager: if no connection is being set up, and each
-- session that holds a permit stands in the table, then once `close` is through, nothing else having
-- run meanwhile, all permits are free, the table is empty, and every further connection is refused.
pub close-all_free :
    (max_connections : ℕ) (steps : List Step) (owner : ℕ → String)
    → (run_steps (new_manager max_connections) steps).in_flight ≡ []
    → ((ref : ℕ)
        → has_slot (get_elem? (run_steps (new_manager max_connections) steps).heap ref) ≡ true
        → lookup (owner ref) (run_steps (new_manager max_connections) steps).sessions ≡ some ref)
    → let m = close (run_steps (new_manager max_connections) steps) in
      (m.slots ≡ max_connections)
      × ((conn_id : String) → lookup conn_id m.sessions ≡ none)
      × ((conn_id username : String) (ws_tx : ℕ)
          → begin_connect m conn_id username ws_tx ≡ (err shutting_down, m))
unfolding close begin_connect
close-all_free max_connections steps owner quiet in_table =
    let m = run_steps (new_manager max_connections) steps in
    let (down, idle, conserved) = disconnect_all-Same (begin_shutdown m) (keys m.sessions) in
    let total = permits-initial max_connections steps in
    let none_held = held-none (close m).heap (close-releases m owner in_table) in
    let none_idle : length (close m).in_flight ≡ 0 = ap length (idle ∙ quiet) in
    (omega arith, close-absent m, λ conn_id username ws_tx. rw (begin_connect, down) refl)
