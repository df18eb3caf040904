-- ===== src/Sessions/Generations.antt =====
-- Connections that end and come back in src/session.rs: what ends one session does not touch another
-- one, be it another connection's or the same connection's next.
use mumdota.Base.{
  ℕ, suc, ◌≢◌, ◌≡◌, refl, ap, ◌∙◌, sym, true, false, String, List, ◌∷◌, Option, none, some, arith,
  get_elem?, ◌==◌, nat_eq, string_eq, if◌then◌else◌, Bool-cases, Option-cases, Map, lookup, remove,
  inl, inr, lookup-remove, beq-ne, beq_self,
}
use mumdota.Messages.{ServerMessage}
use mumdota.Sessions.{
  UserSession, SessionManager, new_manager, shut, shutdown_user_session, take_out, unlink, Step,
  run_steps, disconnect_user, finish_session, send_error,
}
use mumdota.Sessions.Table.{
  run_steps-IsTable, new_manager-IsTable, shutdown-others, shutdown-same, get_elem?-changed,
}

-- In every state that steps lead to from a fresh manager, closing one connection leaves every other
-- connection in the table with the session it had, and that session as it was.
pub disconnect_user-others :
    (max_connections : ℕ) (steps : List Step) (conn_id other : String) (ref : ℕ)
    → conn_id ≢ other
    → lookup other (run_steps (new_manager max_connections) steps).sessions ≡ some ref
    → let m = run_steps (new_manager max_connections) steps in
      let m' = disconnect_user m conn_id in
      (lookup other m'.sessions ≡ some ref) × (get_elem? m'.heap ref ≡ get_elem? m.heap ref)
unfolding disconnect_user take_out
disconnect_user-others max_connections steps conn_id other ref ne there =
    let m = run_steps (new_manager max_connections) steps in
    let t =
      run_steps-IsTable (new_manager max_connections) steps (new_manager-IsTable max_connections) in
    let kept : lookup other (remove conn_id m.sessions) ≡ some ref =
      lookup-remove conn_id other m.sessions
      ∙ ap (λ b. if b then none else lookup other m.sessions) (beq-ne conn_id other ne)
      ∙ there in
    elim (Option-cases (lookup conn_id m.sessions)) [
      | inl absent ↦ rw (disconnect_user, absent) (kept, refl)
      | inr (own, here) ↦
          let apart : own ≢ ref = λ e. ne (t.distinct conn_id other ref (here ∙ ap some e) there) in
          let (same, _, _) = shutdown-same (take_out m conn_id) own in
          rw (disconnect_user, here)
            (
              ap (λ table. lookup other table) same ∙ kept,
              shutdown-others (take_out m conn_id) own ref apart,
            )
    ]

unlink-stale :
    (m : SessionManager) (conn_id : String) (ref : ℕ) (terminal_error : Option ServerMessage)
    → lookup conn_id m.sessions ≢ some ref
    → unlink m conn_id ref terminal_error ≡ (false, m)
unfolding unlink
unlink-stale m conn_id ref terminal_error stale = elim (Option-cases (lookup conn_id m.sessions)) [
  | inl absent ↦ ground arith
  | inr (current, here) ↦
      let apart : current ≢ ref = λ e. stale (here ∙ ap some e) in
      let differs = beq-ne current ref apart in rw (unlink, here, differs) refl
]

-- `finish_session` of a session that the table no longer names under its connection, because the
-- connection was closed or has come back: it leaves the table, every other session and what was sent
-- as they are, and it says so.
pub finish_session-stale :
    (m : SessionManager) (conn_id : String) (ref : ℕ) (terminal_error : Option ServerMessage)
    → lookup conn_id m.sessions ≢ some ref
    → let (removed, m') = finish_session m conn_id ref terminal_error in
      (removed ≡ false)
      × (m'.sessions ≡ m.sessions)
      × (m'.sent ≡ m.sent)
      × ((other : ℕ) → ref ≢ other → get_elem? m'.heap other ≡ get_elem? m.heap other)
unfolding finish_session unlink
finish_session-stale m conn_id ref terminal_error stale =
    let (sessions, sent, _) = shutdown-same m ref in
    let stale' : lookup conn_id (shutdown_user_session m ref).sessions ≢ some ref =
      λ e. stale (ap (λ table. lookup conn_id table) (sym sessions) ∙ e) in
    rw (unlink-stale (shutdown_user_session m ref) conn_id ref terminal_error stale')
      (refl, sessions, sent, shutdown-others m ref)

unlink-current :
    (m : SessionManager) (conn_id : String) (ref : ℕ) (terminal_error : ServerMessage)
    (v : UserSession)
    → lookup conn_id m.sessions ≡ some ref
    → get_elem? m.heap ref ≡ some v
    → unlink m conn_id ref (some terminal_error) ≡ (
      true,
      record m { sessions = remove conn_id m.sessions; sent = (v.ws_tx, terminal_error) ∷ m.sent },
    )
unfolding unlink
unlink-current m conn_id ref terminal_error v here found =
    let sent : send_error m ref (some terminal_error) ≡ (v.ws_tx, terminal_error) ∷ m.sent =
      ground arith in
    rw (unlink, here, beq_self ref)
      (ap (λ l. (true, record m { sessions = remove conn_id m.sessions; sent = l })) sent)

shutdown-found :
    (m : SessionManager) (ref : ℕ) (u : UserSession)
    → get_elem? m.heap ref ≡ some u
    → ((v : UserSession) × (get_elem? (shutdown_user_session m ref).heap ref ≡ some v)
        × (v.ws_tx ≡ u.ws_tx))
      × ((shutdown_user_session m ref).slots ≡ (if u.slot then suc m.slots else m.slots))
unfolding shutdown_user_session
shutdown-found m ref u found = elim (Bool-cases u.slot) [
  | inl holding ↦
      rw (shutdown_user_session, found, holding)
        ((shut u, get_elem?-changed m.heap ref u (shut u) found, refl), refl)
  | inr closed ↦ rw (shutdown_user_session, found, closed) ((u, found, refl), refl)
]

-- `finish_session` of the session that the table names: its connection is gone from the table, all
-- others are as they were, its permit is free if it was held, and its terminal error, if there is
-- one, is sent to its WebSocket once.
pub finish_session-current :
    (m : SessionManager) (conn_id : String) (ref : ℕ) (terminal_error : ServerMessage)
    (u : UserSession)
    → lookup conn_id m.sessions ≡ some ref
    → get_elem? m.heap ref ≡ some u
    → let (removed, m') = finish_session m conn_id ref (some terminal_error) in
      (removed ≡ true)
      × (m'.sent ≡ (u.ws_tx, terminal_error) ∷ m.sent)
      × (m'.slots ≡ (if u.slot then suc m.slots else m.slots))
      × ((other : String)
          → lookup other m'.sessions ≡ (if conn_id == other then none else lookup other m.sessions))
unfolding finish_session unlink
finish_session-current m conn_id ref terminal_error u here found =
    let after = shutdown_user_session m ref in
    let (sessions, sent, _) = shutdown-same m ref in
    let ((v, still, same_tx), slots) = shutdown-found m ref u found in
    let here' : lookup conn_id after.sessions ≡ some ref =
      ap (λ table. lookup conn_id table) sessions ∙ here in
    rw (unlink-current after conn_id ref terminal_error v here' still) (
      refl,
      ap (λ tx. (tx, terminal_error) ∷ after.sent) same_tx
          ∙ ap (λ l. (u.ws_tx, terminal_error) ∷ l) sent,
      slots,
      λ other.
          lookup-remove conn_id other after.sessions
          ∙ ap (λ (table : Map String ℕ). if conn_id == other then none else lookup other table)
              sessions,
    )
