-- ===== src/Sessions/Table.antt =====
-- The table of src/session.rs over any order of the steps: it names sessions that exist, each under
-- one connection only.
use mumdota.Base.{
  set_elem, remove_elem, ℕ, suc, zero, ◌≤◌, ◌<◌, ◌≢◌, ◌≡◌, refl, ap, Bool, true, String, List, [],
  ◌∷◌, ◌++◌, Option, some, arith, length, length-append, length-set_elem, get_elem?, nat_eq,
  string_eq, Bool-cases, Option-cases, lookup, insert, contains_key, inl, inr, lookup-insert,
  lookup-remove,
}
use mumdota.Messages.{ServerMessage}
use mumdota.Control.{MumbleCommand}
use mumdota.Sessions.{
  UserSession, Connecting, SessionManager, new_manager, new_session, shut, shutdown_user_session,
  begin_connect, fail_connect, finish_connect, command, take_out, start_task, attach_voice, unlink,
  Step, begins, fails, finishes, commands, takes_out, shuts_down, starts_task, attaches_voice,
  unlinks, begins_shutdown, step, run_steps,
}

pub get_elem?-set_elem :
    (us : List UserSession) (i j : ℕ) (u : UserSession)
    → i ≢ j
    → get_elem? (set_elem us i u) j ≡ get_elem? us j
unfolding set_elem
get_elem?-set_elem [] i j u ne = refl
get_elem?-set_elem (x ∷ us) zero zero u ne = absurd (ne refl)
get_elem?-set_elem (x ∷ us) zero (suc j) u ne = refl
get_elem?-set_elem (x ∷ us) (suc i) zero u ne = refl
get_elem?-set_elem (x ∷ us) (suc i) (suc j) u ne = get_elem?-set_elem us i j u (λ e. ne (ap suc e))

pub get_elem?-changed :
    (us : List UserSession) (i : ℕ) (u v : UserSession)
    → get_elem? us i ≡ some u
    → get_elem? (set_elem us i v) i ≡ some v
unfolding set_elem
get_elem?-changed [] i u v e = cc
get_elem?-changed (x ∷ us) zero u v e = refl
get_elem?-changed (x ∷ us) (suc i) u v e = get_elem?-changed us i u v e

pub shutdown-others :
    (m : SessionManager) (ref other : ℕ)
    → ref ≢ other
    → get_elem? (shutdown_user_session m ref).heap other ≡ get_elem? m.heap other
unfolding shutdown_user_session
shutdown-others m ref other ne = elim (Option-cases (get_elem? m.heap ref)) [
  | inl missing ↦ ground arith
  | inr (u, found) ↦ ground (arith, get_elem?-set_elem m.heap ref other (shut u) ne)
]

-- The table names sessions that exist, and no session twice.
pub record IsTable (m : SessionManager) : Type 0 where
  pub exists :
      (conn_id : String) (ref : ℕ) → lookup conn_id m.sessions ≡ some ref → ref < length m.heap
  pub distinct :
      (a b : String) (ref : ℕ)
      → lookup a m.sessions ≡ some ref
      → lookup b m.sessions ≡ some ref
      → a ≡ b

-- The table is kept or loses a connection, and no session goes away.
record Shrinks (m m' : SessionManager) : Type 0 where
  fewer :
      (conn_id : String) (ref : ℕ)
      → lookup conn_id m'.sessions ≡ some ref
      → lookup conn_id m.sessions ≡ some ref
  longer : length m.heap ≤ length m'.heap

Shrinks-IsTable : {m m' : SessionManager} → Shrinks m m' → IsTable m → IsTable m'
Shrinks-IsTable s t = record {
  exists = λ conn_id ref e.
      let there = t.exists conn_id ref (s.fewer conn_id ref e) in
      let longer = s.longer in omega arith;
  distinct = λ a b ref ea eb. t.distinct a b ref (s.fewer a ref ea) (s.fewer b ref eb);
}

same_table :
    (m m' : SessionManager)
    → m'.sessions ≡ m.sessions
    → length m.heap ≤ length m'.heap
    → Shrinks m m'
same_table m m' same longer = record { fewer = λ conn_id ref e. ground arith; longer = longer }

pub shutdown-same :
    (m : SessionManager) (ref : ℕ)
    → ((shutdown_user_session m ref).sessions ≡ m.sessions)
      × ((shutdown_user_session m ref).sent ≡ m.sent)
      × (length (shutdown_user_session m ref).heap ≡ length m.heap)
unfolding shutdown_user_session
shutdown-same m ref = elim (Option-cases (get_elem? m.heap ref)) [
  | inl missing ↦ ground arith
  | inr (u, found) ↦ ground (arith, length-set_elem m.heap ref (shut u))
]

shutdown-Shrinks : (m : SessionManager) (ref : ℕ) → Shrinks m (shutdown_user_session m ref)
shutdown-Shrinks m ref =
    let (sessions, _, long) = shutdown-same m ref in
    same_table m (shutdown_user_session m ref) sessions (omega arith)

take_out-Shrinks : (m : SessionManager) (conn_id : String) → Shrinks m (take_out m conn_id)
unfolding take_out
take_out-Shrinks m conn_id = record {
  fewer = λ other ref e. ground (arith, lookup-remove conn_id other m.sessions);
  longer = omega arith;
}

unlink-Shrinks :
    (m : SessionManager) (conn_id : String) (ref : ℕ) (terminal_error : Option ServerMessage)
    → Shrinks m (unlink m conn_id ref terminal_error).1
unfolding unlink
unlink-Shrinks m conn_id ref terminal_error = record {
  fewer = λ other r e. ground (arith, lookup-remove conn_id other m.sessions);
  longer = ground arith;
}

command-Shrinks :
    (m : SessionManager) (conn_id : String) (c : MumbleCommand) (is_open : Bool)
    → Shrinks m (command m conn_id c is_open).1
unfolding command
command-Shrinks m conn_id c is_open = elim (Option-cases (lookup conn_id m.sessions)) [
  | inl absent ↦ same_table m (command m conn_id c is_open).1 (ground arith) (ground arith)
  | inr (ref, there) ↦ elim (Option-cases (get_elem? m.heap ref)) [
    | inl missing ↦ same_table m (command m conn_id c is_open).1 (ground arith) (ground arith)
    | inr (u, found) ↦
        let v : UserSession = record u { commands = c ∷ u.commands } in
        let long = length-set_elem m.heap ref v in
        same_table m (command m conn_id c is_open).1 (ground arith) (ground arith)
  ]
]

start_task-Shrinks : (m : SessionManager) (ref : ℕ) → Shrinks m (start_task m ref)
unfolding start_task
start_task-Shrinks m ref = elim (Option-cases (get_elem? m.heap ref)) [
  | inl missing ↦ same_table m (start_task m ref) (ground arith) (ground arith)
  | inr (u, found) ↦
      let long = length-set_elem m.heap ref (record u { has_task = true }) in
      same_table m (start_task m ref) (ground arith) (ground arith)
]

attach_voice-Shrinks : (m : SessionManager) (ref : ℕ) → Shrinks m (attach_voice m ref)
unfolding attach_voice
attach_voice-Shrinks m ref = elim (Option-cases (get_elem? m.heap ref)) [
  | inl missing ↦ same_table m (attach_voice m ref) (ground arith) (ground arith)
  | inr (u, found) ↦
      let long = length-set_elem m.heap ref (record u { has_voice = true; has_bridge = true }) in
      same_table m (attach_voice m ref) (ground arith) (ground arith)
]

-- A new connection gets a place of the heap that no entry of the table names.
insert-IsTable :
    (m : SessionManager) (conn_id : String) (u : UserSession) (in_flight : List Connecting)
    → IsTable m
    → IsTable (record m {
      sessions = insert conn_id (length m.heap) m.sessions;
      heap = m.heap ++ u ∷ [];
      in_flight = in_flight;
    })
insert-IsTable m conn_id u in_flight t = record {
  exists = λ other ref e.
      let there = t.exists other ref in
      ground (
        arith,
        lookup-insert conn_id other (length m.heap) m.sessions,
        length-append m.heap (u ∷ []),
      );
  distinct = λ a b ref ea eb.
      let there_a = t.exists a ref in
      let there_b = t.exists b ref in
      let same = t.distinct a b ref in
      ground (
        arith,
        string_eq.same_iff conn_id a,
        string_eq.same_iff conn_id b,
        lookup-insert conn_id a (length m.heap) m.sessions,
        lookup-insert conn_id b (length m.heap) m.sessions,
      );
}

finish_connect-IsTable : (m : SessionManager) (n : ℕ) → IsTable m → IsTable (finish_connect m n).1
unfolding finish_connect
finish_connect-IsTable m n t = elim (Option-cases (get_elem? m.in_flight n)) [
  | inl missing ↦ rw (finish_connect, missing) t
  | inr (c, found) ↦
      let ref = length m.heap in
      let made : SessionManager = record m {
        heap = m.heap ++ new_session c ∷ [];
        in_flight = remove_elem m.in_flight n;
      } in
      let (sessions, _, long) = shutdown-same made ref in
      let grown = length-append m.heap (new_session c ∷ []) in
      elim (Bool-cases (contains_key c.conn_id m.sessions)) [
        | inl there ↦
            rw (finish_connect, found, there)
              (Shrinks-IsTable
                (same_table m (shutdown_user_session made ref) sessions (omega arith)) t)
        | inr absent ↦
            rw (finish_connect, found, absent)
              (insert-IsTable m c.conn_id (new_session c) (remove_elem m.in_flight n) t)
      ]
]

step-IsTable : (m : SessionManager) (a : Step) → IsTable m → IsTable (step m a)
unfolding step begin_connect fail_connect
step-IsTable m (begins conn_id username ws_tx) t =
    let m' = (begin_connect m conn_id username ws_tx).1 in
    Shrinks-IsTable (same_table m m' (ground arith) (ground arith)) t
step-IsTable m (fails n) t =
    Shrinks-IsTable (same_table m (fail_connect m n).1 (ground arith) (ground arith)) t
step-IsTable m (finishes n) t = finish_connect-IsTable m n t
step-IsTable m (commands conn_id c is_open) t =
    Shrinks-IsTable (command-Shrinks m conn_id c is_open) t
step-IsTable m (takes_out conn_id) t = Shrinks-IsTable (take_out-Shrinks m conn_id) t
step-IsTable m (shuts_down ref) t = Shrinks-IsTable (shutdown-Shrinks m ref) t
step-IsTable m (starts_task ref) t = Shrinks-IsTable (start_task-Shrinks m ref) t
step-IsTable m (attaches_voice ref) t = Shrinks-IsTable (attach_voice-Shrinks m ref) t
step-IsTable m (unlinks conn_id ref terminal_error) t =
    Shrinks-IsTable (unlink-Shrinks m conn_id ref terminal_error) t
step-IsTable m begins_shutdown t = record { exists = t.exists; distinct = t.distinct }

pub run_steps-IsTable :
    (m : SessionManager) (steps : List Step) → IsTable m → IsTable (run_steps m steps)
unfolding run_steps
run_steps-IsTable m [] t = t
run_steps-IsTable m (a ∷ steps) t = run_steps-IsTable (step m a) steps (step-IsTable m a t)

pub new_manager-IsTable : (max_connections : ℕ) → IsTable (new_manager max_connections)
unfolding lookup
new_manager-IsTable max_connections = record {
  exists = λ conn_id ref e. cc;
  distinct = λ a b ref ea eb. cc;
}
