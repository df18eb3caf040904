-- ===== src/Sessions/Slots.antt =====
-- The permits of src/session.rs: none is lost and none is given twice, whatever the order of the
-- steps, and a session that is closed holds nothing any more.
use mumdota.Base.{
  length-remove_elem, set_elem, remove_elem, ℕ, suc, zero, ◌+◌, ◌≡◌, not, All, ap, refl, ◌∙◌, Bool,
  true, String, List, [], ◌∷◌, ◌++◌, some, arith, length, get_elem?, nat_eq, string_eq,
  if◌then◌else◌, Option-cases, lookup, inl, inr,
}
use mumdota.Sessions.Each.{run_steps-All}
use mumdota.Control.{MumbleCommand}
use mumdota.Sessions.{
  UserSession, SessionManager, new_manager, new_session, shut, shutdown_user_session, begin_connect,
  fail_connect, finish_connect, command, take_out, start_task, attach_voice, unlink, Step, begins,
  fails, finishes, commands, takes_out, shuts_down, starts_task, attaches_voice, unlinks,
  begins_shutdown, step, run_steps,
}

-- How many sessions hold a permit.
abbrev pub holds : UserSession → ℕ
holds u = if u.slot then 1 else 0

unfoldable pub held : List UserSession → ℕ
held [] = 0
held (u ∷ us) = holds u + held us

held-append : (us vs : List UserSession) → held (us ++ vs) ≡ held us + held vs
unfolding held
held-append [] vs = omega arith
held-append (u ∷ us) vs = ground (arith, held-append us vs)

held-set_elem :
    (us : List UserSession) (i : ℕ) (u v : UserSession)
    → get_elem? us i ≡ some u
    → held (set_elem us i v) + holds u ≡ held us + holds v
unfolding held set_elem
held-set_elem [] i u v e = cc
held-set_elem (x ∷ us) zero u v e = ground arith
held-set_elem (x ∷ us) (suc i) u v e = ground (arith, held-set_elem us i u v e)

-- The permits there are: free, held by a call of `connect_user`, or held by a session.
abbrev pub permits : SessionManager → ℕ
permits m = m.slots + length m.in_flight + held m.heap

replace-permits :
    (m : SessionManager) (ref : ℕ) (u v : UserSession)
    → get_elem? m.heap ref ≡ some u
    → holds v ≡ holds u
    → permits (record m { heap = set_elem m.heap ref v }) ≡ permits m
replace-permits m ref u v found same = ground (arith, held-set_elem m.heap ref u v found)

pub shutdown-permits :
    (m : SessionManager) (ref : ℕ) → permits (shutdown_user_session m ref) ≡ permits m
unfolding shutdown_user_session
shutdown-permits m ref = elim (Option-cases (get_elem? m.heap ref)) [
  | inl missing ↦ ground arith
  | inr (u, found) ↦ ground (arith, held-set_elem m.heap ref u (shut u) found)
]

pub begin_connect-permits :
    (m : SessionManager) (conn_id username : String) (ws_tx : ℕ)
    → permits (begin_connect m conn_id username ws_tx).1 ≡ permits m
unfolding begin_connect
begin_connect-permits m conn_id username ws_tx = ground arith

pub fail_connect-permits : (m : SessionManager) (n : ℕ) → permits (fail_connect m n).1 ≡ permits m
unfolding fail_connect
fail_connect-permits m n = elim (Option-cases (get_elem? m.in_flight n)) [
  | inl missing ↦ ground arith
  | inr (c, found) ↦ ground (arith, length-remove_elem m.in_flight n found)
]

pub finish_connect-permits :
    (m : SessionManager) (n : ℕ) → permits (finish_connect m n).1 ≡ permits m
unfolding finish_connect held
finish_connect-permits m n = elim (Option-cases (get_elem? m.in_flight n)) [
  | inl missing ↦ ground arith
  | inr (c, found) ↦
      let made : SessionManager = record m {
        heap = m.heap ++ new_session c ∷ [];
        in_flight = remove_elem m.in_flight n;
      } in
      ground (
        arith,
        length-remove_elem m.in_flight n found,
        held-append m.heap (new_session c ∷ []),
        shutdown-permits made (length m.heap),
      )
]

pub command-permits :
    (m : SessionManager) (conn_id : String) (c : MumbleCommand) (is_open : Bool)
    → permits (command m conn_id c is_open).1 ≡ permits m
unfolding command
command-permits m conn_id c is_open = elim (Option-cases (lookup conn_id m.sessions)) [
  | inl absent ↦ ground arith
  | inr (ref, there) ↦ elim (Option-cases (get_elem? m.heap ref)) [
    | inl missing ↦ ground arith
    | inr (u, found) ↦
        ground (arith, replace-permits m ref u (record u { commands = c ∷ u.commands }) found refl)
  ]
]

start_task-permits : (m : SessionManager) (ref : ℕ) → permits (start_task m ref) ≡ permits m
unfolding start_task
start_task-permits m ref = elim (Option-cases (get_elem? m.heap ref)) [
  | inl missing ↦ ground arith
  | inr (u, found) ↦
      ground (arith, replace-permits m ref u (record u { has_task = true }) found refl)
]

attach_voice-permits : (m : SessionManager) (ref : ℕ) → permits (attach_voice m ref) ≡ permits m
unfolding attach_voice
attach_voice-permits m ref = elim (Option-cases (get_elem? m.heap ref)) [
  | inl missing ↦ ground arith
  | inr (u, found) ↦
      let v : UserSession = record u { has_voice = true; has_bridge = true } in
      ground (arith, replace-permits m ref u v found refl)
]

step-permits : (m : SessionManager) (a : Step) → permits (step m a) ≡ permits m
unfolding step take_out unlink
step-permits m (begins conn_id username ws_tx) = begin_connect-permits m conn_id username ws_tx
step-permits m (fails n) = fail_connect-permits m n
step-permits m (finishes n) = finish_connect-permits m n
step-permits m (commands conn_id c is_open) = command-permits m conn_id c is_open
step-permits m (takes_out conn_id) = refl
step-permits m (shuts_down ref) = shutdown-permits m ref
step-permits m (starts_task ref) = start_task-permits m ref
step-permits m (attaches_voice ref) = attach_voice-permits m ref
step-permits m (unlinks conn_id ref terminal_error) = ground arith
step-permits m begins_shutdown = refl

pub run_steps-permits :
    (m : SessionManager) (steps : List Step) → permits (run_steps m steps) ≡ permits m
unfolding run_steps
run_steps-permits m [] = refl
run_steps-permits m (a ∷ steps) = run_steps-permits (step m a) steps ∙ step-permits m a

pub permits-initial :
    (max_connections : ℕ) (steps : List Step)
    → permits (run_steps (new_manager max_connections) steps) ≡ max_connections
unfolding held
permits-initial max_connections steps =
    run_steps-permits (new_manager max_connections) steps ∙ omega arith

-- How many sessions are not closed.
unfoldable pub running : List UserSession → ℕ
running [] = 0
running (u ∷ us) = (if u.closed then 0 else 1) + running us

-- A session holds its permit until it is closed.
abbrev pub IsHolding : UserSession → Type 0
IsHolding u = u.slot ≡ not u.closed

running-eq-held : (us : List UserSession) → All IsHolding us → running us ≡ held us
unfolding running held
running-eq-held [] h = refl
running-eq-held (u ∷ us) h = ground (arith, running-eq-held us)

pub run_steps-IsHolding :
    (m : SessionManager) (steps : List Step)
    → All IsHolding m.heap
    → All IsHolding (run_steps m steps).heap
run_steps-IsHolding =
    run_steps-All IsHolding (λ c. refl) (λ u h. refl) (λ u c h. h) (λ u unclosed h. h)
      (λ u task h. h)

-- In whatever order connections are begun, fail, are finished, are closed and end, each permit of a
-- fresh manager is at every moment in exactly one place: free, held by a connection that is being
-- set up, or held by one session that is not closed. So a session that is closed has given its permit
-- back, and each one that is not closed holds one.
pub permits_conserved :
    (max_connections : ℕ) (steps : List Step)
    → let m = run_steps (new_manager max_connections) steps in
      (m.slots + length m.in_flight + running m.heap ≡ max_connections) × All IsHolding m.heap
permits_conserved max_connections steps =
    let m = run_steps (new_manager max_connections) steps in
    let holding = run_steps-IsHolding (new_manager max_connections) steps tt in
    (
      ap (λ n. m.slots + length m.in_flight + n) (running-eq-held m.heap holding)
          ∙ permits-initial max_connections steps,
      holding,
    )
