-- ===== src/Sessions/Each.antt =====
-- What every session of src/session.rs has, in whatever order the steps come, once the changes of one
-- session keep it.
use mumdota.Base.{
  set_elem, remove_elem, ℕ, ◌≡◌, Bool, true, false, String, List, [], ◌∷◌, ◌++◌, none, some, arith,
  length, get_elem?, nat_eq, string_eq, Bool-cases, Option-cases, All, All-append, All-set_elem,
  All-get, lookup, inl, inr,
}
use mumdota.Control.{MumbleCommand}
use mumdota.Sessions.{
  UserSession, Connecting, SessionManager, new_session, shut, shutdown_user_session, begin_connect,
  fail_connect, finish_connect, command, take_out, start_task, attach_voice, unlink, Step, begins,
  fails, finishes, commands, takes_out, shuts_down, starts_task, attaches_voice, unlinks,
  begins_shutdown, step, run_steps,
}

module _ (P : UserSession → Type 0) (at_new : (c : Connecting) → P (new_session c))
    (at_shut : (u : UserSession) → P u → P (shut u))
    (at_command : (u : UserSession) (c : MumbleCommand)
      → P u
      → P (record u { commands = c ∷ u.commands }))
    (at_task : (u : UserSession) → u.closed ≡ false → P u → P (record u { has_task = true }))
    (at_voice : (u : UserSession)
      → u.has_task ≡ true
      → P u
      → P (record u { has_voice = true; has_bridge = true })) where
  -- A change of one session keeps the others as they are.
  replace-All :
      (m : SessionManager) (ref : ℕ) (f : UserSession → UserSession)
      → All P m.heap
      → ((u : UserSession) → P u → P (f u))
      → All P (elim (get_elem? m.heap ref) [ none ↦ m.heap | some u ↦ set_elem m.heap ref (f u) ])
  replace-All m ref f h kept = elim (Option-cases (get_elem? m.heap ref)) [
    | inl missing ↦ rw missing h
    | inr (u, found) ↦
        rw found (All-set_elem P m.heap ref (f u) (kept u (All-get P m.heap ref h found)) h)
  ]

  shutdown-All :
      (m : SessionManager) (ref : ℕ) → All P m.heap → All P (shutdown_user_session m ref).heap
  unfolding shutdown_user_session
  shutdown-All m ref h = let shut_down = replace-All m ref shut h at_shut in ground arith

  finish_connect-All :
      (m : SessionManager) (n : ℕ) → All P m.heap → All P (finish_connect m n).1.heap
  unfolding finish_connect
  finish_connect-All m n h = elim (Option-cases (get_elem? m.in_flight n)) [
    | inl missing ↦ ground arith
    | inr (c, found) ↦
        let made : SessionManager = record m {
          heap = m.heap ++ new_session c ∷ [];
          in_flight = remove_elem m.in_flight n;
        } in
        let whole = All-append P m.heap (new_session c ∷ []) h (at_new c, tt) in
        let after = shutdown-All made (length m.heap) whole in ground arith
  ]

  command-All :
      (m : SessionManager) (conn_id : String) (c : MumbleCommand) (is_open : Bool)
      → All P m.heap
      → All P (command m conn_id c is_open).1.heap
  unfolding command
  command-All m conn_id c is_open h = elim (Option-cases (lookup conn_id m.sessions)) [
    | inl absent ↦ ground arith
    | inr (ref, there) ↦
        let replaced =
          replace-All m ref (λ u. record u { commands = c ∷ u.commands }) h (λ u. at_command u c) in
        ground arith
  ]

  attach_voice-All : (m : SessionManager) (ref : ℕ) → All P m.heap → All P (attach_voice m ref).heap
  unfolding attach_voice
  attach_voice-All m ref h = elim (Option-cases (get_elem? m.heap ref)) [
    | inl missing ↦ ground arith
    | inr (u, found) ↦
        let v : UserSession = record u { has_voice = true; has_bridge = true } in
        elim (Bool-cases u.has_task) [
          | inr aborted ↦ ground arith
          | inl running ↦
              let replaced =
                All-set_elem P m.heap ref v (at_voice u running (All-get P m.heap ref h found)) h in
              ground arith
        ]
  ]

  start_task-All : (m : SessionManager) (ref : ℕ) → All P m.heap → All P (start_task m ref).heap
  unfolding start_task
  start_task-All m ref h = elim (Option-cases (get_elem? m.heap ref)) [
    | inl missing ↦ ground arith
    | inr (u, found) ↦
        let v : UserSession = record u { has_task = true } in
        elim (Bool-cases u.closed) [
          | inl closed ↦ ground arith
          | inr running ↦
              let replaced =
                All-set_elem P m.heap ref v (at_task u running (All-get P m.heap ref h found)) h in
              ground arith
        ]
  ]

  step-All : (m : SessionManager) (a : Step) → All P m.heap → All P (step m a).heap
  unfolding step take_out unlink begin_connect fail_connect
  step-All m (begins conn_id username ws_tx) h = ground arith
  step-All m (fails n) h = ground arith
  step-All m (finishes n) h = finish_connect-All m n h
  step-All m (commands conn_id c is_open) h = command-All m conn_id c is_open h
  step-All m (takes_out conn_id) h = h
  step-All m (shuts_down ref) h = shutdown-All m ref h
  step-All m (starts_task ref) h = start_task-All m ref h
  step-All m (attaches_voice ref) h = attach_voice-All m ref h
  step-All m (unlinks conn_id ref terminal_error) h = ground arith
  step-All m begins_shutdown h = h

  pub run_steps-All :
      (m : SessionManager) (steps : List Step) → All P m.heap → All P (run_steps m steps).heap
  unfolding run_steps
  run_steps-All m [] h = h
  run_steps-All m (a ∷ steps) h = run_steps-All (step m a) steps (step-All m a h)
