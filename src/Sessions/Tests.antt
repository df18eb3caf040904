-- ===== src/Sessions/Tests.antt =====
-- Runs of the session manager of src/session.rs: two connections, one of which ends and comes back.
use mumdota.Base.{
  set_elem, remove_elem, ℕ, suc, zero, err, ◌+◌, ◌≡◌, ◌≢◌, refl, Bool, true, false, String, List,
  [], ◌∷◌, none, some, length, get_elem?, ◌==◌, nat_eq, string_eq, if◌then◌else◌, All, lookup,
  insert, remove,
}
use mumdota.Messages.{ServerMessage, text}
use mumdota.Control.{set_mute}
use mumdota.Sessions.{
  UserSession, SessionManager, new_manager, new_session, Step, begins, fails, finishes, commands,
  takes_out, shuts_down, starts_task, attaches_voice, step, run_steps, disconnect_user,
  finish_session, begin_connect, shutting_down,
}
use mumdota.Sessions.Slots.{running, IsHolding, permits_conserved}
use mumdota.Sessions.Closing.{has_slot, close, close-all_free}
use mumdota.Sessions.Released.{Released, run_steps-Released}
use mumdota.Sessions.Generations.{
  disconnect_user-others, finish_session-stale, finish_session-current,
}

abbrev lost : ServerMessage
lost = ServerMessage.error "mumble_disconnected" (text "Connection closed")

-- Ann and Bob connect, a third call fails, Ann's session ends, and she comes back before its event
-- task takes it out of the table.
abbrev history : List Step
history =
    begins "ann" "Ann" 1
    ∷ begins "bob" "Bob" 2
    ∷ begins "eve" "Eve" 3
    ∷ fails 0
    ∷ finishes 1
    ∷ finishes 0
    ∷ starts_task 0
    ∷ commands "ann" (set_mute true) true
    ∷ takes_out "ann"
    ∷ begins "ann" "Ann" 4
    ∷ shuts_down 0
    ∷ attaches_voice 0
    ∷ finishes 0
    ∷ []

abbrev now : SessionManager
now = run_steps (new_manager 3) history

run_steps-history :
    (now.sessions ≡ ("bob", 1) ∷ ("ann", 2) ∷ []) × (now.slots ≡ 1) × (length now.heap ≡ 3)
unfolding run_steps step remove insert lookup set_elem remove_elem
run_steps-history = (refl, refl, refl)

permits_conserved_example :
    (now.slots + length now.in_flight + running now.heap ≡ 3) × All IsHolding now.heap
permits_conserved_example = permits_conserved 3 history

run_steps-Released_example : All Released now.heap
run_steps-Released_example = run_steps-Released (new_manager 3) history tt

bob_is_not_ann : ◌≢◌ {A = String} "bob" "ann"
bob_is_not_ann e = let same = (string_eq.same_iff "bob" "ann").1 e in cc

disconnect_user-others_example :
    (lookup "ann" (disconnect_user now "bob").sessions ≡ some 2)
    × (get_elem? (disconnect_user now "bob").heap 2 ≡ get_elem? now.heap 2)
unfolding run_steps step remove insert lookup set_elem remove_elem
disconnect_user-others_example = disconnect_user-others 3 history "bob" "ann" 2 bob_is_not_ann refl

abbrev ended : Bool × SessionManager
ended = finish_session now "ann" 0 (some lost)

finish_session-stale_example :
    (ended.0 ≡ false)
    × (ended.1.sessions ≡ now.sessions)
    × (ended.1.sent ≡ now.sent)
    × ((other : ℕ) → 0 ≢ other → get_elem? ended.1.heap other ≡ get_elem? now.heap other)
unfolding run_steps step remove insert lookup set_elem remove_elem
finish_session-stale_example = finish_session-stale now "ann" 0 (some lost) (λ e. cc)

abbrev bob : UserSession
bob = new_session (record { conn_id = "bob"; username = "Bob"; ws_tx = 2 })

abbrev ended_current : Bool × SessionManager
ended_current = finish_session now "bob" 1 (some lost)

finish_session-bob :
    (ended_current.0 ≡ true)
    × (ended_current.1.sent ≡ (2, lost) ∷ now.sent)
    × (ended_current.1.slots ≡ (if true then suc now.slots else now.slots))
    × ((other : String)
        → lookup other ended_current.1.sessions
          ≡ (if "bob" == other then none else lookup other now.sessions))
unfolding run_steps step remove insert lookup set_elem remove_elem
finish_session-bob = finish_session-current now "bob" 1 lost bob refl refl

abbrev owner : ℕ → String
owner zero = ""
owner (suc zero) = "bob"
owner (suc (suc n)) = "ann"

now-in_table :
    (ref : ℕ)
    → has_slot (get_elem? now.heap ref) ≡ true
    → lookup (owner ref) now.sessions ≡ some ref
unfolding run_steps step remove insert lookup set_elem remove_elem
now-in_table zero e = cc
now-in_table (suc zero) e = refl
now-in_table (suc (suc zero)) e = refl
now-in_table (suc (suc (suc n))) e = cc

close-all_free_example :
    ((close now).slots ≡ 3)
    × ((conn_id : String) → lookup conn_id (close now).sessions ≡ none)
    × ((conn_id username : String) (ws_tx : ℕ)
        → begin_connect (close now) conn_id username ws_tx ≡ (err shutting_down, close now))
unfolding run_steps step remove insert lookup set_elem remove_elem
close-all_free_example = close-all_free 3 history owner refl now-in_table
