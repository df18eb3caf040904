-- ===== src/Sessions/Released.antt =====
-- The sessions of src/session.rs that are closed: they hold nothing any more.
use mumdota.Base.{◌≡◌, refl, true, false, List, arith, All}
use mumdota.Sessions.{UserSession, SessionManager, Step, run_steps}
use mumdota.Sessions.Each.{run_steps-All}

-- A closed session: no permit, no task, no bridge, no voice, and its peer connection told to close.
abbrev pub Released : UserSession → Type 0
Released u =
    u.closed ≡ true
    → (u.slot ≡ false)
      × (u.has_task ≡ false)
      × (u.has_bridge ≡ false)
      × (u.has_voice ≡ false)
      × (u.webrtc_closed ≡ true)

-- In whatever order the steps come, if every closed session has given up its permit, its tasks, its
-- bridge, its voice and its peer connection (a fresh manager has no session), this stays so: also
-- when the task that sets voice up ends after the session was closed.
pub run_steps-Released :
    (m : SessionManager) (steps : List Step)
    → All Released m.heap
    → All Released (run_steps m steps).heap
run_steps-Released =
    run_steps-All Released (λ c closed. ground arith) (λ u h closed. (refl, refl, refl, refl, refl))
      (λ u c h. h) (λ u unclosed h closed. ground arith) (λ u running h closed. ground arith)
