-- ===== src/Tests/Sessions.antt =====
-- Runs of the session registry with the bindings of connections.
use seed_origin.Base.{
  true, false, map, ◌++◌, List, [], ◌∷◌, some, ℤ, pos, ◌≡◌, refl, lookup, ℕ_key, insert, ◌+ℤ◌,
  erase,
}
use seed_origin.Session.Registry.{is_active, new_registry, open_authenticated_session, logout}
use seed_origin.Session.Lifecycle.Steps.{
  SessionStep, close, stop, session_steps, no_sessions, spec_steps, login_session,
}
use seed_origin.Session.Lifecycle.Logins.{IsRefined}
use seed_origin.Session.Lifecycle.Refinement.{session_steps-IsRefined}
use seed_origin.Session.Lifecycle.{disconnect, bind, clear, logout_all}

-- The connection 7 has its session already when 43 logs in on it. Nothing ends the sessions 3, of
-- the connection 0, and 4, of a closed client.
abbrev steps : List SessionStep
steps =
    SessionStep.login 7 (pos 40) true true
    ∷ SessionStep.login 8 (pos 41) true true
    ∷ SessionStep.login 0 (pos 42) true true
    ∷ SessionStep.login 7 (pos 43) true true
    ∷ SessionStep.login 9 (pos 44) false true
    ∷ close 8
    ∷ close 9
    ∷ SessionStep.login 9 (pos 45) true false
    ∷ SessionStep.login 8 (pos 46) true true
    ∷ []

second_session : lookup 8 (session_steps {F = ℤ} ([], new_registry []) steps).0 ≡ some (pos 6)
unfolding lookup session_steps login_session disconnect open_authenticated_session new_registry bind
    insert ◌+ℤ◌ erase logout
second_session = refl

sessions_left :
    map
      (λ s. is_active (session_steps {F = ℤ} ([], new_registry []) (steps ++ stop ∷ [])).1 s)
      (pos 1 ∷ pos 2 ∷ pos 3 ∷ pos 4 ∷ pos 5 ∷ pos 6 ∷ [])
    ≡ false ∷ false ∷ true ∷ true ∷ false ∷ false ∷ []
unfolding lookup session_steps login_session disconnect open_authenticated_session new_registry bind
    insert ◌+ℤ◌ erase logout clear logout_all
sessions_left = refl

session_steps-IsRefined_example :
    IsRefined (session_steps {F = ℤ} ([], new_registry []) steps) (spec_steps no_sessions steps)
session_steps-IsRefined_example = session_steps-IsRefined [] steps
