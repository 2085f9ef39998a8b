-- ===== src/Session/Lifecycle/Steps.antt =====
-- The calls of src/SessionRegistry.cpp and src/SessionLifecycle.cpp that src/ServerRuntime.cpp makes
-- for logins, closed connections and a stop, and the same steps on an abstract state.
use seed_origin.Base.{
  ℕ, ◌+◌, Bool, false, not, ◌||◌, List, [], ◌∷◌, Option, none, some, is_some, ◌==◌, if◌then◌else◌,
  ℤ, pos, leb_ℤ, eqb_ℤ, int64_max, ℕ_key, Result, ok, err,
}
use seed_origin.Session.Registry.{SessionInfo, SessionRegistry, open_authenticated_session, logout}
use seed_origin.Session.Lifecycle.{SessionLifecycle, bind, disconnect, clear, has_session}

-- A login says of its connection whether it has an open client, and whether the field takes the
-- player of the session.
pub data SessionStep : Type 0 where
  login : ℕ → ℤ → Bool → Bool → SessionStep
  close : ℕ → SessionStep
  stop : SessionStep

module _ {F : Type 0} where
  -- A connection that is closed, or whose player has no place.
  abbrev disconnected :
      SessionLifecycle → SessionRegistry F → ℕ → SessionLifecycle × SessionRegistry F
  disconnected bindings r c = let (left, s, done) = disconnect bindings r c in (left, s)

  -- A binding that fails ends the session again, and so does a player that has no place.
  abbrev bind_or_logout :
      SessionLifecycle
      → SessionRegistry F
      → ℕ
      → Bool
      → ℤ
      → Result SessionLifecycle
      → SessionLifecycle × SessionRegistry F
  bind_or_logout bindings r c placed s (ok bound) =
      if not placed then disconnected bound r c else (bound, r)
  bind_or_logout bindings r c placed s (err e) = (bindings, (logout r s).0)

  -- What the server does with the session that the registry has opened for a login. It leaves that
  -- of the connection 0, which the server's own commands come from, and that of a connection whose
  -- client is closed.
  abbrev bind_opened :
      SessionLifecycle
      → ℕ
      → Bool
      → Bool
      → SessionRegistry F × SessionInfo
      → SessionLifecycle × SessionRegistry F
  bind_opened bindings c open_client placed (r, info) =
      if c == 0
      then (bindings, r)
      else if not open_client
      then (bindings, r)
      else if eqb_ℤ info.internal_id (pos 0)
      then (bindings, r)
      else bind_or_logout bindings r c placed info.internal_id (bind bindings c info)

  -- A login of a user on a connection.
  unfoldable pub login_session :
      SessionLifecycle
      → SessionRegistry F
      → ℕ
      → ℤ
      → Bool
      → Bool
      → SessionLifecycle × SessionRegistry F
  login_session bindings r c user open_client placed =
      if has_session bindings c
      then (bindings, r)
      else bind_opened bindings c open_client placed (open_authenticated_session r user)

  abbrev pub session_step :
      SessionLifecycle × SessionRegistry F → SessionStep → SessionLifecycle × SessionRegistry F
  session_step (bindings, r) (login c user open_client placed) =
      login_session bindings r c user open_client placed
  session_step (bindings, r) (close c) = disconnected bindings r c
  session_step (bindings, r) stop = clear bindings r

  unfoldable pub session_steps :
      SessionLifecycle × SessionRegistry F → List SessionStep → SessionLifecycle × SessionRegistry F
  session_steps st [] = st
  session_steps st (s ∷ ss) = session_steps (session_step st s) ss

-- The specification's state and its steps. A session is left where no connection has it.
pub record Sessions : Type 0 where
  pub issued : ℕ
  pub session_of : ℕ → Option ℤ
  pub is_left : ℤ → Bool

abbrev pub no_sessions : Sessions
no_sessions = record { issued = 0; session_of = λ c. none; is_left = λ s. false }

abbrev pub with_session : (ℕ → Option ℤ) → ℕ → Option ℤ → ℕ → Option ℤ
with_session f c s d = if d == c then s else f d

-- The next session, which goes to the connection, is left or is over at once.
abbrev pub issue : Sessions → ℕ → Bool → Bool → Sessions
issue a c open_client placed =
    let n = pos (a.issued + 1) in
    if c == 0 || not open_client
    then record a { issued = a.issued + 1; is_left = λ s. eqb_ℤ s n || a.is_left s }
    else record a {
      issued = a.issued + 1;
      session_of = if placed then with_session a.session_of c (some n) else a.session_of;
    }

abbrev pub spec_step : Sessions → SessionStep → Sessions
spec_step a (login c user open_client placed) =
    if is_some (a.session_of c) || leb_ℤ user (pos 0) || a.issued + 1 == int64_max
    then a
    else issue a c open_client placed
spec_step a (close c) = record a { session_of = with_session a.session_of c none }
spec_step a stop = record a { session_of = λ c. none }

unfoldable pub spec_steps : Sessions → List SessionStep → Sessions
spec_steps a [] = a
spec_steps a (s ∷ ss) = spec_steps (spec_step a s) ss
