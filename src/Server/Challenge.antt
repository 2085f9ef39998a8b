-- ===== src/Server/Challenge.antt =====
-- src/ChallengeSessionLogin.cpp and src/ChallengeLoginCommandHandler.cpp: the login of a user by a
-- challenge that is claimed once, and the session keys that keep-alive extends. The claims, the
-- store of keys, the issuer and the clock of include/seed/ChallengeSessionPorts.h are an interface.
use seed_origin.Base.{
  ℕ, Bool, true, false, not, List, Option, none, some, if◌then◌else◌, ℤ, pos, ◌+ℤ◌, eqb_ℤ, Result,
  ok, err,
}
use seed_origin.Net.Command.{login, NetworkCommand, validate_command}
use seed_origin.Session.Registry.{SessionInfo, SessionRegistry, open_authenticated_session}
use seed_origin.Server.Handlers.{is_type}

-- What the ports do to a state of theirs.
pub record ChallengePorts (W : Type 0) : Type 0 where
  -- `claim`, with the user whose challenge it was.
  pub claim : W → List ℕ → ℤ → W × Option ℤ
  pub create : W → ℤ → List ℕ → ℤ → W
  pub extend : W → List ℕ → ℤ → ℤ → W × Bool
  pub is_active : W → List ℕ → ℤ → Bool
  pub issue : W → W × List ℕ
  pub now_unix_seconds : W → ℤ

pub record ChallengeLogin : Type 0 where
  pub session_key : List ℕ
  pub user_id : ℤ
  pub expires_at_unix : ℤ

abbrev pub session_ttl_seconds : ℕ
session_ttl_seconds = 1800

module _ {W : Type 0} (ports : ChallengePorts W) where
  abbrev expiry_from : ℤ → ℤ
  expiry_from now = now +ℤ pos session_ttl_seconds

  abbrev claimed : W → ℤ → Option ℤ → W × Result ChallengeLogin
  claimed w now none = (w, err "invalid_challenge")
  claimed w now (some user_id) =
      let (w', key) = ports.issue w in
      (
        ports.create w' user_id key (expiry_from now),
        ok (record { session_key = key; user_id = user_id; expires_at_unix = expiry_from now }),
      )

  unfoldable pub login_with_challenge : W → List ℕ → W × Result ChallengeLogin
  login_with_challenge w challenge =
      let now = ports.now_unix_seconds w in
      let (w', user) = ports.claim w challenge now in claimed w' now user

  abbrev extended : W × Bool → ℤ → W × Result ℤ
  extended (w, true) expires = (w, ok expires)
  extended (w, false) expires = (w, err "invalid_session")

  unfoldable pub keep_alive : W → List ℕ → W × Result ℤ
  keep_alive w key =
      let now = ports.now_unix_seconds w in
      extended (ports.extend w key now (expiry_from now)) (expiry_from now)

  unfoldable pub validate_session : W → List ℕ → Bool
  validate_session w key = ports.is_active w key (ports.now_unix_seconds w)

-- An accepted login command.
pub record LoggedIn : Type 0 where
  pub session : SessionInfo
  pub session_key : List ℕ
  pub user_id : ℤ

module _ {F W : Type 0} (ports : ChallengePorts W) where
  abbrev opened :
      W → ChallengeLogin → SessionRegistry F × SessionInfo → W × SessionRegistry F × Result LoggedIn
  opened w l (r, info) =
      if eqb_ℤ info.internal_id (pos 0)
      then (w, r, err "session id allocation failed")
      else (w, r, ok (record { session = info; session_key = l.session_key; user_id = l.user_id }))

  abbrev with_challenge :
      SessionRegistry F → W × Result ChallengeLogin → W × SessionRegistry F × Result LoggedIn
  with_challenge r (w, err reason) = (w, r, err reason)
  with_challenge r (w, ok l) = opened w l (open_authenticated_session r l.user_id)

  abbrev login_of_valid :
      W
      → SessionRegistry F
      → NetworkCommand
      → Result (Unit {0})
      → W × SessionRegistry F × Result LoggedIn
  login_of_valid w r c (err e) = (w, r, err e)
  login_of_valid w r c (ok u) = with_challenge r (login_with_challenge ports w c.payload)

  -- `ChallengeLoginCommandHandler::handle`, with the registry for its `GameplaySessionPort`.
  unfoldable pub handle_login :
      W → SessionRegistry F → NetworkCommand → W × SessionRegistry F × Result LoggedIn
  handle_login w r c =
      if not (is_type c login)
      then (w, r, err "command is not a login")
      else login_of_valid w r c (validate_command c)
