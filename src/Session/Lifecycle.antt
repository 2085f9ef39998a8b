-- ===== src/Session/Lifecycle.antt =====
-- src/SessionLifecycle.cpp: the session that each connection is bound to.
pub mod Clear
pub mod Steps
pub mod Logins
pub mod Refinement
use seed_origin.Base.{
  ℕ, Bool, true, false, ◌||◌, List, [], ◌∷◌, Option, none, some, ◌==◌, if◌then◌else◌, ℤ, pos, leb_ℤ,
  Map, lookup, has, insert, erase, ℕ_key, Result, ok, err,
}
use seed_origin.Session.Registry.{SessionInfo, SessionRegistry, logout}

-- `SessionLifecycle`, which holds nothing but `bindings`.
abbrev pub SessionLifecycle : Type 0
SessionLifecycle = Map ℕ ℤ

unfoldable pub bind : SessionLifecycle → ℕ → SessionInfo → Result SessionLifecycle
bind bindings connection_id info =
    if connection_id == 0 || leb_ℤ info.internal_id (pos 0)
    then err "session binding identity is invalid"
    else if has connection_id bindings
    then err "connection already has a session"
    else ok (insert connection_id info.internal_id bindings)

abbrev pub has_session : SessionLifecycle → ℕ → Bool
has_session bindings connection_id = has connection_id bindings

abbrev session_or_zero : Option ℤ → ℤ
session_or_zero none = pos 0
session_or_zero (some s) = s

abbrev pub session_id : SessionLifecycle → ℕ → ℤ
session_id bindings connection_id = session_or_zero (lookup connection_id bindings)

module _ {F : Type 0} where
  -- `disconnect` at the session that the connection is bound to.
  abbrev disconnect_from :
      SessionLifecycle
      → SessionRegistry F
      → ℕ
      → Option ℤ
      → SessionLifecycle × SessionRegistry F × Bool
  disconnect_from bindings r connection_id none = (bindings, r, false)
  disconnect_from bindings r connection_id (some s) =
      let (left, logged_out) = logout r s in (erase connection_id bindings, left, logged_out)

  unfoldable pub disconnect :
      SessionLifecycle → SessionRegistry F → ℕ → SessionLifecycle × SessionRegistry F × Bool
  disconnect bindings r connection_id =
      disconnect_from bindings r connection_id (lookup connection_id bindings)

  unfoldable pub logout_all : SessionLifecycle → SessionRegistry F → SessionRegistry F
  logout_all [] r = r
  logout_all ((c, s) ∷ bindings) r = logout_all bindings (logout r s).0

  -- `clear(session::SessionRegistry&)`
  unfoldable pub clear : SessionLifecycle → SessionRegistry F → SessionLifecycle × SessionRegistry F
  clear bindings r = ([], logout_all bindings r)
