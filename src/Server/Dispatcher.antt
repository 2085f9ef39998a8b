-- ===== src/Server/Dispatcher.antt =====
-- src/ServerCommandDispatcher.cpp, with src/DisconnectCommandHandler.cpp: every command goes through
-- the guards of its type to its handler.
pub mod Guards
use seed_origin.Base.{
  ℕ, ◌+◌, Bool, true, false, not, ◌&&◌, ◌||◌, List, [], ◌∷◌, Option, none, some, ◌==◌,
  if◌then◌else◌, ℤ, String, Result, ok, err,
}
use seed_origin.Net.Command.{
  CommandType, login, move, chat, attack, cast_spell, disconnect, request_snapshot, other,
  NetworkCommand, validate_command,
}
use seed_origin.Net.RateLimit.{CommandRateLimiter, allow, begin_frame, forget_session, no_counters}
use seed_origin.World.Float.{FloatOps, FloatText}
use seed_origin.World.Field.{Field}
use seed_origin.World.InputQueue.{WorldInputQueue}
use seed_origin.Session.Registry.{SessionInfo, empty_session, SessionRegistry, logout, is_active}
use seed_origin.Server.Handlers.{Handled, is_type, handle_move, handle_combat, handle_chat}
use seed_origin.Server.Challenge.{ChallengePorts, LoggedIn, handle_login}
use seed_origin.Server.Presence.{remove_after_logout}

pub record CommandDispatchResult : Type 0 where
  pub accepted : Bool
  pub type : CommandType
  pub session : SessionInfo
  pub error : String
  pub player_session_key : List ℕ

-- The dispatcher with what its references point to: the registry, the queue if it is bound, the state
-- of the ports for logins and whether there are any, and the field, which is global.
pub record ServerCommandDispatcher (F W : Type 0) : Type 0 where
  pub registry : SessionRegistry F
  pub input_queue : Option (WorldInputQueue F)
  pub rate_limiter : CommandRateLimiter
  pub snapshot_requests : ℕ
  pub uses_challenge_login : Bool
  pub ports_state : W
  pub field : Field F

module _ {F W : Type 0} where
  abbrev pub bind_world_input_queue :
      ServerCommandDispatcher F W → WorldInputQueue F → ServerCommandDispatcher F W
  bind_world_input_queue d q = record d { input_queue = some q }

  unfoldable pub begin_dispatch : ServerCommandDispatcher F W → ℕ → ServerCommandDispatcher F W
  begin_dispatch d world_tick = record d {
    rate_limiter = begin_frame d.rate_limiter world_tick;
    snapshot_requests = 0;
  }

  unfoldable pub forget : ServerCommandDispatcher F W → ℤ → ServerCommandDispatcher F W
  forget d session_id = record d { rate_limiter = forget_session d.rate_limiter session_id }

  -- `clearRateLimits`, which `CommandRateLimiter::clear` does.
  abbrev pub clear_rate_limits : ServerCommandDispatcher F W → ServerCommandDispatcher F W
  clear_rate_limits d = record d { rate_limiter = no_counters }

-- A dispatched command: the dispatcher that it leaves, and its result.
abbrev pub Dispatched : Type 0 → Type 0 → Type 0
Dispatched F W = ServerCommandDispatcher F W × CommandDispatchResult

abbrev pub result_of : CommandType → Result (Unit {0}) → CommandDispatchResult
result_of type (ok u) = record {
  accepted = true;
  type = type;
  session = empty_session;
  error = "";
  player_session_key = [];
}
result_of type (err e) = record {
  accepted = false;
  type = type;
  session = empty_session;
  error = e;
  player_session_key = [];
}

module _ {F W : Type 0} where
  abbrev pub refuse : ServerCommandDispatcher F W → CommandType → String → Dispatched F W
  refuse d type e = (d, result_of type (err e))

  -- The session has to be active and within its rate; a command that is let through is counted.
  abbrev pub guarded :
      ServerCommandDispatcher F W
      → NetworkCommand
      → String
      → String
      → (ServerCommandDispatcher F W → Dispatched F W)
      → Dispatched F W
  guarded d c inactive limited next =
      let (limiter, granted) = allow d.rate_limiter c.session_id c.type in
      let counted = record d { rate_limiter = limiter } in
      if not (is_active d.registry c.session_id)
      then refuse d c.type inactive
      else if not granted
      then refuse counted c.type limited
      else next counted

  abbrev pub put_handled :
      ServerCommandDispatcher F W → CommandType → Handled (WorldInputQueue F) → Dispatched F W
  put_handled d type (q, result) = (record d { input_queue = some q }, result_of type result)

  -- A command that goes to the queue, which has to be bound.
  abbrev pub queued :
      ServerCommandDispatcher F W
      → NetworkCommand
      → Option (WorldInputQueue F)
      → String
      → String
      → String
      → (WorldInputQueue F → NetworkCommand → Handled (WorldInputQueue F))
      → Dispatched F W
  queued d c none unbound inactive limited handle = refuse d c.type unbound
  queued d c (some q) unbound inactive limited handle =
      guarded d c inactive limited (λ e. put_handled e c.type (handle q c))

  abbrev ended : ServerCommandDispatcher F W → NetworkCommand → Dispatched F W
  ended d c = (
    forget d c.session_id,
    record (result_of c.type (ok tt)) {
      session = record empty_session { internal_id = c.session_id };
    },
  )

  abbrev logged_out :
      ServerCommandDispatcher F W → NetworkCommand → SessionRegistry F × Bool → Dispatched F W
  logged_out d c (r, true) = ended (record d { registry = r }) c
  logged_out d c (r, false) =
      refuse (record d { registry = r }) c.type "disconnect could not end the session"

  -- `DisconnectCommandHandler::handle`, with what the dispatcher does behind it.
  abbrev disconnect_valid :
      ServerCommandDispatcher F W → NetworkCommand → Result (Unit {0}) → Dispatched F W
  disconnect_valid d c (err e) = refuse d c.type e
  disconnect_valid d c (ok u) =
      if not (is_active d.registry c.session_id)
      then refuse d c.type "disconnect requires an active session"
      else logged_out (record d { field = (remove_after_logout d.field c.session_id).0 }) c
          (logout d.registry c.session_id)

  unfoldable pub handle_disconnect : ServerCommandDispatcher F W → NetworkCommand → Dispatched F W
  handle_disconnect d c =
      if not (is_type c disconnect)
      then refuse d c.type "command is not a disconnect"
      else disconnect_valid d c (validate_command c)

  abbrev pub count_snapshot : ServerCommandDispatcher F W → NetworkCommand → Dispatched F W
  count_snapshot d c =
      (record d { snapshot_requests = d.snapshot_requests + 1 }, result_of c.type (ok tt))

module _ {F W : Type 0} (fl : FloatOps F) (ft : FloatText F) (ports : ChallengePorts W) where
  abbrev logged_in :
      ServerCommandDispatcher F W
      → CommandType
      → W × SessionRegistry F × Result LoggedIn
      → Dispatched F W
  logged_in d type (w, r, err e) = refuse (record d { ports_state = w; registry = r }) type e
  logged_in d type (w, r, ok l) = (
    record d { ports_state = w; registry = r },
    record (result_of type (ok tt)) { session = l.session; player_session_key = l.session_key },
  )

  unfoldable pub dispatch_login : ServerCommandDispatcher F W → NetworkCommand → Dispatched F W
  dispatch_login d c =
      if not d.uses_challenge_login
      then refuse d c.type "challenge_auth_required"
      else logged_in d c.type (handle_login ports d.ports_state d.registry c)

  abbrev pub dispatch_type :
      ServerCommandDispatcher F W → NetworkCommand → CommandType → Dispatched F W
  dispatch_type d c login = dispatch_login d c
  dispatch_type d c chat =
      queued d c d.input_queue "chat world input queue is not bound"
        "chat requires an active session" "chat command rate limit exceeded" handle_chat
  dispatch_type d c attack =
      queued d c d.input_queue "combat world input queue is not bound"
        "combat requires an active session" "combat command rate limit exceeded"
        (handle_combat fl ft)
  dispatch_type d c cast_spell =
      queued d c d.input_queue "combat world input queue is not bound"
        "combat requires an active session" "combat command rate limit exceeded"
        (handle_combat fl ft)
  dispatch_type d c move =
      queued d c d.input_queue "movement world input queue is not bound"
        "movement requires an active session" "movement command rate limit exceeded"
        (handle_move fl ft)
  dispatch_type d c request_snapshot =
      guarded d c "snapshot request requires an active session"
        "snapshot request rate limit exceeded" (λ e. count_snapshot e c)
  dispatch_type d c disconnect =
      guarded d c "disconnect requires an active session" "disconnect command rate limit exceeded"
        (λ e. handle_disconnect e c)
  dispatch_type d c (other n) = refuse d c.type "command handler is not implemented"

  unfoldable pub dispatch : ServerCommandDispatcher F W → NetworkCommand → Dispatched F W
  dispatch d c = dispatch_type d c c.type

  unfoldable pub dispatch_all :
      ServerCommandDispatcher F W
      → List NetworkCommand
      → ServerCommandDispatcher F W × List CommandDispatchResult
  dispatch_all d [] = (d, [])
  dispatch_all d (c ∷ cs) =
      let (e, r) = dispatch d c in let (f, rs) = dispatch_all e cs in (f, r ∷ rs)
