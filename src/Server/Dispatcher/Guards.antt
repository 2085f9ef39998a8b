-- ===== src/Server/Dispatcher/Guards.antt =====
-- Which commands src/ServerCommandDispatcher.cpp lets through, and what one that it refuses leaves.
use seed_origin.Base.{
  ◌⊎◌, inl, inr, Bool-cases, true, false, Option, none, some, String, ok, err, ◌≡◌, ◌≢◌, refl, sym,
  ap, ◌∙◌, arith,
}
use seed_origin.Net.Command.{
  CommandType, login, move, chat, attack, cast_spell, disconnect, request_snapshot, other,
  NetworkCommand,
}
use seed_origin.Net.RateLimit.{allow}
use seed_origin.World.Float.{FloatOps, FloatText}
use seed_origin.World.InputQueue.{
  WorldInputQueue, enqueue_sequenced_movement, enqueue_combat, enqueue_spell, enqueue_chat,
}
use seed_origin.Session.Registry.{logout, is_active}
use seed_origin.Server.Handlers.{Handled, handle_move, handle_combat, handle_chat}
use seed_origin.Server.Challenge.{ChallengePorts}
use seed_origin.Server.Dispatcher.{
  ServerCommandDispatcher, Dispatched, guarded, put_handled, queued, handle_disconnect,
  count_snapshot, dispatch_type, dispatch,
}

-- A handler that refuses leaves the queue as it was.
abbrev pub KeepsQueue : {F : Type 0} → WorldInputQueue F → Handled (WorldInputQueue F) → Type 0
KeepsQueue q r = (e : String) → r.1 ≡ err e → r.0 ≡ q

module _ {F : Type 0} where
  handle_chat-KeepsQueue :
      (q : WorldInputQueue F) (c : NetworkCommand) → KeepsQueue q (handle_chat q c)
  unfolding handle_chat enqueue_chat
  handle_chat-KeepsQueue q c e h = ground arith

module _ {F : Type 0} (fl : FloatOps F) (ft : FloatText F) where
  handle_combat-KeepsQueue :
      (q : WorldInputQueue F) (c : NetworkCommand) → KeepsQueue q (handle_combat fl ft q c)
  unfolding handle_combat enqueue_combat enqueue_spell
  handle_combat-KeepsQueue q c e h = ground arith

  handle_move-KeepsQueue :
      (q : WorldInputQueue F) (c : NetworkCommand) → KeepsQueue q (handle_move fl ft q c)
  unfolding handle_move enqueue_sequenced_movement
  handle_move-KeepsQueue q c e h = ground arith

-- The guards and what is kept, by the answer.
record IsGuarded {F W : Type 0} (d : ServerCommandDispatcher F W) (c : NetworkCommand)
    (r : Dispatched F W) : Type 0 where
  open_session : r.1.accepted ≡ true → is_active d.registry c.session_id ≡ true
  within_rate : r.1.accepted ≡ true → (allow d.rate_limiter c.session_id c.type).1 ≡ true
  registry_kept : r.1.accepted ≡ false → r.0.registry ≡ d.registry
  field_kept : r.1.accepted ≡ false → r.0.field ≡ d.field
  queue_kept : r.1.accepted ≡ false → r.0.input_queue ≡ d.input_queue
  requests_kept : r.1.accepted ≡ false → r.0.snapshot_requests ≡ d.snapshot_requests

module _ {F W : Type 0} where
  -- The guards, around what comes behind them.
  guarded-IsGuarded :
      (d : ServerCommandDispatcher F W) (c : NetworkCommand) (inactive limited : String)
      (next : ServerCommandDispatcher F W → Dispatched F W)
      → (let e = record d { rate_limiter = (allow d.rate_limiter c.session_id c.type).0 } in
          is_active d.registry c.session_id ≡ true
          → (allow d.rate_limiter c.session_id c.type).1 ≡ true
          → (next e).1.accepted ≡ false
          → ((next e).0.registry ≡ d.registry)
            × ((next e).0.field ≡ d.field)
            × ((next e).0.input_queue ≡ d.input_queue)
            × ((next e).0.snapshot_requests ≡ d.snapshot_requests))
      → IsGuarded d c (guarded d c inactive limited next)
  guarded-IsGuarded d c inactive limited next h = record {
    open_session = λ k. ground arith;
    within_rate = λ k. ground arith;
    registry_kept = λ k. ground (arith, h);
    field_kept = λ k. ground (arith, h);
    queue_kept = λ k. ground (arith, h);
    requests_kept = λ k. ground (arith, h);
  }

  put_handled-kept :
      (d e : ServerCommandDispatcher F W) (type : CommandType) (q : WorldInputQueue F)
      (r : Handled (WorldInputQueue F))
      → KeepsQueue q r
      → d.input_queue ≡ some q
      → (put_handled e type r).1.accepted ≡ false
      → (put_handled e type r).0.input_queue ≡ d.input_queue
  put_handled-kept d e type q (after, ok u) k h a = absurd (ground arith)
  put_handled-kept d e type q (after, err m) k h a = ap (λ t. some t) (k m refl) ∙ sym h

  queued-IsGuarded :
      (d : ServerCommandDispatcher F W) (c : NetworkCommand) (o : Option (WorldInputQueue F))
      (unbound inactive limited : String)
      (handle : WorldInputQueue F → NetworkCommand → Handled (WorldInputQueue F))
      → d.input_queue ≡ o
      → ((q : WorldInputQueue F) → KeepsQueue q (handle q c))
      → IsGuarded d c (queued d c o unbound inactive limited handle)
  queued-IsGuarded d c none unbound inactive limited handle h k = record {
    open_session = λ a. absurd (ground arith);
    within_rate = λ a. absurd (ground arith);
    registry_kept = λ a. refl;
    field_kept = λ a. refl;
    queue_kept = λ a. refl;
    requests_kept = λ a. refl;
  }
  queued-IsGuarded d c (some q) unbound inactive limited handle h k =
      let counted = record d { rate_limiter = (allow d.rate_limiter c.session_id c.type).0 } in
      guarded-IsGuarded d c inactive limited (λ e. put_handled e c.type (handle q c))
        (λ active granted a.
          (refl, refl, put_handled-kept d counted c.type q (handle q c) (k q) h a, refl))

  -- A disconnect that is refused behind the guards has done nothing.
  handle_disconnect-kept :
      (d : ServerCommandDispatcher F W) (c : NetworkCommand)
      → (handle_disconnect d c).1.accepted ≡ false
      → ((handle_disconnect d c).0.registry ≡ d.registry)
        × ((handle_disconnect d c).0.field ≡ d.field)
        × ((handle_disconnect d c).0.input_queue ≡ d.input_queue)
        × ((handle_disconnect d c).0.snapshot_requests ≡ d.snapshot_requests)
  unfolding handle_disconnect logout
  handle_disconnect-kept d c h = ground arith

module _ {F W : Type 0} where
  -- The session of a command that is accepted is open and within its rate.
  abbrev pub IsLetThrough : ServerCommandDispatcher F W → NetworkCommand → Dispatched F W → Type 0
  IsLetThrough d c r =
      (r.1.accepted ≡ true)
      × (is_active d.registry c.session_id ≡ true)
      × ((allow d.rate_limiter c.session_id c.type).1 ≡ true)

  -- A command that is refused leaves the registry, the field, the queue and the count of requests.
  abbrev pub IsTurnedAway : ServerCommandDispatcher F W → Dispatched F W → Type 0
  IsTurnedAway d r =
      (r.1.accepted ≡ false)
      × (r.0.registry ≡ d.registry)
      × (r.0.field ≡ d.field)
      × (r.0.input_queue ≡ d.input_queue)
      × (r.0.snapshot_requests ≡ d.snapshot_requests)

  by_answer :
      (d : ServerCommandDispatcher F W) (c : NetworkCommand) (r : Dispatched F W)
      → IsGuarded d c r
      → IsLetThrough d c r ⊎ IsTurnedAway d r
  by_answer d c r w = elim (Bool-cases r.1.accepted) [
    | inl e ↦ inl (e, w.open_session e, w.within_rate e)
    | inr e ↦ inr (e, w.registry_kept e, w.field_kept e, w.queue_kept e, w.requests_kept e)
  ]

module _ {F W : Type 0} (fl : FloatOps F) (ft : FloatText F) (ports : ChallengePorts W) where
  -- `c.type` with the type that it is.
  typed_IsGuarded :
      (d : ServerCommandDispatcher F W) (c : NetworkCommand) (type : CommandType)
      → type ≢ login
      → IsGuarded d c (dispatch_type fl ft ports d c type)
  typed_IsGuarded d c login h = absurd (h refl)
  typed_IsGuarded d c chat h =
      queued-IsGuarded d c d.input_queue _ _ _ handle_chat refl (λ q. handle_chat-KeepsQueue q c)
  typed_IsGuarded d c attack h =
      queued-IsGuarded d c d.input_queue _ _ _ (handle_combat fl ft) refl
        (λ q. handle_combat-KeepsQueue fl ft q c)
  typed_IsGuarded d c cast_spell h =
      queued-IsGuarded d c d.input_queue _ _ _ (handle_combat fl ft) refl
        (λ q. handle_combat-KeepsQueue fl ft q c)
  typed_IsGuarded d c move h =
      queued-IsGuarded d c d.input_queue _ _ _ (handle_move fl ft) refl
        (λ q. handle_move-KeepsQueue fl ft q c)
  typed_IsGuarded d c request_snapshot h =
      guarded-IsGuarded d c _ _ (λ e. count_snapshot e c)
        (λ active granted a. absurd (ground arith))
  typed_IsGuarded d c disconnect h =
      guarded-IsGuarded d c _ _ (λ e. handle_disconnect e c)
        (λ active granted a.
          handle_disconnect-kept
            (record d { rate_limiter = (allow d.rate_limiter c.session_id c.type).0 }) c a)
  typed_IsGuarded d c (other n) h = record {
    open_session = λ a. absurd (ground arith);
    within_rate = λ a. absurd (ground arith);
    registry_kept = λ a. refl;
    field_kept = λ a. refl;
    queue_kept = λ a. refl;
    requests_kept = λ a. refl;
  }

  -- A command other than a login is accepted only for a session that is active and within its
  -- rate, and one that is refused leaves the registry, the field, the input queue and the count
  -- of snapshot requests as they were.
  pub dispatch-IsGuarded :
      (d : ServerCommandDispatcher F W) (c : NetworkCommand)
      → c.type ≢ login
      → IsLetThrough d c (dispatch fl ft ports d c) ⊎ IsTurnedAway d (dispatch fl ft ports d c)
  unfolding dispatch
  dispatch-IsGuarded d c h =
      by_answer d c (dispatch_type fl ft ports d c c.type) (typed_IsGuarded d c c.type h)
