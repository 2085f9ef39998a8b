-- ===== src/Server/Handlers.antt =====
-- src/MovementCommandHandler.cpp, src/CombatCommandHandler.cpp, src/ChatCommandHandler.cpp and
-- src/DisconnectCommandHandler.cpp: what the server does with the payload of a valid command.
use seed_origin.Base.{
  ℕ, Bool, true, false, not, ◌&&◌, ◌||◌, List, Option, none, some, is_some, ltb, ◌==◌,
  if◌then◌else◌, length, ℤ, pos, leb_ℤ, ltb_ℤ, String, Result, ok, err, and_then, split_at,
  is_blank, read_int64, read_char,
}
use seed_origin.Net.Command.{
  CommandType, move, chat, attack, cast_spell, code, NetworkCommand, validate_command,
}
use seed_origin.World.Float.{FloatOps, FloatText}
use seed_origin.World.Movement.{is_valid_movement_delta, max_move_distance_per_frame}
use seed_origin.World.Input.{MovementIntent}
use seed_origin.World.InputQueue.{
  WorldInputQueue, MovementEnqueueResult, enqueued, ignored_stale, rejected,
  enqueue_sequenced_movement, enqueue_combat, enqueue_spell, enqueue_chat,
}
use seed_origin.World.IntentQueue.{IntentQueue, enqueue_intent}
use seed_origin.World.Field.{Field}
use seed_origin.World.Field.Frame.{queue_movement}
use seed_origin.World.MovementText.{parse_move_payload, read_float}

-- `command.type == type`
abbrev pub is_type : NetworkCommand → CommandType → Bool
is_type c type = code c.type == code type

-- A handler's call: what it leaves of what it writes to, and the error with which it refuses.
abbrev pub Handled : Type 0 → Type 0
Handled S = S × Result (Unit {0})

module _ {F : Type 0} (fl : FloatOps F) (ft : FloatText F) where
  abbrev within_limit : F → Bool
  within_limit v = fl.fleb (fl.fabs v) (max_move_distance_per_frame fl)

  abbrev checked_move : Option (ℕ × F × F × F) → Result (ℕ × F × F × F)
  checked_move none = err "move payload must be finite dx,dy,dz"
  checked_move (some (n, dx, dy, dz)) =
      if not (within_limit dx)
        || not (within_limit dy)
        || not (within_limit dz)
        || not (is_valid_movement_delta fl dx dy dz)
      then err "move delta exceeds limit"
      else ok (n, dx, dy, dz)

  abbrev move_of_valid : NetworkCommand → Result (Unit {0}) → Result (ℕ × F × F × F)
  move_of_valid c (err e) = err e
  move_of_valid c (ok u) = checked_move (parse_move_payload fl ft c.payload)

  -- The part of `MovementCommandHandler::handle` that its three targets share.
  unfoldable pub move_of : NetworkCommand → Result (ℕ × F × F × F)
  move_of c =
      if not (is_type c move)
      then err "command is not a move"
      else move_of_valid c (validate_command c)

  -- A stale movement is ignored, which is no acceptance either.
  abbrev pub queue_answer :
      ℕ → WorldInputQueue F × MovementEnqueueResult → Handled (WorldInputQueue F)
  queue_answer n (q, enqueued) = (q, ok tt)
  queue_answer n (q, ignored_stale) = (q, err "duplicate or stale client input sequence")
  queue_answer n (q, rejected) = (
    q,
    err (
        if n == 0
        then "movement world input queue is full"
        else "client input sequence was rejected"),
  )

  abbrev pub enqueue_move :
      WorldInputQueue F → ℤ → Result (ℕ × F × F × F) → Handled (WorldInputQueue F)
  enqueue_move q session_id (err e) = (q, err e)
  enqueue_move q session_id (ok (n, dx, dy, dz)) =
      queue_answer n (enqueue_sequenced_movement fl q session_id dx dy dz n)

  -- `handle` on the queue of world inputs.
  unfoldable pub handle_move : WorldInputQueue F → NetworkCommand → Handled (WorldInputQueue F)
  handle_move q c = enqueue_move q c.session_id (move_of c)

  abbrev done_or : {S : Type 0} → String → S × Bool → Handled S
  done_or e (s, true) = (s, ok tt)
  done_or e (s, false) = (s, err e)

  abbrev intend_move :
      IntentQueue (MovementIntent F)
      → ℤ
      → Result (ℕ × F × F × F)
      → Handled (IntentQueue (MovementIntent F))
  intend_move q session_id (err e) = (q, err e)
  intend_move q session_id (ok (n, dx, dy, dz)) =
      done_or "movement intent queue is full" (enqueue_intent fl q session_id dx dy dz n)

  -- `handle` on the queue of intents.
  unfoldable pub handle_move_intent :
      IntentQueue (MovementIntent F) → NetworkCommand → Handled (IntentQueue (MovementIntent F))
  handle_move_intent q c = intend_move q c.session_id (move_of c)

  abbrev move_in_field : Field F → ℤ → Result (ℕ × F × F × F) → Handled (Field F)
  move_in_field f session_id (err e) = (f, err e)
  move_in_field f session_id (ok (n, dx, dy, dz)) =
      done_or "session player is not present in the field" (queue_movement fl f session_id dx dy dz)

  -- `handle` on the field.
  unfoldable pub handle_move_in_field : Field F → NetworkCommand → Handled (Field F)
  handle_move_in_field f c = move_in_field f c.session_id (move_of c)

  abbrev max_combat_power : F
  max_combat_power = fl.lit 100000 1

  abbrev is_combat_power : F → Bool
  is_combat_power power =
      fl.is_finite power && fl.fltb (fl.lit 0 1) power && fl.fleb power max_combat_power

  -- The request's identifier and what stands behind the bar.
  abbrev request_of : Option (List ℕ × List ℕ) → Option (List ℕ × List ℕ)
  request_of none = none
  request_of (some (request_id, rest)) =
      if length request_id == 0 || ltb 64 (length request_id) then none else some (request_id, rest)

  -- The request, the target and the power of an attack.
  unfoldable pub parse_attack : List ℕ → Option (List ℕ × ℤ × F)
  parse_attack payload = and_then (request_of (split_at b'|' payload)) (λ r.
      and_then (read_int64 r.1) (λ target. and_then (read_char target.1) (λ separator.
        if not (separator.0 == b',')
        then none
        else and_then (read_float fl ft separator.1) (λ power.
          if is_blank power.1 && ltb_ℤ (pos 0) target.0 && is_combat_power power.0
          then some (r.0, target.0, power.0)
          else none))))

  abbrev exact : {T : Type 0} → Option (T × List ℕ) → Option T
  exact none = none
  exact (some (t, rest)) = if is_blank rest then some t else none

  -- The request, the target, the element and the power of a spell.
  unfoldable pub parse_spell : List ℕ → Option (List ℕ × ℤ × List ℕ × F)
  parse_spell payload = and_then (request_of (split_at b'|' payload)) (λ r.
      and_then (split_at b',' r.1) (λ first. and_then (split_at b',' first.1) (λ second.
        if is_some (split_at b',' second.1)
        then none
        else and_then (exact (read_int64 first.0)) (λ target.
          and_then (exact (read_float fl ft second.1)) (λ power.
            if ltb_ℤ (pos 0) target && not (length second.0 == 0) && is_combat_power power
            then some (r.0, target, second.0, power)
            else none)))))

  abbrev attack_text : String
  attack_text = "attack payload or input is invalid"

  abbrev spell_text : String
  spell_text = "spell payload or input is invalid"

  abbrev enqueue_attack :
      WorldInputQueue F → ℤ → Option (List ℕ × ℤ × F) → Handled (WorldInputQueue F)
  enqueue_attack q session_id none = (q, err attack_text)
  enqueue_attack q session_id (some (request_id, target, power)) =
      done_or attack_text (enqueue_combat fl q session_id target power request_id)

  abbrev enqueue_cast :
      WorldInputQueue F → ℤ → Option (List ℕ × ℤ × List ℕ × F) → Handled (WorldInputQueue F)
  enqueue_cast q session_id none = (q, err spell_text)
  enqueue_cast q session_id (some (request_id, target, element, power)) =
      done_or spell_text (enqueue_spell fl q session_id target element power request_id)

  abbrev combat_of_valid :
      WorldInputQueue F → NetworkCommand → Result (Unit {0}) → Handled (WorldInputQueue F)
  combat_of_valid q c (err e) = (q, err e)
  combat_of_valid q c (ok u) =
      if is_type c attack
      then enqueue_attack q c.session_id (parse_attack c.payload)
      else enqueue_cast q c.session_id (parse_spell c.payload)

  -- `CombatCommandHandler::handle`
  unfoldable pub handle_combat : WorldInputQueue F → NetworkCommand → Handled (WorldInputQueue F)
  handle_combat q c =
      if not (is_type c attack) && not (is_type c cast_spell)
      then (q, err "command is not attack or spell")
      else combat_of_valid q c (validate_command c)

module _ {F : Type 0} where
  abbrev chat_answer : WorldInputQueue F × Bool → Handled (WorldInputQueue F)
  chat_answer (q, true) = (q, ok tt)
  chat_answer (q, false) = (q, err "chat input is invalid or world input queue is full")

  abbrev enqueue_message :
      WorldInputQueue F → ℤ → Option (List ℕ × List ℕ) → Handled (WorldInputQueue F)
  enqueue_message q session_id none = (q, err "chat command must contain audience and message")
  enqueue_message q session_id (some (audience, message)) =
      chat_answer (enqueue_chat q session_id audience message)

  abbrev chat_of_valid :
      WorldInputQueue F → NetworkCommand → Result (Unit {0}) → Handled (WorldInputQueue F)
  chat_of_valid q c (err e) = (q, err e)
  chat_of_valid q c (ok u) = enqueue_message q c.session_id (split_at b'|' c.payload)

  -- `ChatCommandHandler::handle`
  unfoldable pub handle_chat : WorldInputQueue F → NetworkCommand → Handled (WorldInputQueue F)
  handle_chat q c =
      if not (is_type c chat) || leb_ℤ c.session_id (pos 0)
      then (q, err "command is not an authenticated chat command")
      else chat_of_valid q c (validate_command c)
