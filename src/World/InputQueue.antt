-- ===== src/World/InputQueue.antt =====
-- src/WorldInputQueue.cpp: the queue that the command handlers fill and the world tick empties. The
-- mutex is held throughout each operation, which is therefore one step.
pub mod Frames
pub mod Requests
use seed_origin.Base.{
  ℕ, zero, suc, ◌+◌, ◌/◌, ◌%◌, Bool, true, false, not, ◌&&◌, ◌||◌, List, [], ◌∷◌, ◌++◌, Option,
  none, some, ltb, leb, ◌==◌, if◌then◌else◌, length, bytes_eq, all_bytes, ℤ, pos, negsuc, leb_ℤ,
  uint64_max,
}
use seed_origin.World.Float.{FloatOps}
use seed_origin.World.Entities.{Action}
use seed_origin.World.Ether.{fzero}
use seed_origin.World.Movement.{is_valid_movement_delta}
use seed_origin.World.Input.{
  MovementIntent, CombatIntent, SpellIntent, ChatIntent, WorldInput, WorldInputBody,
}
use seed_origin.World.Field.Combat.{is_element_char}
use seed_origin.World.InputSequence.{
  ClientInputSequenceTracker, no_tracks, ClientInputAdmission, accept, ignore_stale,
  reject_too_far_ahead, reject_invalid, admit, note_accepted,
}

abbrev pub max_pending_inputs : ℕ
max_pending_inputs = 8192

pub data MovementEnqueueResult : Type 0 where
  enqueued ignored_stale rejected : MovementEnqueueResult

pub record WorldInputQueue (F : Type 0) : Type 0 where
  pub next_sequence : ℕ
  pub pending : List (WorldInput F)
  pub accepted_combat_requests : List (List ℕ)
  pub input_sequence_tracker : ClientInputSequenceTracker

abbrev pub is_valid_request_id : List ℕ → Bool
is_valid_request_id request_id =
    not (length request_id == 0 || ltb 64 (length request_id))
    && all_bytes is_element_char request_id

-- `std::to_string`, of at most 20 digits.
abbrev decimal : ℕ → ℕ → List ℕ
decimal zero n = []
decimal (suc fuel) n =
    let rest = decimal fuel (n / 10) in (if ltb n 10 then [] else rest) ++ (b'0' + n % 10) ∷ []

abbrev pub to_string : ℤ → List ℕ
to_string (pos n) = decimal 20 n
to_string (negsuc n) = b'-' ∷ decimal 20 (suc n)

-- The entry of `acceptedCombatRequests` for a request of an actor.
abbrev pub request_key : ℤ → List ℕ → List ℕ
request_key actor_id request_id = to_string actor_id ++ b':' ∷ request_id

abbrev pub contains : List ℕ → List (List ℕ) → Bool
contains key [] = false
contains key (k ∷ ks) = bytes_eq key k || contains key ks

-- The test of a request's identifier, which is optional.
unfoldable pub is_refused_request : List (List ℕ) → ℤ → List ℕ → Bool
is_refused_request accepted actor_id request_id =
    not (length request_id == 0) && not (is_valid_request_id request_id)
    || not (length request_id == 0) && contains (request_key actor_id request_id) accepted

abbrev pub note_request : List (List ℕ) → ℤ → List ℕ → List (List ℕ)
note_request accepted actor_id request_id =
    if length request_id == 0 then accepted else request_key actor_id request_id ∷ accepted

-- A character of a chat message: no control character.
abbrev pub is_message_char : ℕ → Bool
is_message_char c = leb 32 c && not (c == 127)

module _ {F : Type 0} where
  abbrev pub new_queue : WorldInputQueue F
  new_queue = record {
    next_sequence = 1;
    pending = [];
    accepted_combat_requests = [];
    input_sequence_tracker = no_tracks;
  }

  -- The test that every operation makes before it pushes.
  abbrev pub is_full : WorldInputQueue F → Bool
  is_full q = leb max_pending_inputs (length q.pending) || q.next_sequence == uint64_max

  abbrev pub push : WorldInputQueue F → WorldInputBody F → WorldInputQueue F
  push q body = record q {
    next_sequence = q.next_sequence + 1;
    pending = q.pending ++ (record { sequence = q.next_sequence; body = body }) ∷ [];
  }

  unfoldable pub enqueue_action : WorldInputQueue F → Action F → WorldInputQueue F × Bool
  enqueue_action q a =
      if not a.valid
      then (q, false)
      else if is_full q
      then (q, false)
      else (push q (WorldInputBody.action a), true)

  -- `enqueueSequencedMovement` behind the admission of its number.
  abbrev pub push_movement :
      WorldInputQueue F → MovementIntent F → WorldInputQueue F × MovementEnqueueResult
  push_movement q i =
      if is_full q
      then (q, rejected)
      else (let pushed = push q (WorldInputBody.movement i) in
          (
            record pushed {
              input_sequence_tracker =
                  if i.client_input_sequence == 0
                  then pushed.input_sequence_tracker
                  else note_accepted pushed.input_sequence_tracker i.session_id
                      i.client_input_sequence;
            },
            enqueued,
          ))

  abbrev pub admitted :
      WorldInputQueue F
      → MovementIntent F
      → ClientInputAdmission
      → WorldInputQueue F × MovementEnqueueResult
  admitted q i accept = push_movement q i
  admitted q i ignore_stale = (q, ignored_stale)
  admitted q i reject_too_far_ahead = (q, rejected)
  admitted q i reject_invalid = (q, rejected)

  unfoldable pub take_frame : WorldInputQueue F → WorldInputQueue F × List (WorldInput F)
  take_frame q = (record q { pending = [] }, q.pending)

  -- The tracker is kept.
  unfoldable pub clear : WorldInputQueue F → WorldInputQueue F
  clear q = record q { pending = []; accepted_combat_requests = [] }

  unfoldable pub enqueue_chat : WorldInputQueue F → ℤ → List ℕ → List ℕ → WorldInputQueue F × Bool
  enqueue_chat q sender_id audience message =
      if leb_ℤ sender_id (pos 0)
        || length audience == 0
        || ltb 16 (length audience)
        || length message == 0
        || ltb 512 (length message)
      then (q, false)
      else if not (all_bytes is_element_char audience) || not (all_bytes is_message_char message)
      then (q, false)
      else if is_full q
      then (q, false)
      else (
        push q (
            WorldInputBody.chat
              (record { sender_id = sender_id; audience = audience; message = message })),
        true,
      )

module _ {F : Type 0} (fl : FloatOps F) where
  unfoldable pub enqueue_sequenced_movement :
      WorldInputQueue F → ℤ → F → F → F → ℕ → WorldInputQueue F × MovementEnqueueResult
  enqueue_sequenced_movement q session_id dx dy dz client_input_sequence =
      let i : MovementIntent F = record {
        sequence = 0;
        session_id = session_id;
        dx = dx;
        dy = dy;
        dz = dz;
        client_input_sequence = client_input_sequence;
      } in
      if leb_ℤ session_id (pos 0) || not (is_valid_movement_delta fl dx dy dz)
      then (q, rejected)
      else if client_input_sequence == 0
      then push_movement q i
      else admitted q i (admit q.input_sequence_tracker session_id client_input_sequence)

  -- `power`'s test, which attacks and spells share.
  abbrev pub is_bad_power : F → Bool
  is_bad_power power = not (fl.is_finite power) || fl.fleb power (fzero fl)

  unfoldable pub enqueue_combat : WorldInputQueue F → ℤ → ℤ → F → List ℕ → WorldInputQueue F × Bool
  enqueue_combat q attacker_id target_id power request_id =
      if leb_ℤ attacker_id (pos 0) || leb_ℤ target_id (pos 0) || is_bad_power power
      then (q, false)
      else if is_full q
      then (q, false)
      else if is_refused_request q.accepted_combat_requests attacker_id request_id
      then (q, false)
      else (
        record (push q (
            WorldInputBody.combat (record {
              attacker_id = attacker_id;
              target_id = target_id;
              power = power;
              request_id = request_id;
            }))) {
              accepted_combat_requests =
                  note_request q.accepted_combat_requests attacker_id request_id;
            },
        true,
      )

  unfoldable pub enqueue_spell :
      WorldInputQueue F → ℤ → ℤ → List ℕ → F → List ℕ → WorldInputQueue F × Bool
  enqueue_spell q caster_id target_id element power request_id =
      if leb_ℤ caster_id (pos 0)
        || leb_ℤ target_id (pos 0)
        || length element == 0
        || ltb 32 (length element)
        || is_bad_power power
      then (q, false)
      else if not (all_bytes is_element_char element)
      then (q, false)
      else if is_full q
      then (q, false)
      else if is_refused_request q.accepted_combat_requests caster_id request_id
      then (q, false)
      else (
        record (push q (
            WorldInputBody.spell (record {
              caster_id = caster_id;
              target_id = target_id;
              element = element;
              power = power;
              request_id = request_id;
            }))) {
              accepted_combat_requests =
                  note_request q.accepted_combat_requests caster_id request_id;
            },
        true,
      )
