-- ===== src/Tests/Server.antt =====
-- Runs of the world frames of the server, and of the dispatcher of its commands.
use seed_origin.Base.{
  ℕ, true, [], ◌∷◌, none, some, ℤ, pos, codes, uint64_max, ok, ◌≡◌, ◌⊎◌, refl, arith, lookup,
  insert, ◌+ℤ◌,
}
use seed_origin.Net.Command.{disconnect, NetworkCommand, validate_command}
use seed_origin.Net.RateLimit.{allow}
use seed_origin.World.Entities.{make_npc, make_action}
use seed_origin.World.Status.{make_status}
use seed_origin.World.Field.{
  put_npc, resolve_player_id, bind_session, put_player, forget_bindings_for_player, unbind_session,
}
use seed_origin.World.Field.Calls.{calls}
use seed_origin.World.Movement.{is_valid_movement_delta}
use seed_origin.World.Input.{WorldInput, WorldInputBody, MovementIntent}
use seed_origin.World.InputQueue.{new_queue}
use seed_origin.World.Field.Check.{rejected}
use seed_origin.World.ActionQueue.{FrameActions, WorldFrameInputs}
use seed_origin.World.IntentQueue.{IntentQueue, NpcAiInput, take_frame, restore_frame}
use seed_origin.World.Updates.{
  WorldFrameUpdateBuilder, build, build_actions, append_events, append_event,
}
use seed_origin.World.Updates.Numbers.{IsDelivered, build-IsDelivered}
use seed_origin.World.Applier.{WorldFrameApplier}
use seed_origin.World.Applier.Actions.{apply_actions}
use seed_origin.World.Applier.Failure.{IsKept, apply_actions-IsKept}
use seed_origin.Session.Registry.{new_registry, open_authenticated_session, logout}
use seed_origin.Server.Challenge.{ChallengePorts}
use seed_origin.Server.Dispatcher.{ServerCommandDispatcher, dispatch, handle_disconnect}
use seed_origin.Server.Dispatcher.Guards.{IsLetThrough, IsTurnedAway, dispatch-IsGuarded}
use seed_origin.Tests.Field.{whole_numbers, whole_texts, arena, at, fighter}
use seed_origin.Net.Update.{validate_world_update}
use seed_origin.World.UpdateText.{input_text}
use seed_origin.World.Field.{
  resolve_player_id, bind_session, put_player, forget_bindings_for_player, unbind_session,
}
use seed_origin.World.Field.Calls.{calls}

abbrev a_walk : WorldInput ℤ
a_walk = record {
  sequence = 1;
  body = WorldInputBody.movement (record {
    sequence = 1;
    session_id = pos 11;
    dx = pos 2;
    dy = pos 0;
    dz = pos 0;
    client_input_sequence = 5;
  });
}

abbrev walk_frame : WorldFrameInputs ℤ
walk_frame = record { world_tick = 3; inputs = a_walk ∷ a_walk ∷ [] }

abbrev third : WorldFrameUpdateBuilder
third = record { update_sequence = 3; event_id = 2 }

build_succeeds : (build whole_texts third walk_frame).outcome ≡ ok tt
unfolding build append_events append_event validate_world_update input_text
build_succeeds = refl

build-IsDelivered_example :
    IsDelivered
      (record { has_sequence = true; expected_sequence = 3 })
      3
      2
      (build whole_texts third walk_frame)
build-IsDelivered_example =
    build-IsDelivered whole_texts third walk_frame
      (record { has_sequence = true; expected_sequence = 3 }) build_succeeds refl refl

-- A movement waits, and one of an NPC that is not in the field.
abbrev movements : IntentQueue (MovementIntent ℤ)
movements = record {
  pending =
      (record {
        sequence = 1;
        session_id = pos 11;
        dx = pos 2;
        dy = pos 0;
        dz = pos 0;
        client_input_sequence = 5;
      })
      ∷ [];
  next_sequence = 2;
}

abbrev npc_inputs : IntentQueue (NpcAiInput ℤ)
npc_inputs = record {
  pending =
      (record {
        sequence = 1;
        decision = record { npc_id = pos 5; dx = pos 1; dy = pos 0; dz = pos 0 };
      })
      ∷ [];
  next_sequence = 2;
}

abbrev applier : WorldFrameApplier ℤ
applier = record {
  field = arena;
  movement_queue = none;
  npc_ai_input_queue = none;
  update_builder = third;
  owner_acks = [];
  snapshot_acks = [];
  last_processed_by_session = [];
}

abbrev no_actions : FrameActions ℤ
no_actions = record { world_tick = 3; actions = [] }

no_such_npc :
    (apply_actions whole_numbers
      (record applier { movement_queue = some movements; npc_ai_input_queue = some npc_inputs })
      no_actions).outcome
    ≡ rejected "NPC AI input is invalid for the world frame"
unfolding apply_actions take_frame resolve_player_id lookup calls bind_session put_player insert
    forget_bindings_for_player unbind_session
no_such_npc = refl

apply_actions-IsKept_example :
    IsKept movements npc_inputs (build_actions third no_actions).outcome (
      apply_actions whole_numbers
        (record applier { movement_queue = some movements; npc_ai_input_queue = some npc_inputs })
        no_actions)
apply_actions-IsKept_example =
    apply_actions-IsKept whole_numbers movements npc_inputs (ground arith) (ground arith) applier
      no_actions "NPC AI input is invalid for the world frame" no_such_npc

-- The NPC is in the field, and the last number of an update is taken: the movement of the session
-- is back in its queue, that of the NPC is not.
abbrev with_wolf : WorldFrameApplier ℤ
with_wolf = record applier {
  field =
      (put_npc arena
        (make_npc (pos 5) (codes "wolf") (make_status (pos 9) (pos 0)) (at (pos 5) (pos 1)))).0;
  update_builder = record { update_sequence = uint64_max; event_id = 2 };
  movement_queue = some movements;
  npc_ai_input_queue = some npc_inputs;
}

abbrev shout : FrameActions ℤ
shout = record {
  world_tick = 3;
  actions =
      (record {
        sequence = 1;
        action = make_action (fighter (pos 1)) (pos 0) none none (make_status (pos 0) (pos 0));
      })
      ∷ [];
}

npc_movement_lost :
    let after = (apply_actions whole_numbers with_wolf shout).applier in
    (after.movement_queue ≡ some movements)
    × (after.npc_ai_input_queue ≡ some (record { pending = []; next_sequence = 2 }))
unfolding apply_actions build_actions take_frame restore_frame put_npc is_valid_movement_delta
    resolve_player_id lookup calls bind_session put_player insert forget_bindings_for_player
    unbind_session ◌+ℤ◌
npc_movement_lost = (refl, refl)

-- Ports that know one user by every challenge.
abbrev pub one_user : ChallengePorts ℕ
one_user = record {
  claim = λ w challenge now. (w, some (pos 40));
  create = λ w user key expires. w;
  extend = λ w key now expires. (w, true);
  is_active = λ w key now. true;
  issue = λ w. (w, codes "key");
  now_unix_seconds = λ w. pos w;
}

abbrev pub dispatcher : ServerCommandDispatcher ℤ ℕ
dispatcher = record {
  registry = (open_authenticated_session (new_registry []) (pos 40)).0;
  input_queue = some new_queue;
  rate_limiter = record { counters = []; current_tick = 3 };
  snapshot_requests = 0;
  uses_challenge_login = true;
  ports_state = 0;
  field = arena;
}

abbrev farewell : NetworkCommand
farewell = record { version = 1; type = disconnect; session_id = pos 1; payload = [] }

said_farewell : (dispatch whole_numbers whole_texts one_user dispatcher farewell).1.accepted ≡ true
unfolding dispatch lookup open_authenticated_session new_registry insert allow handle_disconnect
    validate_command logout
said_farewell = refl

dispatch-IsGuarded_example :
    IsLetThrough dispatcher farewell
      (dispatch whole_numbers whole_texts one_user dispatcher farewell)
    ⊎ IsTurnedAway dispatcher (dispatch whole_numbers whole_texts one_user dispatcher farewell)
dispatch-IsGuarded_example =
    dispatch-IsGuarded whole_numbers whole_texts one_user dispatcher farewell (λ h. cc)
