-- ===== src/Tests/Client.antt =====
-- Runs of the client's view of the world.
use seed_origin.Base.{
  ℕ, ◌≤◌, true, false, List, [], ◌∷◌, drop, length, replicate, ℤ, pos, codes, ◌≡◌, refl, ◌+ℤ◌, ◌-ℤ◌,
  strip_prefix, split_text, split_at, read_int64, read_digits, skip_space, digits_from,
}
use seed_origin.Client.Pending.{
  PendingMoveInput, max_pending_prediction_inputs, push, acknowledge_up_to,
}
use seed_origin.Client.Predictor.{
  PredictedPose, reset, replay, predict, reconcile, correct_render, pose_distance, rebase,
  record_reconcile,
}
use seed_origin.Client.Predictor.Agreement.{
  PredictionStep, moved, processed, prediction_step, prediction_steps, prediction_steps_agree,
}
use seed_origin.Client.Demux.{
  InboundFrameKind, InboundFrame, no_bytes, login_response, disconnect_response, append, frame_size,
  layout_of, kind_of,
}
use seed_origin.Client.Demux.Rounds.{IsInbound}
use seed_origin.Client.Demux.Delivery.{IsDelivered, demux_chunks, demux_chunks-IsDelivered}
use seed_origin.Client.Demux.Rest.{IsAtRest, append-IsAtRest}
use seed_origin.Net.Update.{WorldUpdate, event, validate_world_update}
use seed_origin.Client.Hazards.{
  HazardEffect, ClientHazardEffectQueue, backpressure, ingest, parse_hazard,
}
use seed_origin.Client.Hazards.Backpressure.{IsLost, ingest-IsLost}
use seed_origin.Tests.Field.{whole_numbers, whole_texts}
use seed_origin.World.Movement.{integrate_movement, is_valid_movement_delta}
use seed_origin.World.MovementText.{parse_finite_float}
use seed_origin.Net.Sequence.{receive, accept}

abbrev origin : PredictedPose ℤ
origin = record { x = pos 0; y = pos 0; z = pos 0 }

abbrev to_the_right : ℕ → PendingMoveInput ℤ
to_the_right n = record { client_input_sequence = n; dx = pos 2; dy = pos 0; dz = pos 0 }

-- Three movements, of which the server has heard of two.
abbrev walk_and_hear : List (PredictionStep ℤ)
walk_and_hear =
    moved (to_the_right 1) ∷ moved (to_the_right 2) ∷ processed 1 5 ∷ moved (to_the_right 3) ∷ []

walked_to :
    (prediction_steps whole_numbers
      (origin, reset whole_numbers origin)
      walk_and_hear).1.predicted_pose
    ≡ record { x = pos 6; y = pos 0; z = pos 0 }
unfolding prediction_steps predict integrate_movement is_valid_movement_delta ◌+ℤ◌ reconcile
    correct_render pose_distance ◌-ℤ◌ rebase reset push replay acknowledge_up_to record_reconcile
walked_to = refl

prediction_steps_agree_example :
    let st = prediction_steps whole_numbers (origin, reset whole_numbers origin) walk_and_hear in
    let after = prediction_step whole_numbers st (processed 1 6) in
    (replay whole_numbers st.0 st.1.pending ≡ st.1.predicted_pose)
    × (length st.1.pending ≤ max_pending_prediction_inputs)
    × (after.1.pending ≡ drop 1 st.1.pending)
    × (after.1.predicted_pose ≡ st.1.predicted_pose)
prediction_steps_agree_example = prediction_steps_agree whole_numbers origin walk_and_hear 1 6

-- A response without a payload, to a login and to a disconnect.
abbrev response : InboundFrameKind → ℕ → InboundFrame
response kind type = record { kind = kind; bytes = 0 ∷ 1 ∷ 0 ∷ type ∷ replicate 12 0 }

abbrev responses : List InboundFrame
responses = response login_response 1 ∷ response disconnect_response 6 ∷ []

login_response_IsInbound : IsInbound (response login_response 1)
unfolding frame_size layout_of kind_of
login_response_IsInbound = record { supported = refl; whole = refl; small = refl; kind_fits = refl }

disconnect_response_IsInbound : IsInbound (response disconnect_response 6)
unfolding frame_size layout_of kind_of
disconnect_response_IsInbound = record {
  supported = refl;
  whole = refl;
  small = refl;
  kind_fits = refl;
}

demux_chunks-IsDelivered_example : IsDelivered responses (
    demux_chunks no_bytes
      ((0 ∷ []) ∷ (1 ∷ 0 ∷ 1 ∷ replicate 12 0) ∷ (0 ∷ 1 ∷ 0 ∷ 6 ∷ replicate 12 0) ∷ []))
demux_chunks-IsDelivered_example =
    demux_chunks-IsDelivered responses
      ((0 ∷ []) ∷ (1 ∷ 0 ∷ 1 ∷ replicate 12 0) ∷ (0 ∷ 1 ∷ 0 ∷ 6 ∷ replicate 12 0) ∷ [])
      (login_response_IsInbound, (disconnect_response_IsInbound, tt)) refl

append-IsAtRest_example :
    IsAtRest
      (0 ∷ 1 ∷ 0 ∷ 1 ∷ [])
      (append (record { buffered = 0 ∷ 1 ∷ []; failed_state = false }) (0 ∷ 1 ∷ []))
append-IsAtRest_example =
    append-IsAtRest (record { buffered = 0 ∷ 1 ∷ []; failed_state = false }) (0 ∷ 1 ∷ []) refl

abbrev hazard_update : WorldUpdate
hazard_update = record {
  version = 1;
  kind = event;
  world_tick = 9;
  sequence = 4;
  event_id = 4;
  payload = codes "etherHazard=severity:2;instability:3";
}

abbrev hazard_effect : HazardEffect ℤ
hazard_effect = record {
  world_tick = 8;
  sequence = 3;
  event_id = 3;
  severity = pos 2;
  instability = pos 3;
}

-- As many effects as the queue holds, with the update of the next hazard to come.
abbrev full_queue : ClientHazardEffectQueue ℤ
full_queue = record {
  effects = replicate 256 hazard_effect;
  sync = record { has_sequence = true; expected_sequence = 4 };
}

no_room : (ingest whole_numbers whole_texts full_queue hazard_update).result ≡ backpressure
unfolding ingest validate_world_update parse_hazard strip_prefix split_text split_at
    parse_finite_float read_int64 read_digits skip_space digits_from receive accept
no_room = refl

ingest-IsLost_example :
    IsLost whole_numbers whole_texts full_queue
      (ingest whole_numbers whole_texts full_queue hazard_update).after
      (λ r. ingest whole_numbers whole_texts r hazard_update)
ingest-IsLost_example = ingest-IsLost whole_numbers whole_texts full_queue hazard_update no_room
