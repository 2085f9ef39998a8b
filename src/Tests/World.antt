-- ===== src/Tests/World.antt =====
-- The field, the input queue and the saturating counts on concrete values, with integers for `float`.
use seed_origin.Base.{
  ◌-◌, true, false, List, [], ◌∷◌, ℤ, pos, negsuc, ◌+ℤ◌, ◌-ℤ◌, ◌≤ℤ◌, ◌<ℤ◌, lookup, insert, ℤ_key,
  codes, ◌≡◌, ◌≢◌, refl, arith, int64_max,
}
use seed_origin.World.Status.{make_status, gain, gain_hp, IsValidStatus}
use seed_origin.World.Status.Saturation.{clamped_sum, gain-eq-clamped_sum, gain_hp-IsValid}
use seed_origin.World.Movement.{is_valid_movement_delta}
use seed_origin.World.Field.{
  Field, resolve_player_id, player_id_for_session, session_id_for_player, bind_session, put_player,
  unbind_session, forget_bindings_for_player, is_taken, allocate_gameplay_id, allocate_from,
}
use seed_origin.World.Field.Calls.{
  calls, bind_session_lem, allocate_gameplay_id-IsFree, allocate_gameplay_id-exhausted,
}
use seed_origin.World.InputSequence.{admit}
use seed_origin.World.InputQueue.{
  WorldInputQueue, is_refused_request, new_queue, enqueued, ignored_stale, enqueue_combat,
  enqueue_spell, enqueue_sequenced_movement,
}
use seed_origin.World.InputQueue.Frames.{
  QueueCall, movement, chat, take, combat, clear_all, queue_calls, IsOrdered, queue_calls-IsOrdered,
}
use seed_origin.World.InputQueue.Requests.{enqueue_combat-once, enqueue_sequenced_movement-stale}
use seed_origin.Tests.Field.{whole_numbers, arena, fighter}

gain-eq-clamped_sum_example : gain (pos int64_max) (pos 5) ≡ clamped_sum (pos int64_max) (pos 5)
gain-eq-clamped_sum_example =
    gain-eq-clamped_sum (pos int64_max) (pos 5) (omega arith) (omega arith) (ground arith)

session_11 : player_id_for_session arena (pos 11) ≡ pos 1
unfolding lookup calls bind_session put_player insert forget_bindings_for_player unbind_session
    resolve_player_id
session_11 = refl

rebound : (bind_session arena (pos 13) (pos 2)).1 ≡ true
unfolding lookup calls bind_session put_player insert forget_bindings_for_player unbind_session
    resolve_player_id
rebound = refl

bind_session_lem_example :
    (player_id_for_session (bind_session arena (pos 13) (pos 2)).0 (pos 13) ≡ pos 2)
    × (session_id_for_player (bind_session arena (pos 13) (pos 2)).0 (pos 2) ≡ pos 13)
bind_session_lem_example = bind_session_lem arena (pos 13) (pos 2) rebound

-- The last number but one is the next, and a player has it.
abbrev last_number : ℤ
last_number = pos (int64_max - 1)

abbrev crowded : Field ℤ
crowded = record arena {
  player_list = insert last_number (fighter last_number) arena.player_list;
  next_gameplay_id = last_number;
}

crowded_exhausted : (allocate_gameplay_id crowded).1 ≡ pos 0
unfolding allocate_gameplay_id allocate_from lookup calls bind_session put_player insert
    forget_bindings_for_player unbind_session resolve_player_id ◌+ℤ◌ ◌-ℤ◌
crowded_exhausted = refl

allocate_gameplay_id-exhausted_example : is_taken crowded last_number ≡ true
allocate_gameplay_id-exhausted_example =
    allocate_gameplay_id-exhausted crowded last_number (omega arith) crowded_exhausted (omega arith)
      (omega arith)

abbrev near_last : Field ℤ
near_last = record arena { next_gameplay_id = last_number }

near_last_found : (allocate_gameplay_id near_last).1 ≢ pos 0
unfolding allocate_gameplay_id allocate_from lookup calls bind_session put_player insert
    forget_bindings_for_player unbind_session resolve_player_id ◌+ℤ◌ ◌-ℤ◌
near_last_found = λ e. cc

allocate_gameplay_id-IsFree_example :
    (is_taken near_last (allocate_gameplay_id near_last).1 ≡ false)
    × (last_number ≤ℤ (allocate_gameplay_id near_last).1)
    × ((allocate_gameplay_id near_last).1 <ℤ (allocate_gameplay_id near_last).0.next_gameplay_id)
    × ((allocate_gameplay_id near_last).1 <ℤ pos int64_max)
allocate_gameplay_id-IsFree_example =
    allocate_gameplay_id-IsFree near_last (omega arith) near_last_found

abbrev some_calls : List (QueueCall ℤ)
some_calls =
    movement (pos 11) (pos 1) (pos 0) (pos 0) 1
    ∷ chat (pos 11) (codes "all") (codes "hi")
    ∷ take
    ∷ movement (pos 11) (pos 1) (pos 0) (pos 0) 2
    ∷ []

queue_calls-IsOrdered_example : IsOrdered (queue_calls whole_numbers new_queue some_calls)
queue_calls-IsOrdered_example = queue_calls-IsOrdered whole_numbers some_calls

abbrev attacked : WorldInputQueue ℤ
attacked = (enqueue_combat whole_numbers new_queue (pos 1) (pos 2) (pos 5) (codes "r1")).0

attack_queued :
    (enqueue_combat whole_numbers new_queue (pos 1) (pos 2) (pos 5) (codes "r1")).1 ≡ true
unfolding enqueue_combat is_refused_request
attack_queued = refl

-- What other calls come between, another attack of the same actor among them.
abbrev between : List (QueueCall ℤ)
between = take ∷ combat (pos 1) (pos 2) (pos 5) (codes "r2") ∷ some_calls

enqueue_combat-once_example :
    let later = queue_calls whole_numbers attacked between in
    (enqueue_combat whole_numbers later (pos 1) (pos 3) (pos 6) (codes "r1") ≡ (later, false))
    × (enqueue_spell whole_numbers later (pos 1) (pos 3) (codes "fire") (pos 6) (codes "r1")
        ≡ (later, false))
enqueue_combat-once_example =
    enqueue_combat-once whole_numbers new_queue (pos 1) (pos 2) (pos 3) (codes "fire") (pos 5)
      (pos 6) (codes "r1") between refl attack_queued
      (refl, (refl, (refl, (refl, (refl, (refl, tt))))))

abbrev stepped : WorldInputQueue ℤ
stepped = (enqueue_sequenced_movement whole_numbers new_queue (pos 11) (pos 1) (pos 0) (pos 0) 2).0

step_queued :
    (enqueue_sequenced_movement whole_numbers new_queue (pos 11) (pos 1) (pos 0) (pos 0) 2).1
    ≡ enqueued
unfolding enqueue_sequenced_movement is_valid_movement_delta ◌+ℤ◌ admit lookup
step_queued = refl

step-IsValid : is_valid_movement_delta whole_numbers (pos 2) (pos 0) (pos 0) ≡ true
unfolding is_valid_movement_delta ◌+ℤ◌
step-IsValid = refl

abbrev movements_between : List (QueueCall ℤ)
movements_between =
    movement (pos 12) (pos 1) (pos 0) (pos 0) 1
    ∷ clear_all
    ∷ movement (pos 11) (pos 1) (pos 0) (pos 0) 3
    ∷ []

enqueue_sequenced_movement-stale_example :
    let later = queue_calls whole_numbers stepped movements_between in
    enqueue_sequenced_movement whole_numbers later (pos 11) (pos 2) (pos 0) (pos 0) 1
    ≡ (later, ignored_stale)
enqueue_sequenced_movement-stale_example =
    enqueue_sequenced_movement-stale whole_numbers new_queue (pos 11) (pos 1) (pos 0) (pos 0)
      (pos 2) (pos 0) (pos 0) 2 1 movements_between refl step_queued (omega arith) refl step-IsValid

gain_hp-IsValid_example : IsValidStatus (gain_hp (make_status (pos 50) (pos 20)) (negsuc 69))
gain_hp-IsValid_example =
    gain_hp-IsValid (make_status (pos 50) (pos 20)) (negsuc 69) (ground arith) (record {
      hp_nonneg = omega arith;
      hp_fits = omega arith;
      mp_nonneg = omega arith;
      mp_fits = omega arith;
    })
