-- ===== src/Tests/Field.antt =====
-- Frames of src/Field.cpp on concrete values, with integers for `float`.
use seed_origin.Base.{
  arith, ◌≤◌, ◌⊎◌, ℕ, ◌+◌, ◌*◌, ◌/◌, Bool, true, false, List, [], ◌∷◌, ℤ, pos, negsuc, ◌+ℤ◌, ◌-ℤ◌,
  ltb_ℤ, leb_ℤ, read_int64, lookup, has, insert, ℤ_key, codes, ◌≡◌, ◌≢◌, refl, All,
}
use seed_origin.World.Float.{FloatOps, FloatText}
use seed_origin.World.InputQueue.{to_string}
use seed_origin.World.Status.{make_status, gain}
use seed_origin.World.Entities.{Position, Player, make_player}
use seed_origin.World.Movement.{is_valid_movement_delta, integrate_movement}
use seed_origin.World.Input.{WorldInput, WorldInputBody, CombatResolution}
use seed_origin.World.Field.{
  Field, resolve_player_id, bind_session, put_player, unbind_session, forget_bindings_for_player,
}
use seed_origin.World.Field.Bindings.{IsConsistent}
use seed_origin.World.Field.Calls.{
  initial_field, FieldCall, set_player, bind, calls, calls-IsConsistent,
}
use seed_origin.World.Field.Combat.{
  validate_combat, find_target_position, target_is_alive, apply_combat, apply_damage_to_target,
  with_player, target_hp, tick_after,
}
use seed_origin.World.Field.Check.{
  Outcome, done, rejected, crashed, check_input, check_inputs, require, require_some, dereference,
  projected_or,
}
use seed_origin.World.Field.Inputs.{process_inputs, apply_input, apply_inputs, restore}
use seed_origin.World.Field.Inputs.Safety.{process_inputs-NoCrash}
use seed_origin.World.Field.Inputs.Atomicity.{process_inputs-IsRolledBack}
use seed_origin.World.Field.Inputs.Spacing.{Disjoint, process_inputs-IsSpaced}
use seed_origin.World.Field.Inputs.Cooldown.{Distinct, IsReady, process_inputs-IsReady}
use seed_origin.World.Field.Inputs.Payment.{CanPay, process_inputs-CanPay}
use seed_origin.World.Field.Frame.{process_frame}
use seed_origin.World.Field.Frame.Queues.{IsPending, process_frame_lem}
use seed_origin.World.Field.Combat.{validate_spell, spell_mp_cost, apply_spell}
use seed_origin.World.Ether.{
  resolve_spell, conductivity, add, decay, instability, adverse_effect_severity,
}

abbrev pub times : ℤ → ℤ → ℤ
times (pos a) (pos b) = pos (a * b)
times (pos a) (negsuc b) = pos 0 -ℤ pos (a * (b + 1))
times (negsuc a) (pos b) = pos 0 -ℤ pos ((a + 1) * b)
times (negsuc a) (negsuc b) = pos ((a + 1) * (b + 1))

abbrev pub magnitude : ℤ → ℕ
magnitude (pos a) = a
magnitude (negsuc a) = a + 1

abbrev pub whole_numbers : FloatOps ℤ
whole_numbers = record {
  lit = λ n d. pos (n / d);
  fadd = λ a b. a +ℤ b;
  fsub = λ a b. a -ℤ b;
  fmul = times;
  fdiv = λ a b. pos (magnitude a / magnitude b);
  fneg = λ a. pos 0 -ℤ a;
  fabs = λ a. pos (magnitude a);
  fsqrt = λ a. a;
  of_count = λ n. pos n;
  fltb = ltb_ℤ;
  fleb = leb_ℤ;
  is_finite = λ a. true;
  to_long = λ a. a;
  ceil_tenth = λ a. pos ((magnitude a + 9) / 10);
  ceil_tenth_is_finite = λ a. true;
  ceil_tenth_below_one = λ a. leb_ℤ a (pos 0);
  ceil_tenth_above_max = λ a. false;
}

abbrev pub at : ℤ → ℤ → Position ℤ
at id x = record { player_id = id; x = x; y = pos 0; z = pos 0 }

abbrev pub fighter : ℤ → Player ℤ
fighter id = make_player id (make_status (pos 50) (pos 20)) (at id (pos 3))

-- Players 1 and 2, played by the sessions 11 and 12.
abbrev pub arena_calls : List (FieldCall ℤ)
arena_calls =
    set_player (fighter (pos 1))
    ∷ set_player (fighter (pos 2))
    ∷ bind (pos 11) (pos 1)
    ∷ bind (pos 12) (pos 2)
    ∷ []

abbrev pub arena : Field ℤ
arena = calls (initial_field whole_numbers) arena_calls

pub arena-IsConsistent : IsConsistent arena
arena-IsConsistent = calls-IsConsistent whole_numbers arena_calls

calls-IsConsistent_example : IsConsistent (calls (initial_field whole_numbers) arena_calls)
calls-IsConsistent_example = calls-IsConsistent whole_numbers arena_calls

abbrev walk : ℤ → WorldInput ℤ
walk dx = record {
  sequence = 1;
  body = WorldInputBody.movement (record {
    sequence = 0;
    session_id = pos 11;
    dx = dx;
    dy = pos 0;
    dz = pos 0;
    client_input_sequence = 0;
  });
}

abbrev strike : WorldInput ℤ
strike = record {
  sequence = 2;
  body =
      WorldInputBody.combat
        (record { attacker_id = pos 11; target_id = pos 12; power = pos 5; request_id = [] });
}

process_inputs-NoCrash_example :
    process_inputs whole_numbers arena (walk (pos 4) ∷ strike ∷ []) 7 ≢ crashed
process_inputs-NoCrash_example =
    process_inputs-NoCrash whole_numbers arena (walk (pos 4) ∷ strike ∷ []) 7 arena-IsConsistent

-- Both blows pass the checks, and the first one leaves nobody for the second one to hit.
abbrev blow : ℤ → ℤ → WorldInput ℤ
blow from power = record {
  sequence = 2;
  body =
      WorldInputBody.combat
        (record { attacker_id = from; target_id = pos 12; power = power; request_id = [] });
}

blows_rejected :
    process_inputs whole_numbers arena (blow (pos 11) (pos 50) ∷ blow (pos 12) (pos 5) ∷ []) 7
    ≡ rejected arena
unfolding process_inputs check_inputs check_input require require_some dereference projected_or
    validate_combat find_target_position target_is_alive tick_after lookup calls bind_session
    put_player insert forget_bindings_for_player unbind_session resolve_player_id ◌+ℤ◌ ◌-ℤ◌
    apply_inputs apply_input apply_combat apply_damage_to_target with_player gain target_hp restore
blows_rejected = refl

process_inputs-IsRolledBack_example : arena ≡ record arena { field_status = arena.field_status }
process_inputs-IsRolledBack_example =
    process_inputs-IsRolledBack whole_numbers arena arena
      (blow (pos 11) (pos 50) ∷ blow (pos 12) (pos 5) ∷ []) 7 blows_rejected

abbrev scuffle : List (WorldInput ℤ)
scuffle = strike ∷ walk (pos 4) ∷ blow (pos 12) (pos 5) ∷ []

-- The field that a frame leaves, and its resolutions.
abbrev after_done :
    Outcome (Field ℤ) (Field ℤ × List (CombatResolution ℤ)) → Field ℤ × List (CombatResolution ℤ)
after_done (done r) = r
after_done (rejected f) = (f, [])
after_done crashed = (arena, [])

abbrev is_done : Outcome (Field ℤ) (Field ℤ × List (CombatResolution ℤ)) → Bool
is_done (done r) = true
is_done (rejected f) = false
is_done crashed = false

done_lem :
    (o : Outcome (Field ℤ) (Field ℤ × List (CombatResolution ℤ)))
    → is_done o ≡ true
    → o ≡ done (after_done o)
done_lem (done r) h = refl
done_lem (rejected f) h = cc
done_lem crashed h = cc

scuffle-is_done : is_done (process_inputs whole_numbers arena scuffle 7) ≡ true
unfolding process_inputs check_inputs check_input require require_some dereference projected_or
    validate_combat find_target_position target_is_alive tick_after lookup calls bind_session
    put_player insert forget_bindings_for_player unbind_session resolve_player_id ◌+ℤ◌ ◌-ℤ◌
    is_valid_movement_delta integrate_movement apply_inputs apply_input apply_combat
    apply_damage_to_target with_player gain target_hp
scuffle-is_done = refl

-- One player attacks twice, once by its session's number and once by its own.
twice-is_done :
    is_done
      (process_inputs whole_numbers arena (blow (pos 11) (pos 5) ∷ blow (pos 1) (pos 5) ∷ []) 7)
    ≡ true
unfolding process_inputs check_inputs check_input require require_some dereference projected_or
    validate_combat find_target_position target_is_alive tick_after lookup calls bind_session
    put_player insert forget_bindings_for_player unbind_session resolve_player_id ◌+ℤ◌ ◌-ℤ◌
    apply_inputs apply_input apply_combat apply_damage_to_target with_player gain target_hp
twice-is_done = refl

process_inputs-IsReady_example :
    All (IsReady 7 arena.next_attack_tick) (pos 11 ∷ pos 12 ∷ [])
    × Distinct (pos 11 ∷ pos 12 ∷ [])
    × All (IsReady 7 arena.next_spell_tick) []
    × Distinct []
process_inputs-IsReady_example =
    process_inputs-IsReady whole_numbers arena scuffle 7
      (after_done (process_inputs whole_numbers arena scuffle 7))
      (done_lem (process_inputs whole_numbers arena scuffle 7) scuffle-is_done)

abbrev fireball : WorldInput ℤ
fireball = record {
  sequence = 3;
  body = WorldInputBody.spell (record {
    caster_id = pos 11;
    target_id = pos 12;
    element = codes "fire";
    power = pos 40;
    request_id = [];
  });
}

fireball-is_done : is_done (process_inputs whole_numbers arena (fireball ∷ strike ∷ []) 7) ≡ true
unfolding process_inputs check_inputs check_input require require_some dereference projected_or
    validate_combat find_target_position target_is_alive tick_after lookup calls bind_session
    put_player insert forget_bindings_for_player unbind_session resolve_player_id ◌+ℤ◌ ◌-ℤ◌
    is_valid_movement_delta integrate_movement apply_inputs apply_input apply_combat
    apply_damage_to_target with_player gain target_hp validate_spell spell_mp_cost apply_spell
    resolve_spell conductivity add decay instability adverse_effect_severity
fireball-is_done = refl

process_inputs-CanPay_example :
    All (λ i. CanPay whole_numbers arena i.body) (fireball ∷ strike ∷ [])
process_inputs-CanPay_example =
    process_inputs-CanPay whole_numbers arena (fireball ∷ strike ∷ []) 7
      (after_done (process_inputs whole_numbers arena (fireball ∷ strike ∷ []) 7))
      (done_lem (process_inputs whole_numbers arena (fireball ∷ strike ∷ []) 7) fireball-is_done)

abbrev moving : Field ℤ
moving = record arena { position_queue = at (pos 1) (pos 9) ∷ [] }

process_frame_lem_example :
    ((process_frame moving 7).position_queue ≡ [])
    × ((process_frame moving 7).action_queue ≡ [])
    × All (IsPending 7) (process_frame moving 7).npc_respawns
    × ((process_frame moving 7).session_to_player_id ≡ moving.session_to_player_id)
    × ((k : ℤ) → has k (process_frame moving 7).player_list ≡ has k moving.player_list)
process_frame_lem_example = process_frame_lem moving 7

abbrev pub whole_texts : FloatText ℤ
whole_texts = record { show = to_string; read = read_int64 }

-- Two frames of the tick 7: another one attacks in the second.
abbrev first_blow : List (WorldInput ℤ)
first_blow = blow (pos 11) (pos 5) ∷ []

abbrev second_blow : List (WorldInput ℤ)
second_blow = blow (pos 12) (pos 5) ∷ []

abbrev behind_first : Field ℤ × List (CombatResolution ℤ)
behind_first = after_done (process_inputs whole_numbers arena first_blow 7)

first_blow-is_done : is_done (process_inputs whole_numbers arena first_blow 7) ≡ true
unfolding process_inputs check_inputs check_input require require_some dereference projected_or
    validate_combat find_target_position target_is_alive tick_after lookup calls bind_session
    put_player insert forget_bindings_for_player unbind_session resolve_player_id ◌+ℤ◌ ◌-ℤ◌
    apply_inputs apply_input apply_combat apply_damage_to_target with_player gain target_hp
first_blow-is_done = refl

second_blow-is_done : is_done (process_inputs whole_numbers behind_first.0 second_blow 7) ≡ true
unfolding process_inputs check_inputs check_input require require_some dereference projected_or
    validate_combat find_target_position target_is_alive tick_after lookup calls bind_session
    put_player insert forget_bindings_for_player unbind_session resolve_player_id ◌+ℤ◌ ◌-ℤ◌
    apply_inputs apply_input apply_combat apply_damage_to_target with_player gain target_hp
second_blow-is_done = refl

process_inputs-IsSpaced_example :
    ((8 ≤ 7) ⊎ Disjoint (pos 11 ∷ []) (pos 12 ∷ [])) × ((9 ≤ 7) ⊎ Disjoint [] [])
process_inputs-IsSpaced_example =
    process_inputs-IsSpaced whole_numbers arena first_blow second_blow 7 7 behind_first
      (after_done (process_inputs whole_numbers behind_first.0 second_blow 7)) (omega arith)
      (done_lem (process_inputs whole_numbers arena first_blow 7) first_blow-is_done)
      (done_lem (process_inputs whole_numbers behind_first.0 second_blow 7) second_blow-is_done)
