-- ===== src/World/Field/Inputs.antt =====
-- The second pass of `Field::processInputs` of src/Field.cpp: the inputs are applied, each to the
-- field that the last one leaves, and a failure rolls back.
pub mod Extent
pub mod Turns
pub mod Atomicity
pub mod FirstPass
pub mod Safety
pub mod Cooldown
pub mod Payment
pub mod Ticks
pub mod Spacing
use seed_origin.Base.{
  ℕ, ◌+◌, Bool, true, false, not, ◌||◌, List, [], ◌∷◌, ◌++◌, Option, none, some, ltb, if◌then◌else◌,
  ℤ, pos, ◌-ℤ◌, ltb_ℤ, Map, lookup, insert, ℤ_key, Result, ok, err,
}
use seed_origin.World.Float.{FloatOps}
use seed_origin.World.Status.{Status, gain_mp}
use seed_origin.World.Entities.{Position, Player, set_player_position, set_coordinates, Action}
use seed_origin.World.Ether.{
  EtherAttribute, fire, EnvironmentEther, fzero, attribute_for_element, conductivity, decay,
  adverse_effect_severity,
}
use seed_origin.World.Movement.{is_valid_movement_delta, integrate_movement}
use seed_origin.World.Input.{
  MovementIntent, CombatIntent, SpellIntent, WorldInput, WorldInputBody, CombatResolution,
}
use seed_origin.World.Field.{Field, resolve_player_id, has_player, find_player}
use seed_origin.World.Field.Combat.{
  attack_cooldown_ticks, spell_cooldown_ticks, tick_after, with_player, target_hp, apply_action,
  spell_mp_cost, validate_combat, validate_spell, apply_combat, apply_spell,
}
use seed_origin.World.Field.Check.{
  Outcome, done, rejected, crashed, ◌>>?◌, require_some, dereference, tick_or_zero, Projection,
  initial_projection, check_inputs,
}

module _ {F : Type 0} where
  -- The assignments from the copies that were taken before the second pass: all but `fieldStatus`.
  unfoldable pub restore : Field F → Field F → Field F
  restore before f = record f {
    player_list = before.player_list;
    npc_list = before.npc_list;
    field_ether = before.field_ether;
    next_attack_tick = before.next_attack_tick;
    next_spell_tick = before.next_spell_tick;
    last_ether_hazard = before.last_ether_hazard;
  }

module _ {F : Type 0} (fl : FloatOps F) where
  -- What a turn of the second loop yields: the field, and the resolutions that it adds.
  abbrev pub Applied : Type 0
  Applied = Outcome (Field F) (Field F × List (CombatResolution F))

  abbrev pub apply_movement : Field F → MovementIntent F → Applied
  apply_movement f i =
      let id = resolve_player_id f i.session_id in
      dereference (lookup id f.player_list) (λ p.
        require_some (integrate_movement fl p.position.x p.position.y p.position.z i.dx i.dy i.dz) f
          (λ (x, y, z).
            done (
              with_player f id (λ q. set_player_position q (set_coordinates p.position x y z)),
              [],
            )))

  -- What is left to do behind `applyCombat`.
  abbrev pub combat_resolved :
      Field F → ℕ → ℕ → CombatIntent F → Field F × Result (Unit {0}) → Applied
  combat_resolved f tick sequence i (g, err e) = rejected g
  combat_resolved f tick sequence i (g, ok u) =
      let until = tick_or_zero (tick_after tick attack_cooldown_ticks) in
      done (
        record g { next_attack_tick = insert i.attacker_id until g.next_attack_tick },
        (record {
          spell = false;
          input_sequence = sequence;
          actor_id = i.attacker_id;
          target_id = i.target_id;
          element = [];
          request_id = i.request_id;
          base_power = i.power;
          effective_power = i.power;
          damage = target_hp f i.target_id -ℤ target_hp g i.target_id;
          remaining_hp = target_hp g i.target_id;
          mp_spent = pos 0;
          cooldown_until = until;
          ether_delta = (fzero fl, fzero fl, fzero fl, fzero fl);
        })
            ∷ [],
      )

  abbrev spend_mp : ℤ → Player F → Player F
  spend_mp cost p = record p { status = gain_mp p.status (pos 0 -ℤ cost) }

  abbrev or_fire : Option EtherAttribute → EtherAttribute
  or_fire none = fire
  or_fire (some a) = a

  abbrev ether_change : EnvironmentEther F → EnvironmentEther F → F × F × F × F
  ether_change before after = (
    fl.fsub after.fire_value before.fire_value,
    fl.fsub after.water_value before.water_value,
    fl.fsub after.earth_value before.earth_value,
    fl.fsub after.air_value before.air_value,
  )

  -- The effective power that the second loop computes next to `applySpell`.
  abbrev effective_power_of : Field F → SpellIntent F → F
  effective_power_of f i =
      fl.fmul i.power (conductivity fl f.field_ether (or_fire (attribute_for_element i.element)))

  -- What is left to do behind `applySpell`; `h` is the field once the caster has paid.
  abbrev pub spell_resolved :
      Field F → ℕ → ℕ → SpellIntent F → Field F × Result (Unit {0}) → Applied
  spell_resolved f tick sequence i (g, err e) = rejected g
  spell_resolved f tick sequence i (g, ok u) = require_some (spell_mp_cost fl i.power) g (λ cost.
      dereference (find_player g i.caster_id) (λ caster.
        let h = with_player g (resolve_player_id g i.caster_id) (spend_mp cost) in
        let until = tick_or_zero (tick_after tick spell_cooldown_ticks) in
        done (
          record h { next_spell_tick = insert i.caster_id until h.next_spell_tick },
          (record {
            spell = true;
            input_sequence = sequence;
            actor_id = i.caster_id;
            target_id = i.target_id;
            element = i.element;
            request_id = i.request_id;
            base_power = i.power;
            effective_power = effective_power_of f i;
            damage = target_hp f i.target_id -ℤ target_hp h i.target_id;
            remaining_hp = target_hp h i.target_id;
            mp_spent = cost;
            cooldown_until = until;
            ether_delta = ether_change f.field_ether h.field_ether;
          })
              ∷ [],
        )))

  -- One turn of the second loop.
  unfoldable pub apply_input : Field F → ℕ → ℕ → WorldInputBody F → Applied
  apply_input f tick sequence (WorldInputBody.movement i) = apply_movement f i
  apply_input f tick sequence (WorldInputBody.action a) = done (apply_action f a, [])
  apply_input f tick sequence (WorldInputBody.combat i) =
      combat_resolved f tick sequence i (apply_combat fl f i)
  apply_input f tick sequence (WorldInputBody.spell i) =
      spell_resolved f tick sequence i (apply_spell fl f i)
  apply_input f tick sequence (WorldInputBody.chat i) = done (f, [])

  unfoldable pub apply_inputs :
      Field F → ℕ → List (WorldInput F) → List (CombatResolution F) → Applied
  apply_inputs f tick [] resolutions = done (f, resolutions)
  apply_inputs f tick (i ∷ is) resolutions = apply_input f tick i.sequence i.body >>? λ (g, added).
      apply_inputs g tick is (resolutions ++ added)

  -- The end of the second pass: the roll-back, or the decay of the ether.
  abbrev pub finish : Field F → Applied → Applied
  finish before crashed = crashed
  finish before (rejected g) = rejected (restore before g)
  finish before (done (g, resolutions)) =
      let ether = decay fl g.field_ether in
      done (
        record g { field_ether = ether; last_ether_hazard = adverse_effect_severity fl ether },
        resolutions,
      )

  -- The end of the first pass.
  abbrev pub commit :
      Field F → ℕ → List (WorldInput F) → Outcome (Unit {0}) (Projection F) → Applied
  commit f tick inputs crashed = crashed
  commit f tick inputs (rejected u) = rejected f
  commit f tick inputs (done pr) = finish f (apply_inputs f tick inputs [])

  unfoldable pub process_inputs : Field F → List (WorldInput F) → ℕ → Applied
  process_inputs f inputs tick =
      commit f tick inputs (check_inputs fl f tick (initial_projection f) inputs)
