-- ===== src/World/Field/Inputs/Ticks.antt =====
-- What a turn of the second loop of `Field::processInputs` of src/Field.cpp does to the cooldowns.
use seed_origin.Base.{
  ℕ, List, Option, none, some, ℤ, String, Map, insert, ℤ_key, ◌≡◌, refl, ok, err, Result, arith,
}
use seed_origin.World.Float.{FloatOps}
use seed_origin.World.Ether.{resolve_spell}
use seed_origin.World.Input.{WorldInputBody, CombatResolution, CombatIntent, SpellIntent}
use seed_origin.World.Entities.{Action}
use seed_origin.World.Field.{Field, gain_status}
use seed_origin.World.Field.Combat.{
  tick_after, attack_cooldown_ticks, spell_cooldown_ticks, with_player, apply_damage_to_target,
  apply_action, damaged, apply_combat, apply_spell, spell_damage,
}
use seed_origin.World.Field.Check.{done, require_some, dereference, tick_or_zero}
use seed_origin.World.Field.Inputs.{apply_input}
use seed_origin.World.Field.Inputs.Cooldown.{attacker_of, caster_of}

-- The cooldowns of the second field are those of the first.
abbrev pub SameTicks : {F : Type 0} → Field F → Field F → Type 0
SameTicks f g = (g.next_attack_tick ≡ f.next_attack_tick) × (g.next_spell_tick ≡ f.next_spell_tick)

-- The tick at which a cooldown that starts now is over, as the second loop computes it.
abbrev pub started : ℕ → ℕ → ℕ
started tick duration = tick_or_zero (tick_after tick duration)

abbrev pub noted : ℕ → Option ℤ → Map ℤ ℕ → Map ℤ ℕ
noted until none ticks = ticks
noted until (some a) ticks = insert a until ticks

module _ {F : Type 0} where
  damaged-SameTicks :
      (f : Field F) (id damage : ℤ) (e : String)
      → SameTicks f (damaged f (apply_damage_to_target f id damage) e).0
  unfolding apply_damage_to_target with_player
  damaged-SameTicks f id damage e = ground arith

  apply_action-SameTicks : (f : Field F) (a : Action F) → SameTicks f (apply_action f a)
  unfolding apply_action gain_status with_player
  apply_action-SameTicks f a = ground arith

module _ {F : Type 0} (fl : FloatOps F) where
  apply_combat-SameTicks : (f : Field F) (i : CombatIntent F) → SameTicks f (apply_combat fl f i).0
  unfolding apply_combat
  apply_combat-SameTicks f i =
      ground
        (arith, damaged-SameTicks f i.target_id (fl.to_long i.power) "combat target is not alive")

  spell_damage-SameTicks :
      (f : Field F) (target_id : ℤ) (power : Result F)
      → SameTicks f (spell_damage fl f target_id power).0
  spell_damage-SameTicks f target_id (err e) = (refl, refl)
  spell_damage-SameTicks f target_id (ok power) =
      damaged-SameTicks f target_id (fl.to_long power) "spell target is not alive"

  apply_spell-SameTicks : (f : Field F) (i : SpellIntent F) → SameTicks f (apply_spell fl f i).0
  unfolding apply_spell
  apply_spell-SameTicks f i =
      let (ether, power) = resolve_spell fl f.field_ether i.element i.power in
      ground (arith, spell_damage-SameTicks (record f { field_ether = ether }) i.target_id power)

  -- A turn of the second loop starts the cooldown of its attacker and that of its caster.
  pub apply_input-attack :
      (f : Field F) (tick sequence : ℕ) (b : WorldInputBody F)
      (r : Field F × List (CombatResolution F))
      → apply_input fl f tick sequence b ≡ done r
      → r.0.next_attack_tick
        ≡ noted (started tick attack_cooldown_ticks) (attacker_of b) f.next_attack_tick
  unfolding apply_input require_some dereference with_player
  apply_input-attack f tick sequence (WorldInputBody.combat i) r h =
      ground (arith, apply_combat-SameTicks f i)
  apply_input-attack f tick sequence (WorldInputBody.spell i) r h =
      ground (arith, apply_spell-SameTicks f i)
  apply_input-attack f tick sequence (WorldInputBody.movement i) r h = ground arith
  apply_input-attack f tick sequence (WorldInputBody.action a) r h =
      ground (arith, apply_action-SameTicks f a)
  apply_input-attack f tick sequence (WorldInputBody.chat i) r h = ground arith

  pub apply_input-spell :
      (f : Field F) (tick sequence : ℕ) (b : WorldInputBody F)
      (r : Field F × List (CombatResolution F))
      → apply_input fl f tick sequence b ≡ done r
      → r.0.next_spell_tick
        ≡ noted (started tick spell_cooldown_ticks) (caster_of b) f.next_spell_tick
  unfolding apply_input require_some dereference with_player
  apply_input-spell f tick sequence (WorldInputBody.combat i) r h =
      ground (arith, apply_combat-SameTicks f i)
  apply_input-spell f tick sequence (WorldInputBody.spell i) r h =
      ground (arith, apply_spell-SameTicks f i)
  apply_input-spell f tick sequence (WorldInputBody.movement i) r h = ground arith
  apply_input-spell f tick sequence (WorldInputBody.action a) r h =
      ground (arith, apply_action-SameTicks f a)
  apply_input-spell f tick sequence (WorldInputBody.chat i) r h = ground arith
