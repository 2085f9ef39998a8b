-- ===== src/World/Field/Combat.antt =====
-- src/Field.cpp: targets, attacks, spells and actions, each on the field at that moment.
use seed_origin.Base.{
  ℕ, ◌+◌, ◌-◌, Bool, false, not, ◌||◌, Option, none, some, ltb, ◌==◌, if◌then◌else◌, length,
  all_bytes, is_alnum, String, ℤ, pos, ◌-ℤ◌, leb_ℤ, ltb_ℤ, eqb_ℤ, uint64_max, lookup, insert, ℤ_key,
  Result, ok, err, ◌>>◌, fail_if,
}
use seed_origin.World.Float.{FloatOps}
use seed_origin.World.Status.{Status, gain_hp, gain_mp}
use seed_origin.World.Entities.{Position, Player, Npc, is_alive, apply_damage, Action}
use seed_origin.World.Ether.{fzero, is_known_element, resolve_spell}
use seed_origin.World.Input.{CombatIntent, SpellIntent}
use seed_origin.World.Field.{Field, resolve_player_id, find_player, find_npc, gain_status}

abbrev pub attack_cooldown_ticks : ℕ
attack_cooldown_ticks = 1

abbrev pub spell_cooldown_ticks : ℕ
spell_cooldown_ticks = 2

-- `tickAfter`; `none` where it returns false.
unfoldable pub tick_after : ℕ → ℕ → Option ℕ
tick_after tick duration = if ltb (uint64_max - duration) tick then none else some (tick + duration)

module _ {F : Type 0} where
  -- A write through the iterator that `playerList.find(id)` yields, where it is not the end.
  unfoldable pub with_player : Field F → ℤ → (Player F → Player F) → Field F
  with_player f id change = elim (lookup id f.player_list) [
    | none ↦ f
    | some p ↦ record f { player_list = insert id (change p) f.player_list }
  ]

  unfoldable pub find_target_position : Field F → ℤ → Option (Position F)
  find_target_position f id = elim (find_player f id) [
    | some p ↦ some p.position
    | none ↦ elim (find_npc f id) [ none ↦ none | some n ↦ some n.position ]
  ]

  unfoldable pub target_is_alive : Field F → ℤ → Bool
  target_is_alive f id = elim (find_player f id) [
    | some p ↦ ltb_ℤ (pos 0) p.status.hp
    | none ↦ elim (find_npc f id) [ none ↦ false | some n ↦ is_alive n ]
  ]

  unfoldable pub target_hp : Field F → ℤ → ℤ
  target_hp f id = elim (find_player f id) [
    | some p ↦ p.status.hp
    | none ↦ elim (find_npc f id) [ none ↦ pos 0 | some n ↦ n.status.hp ]
  ]

  abbrev pub hurt_player : ℤ → Player F → Player F
  hurt_player damage p = record p { status = gain_hp p.status (pos 0 -ℤ damage) }

  abbrev pub hurt_npc : Field F → ℤ → Option (Npc F) → Option (Field F)
  hurt_npc f id none = none
  hurt_npc f id (some n) = some (record f { npc_list = insert id n f.npc_list })

  -- `none` where the call returns false, which leaves the field as it was.
  unfoldable pub apply_damage_to_target : Field F → ℤ → ℤ → Option (Field F)
  apply_damage_to_target f id damage = elim (find_player f id) [
    | some p ↦
        if leb_ℤ p.status.hp (pos 0) || leb_ℤ damage (pos 0)
        then none
        else some (with_player f (resolve_player_id f id) (hurt_player damage))
    | none ↦ elim (find_npc f id) [ none ↦ none | some n ↦ hurt_npc f id (apply_damage n damage) ]
  ]

  abbrev pub gain_player_status : Status → Player F → Player F
  gain_player_status s p = record p { status = gain_mp (gain_hp p.status s.hp) s.mp }

  unfoldable pub apply_action : Field F → Action F → Field F
  apply_action f a =
      if not a.valid
      then f
      else if eqb_ℤ a.action_type (pos 0)
      then gain_status f a.status
      else if eqb_ℤ a.action_type (pos 1)
      then with_player f a.player_to.id (gain_player_status a.status)
      else if eqb_ℤ a.action_type (pos 2) || eqb_ℤ a.action_type (pos 3)
      then with_player f a.player_from.id (gain_player_status a.status)
      else f

  abbrev pub damaged : Field F → Option (Field F) → String → Field F × Result (Unit {0})
  damaged f none message = (f, err message)
  damaged f (some g) message = (g, ok tt)

-- A character of a spell's element, `_` and `-` among them.
abbrev pub is_element_char : ℕ → Bool
is_element_char c = is_alnum c || c == b'_' || c == b'-'

module _ {F : Type 0} (fl : FloatOps F) where
  -- `spellMpCost`; `none` where it returns false.
  unfoldable pub spell_mp_cost : F → Option ℤ
  spell_mp_cost power =
      if not (fl.ceil_tenth_is_finite power)
        || fl.ceil_tenth_below_one power
        || fl.ceil_tenth_above_max power
      then none
      else some (fl.ceil_tenth power)

  -- The range test of `validateCombat`.
  abbrev pub is_out_of_range : Position F → Position F → Bool
  is_out_of_range p q =
      let dx = fl.fsub p.x q.x in
      let dy = fl.fsub p.y q.y in
      let dz = fl.fsub p.z q.z in
      fl.fltb (fl.lit 10000 1) (fl.fadd (fl.fadd (fl.fmul dx dx) (fl.fmul dy dy)) (fl.fmul dz dz))

  abbrev pub is_invalid_power : F → Bool
  is_invalid_power power =
      not (fl.is_finite power) || fl.fleb power (fzero fl) || fl.fltb (fl.lit 100000 1) power

  abbrev pub combat_verdict : Option (Player F) → Option (Position F) → Bool → F → Result (Unit {0})
  combat_verdict none target alive power = err "combat actor or target is not present"
  combat_verdict (some a) none alive power = err "combat actor or target is not present"
  combat_verdict (some a) (some q) alive power =
      fail_if (not alive) "combat actor or target is not present"
      >> fail_if (is_out_of_range a.position q) "combat target is out of range"
      >> fail_if (is_invalid_power power) "combat power is invalid"

  unfoldable pub validate_combat : Field F → CombatIntent F → Result (Unit {0})
  validate_combat f i =
      combat_verdict (find_player f i.attacker_id) (find_target_position f i.target_id)
        (target_is_alive f i.target_id) i.power

  unfoldable pub validate_spell : Field F → SpellIntent F → Result (Unit {0})
  validate_spell f i =
      fail_if (length i.element == 0 || ltb 32 (length i.element)) "spell element is invalid"
      >> fail_if (not (is_known_element i.element)) "spell element is unknown"
      >> fail_if (not (all_bytes is_element_char i.element))
          "spell element contains invalid characters"
      >> validate_combat f (record {
        attacker_id = i.caster_id;
        target_id = i.target_id;
        power = i.power;
        request_id = i.request_id;
      })

  abbrev pub combat_damage :
      Field F → CombatIntent F → Result (Unit {0}) → Field F × Result (Unit {0})
  combat_damage f i (err e) = (f, err e)
  combat_damage f i (ok u) =
      damaged f (apply_damage_to_target f i.target_id (fl.to_long i.power))
        "combat target is not alive"

  -- The field afterwards, and what the call returns.
  unfoldable pub apply_combat : Field F → CombatIntent F → Field F × Result (Unit {0})
  apply_combat f i = combat_damage f i (validate_combat f i)

  -- The damage that follows `resolveSpell`.
  abbrev pub spell_damage : Field F → ℤ → Result F → Field F × Result (Unit {0})
  spell_damage f target_id (err e) = (f, err e)
  spell_damage f target_id (ok power) =
      damaged f (apply_damage_to_target f target_id (fl.to_long power)) "spell target is not alive"

  abbrev pub spell_cast : Field F → SpellIntent F → Result (Unit {0}) → Field F × Result (Unit {0})
  spell_cast f i (err e) = (f, err e)
  spell_cast f i (ok u) =
      let (ether, power) = resolve_spell fl f.field_ether i.element i.power in
      spell_damage (record f { field_ether = ether }) i.target_id power

  unfoldable pub apply_spell : Field F → SpellIntent F → Field F × Result (Unit {0})
  apply_spell f i = spell_cast f i (validate_spell f i)
