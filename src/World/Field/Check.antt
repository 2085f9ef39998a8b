-- ===== src/World/Field/Check.antt =====
-- The first pass of `Field::processInputs` of src/Field.cpp: the inputs of a frame are checked
-- against the field before it, with the positions, magic points and cooldowns that the inputs so
-- far leave.
use seed_origin.Base.{
  ℕ, Bool, true, false, not, List, [], ◌∷◌, Option, none, some, ltb, ℤ, ◌-ℤ◌, ltb_ℤ, Map, lookup,
  insert, ℤ_key, Result, ok, err,
}
use seed_origin.World.Float.{FloatOps}
use seed_origin.World.Entities.{Position, Player}
use seed_origin.World.Movement.{is_valid_movement_delta, integrate_movement}
use seed_origin.World.Input.{MovementIntent, CombatIntent, SpellIntent, WorldInput, WorldInputBody}
use seed_origin.World.Field.{Field, has_player, find_player}
use seed_origin.World.Field.Combat.{
  attack_cooldown_ticks, spell_cooldown_ticks, tick_after, spell_mp_cost, validate_combat,
  validate_spell,
}

-- How a pass ends: it yields a value, it returns false and leaves something behind, or it uses a
-- null pointer or the end of a map as a player, which no execution may do.
pub data Outcome (R A : Type 0) : Type 0 where
  done : A → Outcome R A
  rejected : R → Outcome R A
  crashed : Outcome R A

infixl 5 ◌>>?◌
abbrev pub ◌>>?◌ : {R A B : Type 0} → Outcome R A → (A → Outcome R B) → Outcome R B
done a >>? f = f a
rejected r >>? f = rejected r
crashed >>? f = crashed

unfoldable pub require : {A : Type 0} → Bool → Outcome (Unit {0}) A → Outcome (Unit {0}) A
require true rest = rest
require false rest = rejected tt

unfoldable pub require_some : {R A B : Type 0} → Option A → R → (A → Outcome R B) → Outcome R B
require_some none r f = rejected r
require_some (some a) r f = f a

-- A pointer or an iterator that the code uses without a test.
unfoldable pub dereference : {R A B : Type 0} → Option A → (A → Outcome R B) → Outcome R B
dereference none f = crashed
dereference (some a) f = f a

abbrev pub succeeds : {A : Type 0} → Result A → Bool
succeeds (ok a) = true
succeeds (err e) = false

-- The locals of the first pass.
pub record Projection (F : Type 0) : Type 0 where
  pub mp : Map ℤ ℤ
  pub attack_tick : Map ℤ ℕ
  pub spell_tick : Map ℤ ℕ
  pub position : Map ℤ (Position F)

-- Whether a cooldown in `ticks` forbids an actor to act in this tick.
abbrev pub is_cooling_down : ℕ → Option ℕ → Bool
is_cooling_down tick none = false
is_cooling_down tick (some until) = ltb tick until

abbrev pub tick_or_zero : Option ℕ → ℕ
tick_or_zero none = 0
tick_or_zero (some t) = t

module _ {F : Type 0} where
  abbrev pub initial_projection : Field F → Projection F
  initial_projection f = record {
    mp = [];
    attack_tick = f.next_attack_tick;
    spell_tick = f.next_spell_tick;
    position = [];
  }

  -- What is projected for an actor, or else what its player has.
  unfoldable pub projected_or :
      {A B : Type 0}
      → Option A
      → Option (Player F)
      → (Player F → A)
      → (A → Outcome (Unit {0}) B)
      → Outcome (Unit {0}) B
  projected_or (some a) player part k = k a
  projected_or none player part k = dereference player (λ p. k (part p))

module _ {F : Type 0} (fl : FloatOps F) where
  abbrev pub check_movement :
      Field F → Projection F → MovementIntent F → Outcome (Unit {0}) (Projection F)
  check_movement f pr i = require (has_player f i.session_id) (
      require (is_valid_movement_delta fl i.dx i.dy i.dz) (
        projected_or (lookup i.session_id pr.position) (find_player f i.session_id)
          (λ p. p.position)
          (λ p. require_some (integrate_movement fl p.x p.y p.z i.dx i.dy i.dz) tt (λ (x, y, z).
            done (record pr {
              position =
                  insert i.session_id (record { player_id = i.session_id; x = x; y = y; z = z })
                    pr.position;
            })))))

  abbrev pub check_combat :
      Field F → ℕ → Projection F → CombatIntent F → Outcome (Unit {0}) (Projection F)
  check_combat f tick pr i = require (succeeds (validate_combat fl f i)) (
      require_some (tick_after tick attack_cooldown_ticks) tt (λ next.
        require (not (is_cooling_down tick (lookup i.attacker_id pr.attack_tick)))
          (done (record pr { attack_tick = insert i.attacker_id next pr.attack_tick }))))

  abbrev pub check_spell :
      Field F → ℕ → Projection F → SpellIntent F → Outcome (Unit {0}) (Projection F)
  check_spell f tick pr i = require (succeeds (validate_spell fl f i)) (
      require_some (spell_mp_cost fl i.power) tt (λ cost.
        require_some (tick_after tick spell_cooldown_ticks) tt (λ next.
          require (not (is_cooling_down tick (lookup i.caster_id pr.spell_tick))) (
            projected_or (lookup i.caster_id pr.mp) (find_player f i.caster_id) (λ p. p.status.mp)
              (λ available. require (not (ltb_ℤ available cost)) (
                done (record pr {
                  mp = insert i.caster_id (available -ℤ cost) pr.mp;
                  spell_tick = insert i.caster_id next pr.spell_tick;
                })))))))

  -- One turn of the first loop.
  unfoldable pub check_input :
      Field F → ℕ → Projection F → WorldInputBody F → Outcome (Unit {0}) (Projection F)
  check_input f tick pr (WorldInputBody.movement i) = check_movement f pr i
  check_input f tick pr (WorldInputBody.action a) = require a.valid (done pr)
  check_input f tick pr (WorldInputBody.combat i) = check_combat f tick pr i
  check_input f tick pr (WorldInputBody.spell i) = check_spell f tick pr i
  check_input f tick pr (WorldInputBody.chat i) = done pr

  unfoldable pub check_inputs :
      Field F → ℕ → Projection F → List (WorldInput F) → Outcome (Unit {0}) (Projection F)
  check_inputs f tick pr [] = done pr
  check_inputs f tick pr (i ∷ is) =
      check_input f tick pr i.body >>? λ later. check_inputs f tick later is
