-- ===== src/World/Field/Inputs/Turns.antt =====
-- What the turns of the second pass of src/Field.cpp's `processInputs`, and the whole pass, can
-- change.
use seed_origin.Base.{ℕ, List, [], ◌∷◌, ◌++◌, ℤ, lookup, ℤ_key, Result, ok, err}
use seed_origin.World.Float.{FloatOps}
use seed_origin.World.Entities.{set_player_position, set_coordinates}
use seed_origin.World.Ether.{EnvironmentEther, resolve_spell}
use seed_origin.World.Movement.{integrate_movement}
use seed_origin.World.Input.{
  MovementIntent, CombatIntent, SpellIntent, WorldInput, WorldInputBody, CombatResolution,
}
use seed_origin.World.Field.{Field, resolve_player_id, find_player}
use seed_origin.World.Field.Combat.{
  with_player, combat_damage, spell_damage, spell_cast, apply_combat, apply_spell, validate_combat,
  validate_spell, spell_mp_cost,
}
use seed_origin.World.Field.Check.{done, rejected, crashed, ◌>>?◌}
use seed_origin.World.Field.Inputs.{
  Applied, apply_movement, combat_resolved, spell_resolved, apply_input, apply_inputs,
}
use seed_origin.World.Field.Inputs.Extent.{
  Preserves, Preserves-refl, Preserves-trans, Leaves, ether-Preserves, ticks-Preserves,
  with_player-Preserves, apply_action-Preserves, damaged-Preserves, require_some-Leaves,
  dereference-Leaves,
}

module _ {F : Type 0} (fl : FloatOps F) where
  combat_damage-Preserves :
      (f : Field F) (i : CombatIntent F) (r : Result (Unit {0}))
      → Preserves f (combat_damage fl f i r).0
  combat_damage-Preserves f i (err e) = Preserves-refl f
  combat_damage-Preserves f i (ok u) =
      damaged-Preserves f f i.target_id (fl.to_long i.power) "combat target is not alive"
        (Preserves-refl f)

  pub apply_combat-Preserves :
      (f : Field F) (i : CombatIntent F) → Preserves f (apply_combat fl f i).0
  unfolding apply_combat
  apply_combat-Preserves f i = combat_damage-Preserves f i (validate_combat fl f i)

  spell_damage-Preserves :
      (f : Field F) (id : ℤ) (ether : EnvironmentEther F) (r : Result F)
      → Preserves f (spell_damage fl (record f { field_ether = ether }) id r).0
  spell_damage-Preserves f id ether (err e) = ether-Preserves f ether
  spell_damage-Preserves f id ether (ok power) =
      damaged-Preserves f (record f { field_ether = ether }) id (fl.to_long power)
        "spell target is not alive" (ether-Preserves f ether)

  spell_cast-Preserves :
      (f : Field F) (i : SpellIntent F) (r : Result (Unit {0}))
      → Preserves f (spell_cast fl f i r).0
  spell_cast-Preserves f i (err e) = Preserves-refl f
  spell_cast-Preserves f i (ok u) =
      let r = resolve_spell fl f.field_ether i.element i.power in
      spell_damage-Preserves f i.target_id r.0 r.1

  pub apply_spell-Preserves : (f : Field F) (i : SpellIntent F) → Preserves f (apply_spell fl f i).0
  unfolding apply_spell
  apply_spell-Preserves f i = spell_cast-Preserves f i (validate_spell fl f i)

  pub apply_movement-Leaves :
      (f : Field F) (i : MovementIntent F) → Leaves f (apply_movement fl f i)
  unfolding Leaves
  apply_movement-Leaves f i =
      dereference-Leaves f (lookup (resolve_player_id f i.session_id) f.player_list) _ (λ p.
        require_some-Leaves f f
          (integrate_movement fl p.position.x p.position.y p.position.z i.dx i.dy i.dz)
          (λ (x, y, z). done (
            with_player f (resolve_player_id f i.session_id)
                (λ q. set_player_position q (set_coordinates p.position x y z)),
            [],
          ))
          (Preserves-refl f) (λ q. with_player-Preserves f (resolve_player_id f i.session_id) _))

  combat_resolved-Leaves :
      (f : Field F) (tick sequence : ℕ) (i : CombatIntent F) (r : Field F × Result (Unit {0}))
      → Preserves f r.0
      → Leaves f (combat_resolved fl f tick sequence i r)
  unfolding Leaves
  combat_resolved-Leaves f tick sequence i (g, err e) p = p
  combat_resolved-Leaves f tick sequence i (g, ok u) p = Preserves-trans p (ticks-Preserves g _ _)

  spell_resolved-Leaves :
      (f : Field F) (tick sequence : ℕ) (i : SpellIntent F) (r : Field F × Result (Unit {0}))
      → Preserves f r.0
      → Leaves f (spell_resolved fl f tick sequence i r)
  unfolding Leaves
  spell_resolved-Leaves f tick sequence i (g, err e) p = p
  spell_resolved-Leaves f tick sequence i (g, ok u) p =
      require_some-Leaves f g (spell_mp_cost fl i.power) _ p (λ cost.
        dereference-Leaves f (find_player g i.caster_id) _ (λ caster.
          let id = resolve_player_id g i.caster_id in
          Preserves-trans p (
            Preserves-trans (with_player-Preserves g id _)
              (ticks-Preserves (with_player g id _) _ _))))

  pub apply_input-Leaves :
      (f : Field F) (tick sequence : ℕ) (b : WorldInputBody F)
      → Leaves f (apply_input fl f tick sequence b)
  unfolding apply_input Leaves
  apply_input-Leaves f tick sequence (WorldInputBody.movement i) = apply_movement-Leaves f i
  apply_input-Leaves f tick sequence (WorldInputBody.action a) = apply_action-Preserves f a
  apply_input-Leaves f tick sequence (WorldInputBody.combat i) =
      combat_resolved-Leaves f tick sequence i _ (apply_combat-Preserves f i)
  apply_input-Leaves f tick sequence (WorldInputBody.spell i) =
      spell_resolved-Leaves f tick sequence i _ (apply_spell-Preserves f i)
  apply_input-Leaves f tick sequence (WorldInputBody.chat i) = Preserves-refl f

  Leaves-after : (f g : Field F) (o : Applied fl) → Preserves f g → Leaves g o → Leaves f o
  unfolding Leaves
  Leaves-after f g (done r) p q = Preserves-trans p q
  Leaves-after f g (rejected h) p q = Preserves-trans p q
  Leaves-after f g crashed p q = tt

  then-Leaves :
      (f : Field F) (o : Applied fl) (k : Field F × List (CombatResolution F) → Applied fl)
      → Leaves f o
      → ((r : Field F × List (CombatResolution F)) → Leaves r.0 (k r))
      → Leaves f (o >>? k)
  unfolding Leaves
  then-Leaves f crashed k p h = tt
  then-Leaves f (rejected g) k p h = p
  then-Leaves f (done (g, added)) k p h = Leaves-after f g _ p (h (g, added))

  pub apply_inputs-Leaves :
      (f : Field F) (tick : ℕ) (is : List (WorldInput F)) (rs : List (CombatResolution F))
      → Leaves f (apply_inputs fl f tick is rs)
  unfolding apply_inputs Leaves
  apply_inputs-Leaves f tick [] rs = Preserves-refl f
  apply_inputs-Leaves f tick (i ∷ is) rs =
      then-Leaves f (apply_input fl f tick i.sequence i.body) _
        (apply_input-Leaves f tick i.sequence i.body)
        (λ (g, added). apply_inputs-Leaves g tick is (rs ++ added))
