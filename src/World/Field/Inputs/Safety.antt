-- ===== src/World/Field/Inputs/Safety.antt =====
-- The pointers and iterators that `Field::processInputs` of src/Field.cpp uses without a test.
use seed_origin.Base.{
  ℕ, true, List, [], ◌∷◌, ◌++◌, is_some, ℤ_key, Result, ok, err, All, ◌≡◌, ◌≢◌, refl, ap, ◌∙◌,
}
use seed_origin.World.Float.{FloatOps}
use seed_origin.World.Movement.{integrate_movement}
use seed_origin.World.Input.{
  CombatIntent, SpellIntent, WorldInput, WorldInputBody, CombatResolution,
}
use seed_origin.World.Field.{Field, find_player}
use seed_origin.World.Field.Bindings.{IsConsistent}
use seed_origin.World.Field.Check.{
  Outcome, done, rejected, crashed, ◌>>?◌, succeeds, Projection, initial_projection, check_inputs,
}
use seed_origin.World.Field.Inputs.{
  Applied, apply_input, apply_inputs, combat_resolved, spell_resolved, finish, commit,
  process_inputs,
}
use seed_origin.World.Field.Inputs.Turns.{apply_input-Leaves, apply_spell-Preserves}
use seed_origin.World.Field.Inputs.Extent.{Preserves, Leaves}
use seed_origin.World.Field.Combat.{
  validate_spell, spell_cast, spell_mp_cost, apply_spell, apply_combat,
}
use seed_origin.World.Field.Inputs.FirstPass.{
  HasMover, dereference_lem, require_some_lem, done_lem, Preserves-find_player, Preserves-HasMover,
  check_inputs_lem, validate_spell-find_player,
}

module _ {F : Type 0} (fl : FloatOps F) where
  spell_resolved-NoCrash :
      (f : Field F) (tick sequence : ℕ) (i : SpellIntent F) (r : Field F × Result (Unit {0}))
      → Preserves f r.0
      → (r.1 ≡ ok tt → is_some (find_player f i.caster_id) ≡ true)
      → spell_resolved fl f tick sequence i r ≢ crashed
  spell_resolved-NoCrash f tick sequence i (g, err e) p h = λ a. cc
  spell_resolved-NoCrash f tick sequence i (g, ok u) p h =
      require_some_lem (spell_mp_cost fl i.power) g _ (λ cost.
        dereference_lem (find_player g i.caster_id) _
          (Preserves-find_player f g i.caster_id p ∙ h refl) (λ caster. done_lem _ _ refl))

  apply_spell-find_player :
      (f : Field F) (i : SpellIntent F)
      → (apply_spell fl f i).1 ≡ ok tt
      → is_some (find_player f i.caster_id) ≡ true
  unfolding apply_spell
  apply_spell-find_player f i h = by_verdict (validate_spell fl f i) refl h
    where
      by_verdict :
          (r : Result (Unit {0}))
          → validate_spell fl f i ≡ r
          → (spell_cast fl f i r).1 ≡ ok tt
          → is_some (find_player f i.caster_id) ≡ true
      by_verdict (err e) q k = cc
      by_verdict (ok u) q k = validate_spell-find_player fl f i (ap succeeds q)

  combat_resolved-NoCrash :
      (f : Field F) (tick sequence : ℕ) (i : CombatIntent F) (r : Field F × Result (Unit {0}))
      → combat_resolved fl f tick sequence i r ≢ crashed
  combat_resolved-NoCrash f tick sequence i (g, err e) = λ a. cc
  combat_resolved-NoCrash f tick sequence i (g, ok u) = done_lem _ _ refl

  apply_input-NoCrash :
      (f : Field F) (tick sequence : ℕ) (b : WorldInputBody F)
      → HasMover f b
      → apply_input fl f tick sequence b ≢ crashed
  unfolding apply_input
  apply_input-NoCrash f tick sequence (WorldInputBody.movement i) m =
      dereference_lem (find_player f i.session_id) _ m (λ p.
        require_some_lem
          (integrate_movement fl p.position.x p.position.y p.position.z i.dx i.dy i.dz) f _
          (λ q. done_lem _ _ refl))
  apply_input-NoCrash f tick sequence (WorldInputBody.action a) m = done_lem _ _ refl
  apply_input-NoCrash f tick sequence (WorldInputBody.combat i) m =
      combat_resolved-NoCrash f tick sequence i (apply_combat fl f i)
  apply_input-NoCrash f tick sequence (WorldInputBody.spell i) m =
      spell_resolved-NoCrash f tick sequence i (apply_spell fl f i) (apply_spell-Preserves fl f i)
        (apply_spell-find_player f i)
  apply_input-NoCrash f tick sequence (WorldInputBody.chat i) m = done_lem _ _ refl

  movers-Preserves :
      (f g : Field F) (is : List (WorldInput F))
      → Preserves f g
      → All (λ i. HasMover f i.body) is
      → All (λ i. HasMover g i.body) is
  movers-Preserves f g [] p m = tt
  movers-Preserves f g (i ∷ is) p (m, ms) =
      (Preserves-HasMover f g i.body p m, movers-Preserves f g is p ms)

  apply_inputs-NoCrash :
      (f : Field F) (tick : ℕ) (is : List (WorldInput F)) (rs : List (CombatResolution F))
      → All (λ i. HasMover f i.body) is
      → apply_inputs fl f tick is rs ≢ crashed
  unfolding apply_inputs Leaves
  apply_inputs-NoCrash f tick [] rs m = done_lem _ _ refl
  apply_inputs-NoCrash f tick (i ∷ is) rs (m, ms) =
      behind (apply_input fl f tick i.sequence i.body)
        (apply_input-Leaves fl f tick i.sequence i.body)
        (apply_input-NoCrash f tick i.sequence i.body m)
        (λ g added p. apply_inputs-NoCrash g tick is (rs ++ added) (movers-Preserves f g is p ms))
    where
      behind :
          (o : Applied fl)
          → Leaves f o
          → o ≢ crashed
          → ((g : Field F) (added : List (CombatResolution F))
              → Preserves f g
              → apply_inputs fl g tick is (rs ++ added) ≢ crashed)
          → (o >>? λ (g, added). apply_inputs fl g tick is (rs ++ added)) ≢ crashed
      behind crashed p n k = n
      behind (rejected g) p n k = λ e. cc
      behind (done (g, added)) p n k = k g added p

  finish-NoCrash : (f : Field F) (o : Applied fl) → o ≢ crashed → finish fl f o ≢ crashed
  finish-NoCrash f crashed n = n
  finish-NoCrash f (rejected g) n = λ e. cc
  finish-NoCrash f (done r) n = λ e. cc

  -- In a consistent field, processing the inputs of a frame returns true or false: it uses no
  -- null pointer and no end of a map as a player, whatever the inputs are.
  pub process_inputs-NoCrash :
      (f : Field F) (inputs : List (WorldInput F)) (tick : ℕ)
      → IsConsistent f
      → process_inputs fl f inputs tick ≢ crashed
  unfolding process_inputs
  process_inputs-NoCrash f inputs tick w =
      by_verdict (check_inputs fl f tick (initial_projection f) inputs) refl
    where
      by_verdict :
          (o : Outcome (Unit {0}) (Projection F))
          → check_inputs fl f tick (initial_projection f) inputs ≡ o
          → commit fl f tick inputs o ≢ crashed
      by_verdict crashed h = λ e. (check_inputs_lem fl f tick (initial_projection f) inputs w).0 h
      by_verdict (rejected u) h = λ e. cc
      by_verdict (done later) h = finish-NoCrash f (apply_inputs fl f tick inputs []) (
          apply_inputs-NoCrash f tick inputs []
            ((check_inputs_lem fl f tick (initial_projection f) inputs w).1 later h))
