-- ===== src/World/Field/Inputs/FirstPass.antt =====
-- The first pass of `Field::processInputs` of src/Field.cpp: how it ends, and the movers and casters
-- of a frame that it lets through.
use seed_origin.Base.{
  ℕ, Bool, true, false, List, [], ◌∷◌, Option, none, some, is_some, ℤ, lookup, ℤ_key, Result, ok,
  err, ◌>>◌, fail_if, not, ◌||◌, ltb, ◌==◌, length, all_bytes, All, ◌≡◌, ◌≢◌, refl, sym, ◌∙◌, arith,
}
use seed_origin.World.Float.{FloatOps}
use seed_origin.World.Entities.{Player, Position}
use seed_origin.World.Ether.{is_known_element}
use seed_origin.World.Movement.{integrate_movement}
use seed_origin.World.Input.{CombatIntent, SpellIntent, WorldInput, WorldInputBody}
use seed_origin.World.Field.{Field, resolve_player_id, find_player}
use seed_origin.World.Field.Bindings.{IsConsistent}
use seed_origin.World.Field.Calls.{has_player-find_player}
use seed_origin.World.Field.Check.{
  Outcome, done, rejected, crashed, ◌>>?◌, require, require_some, dereference, projected_or,
  succeeds, Projection, check_input, check_inputs,
}
use seed_origin.World.Field.Inputs.Extent.{Preserves}
use seed_origin.World.Field.Combat.{
  combat_verdict, is_element_char, validate_spell, validate_combat,
}

-- The mover of an input is a player in the field.
abbrev pub HasMover : {F : Type 0} → Field F → WorldInputBody F → Type 0
HasMover f (WorldInputBody.movement i) = is_some (find_player f i.session_id) ≡ true
HasMover f (WorldInputBody.action a) = Unit
HasMover f (WorldInputBody.combat i) = Unit
HasMover f (WorldInputBody.spell i) = Unit
HasMover f (WorldInputBody.chat i) = Unit

pub dereference_lem :
    {R A B : Type 0} (o : Option A) (k : A → Outcome R B)
    → is_some o ≡ true
    → ((a : A) → k a ≢ crashed)
    → dereference o k ≢ crashed
unfolding dereference
dereference_lem none k h n = cc
dereference_lem (some a) k h n = n a

pub require_some_lem :
    {R A B : Type 0} (o : Option A) (r : R) (k : A → Outcome R B)
    → ((a : A) → k a ≢ crashed)
    → require_some o r k ≢ crashed
unfolding require_some
require_some_lem none r k n = λ e. cc
require_some_lem (some a) r k n = n a

require_lem :
    {A : Type 0} (b : Bool) (o : Outcome (Unit {0}) A)
    → (b ≡ true → o ≢ crashed)
    → require b o ≢ crashed
unfolding require
require_lem true o n = n refl
require_lem false o n = λ e. cc

succeeds->> : (m k : Result (Unit {0})) → succeeds (m >> k) ≡ true → succeeds k ≡ true
succeeds->> (ok u) k h = h
succeeds->> (err e) k h = cc

pub done_lem : {R A : Type 0} (a : A) (o : Outcome R A) → o ≡ done a → o ≢ crashed
done_lem a o h = λ e. cc

module _ {F : Type 0} where
  Preserves-resolve_player_id :
      (f g : Field F) (id : ℤ) → Preserves f g → resolve_player_id g id ≡ resolve_player_id f id
  unfolding resolve_player_id
  Preserves-resolve_player_id f g id p = ground (arith, p.same_residents id, p.same_sessions)

  pub Preserves-find_player :
      (f g : Field F) (id : ℤ)
      → Preserves f g
      → is_some (find_player g id) ≡ is_some (find_player f id)
  Preserves-find_player f g id p =
      ground
        (arith, p.same_residents (resolve_player_id f id), Preserves-resolve_player_id f g id p)

  pub Preserves-HasMover :
      (f g : Field F) (b : WorldInputBody F) → Preserves f g → HasMover f b → HasMover g b
  Preserves-HasMover f g (WorldInputBody.movement i) p h =
      Preserves-find_player f g i.session_id p ∙ h
  Preserves-HasMover f g (WorldInputBody.action a) p h = tt
  Preserves-HasMover f g (WorldInputBody.combat i) p h = tt
  Preserves-HasMover f g (WorldInputBody.spell i) p h = tt
  Preserves-HasMover f g (WorldInputBody.chat i) p h = tt

  projected_or_lem :
      {A B : Type 0} (o : Option A) (player : Option (Player F)) (part : Player F → A)
      (k : A → Outcome (Unit {0}) B)
      → is_some player ≡ true
      → ((a : A) → k a ≢ crashed)
      → projected_or o player part k ≢ crashed
  unfolding projected_or
  projected_or_lem (some a) player part k h n = n a
  projected_or_lem none player part k h n = dereference_lem player _ h (λ p. n (part p))

module _ {F : Type 0} (fl : FloatOps F) where
  verdict_lem :
      (a : Option (Player F)) (q : Option (Position F)) (alive : Bool) (power : F)
      → succeeds (combat_verdict fl a q alive power) ≡ true
      → is_some a ≡ true
  verdict_lem none q alive power h = cc
  verdict_lem (some a) q alive power h = refl

  pub validate_combat-find_player :
      (f : Field F) (i : CombatIntent F)
      → succeeds (validate_combat fl f i) ≡ true
      → is_some (find_player f i.attacker_id) ≡ true
  unfolding validate_combat
  validate_combat-find_player f i h = verdict_lem (find_player f i.attacker_id) _ _ _ h

  pub validate_spell-find_player :
      (f : Field F) (i : SpellIntent F)
      → succeeds (validate_spell fl f i) ≡ true
      → is_some (find_player f i.caster_id) ≡ true
  unfolding validate_spell
  validate_spell-find_player f i h = validate_combat-find_player f _ (
      succeeds->>
        (fail_if (length i.element == 0 || ltb 32 (length i.element)) "spell element is invalid"
          >> fail_if (not (is_known_element i.element)) "spell element is unknown"
          >> fail_if (not (all_bytes is_element_char i.element))
              "spell element contains invalid characters")
        _ h)

  check_input-NoCrash :
      (f : Field F) (tick : ℕ) (pr : Projection F) (b : WorldInputBody F)
      → IsConsistent f
      → check_input fl f tick pr b ≢ crashed
  unfolding check_input
  check_input-NoCrash f tick pr (WorldInputBody.movement i) w = require_lem _ _ (λ h.
      require_lem _ _ (λ v.
        projected_or_lem (lookup i.session_id pr.position) (find_player f i.session_id) _ _
          (sym (has_player-find_player f i.session_id w) ∙ h)
          (λ p.
            require_some_lem (integrate_movement fl p.x p.y p.z i.dx i.dy i.dz) tt _
              (λ q. done_lem _ _ refl))))
  check_input-NoCrash f tick pr (WorldInputBody.action a) w =
      require_lem _ _ (λ h. done_lem pr _ refl)
  check_input-NoCrash f tick pr (WorldInputBody.combat i) w =
      require_lem _ _
        (λ h. require_some_lem _ _ _ (λ next. require_lem _ _ (λ c. done_lem _ _ refl)))
  check_input-NoCrash f tick pr (WorldInputBody.spell i) w = require_lem _ _ (λ h.
      require_some_lem _ _ _ (λ cost. require_some_lem _ _ _ (λ next. require_lem _ _ (λ c.
        projected_or_lem (lookup i.caster_id pr.mp) (find_player f i.caster_id) _ _
          (validate_spell-find_player f i h) (λ mp. require_lem _ _ (λ e. done_lem _ _ refl))))))
  check_input-NoCrash f tick pr (WorldInputBody.chat i) w = done_lem pr _ refl

  require-eq-done :
      {A : Type 0} (b : Bool) (o : Outcome (Unit {0}) A) (a : A) → require b o ≡ done a → b ≡ true
  unfolding require
  require-eq-done true o a h = refl
  require-eq-done false o a h = cc

  check_input-HasMover :
      (f : Field F) (tick : ℕ) (pr later : Projection F) (b : WorldInputBody F)
      → IsConsistent f
      → check_input fl f tick pr b ≡ done later
      → HasMover f b
  unfolding check_input
  check_input-HasMover f tick pr later (WorldInputBody.movement i) w h =
      sym (has_player-find_player f i.session_id w) ∙ require-eq-done _ _ later h
  check_input-HasMover f tick pr later (WorldInputBody.action a) w h = tt
  check_input-HasMover f tick pr later (WorldInputBody.combat i) w h = tt
  check_input-HasMover f tick pr later (WorldInputBody.spell i) w h = tt
  check_input-HasMover f tick pr later (WorldInputBody.chat i) w h = tt

  -- What the first pass leaves to the second: it ends, and a frame that it lets through has movers
  -- that are there.
  pub check_inputs_lem :
      (f : Field F) (tick : ℕ) (pr : Projection F) (is : List (WorldInput F))
      → IsConsistent f
      → (check_inputs fl f tick pr is ≢ crashed)
        × ((later : Projection F)
            → check_inputs fl f tick pr is ≡ done later
            → All (λ i. HasMover f i.body) is)
  unfolding check_inputs
  check_inputs_lem f tick pr [] w = (done_lem pr _ refl, λ later h. tt)
  check_inputs_lem f tick pr (i ∷ is) w =
      behind (check_input fl f tick pr i.body) refl (check_input-NoCrash f tick pr i.body w)
        (λ next. check_inputs_lem f tick next is w)
    where
      behind :
          (o : Outcome (Unit {0}) (Projection F))
          → check_input fl f tick pr i.body ≡ o
          → o ≢ crashed
          → ((next : Projection F)
              → (check_inputs fl f tick next is ≢ crashed)
                × ((later : Projection F)
                    → check_inputs fl f tick next is ≡ done later
                    → All (λ j. HasMover f j.body) is))
          → ((o >>? λ next. check_inputs fl f tick next is) ≢ crashed)
            × ((later : Projection F)
                → (o >>? λ next. check_inputs fl f tick next is) ≡ done later
                → All (λ j. HasMover f j.body) (i ∷ is))
      behind crashed h n k = ((λ e. n e), (λ later e. cc))
      behind (rejected u) h n k = ((λ e. cc), (λ later e. cc))
      behind (done next) h n k = (
        (k next).0,
        (λ later e. (check_input-HasMover f tick pr next i.body w h, (k next).1 later e)),
      )
