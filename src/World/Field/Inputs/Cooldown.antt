-- ===== src/World/Field/Inputs/Cooldown.antt =====
-- The cooldowns and the magic points that the first pass of `Field::processInputs` of src/Field.cpp
-- holds the inputs of a frame to.
use seed_origin.Base.{
  ℕ, ◌+◌, false, List, [], ◌∷◌, Option, none, some, ℤ, eqb_ℤ, Map, lookup, insert, ℤ_key,
  lookup-insert, All, ◌≡◌, ◌<◌, refl, subst, arith,
}
use seed_origin.World.Float.{FloatOps}
use seed_origin.World.Input.{WorldInput, WorldInputBody, CombatResolution}
use seed_origin.World.Field.{Field}
use seed_origin.World.Field.Combat.{tick_after, attack_cooldown_ticks, spell_cooldown_ticks}
use seed_origin.World.Field.Check.{
  Outcome, done, rejected, crashed, ◌>>?◌, require, require_some, dereference, projected_or,
  is_cooling_down, Projection, initial_projection, check_input, check_inputs,
}
use seed_origin.World.Field.Inputs.{commit, process_inputs}

-- The actor of an attack and the caster of a spell.
abbrev pub attacker_of : {F : Type 0} → WorldInputBody F → Option ℤ
attacker_of (WorldInputBody.combat i) = some i.attacker_id
attacker_of (WorldInputBody.movement i) = none
attacker_of (WorldInputBody.action a) = none
attacker_of (WorldInputBody.spell i) = none
attacker_of (WorldInputBody.chat i) = none

abbrev pub caster_of : {F : Type 0} → WorldInputBody F → Option ℤ
caster_of (WorldInputBody.spell i) = some i.caster_id
caster_of (WorldInputBody.movement i) = none
caster_of (WorldInputBody.action a) = none
caster_of (WorldInputBody.combat i) = none
caster_of (WorldInputBody.chat i) = none

abbrev pub cons_some : Option ℤ → List ℤ → List ℤ
cons_some none xs = xs
cons_some (some x) xs = x ∷ xs

-- The actors of a frame, in the order of its inputs.
abbrev pub actors : {F : Type 0} → (WorldInputBody F → Option ℤ) → List (WorldInput F) → List ℤ
actors actor_of [] = []
actors actor_of (i ∷ is) = cons_some (actor_of i.body) (actors actor_of is)

-- No number occurs twice.
abbrev pub Distinct : List ℤ → Type 0
Distinct [] = Unit
Distinct (x ∷ xs) = All (λ y. eqb_ℤ y x ≡ false) xs × Distinct xs

-- No cooldown holds the actor in this tick.
abbrev pub IsReady : ℕ → Map ℤ ℕ → ℤ → Type 0
IsReady tick ticks a = is_cooling_down tick (lookup a ticks) ≡ false

-- What a turn of the first loop does to the cooldowns: it holds its actor to them and starts
-- another.
abbrev pub Step : ℕ → ℕ → Map ℤ ℕ → Map ℤ ℕ → Option ℤ → Type 0
Step tick duration before after none = after ≡ before
Step tick duration before after (some a) =
    IsReady tick before a × (after ≡ insert a (tick + duration) before)

inserted-IsReady :
    (tick duration : ℕ) (a : ℤ) (ticks : Map ℤ ℕ) (xs : List ℤ)
    → 0 < duration
    → All (IsReady tick (insert a (tick + duration) ticks)) xs
    → All (IsReady tick ticks) xs × All (λ y. eqb_ℤ y a ≡ false) xs
inserted-IsReady tick duration a ticks [] h r = (tt, tt)
inserted-IsReady tick duration a ticks (x ∷ xs) h (r, rs) =
    let (old, other) = inserted-IsReady tick duration a ticks xs h rs in
    let both : IsReady tick ticks x × (eqb_ℤ x a ≡ false) =
      ground (arith, lookup-insert x a (tick + duration) ticks) in
    ((both.0, old), (both.1, other))

-- Actors that are ready behind such a step were ready before it, and are others.
Step-IsReady :
    (tick duration : ℕ) (before after : Map ℤ ℕ) (o : Option ℤ) (xs : List ℤ)
    → 0 < duration
    → Step tick duration before after o
    → All (IsReady tick after) xs
    → Distinct xs
    → All (IsReady tick before) (cons_some o xs) × Distinct (cons_some o xs)
Step-IsReady tick duration before after none xs h s r d =
    (subst (λ t. All (IsReady tick t) xs) s r, d)
Step-IsReady tick duration before after (some a) xs h (ready, e) r d =
    let (old, other) =
      inserted-IsReady tick duration a before xs h (subst (λ t. All (IsReady tick t) xs) e r) in
    ((ready, old), (other, d))

module _ {F : Type 0} (fl : FloatOps F) where
  check_input-attack :
      (f : Field F) (tick : ℕ) (pr next : Projection F) (b : WorldInputBody F)
      → check_input fl f tick pr b ≡ done next
      → Step tick attack_cooldown_ticks pr.attack_tick next.attack_tick (attacker_of b)
  unfolding check_input require require_some dereference projected_or tick_after
  check_input-attack f tick pr next (WorldInputBody.movement i) h = ground arith
  check_input-attack f tick pr next (WorldInputBody.action a) h = ground arith
  check_input-attack f tick pr next (WorldInputBody.combat i) h = ground arith
  check_input-attack f tick pr next (WorldInputBody.spell i) h = ground arith
  check_input-attack f tick pr next (WorldInputBody.chat i) h = ground arith

  pub check_input-spell :
      (f : Field F) (tick : ℕ) (pr next : Projection F) (b : WorldInputBody F)
      → check_input fl f tick pr b ≡ done next
      → Step tick spell_cooldown_ticks pr.spell_tick next.spell_tick (caster_of b)
  unfolding check_input require require_some dereference projected_or tick_after
  check_input-spell f tick pr next (WorldInputBody.movement i) h = ground arith
  check_input-spell f tick pr next (WorldInputBody.action a) h = ground arith
  check_input-spell f tick pr next (WorldInputBody.combat i) h = ground arith
  check_input-spell f tick pr next (WorldInputBody.spell i) h = ground arith
  check_input-spell f tick pr next (WorldInputBody.chat i) h = ground arith

  -- The first pass on a list of inputs, for one kind of actor.
  check_inputs-IsReady :
      (f : Field F) (tick duration : ℕ) (ticks : Projection F → Map ℤ ℕ)
      (actor_of : WorldInputBody F → Option ℤ)
      → 0 < duration
      → ((pr next : Projection F) (b : WorldInputBody F)
          → check_input fl f tick pr b ≡ done next
          → Step tick duration (ticks pr) (ticks next) (actor_of b))
      → (pr later : Projection F) (is : List (WorldInput F))
      → check_inputs fl f tick pr is ≡ done later
      → All (IsReady tick (ticks pr)) (actors actor_of is) × Distinct (actors actor_of is)
  unfolding check_inputs
  check_inputs-IsReady f tick duration ticks actor_of d step pr later [] h = (tt, tt)
  check_inputs-IsReady f tick duration ticks actor_of d step pr later (i ∷ is) h =
      behind (check_input fl f tick pr i.body) refl h
        (λ next e. check_inputs-IsReady f tick duration ticks actor_of d step next later is e)
    where
      behind :
          (o : Outcome (Unit {0}) (Projection F))
          → check_input fl f tick pr i.body ≡ o
          → (o >>? λ next. check_inputs fl f tick next is) ≡ done later
          → ((next : Projection F)
              → check_inputs fl f tick next is ≡ done later
              → All (IsReady tick (ticks next)) (actors actor_of is)
                × Distinct (actors actor_of is))
          → All (IsReady tick (ticks pr)) (actors actor_of (i ∷ is))
            × Distinct (actors actor_of (i ∷ is))
      behind crashed e k rest = cc
      behind (rejected u) e k rest = cc
      behind (done next) e k rest =
          Step-IsReady tick duration (ticks pr) (ticks next) (actor_of i.body) (actors actor_of is)
            d (step pr next i.body e) (rest next k).0 (rest next k).1

  pub commit-eq-done :
      (f : Field F) (tick : ℕ) (is : List (WorldInput F)) (o : Outcome (Unit {0}) (Projection F))
      (r : Field F × List (CombatResolution F))
      → commit fl f tick is o ≡ done r
      → (pr : Projection F) × (o ≡ done pr)
  commit-eq-done f tick is crashed r h = cc
  commit-eq-done f tick is (rejected u) r h = cc
  commit-eq-done f tick is (done pr) r h = (pr, refl)

  -- In a frame that is accepted no two attacks carry the same attacker's number and no two
  -- spells the same caster's, and the field before it holds none of these numbers by a
  -- cooldown; the numbers are those that the inputs carry, of a session or of a player, which
  -- are not resolved to players here.
  pub process_inputs-IsReady :
      (f : Field F) (inputs : List (WorldInput F)) (tick : ℕ)
      (r : Field F × List (CombatResolution F))
      → process_inputs fl f inputs tick ≡ done r
      → All (IsReady tick f.next_attack_tick) (actors attacker_of inputs)
        × Distinct (actors attacker_of inputs)
        × All (IsReady tick f.next_spell_tick) (actors caster_of inputs)
        × Distinct (actors caster_of inputs)
  unfolding process_inputs
  process_inputs-IsReady f inputs tick r h =
      let (later, e) = commit-eq-done f tick inputs _ r h in
      let (ready, once) =
        check_inputs-IsReady f tick attack_cooldown_ticks (λ pr. pr.attack_tick) attacker_of
          (omega arith) (check_input-attack f tick) (initial_projection f) later inputs e in
      let (ready_too, once_too) =
        check_inputs-IsReady f tick spell_cooldown_ticks (λ pr. pr.spell_tick) caster_of
          (omega arith) (check_input-spell f tick) (initial_projection f) later inputs e in
      (ready, once, ready_too, once_too)
