-- ===== src/World/Field/Inputs/Payment.antt =====
-- The magic points that the spells of a frame cost, which the first pass of `Field::processInputs`
-- of src/Field.cpp holds against what the casters have.
use seed_origin.Base.{
  ℕ, ◌+◌, Bool, true, false, not, List, [], ◌∷◌, Option, none, some, ℤ, ltb_ℤ, eqb_ℤ_iff, ◌-ℤ◌, Map,
  lookup, has, insert, ℤ_key, lookup-insert, All, ◌≡◌, refl, arith, ◌⊎◌,
}
use seed_origin.World.Float.{FloatOps}
use seed_origin.World.Entities.{Player}
use seed_origin.World.Input.{WorldInput, WorldInputBody, CombatResolution}
use seed_origin.World.Field.{Field, find_player}
use seed_origin.World.Field.Combat.{tick_after, spell_cooldown_ticks, spell_mp_cost, validate_spell}
use seed_origin.World.Field.Check.{
  Outcome, done, rejected, crashed, ◌>>?◌, require, require_some, dereference, projected_or,
  is_cooling_down, succeeds, Projection, initial_projection, check_input, check_inputs,
}
use seed_origin.World.Field.Inputs.{process_inputs}
use seed_origin.World.Field.Inputs.Cooldown.{commit-eq-done, caster_of, Step, check_input-spell}

-- Whoever has paid for a spell is held by a cooldown.
abbrev HoldsPayers : {F : Type 0} → ℕ → Projection F → Type 0
HoldsPayers tick pr =
    (id : ℤ) → has id pr.mp ≡ true → is_cooling_down tick (lookup id pr.spell_tick) ≡ true

-- There is a player whose magic points cover the cost.
abbrev pub covers : {F : Type 0} → Option (Player F) → Option ℤ → Bool
covers none cost = false
covers (some p) none = false
covers (some p) (some cost) = not (ltb_ℤ p.status.mp cost)

has-inserted : (j k v : ℤ) (m : Map ℤ ℤ) → has j (insert k v m) ≡ true → (j ≡ k) ⊎ (has j m ≡ true)
has-inserted j k v m h = ground (arith, lookup-insert j k v m, eqb_ℤ_iff j k)

module _ {F : Type 0} where
  -- What the first pass does on a spell, by the values that it computes.
  charged_lem :
      (pr next : Projection F) (caster id : ℤ) (valid : Bool) (costs : Option ℤ) (ticks : Option ℕ)
      (warm : Bool) (left : Option ℤ) (player : Option (Player F))
      → require valid (
          require_some costs tt (λ cost. require_some ticks tt (λ until. require warm (
            projected_or left player
              (λ p. p.status.mp)
              (λ available. require (not (ltb_ℤ available cost)) (
                done (record pr {
                  mp = insert caster (available -ℤ cost) pr.mp;
                  spell_tick = insert caster until pr.spell_tick;
                })))))))
        ≡ done next
      → has id next.mp ≡ true
      → (has id pr.mp ≡ true) ⊎ (some caster ≡ some id)
  unfolding require require_some dereference projected_or
  charged_lem pr next caster id valid none ticks warm left player h k = ground arith
  charged_lem pr next caster id valid (some cost) none warm left player h k = ground arith
  charged_lem pr next caster id valid (some cost) (some until) warm (some a) player h k =
      ground (arith, has-inserted id caster (a -ℤ cost) pr.mp)
  charged_lem pr next caster id valid (some cost) (some until) warm none none h k = ground arith
  charged_lem pr next caster id valid (some cost) (some until) warm none (some p) h k =
      ground (arith, has-inserted id caster (p.status.mp -ℤ cost) pr.mp)

module _ {F : Type 0} (fl : FloatOps F) where
  -- The caster of a spell is in the field and can pay for it.
  abbrev pub CanPay : Field F → WorldInputBody F → Type 0
  CanPay f (WorldInputBody.spell i) =
      covers (find_player f i.caster_id) (spell_mp_cost fl i.power) ≡ true
  CanPay f (WorldInputBody.movement i) = Unit
  CanPay f (WorldInputBody.action a) = Unit
  CanPay f (WorldInputBody.combat i) = Unit
  CanPay f (WorldInputBody.chat i) = Unit

  -- Only a spell adds a payer, its caster.
  paid_lem :
      (f : Field F) (tick : ℕ) (pr next : Projection F) (b : WorldInputBody F) (id : ℤ)
      → check_input fl f tick pr b ≡ done next
      → has id next.mp ≡ true
      → (has id pr.mp ≡ true) ⊎ (caster_of b ≡ some id)
  unfolding check_input require require_some dereference projected_or tick_after
  paid_lem f tick pr next (WorldInputBody.movement i) id h k = ground arith
  paid_lem f tick pr next (WorldInputBody.action a) id h k = ground arith
  paid_lem f tick pr next (WorldInputBody.combat i) id h k = ground arith
  paid_lem f tick pr next (WorldInputBody.spell i) id h k =
      charged_lem pr next i.caster_id id (succeeds (validate_spell fl f i))
        (spell_mp_cost fl i.power) (tick_after tick spell_cooldown_ticks)
        (not (is_cooling_down tick (lookup i.caster_id pr.spell_tick))) (lookup i.caster_id pr.mp)
        (find_player f i.caster_id) h k
  paid_lem f tick pr next (WorldInputBody.chat i) id h k = ground arith

  check_input-HoldsPayers :
      (f : Field F) (tick : ℕ) (pr next : Projection F) (b : WorldInputBody F)
      → check_input fl f tick pr b ≡ done next
      → HoldsPayers tick pr
      → HoldsPayers tick next
  check_input-HoldsPayers f tick pr next b h w id k =
      by_step (caster_of b) (check_input-spell fl f tick pr next b h)
        (paid_lem f tick pr next b id h k)
    where
      by_step :
          (o : Option ℤ)
          → Step tick spell_cooldown_ticks pr.spell_tick next.spell_tick o
          → (has id pr.mp ≡ true) ⊎ (o ≡ some id)
          → is_cooling_down tick (lookup id next.spell_tick) ≡ true
      by_step none s p = ground (arith, w id)
      by_step (some a) s p =
          ground (arith, w id, eqb_ℤ_iff id a, lookup-insert id a (tick + 2) pr.spell_tick)

  check_input-CanPay :
      (f : Field F) (tick : ℕ) (pr next : Projection F) (b : WorldInputBody F)
      → check_input fl f tick pr b ≡ done next
      → HoldsPayers tick pr
      → CanPay f b
  unfolding check_input require require_some dereference projected_or tick_after
  check_input-CanPay f tick pr next (WorldInputBody.movement i) h w = tt
  check_input-CanPay f tick pr next (WorldInputBody.action a) h w = tt
  check_input-CanPay f tick pr next (WorldInputBody.combat i) h w = tt
  check_input-CanPay f tick pr next (WorldInputBody.spell i) h w = ground (arith, w i.caster_id)
  check_input-CanPay f tick pr next (WorldInputBody.chat i) h w = tt

  -- The first pass on a list of inputs.
  check_inputs-CanPay :
      (f : Field F) (tick : ℕ) (pr later : Projection F) (is : List (WorldInput F))
      → check_inputs fl f tick pr is ≡ done later
      → HoldsPayers tick pr
      → All (λ i. CanPay f i.body) is
  unfolding check_inputs
  check_inputs-CanPay f tick pr later [] h w = tt
  check_inputs-CanPay f tick pr later (i ∷ is) h w =
      behind (check_input fl f tick pr i.body) refl h
        (λ next e v. check_inputs-CanPay f tick next later is e v)
    where
      behind :
          (o : Outcome (Unit {0}) (Projection F))
          → check_input fl f tick pr i.body ≡ o
          → (o >>? λ next. check_inputs fl f tick next is) ≡ done later
          → ((next : Projection F)
              → check_inputs fl f tick next is ≡ done later
              → HoldsPayers tick next
              → All (λ j. CanPay f j.body) is)
          → All (λ j. CanPay f j.body) (i ∷ is)
      behind crashed e k rest = cc
      behind (rejected u) e k rest = cc
      behind (done next) e k rest = (
        check_input-CanPay f tick pr next i.body e w,
        rest next k (check_input-HoldsPayers f tick pr next i.body e w),
      )

  -- In a frame that is accepted, the caster of each spell is a player in the field before it,
  -- whose magic points there are at least the cost of the spell.
  pub process_inputs-CanPay :
      (f : Field F) (inputs : List (WorldInput F)) (tick : ℕ)
      (r : Field F × List (CombatResolution F))
      → process_inputs fl f inputs tick ≡ done r
      → All (λ i. CanPay f i.body) inputs
  unfolding process_inputs lookup
  process_inputs-CanPay f inputs tick r h =
      let (later, e) = commit-eq-done fl f tick inputs _ r h in
      check_inputs-CanPay f tick (initial_projection f) later inputs e (λ id k. cc)
