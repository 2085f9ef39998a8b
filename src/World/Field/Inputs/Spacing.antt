-- ===== src/World/Field/Inputs/Spacing.antt =====
-- The cooldowns that `Field::processInputs` of src/Field.cpp leaves, and what they keep from the frames
-- that follow.
use seed_origin.Base.{
  ℕ, ◌+◌, ◌≤◌, ◌<◌, leb, Bool-cases, false, List, [], ◌∷◌, ◌++◌, Option, none, some, ℤ, eqb_ℤ,
  eqb_ℤ_iff, Map, lookup, ℤ_key, lookup-insert, All, ◌≡◌, refl, sym, ap, subst, ◌∙◌, ◌⊎◌, inl, inr,
  uint64_max, arith,
}
use seed_origin.World.Float.{FloatOps}
use seed_origin.World.Input.{WorldInput, WorldInputBody, CombatResolution}
use seed_origin.World.Field.{Field}
use seed_origin.World.Field.Combat.{tick_after, attack_cooldown_ticks, spell_cooldown_ticks}
use seed_origin.World.Field.Check.{Outcome, done, rejected, crashed, ◌>>?◌}
use seed_origin.World.Field.Inputs.{
  apply_input, apply_inputs, Applied, finish, commit, process_inputs,
}
use seed_origin.World.Field.Inputs.Cooldown.{
  attacker_of, caster_of, actors, cons_some, IsReady, process_inputs-IsReady, commit-eq-done,
}
use seed_origin.World.Field.Inputs.Ticks.{
  SameTicks, started, noted, apply_input-attack, apply_input-spell,
}

-- No number is in both lists.
abbrev pub Disjoint : List ℤ → List ℤ → Type 0
Disjoint xs ys = All (λ x. All (λ y. eqb_ℤ y x ≡ false) ys) xs

noted_behind :
    (until : ℕ) (o : Option ℤ) (before after last : Map ℤ ℕ) (xs : List ℤ)
    → after ≡ noted until o before
    → ((a : ℤ) → lookup a after ≡ some until → lookup a last ≡ some until)
      × All (λ a. lookup a last ≡ some until) xs
    → ((a : ℤ) → lookup a before ≡ some until → lookup a last ≡ some until)
      × All (λ a. lookup a last ≡ some until) (cons_some o xs)
noted_behind until none before after last xs e (kept, set) =
    (λ a h. kept a (ap (lookup a) e ∙ h), set)
noted_behind until (some b) before after last xs e (kept, set) = (
  λ a h. kept a (ap (lookup a) e ∙ ground (arith, h, lookup-insert a b until before)),
  (kept b (ap (lookup b) e ∙ ground (arith, lookup-insert b b until before, eqb_ℤ_iff b b)), set),
)

held :
    (until tick : ℕ) (ticks : Map ℤ ℕ) (x : ℤ) (ys : List ℤ)
    → tick < until
    → lookup x ticks ≡ some until
    → All (IsReady tick ticks) ys
    → All (λ y. eqb_ℤ y x ≡ false) ys
held until tick ticks x [] l e r = tt
held until tick ticks x (y ∷ ys) l e (r, rs) =
    (ground (arith, eqb_ℤ_iff y x), held until tick ticks x ys l e rs)

ready_Disjoint :
    (until tick : ℕ) (ticks : Map ℤ ℕ) (xs ys : List ℤ)
    → tick < until
    → All (λ x. lookup x ticks ≡ some until) xs
    → All (IsReady tick ticks) ys
    → Disjoint xs ys
ready_Disjoint until tick ticks [] ys l e r = tt
ready_Disjoint until tick ticks (x ∷ xs) ys l (e, es) r =
    (held until tick ticks x ys l e r, ready_Disjoint until tick ticks xs ys l es r)

over_or_Disjoint :
    (until tick : ℕ) (ticks : Map ℤ ℕ) (xs ys : List ℤ)
    → All (λ x. lookup x ticks ≡ some until) xs
    → All (IsReady tick ticks) ys
    → (until ≤ tick) ⊎ Disjoint xs ys
over_or_Disjoint until tick ticks xs ys e r = elim (Bool-cases (leb until tick)) [
  | inl over ↦ inl (ground arith)
  | inr held_yet ↦ inr (ready_Disjoint until tick ticks xs ys (ground arith) e r)
]

done-injective : {R A : Type 0} {x y : A} → ◌≡◌ {A = Outcome R A} (done x) (done y) → x ≡ y
done-injective h = cc

module _ {F : Type 0} (fl : FloatOps F) where
  -- The second loop, for one kind of actor: it keeps the cooldowns that it has started.
  apply_inputs-noted :
      (tick until : ℕ) (ticks : Field F → Map ℤ ℕ) (actor_of : WorldInputBody F → Option ℤ)
      → ((f : Field F) (sequence : ℕ) (b : WorldInputBody F)
            (r : Field F × List (CombatResolution F))
          → apply_input fl f tick sequence b ≡ done r
          → ticks r.0 ≡ noted until (actor_of b) (ticks f))
      → (f : Field F) (is : List (WorldInput F)) (added : List (CombatResolution F))
        (r : Field F × List (CombatResolution F))
      → apply_inputs fl f tick is added ≡ done r
      → ((a : ℤ) → lookup a (ticks f) ≡ some until → lookup a (ticks r.0) ≡ some until)
        × All (λ a. lookup a (ticks r.0) ≡ some until) (actors actor_of is)
  unfolding apply_inputs
  apply_inputs-noted tick until ticks actor_of turn f [] added r h =
      (λ a e. subst (λ q. lookup a (ticks q.0) ≡ some until) (done-injective h) e, tt)
  apply_inputs-noted tick until ticks actor_of turn f (i ∷ is) added r h =
      behind (apply_input fl f tick i.sequence i.body) refl h
        (λ g more e. apply_inputs-noted tick until ticks actor_of turn g is (added ++ more) r e)
    where
      behind :
          (o : Applied fl)
          → apply_input fl f tick i.sequence i.body ≡ o
          → (o >>? λ (g, more). apply_inputs fl g tick is (added ++ more)) ≡ done r
          → ((g : Field F) (more : List (CombatResolution F))
              → apply_inputs fl g tick is (added ++ more) ≡ done r
              → ((a : ℤ) → lookup a (ticks g) ≡ some until → lookup a (ticks r.0) ≡ some until)
                × All (λ a. lookup a (ticks r.0) ≡ some until) (actors actor_of is))
          → ((a : ℤ) → lookup a (ticks f) ≡ some until → lookup a (ticks r.0) ≡ some until)
            × All (λ a. lookup a (ticks r.0) ≡ some until) (actors actor_of (i ∷ is))
      behind crashed e k rest = cc
      behind (rejected u) e k rest = cc
      behind (done (g, more)) e k rest =
          noted_behind until (actor_of i.body) (ticks f) (ticks g) (ticks r.0) (actors actor_of is)
            (turn f i.sequence i.body (g, more) e) (rest g more k)

  finish-eq-done :
      (f : Field F) (o : Applied fl) (r : Field F × List (CombatResolution F))
      → finish fl f o ≡ done r
      → (g : Field F) × (o ≡ done (g, r.1)) × SameTicks g r.0
  finish-eq-done f crashed r h = cc
  finish-eq-done f (rejected g) r h = cc
  finish-eq-done f (done (g, added)) r h =
      (g, ap (λ q. done (g, q.1)) (done-injective h), ground (arith, done-injective h))

  -- The field that an accepted frame leaves holds its attackers and its casters.
  process_inputs-noted :
      (f : Field F) (inputs : List (WorldInput F)) (tick : ℕ)
      (r : Field F × List (CombatResolution F))
      → process_inputs fl f inputs tick ≡ done r
      → All
          (λ a. lookup a r.0.next_attack_tick ≡ some (started tick attack_cooldown_ticks))
          (actors attacker_of inputs)
        × All
            (λ a. lookup a r.0.next_spell_tick ≡ some (started tick spell_cooldown_ticks))
            (actors caster_of inputs)
  unfolding process_inputs
  process_inputs-noted f inputs tick r h =
      let (pr, e) = commit-eq-done fl f tick inputs _ r h in
      let (g, m, same) =
        finish-eq-done f (apply_inputs fl f tick inputs []) r
          (ap (λ o. commit fl f tick inputs o) (sym e) ∙ h) in
      let attacked =
        apply_inputs-noted tick (started tick attack_cooldown_ticks) (λ q. q.next_attack_tick)
          attacker_of (λ q. apply_input-attack fl q tick) f inputs [] (g, r.1) m in
      let cast =
        apply_inputs-noted tick (started tick spell_cooldown_ticks) (λ q. q.next_spell_tick)
          caster_of (λ q. apply_input-spell fl q tick) f inputs [] (g, r.1) m in
      (rw (same.0) (attacked.1), rw (same.1) (cast.1))

  -- Where a frame is accepted at a tick whose cooldowns fit 64 bits, and another frame is
  -- accepted on the field that it leaves, either the tick of the other one is past the cooldown
  -- of attacks or no number attacks in both, and the same for the cooldown of spells and their
  -- casters; the numbers are those that the inputs carry.
  pub process_inputs-IsSpaced :
      (f : Field F) (inputs later : List (WorldInput F)) (tick later_tick : ℕ)
      (r s : Field F × List (CombatResolution F))
      → tick + spell_cooldown_ticks ≤ uint64_max
      → process_inputs fl f inputs tick ≡ done r
      → process_inputs fl r.0 later later_tick ≡ done s
      → ((tick + attack_cooldown_ticks ≤ later_tick)
          ⊎ Disjoint (actors attacker_of inputs) (actors attacker_of later))
        × ((tick + spell_cooldown_ticks ≤ later_tick)
            ⊎ Disjoint (actors caster_of inputs) (actors caster_of later))
  unfolding tick_after
  process_inputs-IsSpaced f inputs later tick later_tick r s fits h k =
      let attack_over : started tick attack_cooldown_ticks ≡ tick + attack_cooldown_ticks =
        ground arith in
      let spell_over : started tick spell_cooldown_ticks ≡ tick + spell_cooldown_ticks =
        ground arith in
      let (attacked, cast) = process_inputs-noted f inputs tick r h in
      let (ready, once, ready_too, once_too) = process_inputs-IsReady fl r.0 later later_tick s k in
      (
        over_or_Disjoint (tick + attack_cooldown_ticks) later_tick r.0.next_attack_tick
            (actors attacker_of inputs) (actors attacker_of later)
            (subst
              (λ u. All (λ a. lookup a r.0.next_attack_tick ≡ some u) (actors attacker_of inputs))
              attack_over attacked)
            ready,
        over_or_Disjoint (tick + spell_cooldown_ticks) later_tick r.0.next_spell_tick
            (actors caster_of inputs) (actors caster_of later)
            (subst (λ u. All (λ a. lookup a r.0.next_spell_tick ≡ some u) (actors caster_of inputs))
              spell_over cast)
            ready_too,
      )
