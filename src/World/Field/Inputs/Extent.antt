-- ===== src/World/Field/Inputs/Extent.antt =====
-- What the second pass of src/Field.cpp's `processInputs` can change: not the queues, the respawns,
-- the sessions or the allocator of identifiers, and not which players are there.
use seed_origin.Base.{
  ℕ, List, Option, none, some, ℤ, eqb_ℤ_iff, lookup, has, insert, ℤ_key, lookup-insert, Map, String,
  ◌≡◌, refl, ◌∙◌, arith,
}
use seed_origin.World.Entities.{Player, Action}
use seed_origin.World.Ether.{EnvironmentEther}
use seed_origin.World.Input.{CombatResolution}
use seed_origin.World.Field.{Field, resolve_player_id, gain_status}
use seed_origin.World.Field.Combat.{
  with_player, apply_damage_to_target, apply_action, hurt_player, gain_player_status, damaged,
}
use seed_origin.World.Field.Check.{Outcome, done, rejected, crashed, require_some, dereference}

-- The second field differs from the first in players, NPCs, ether, cooldowns and the field's own
-- status at most, and the same players are resident.
pub record Preserves {F : Type 0} (f g : Field F) : Type 0 where
  pub same_positions : g.position_queue ≡ f.position_queue
  pub same_actions : g.action_queue ≡ f.action_queue
  pub same_respawns : g.npc_respawns ≡ f.npc_respawns
  pub same_sessions : g.session_to_player_id ≡ f.session_to_player_id
  pub same_players : g.player_to_session_id ≡ f.player_to_session_id
  pub same_next_id : g.next_gameplay_id ≡ f.next_gameplay_id
  pub same_residents : (k : ℤ) → has k g.player_list ≡ has k f.player_list

-- A write to an entry that is there keeps the keys.
has-insert :
    {V : Type 0} (j k : ℤ) (v w : V) (m : List (ℤ × V))
    → lookup k m ≡ some w
    → has j (insert k v m) ≡ has j m
has-insert j k v w m h = ground (arith, lookup-insert j k v m, eqb_ℤ_iff j k)

module _ {F : Type 0} where
  pub Preserves-refl : (f : Field F) → Preserves f f
  Preserves-refl f = record {
    same_positions = refl;
    same_actions = refl;
    same_respawns = refl;
    same_sessions = refl;
    same_players = refl;
    same_next_id = refl;
    same_residents = λ k. refl;
  }

  pub Preserves-trans : {f g h : Field F} → Preserves f g → Preserves g h → Preserves f h
  Preserves-trans p q = record {
    same_positions = q.same_positions ∙ p.same_positions;
    same_actions = q.same_actions ∙ p.same_actions;
    same_respawns = q.same_respawns ∙ p.same_respawns;
    same_sessions = q.same_sessions ∙ p.same_sessions;
    same_players = q.same_players ∙ p.same_players;
    same_next_id = q.same_next_id ∙ p.same_next_id;
    same_residents = λ k. q.same_residents k ∙ p.same_residents k;
  }

  -- With the same players resident and the rest as in `Preserves`.
  players-Preserves :
      (f : Field F) (m : List (ℤ × Player F))
      → ((k : ℤ) → has k m ≡ has k f.player_list)
      → Preserves f (record f { player_list = m })
  players-Preserves f m h = record {
    same_positions = refl;
    same_actions = refl;
    same_respawns = refl;
    same_sessions = refl;
    same_players = refl;
    same_next_id = refl;
    same_residents = h;
  }

  pub ether-Preserves :
      (f : Field F) (ether : EnvironmentEther F) → Preserves f (record f { field_ether = ether })
  ether-Preserves f ether = record {
    same_positions = refl;
    same_actions = refl;
    same_respawns = refl;
    same_sessions = refl;
    same_players = refl;
    same_next_id = refl;
    same_residents = λ k. refl;
  }

  pub ticks-Preserves :
      (f : Field F) (attack spell : Map ℤ ℕ)
      → Preserves f (record f { next_attack_tick = attack; next_spell_tick = spell })
  ticks-Preserves f attack spell = record {
    same_positions = refl;
    same_actions = refl;
    same_respawns = refl;
    same_sessions = refl;
    same_players = refl;
    same_next_id = refl;
    same_residents = λ k. refl;
  }

  pub with_player-Preserves :
      (f : Field F) (id : ℤ) (change : Player F → Player F) → Preserves f (with_player f id change)
  unfolding with_player
  with_player-Preserves f id change = at_entry (lookup id f.player_list) refl
    where
      at_entry :
          (o : Option (Player F))
          → lookup id f.player_list ≡ o
          → Preserves f (elim o [
            | none ↦ f
            | some p ↦ record f { player_list = insert id (change p) f.player_list }
          ])
      at_entry none h = Preserves-refl f
      at_entry (some p) h =
          players-Preserves f (insert id (change p) f.player_list)
            (λ k. has-insert k id (change p) p f.player_list h)

  pub apply_damage_to_target-Preserves :
      (f g : Field F) (id damage : ℤ) → apply_damage_to_target f id damage ≡ some g → Preserves f g
  unfolding apply_damage_to_target
  apply_damage_to_target-Preserves f g id damage h = ground (
    arith,
    with_player-Preserves f (resolve_player_id f id) (hurt_player damage),
    Preserves-refl f,
  )

  pub apply_action-Preserves : (f : Field F) (a : Action F) → Preserves f (apply_action f a)
  unfolding apply_action gain_status
  apply_action-Preserves f a = ground (
    arith,
    with_player-Preserves f a.player_to.id (gain_player_status a.status),
    with_player-Preserves f a.player_from.id (gain_player_status a.status),
    Preserves-refl f,
  )

-- What a turn or a pass leaves, whether it succeeds or fails.
unfoldable pub Leaves :
    {F : Type 0} → Field F → Outcome (Field F) (Field F × List (CombatResolution F)) → Type 0
Leaves f (done (g, added)) = Preserves f g
Leaves f (rejected g) = Preserves f g
Leaves f crashed = Unit

module _ {F : Type 0} where
  pub damaged-Preserves :
      (f h : Field F) (id damage : ℤ) (e : String)
      → Preserves f h
      → Preserves f (damaged h (apply_damage_to_target h id damage) e).0
  damaged-Preserves f h id damage e p = at_target (apply_damage_to_target h id damage) refl
    where
      at_target :
          (o : Option (Field F))
          → apply_damage_to_target h id damage ≡ o
          → Preserves f (damaged h o e).0
      at_target none q = p
      at_target (some g) q = Preserves-trans p (apply_damage_to_target-Preserves h g id damage q)

  pub require_some-Leaves :
      {A : Type 0} (f g : Field F) (o : Option A)
      (k : A → Outcome (Field F) (Field F × List (CombatResolution F)))
      → Preserves f g
      → ((a : A) → Leaves f (k a))
      → Leaves f (require_some o g k)
  unfolding Leaves require_some
  require_some-Leaves f g none k p h = p
  require_some-Leaves f g (some a) k p h = h a

  pub dereference-Leaves :
      {A : Type 0} (f : Field F) (o : Option A)
      (k : A → Outcome (Field F) (Field F × List (CombatResolution F)))
      → ((a : A) → Leaves f (k a))
      → Leaves f (dereference o k)
  unfolding Leaves dereference
  dereference-Leaves f none k h = tt
  dereference-Leaves f (some a) k h = h a
