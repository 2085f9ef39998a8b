-- ===== src/World/Field/Frame/Queues.antt =====
-- What `Field::processFrame` of src/Field.cpp leaves of the field's queues and of the respawns.
use seed_origin.Base.{
  ℕ, ◌<◌, List, [], ◌∷◌, Option, none, some, ltb, ℤ, Map, lookup, insert, ℤ_key, All, ◌≡◌, refl,
  ◌∙◌, arith, if_lem, has,
}
use seed_origin.World.Entities.{Position, Action, Npc}
use seed_origin.World.Field.{Field, NpcRespawnState}
use seed_origin.World.Field.Combat.{apply_action}
use seed_origin.World.Field.Inputs.Extent.{
  Preserves, Preserves-refl, Preserves-trans, with_player-Preserves, apply_action-Preserves,
}
use seed_origin.World.Field.Frame.{
  with_npc, apply_position, apply_positions, apply_actions, apply_respawns, revive, process_frame,
}

-- The respawn is still to come in this tick.
abbrev pub IsPending : {F : Type 0} → ℕ → ℤ × NpcRespawnState F → Type 0
IsPending tick e = tick < e.1.respawn_tick

module _ {F : Type 0} where
  with_npc-Preserves :
      (f : Field F) (id : ℤ) (change : Npc F → Npc F) → Preserves f (with_npc f id change)
  unfolding with_npc
  with_npc-Preserves f id change = at_entry (lookup id f.npc_list) refl
    where
      at_entry :
          (o : Option (Npc F))
          → lookup id f.npc_list ≡ o
          → Preserves f (elim o [
            | none ↦ f
            | some n ↦ record f { npc_list = insert id (change n) f.npc_list }
          ])
      at_entry none h = Preserves-refl f
      at_entry (some n) h = record {
        same_positions = refl;
        same_actions = refl;
        same_respawns = refl;
        same_sessions = refl;
        same_players = refl;
        same_next_id = refl;
        same_residents = λ k. refl;
      }

  apply_position-Preserves : (f : Field F) (p : Position F) → Preserves f (apply_position f p)
  unfolding apply_position
  apply_position-Preserves f p =
      if_lem (Preserves f) (has p.player_id f.player_list) _ _
        (λ h. with_player-Preserves f p.player_id _) (λ h. with_npc-Preserves f p.player_id _)

  apply_positions-Preserves :
      (f : Field F) (ps : List (Position F)) → Preserves f (apply_positions f ps)
  unfolding apply_positions
  apply_positions-Preserves f [] = Preserves-refl f
  apply_positions-Preserves f (p ∷ ps) =
      Preserves-trans (apply_position-Preserves f p)
        (apply_positions-Preserves (apply_position f p) ps)

  apply_actions-Preserves :
      (f : Field F) (as' : List (Action F)) → Preserves f (apply_actions f as')
  unfolding apply_actions
  apply_actions-Preserves f [] = Preserves-refl f
  apply_actions-Preserves f (a ∷ as') =
      Preserves-trans (apply_action-Preserves f a) (apply_actions-Preserves (apply_action f a) as')

  apply_respawns-Preserves :
      (f : Field F) (tick : ℕ) (rs : Map ℤ (NpcRespawnState F))
      → Preserves f (apply_respawns f tick rs).0
  unfolding apply_respawns
  apply_respawns-Preserves f tick [] = Preserves-refl f
  apply_respawns-Preserves f tick ((id, r) ∷ rs) =
      if_lem (λ (x : Field F × Map ℤ (NpcRespawnState F)). Preserves f x.0)
        (ltb tick r.respawn_tick) _ _ (λ h. apply_respawns-Preserves f tick rs)
        (λ h.
          Preserves-trans (with_npc-Preserves f id (revive r))
            (apply_respawns-Preserves (with_npc f id (revive r)) tick rs))

  apply_respawns-IsPending :
      (f : Field F) (tick : ℕ) (rs : Map ℤ (NpcRespawnState F))
      → All (IsPending tick) (apply_respawns f tick rs).1
  unfolding apply_respawns
  apply_respawns-IsPending f tick [] = tt
  apply_respawns-IsPending f tick ((id, r) ∷ rs) =
      if_lem (λ (x : Field F × Map ℤ (NpcRespawnState F)). All (IsPending tick) x.1)
        (ltb tick r.respawn_tick) _ _ (λ h. (ground arith, apply_respawns-IsPending f tick rs))
        (λ h. apply_respawns-IsPending (with_npc f id (revive r)) tick rs)

  -- Processing a frame empties the queues of positions and actions, leaves only respawns whose
  -- tick is still to come, and keeps the sessions and which players are in the field.
  pub process_frame_lem :
      (f : Field F) (tick : ℕ)
      → ((process_frame f tick).position_queue ≡ [])
        × ((process_frame f tick).action_queue ≡ [])
        × All (IsPending tick) (process_frame f tick).npc_respawns
        × ((process_frame f tick).session_to_player_id ≡ f.session_to_player_id)
        × ((k : ℤ) → has k (process_frame f tick).player_list ≡ has k f.player_list)
  unfolding process_frame
  process_frame_lem f tick =
      let moved = apply_positions f f.position_queue in
      let cleared : Field F = record moved { position_queue = [] } in
      let acted = apply_actions cleared moved.action_queue in
      let idle : Field F = record acted { action_queue = [] } in
      let p = apply_positions-Preserves f f.position_queue in
      let q = apply_actions-Preserves cleared moved.action_queue in
      let r = apply_respawns-Preserves idle tick acted.npc_respawns in
      (
        r.same_positions ∙ q.same_positions,
        r.same_actions,
        apply_respawns-IsPending idle tick acted.npc_respawns,
        r.same_sessions ∙ q.same_sessions ∙ p.same_sessions,
        λ k. r.same_residents k ∙ q.same_residents k ∙ p.same_residents k,
      )
