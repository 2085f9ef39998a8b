-- ===== src/World/Applier/Failure.antt =====
-- What src/WorldFrameApplier.cpp leaves in its queues when it refuses a frame of actions.
use seed_origin.Base.{
  ◌≤◌, Bool, true, false, not, [], append-nil, some, String, if_lem, length, Result, ok, err, ◌≡◌,
  ◌≢◌, ◌⊎◌, inl, inr, refl, arith,
}
use seed_origin.World.Float.{FloatOps}
use seed_origin.World.Input.{MovementIntent}
use seed_origin.World.Field.{Field}
use seed_origin.World.Field.Check.{rejected}
use seed_origin.World.ActionQueue.{FrameActions}
use seed_origin.World.IntentQueue.{
  IntentQueue, NpcAiInput, max_pending_intents, take_frame, restore_frame,
}
use seed_origin.World.Updates.{Built, build_actions}
use seed_origin.World.Applier.{WorldFrameApplier, FrameApplied, refused, with_built}
use seed_origin.World.Applier.Actions.{
  taken_queue, taken_frame, restored, restore_movements, restore_both, queue_movements,
  queue_npc_movements, all_valid, all_present, all_possible, queue_npcs, queue_intents,
  actions_built, apply_actions,
}

abbrev pub IsBounded : {T : Type 0} → IntentQueue T → Type 0
IsBounded q = length q.pending ≤ max_pending_intents

restored-taken :
    {T : Type 0} (q : IntentQueue T)
    → IsBounded q
    → restored (taken_queue (some q)) (taken_frame (some q)) ≡ some q
unfolding take_frame restore_frame
restored-taken q h = ground (arith, append-nil q.pending)

-- The movements of sessions are as they were, and so are those of NPCs unless the updates could not
-- be built.
abbrev pub IsKept :
    {F : Type 0}
    → IntentQueue (MovementIntent F)
    → IntentQueue (NpcAiInput F)
    → Result (Unit {0})
    → FrameApplied F
    → Type 0
IsKept q p built r =
    (r.applier.movement_queue ≡ some q)
    × ((r.applier.npc_ai_input_queue ≡ some p)
        ⊎ (built ≢ ok tt) × (r.applier.npc_ai_input_queue ≡ some (take_frame p).0))

module _ {F : Type 0} (fl : FloatOps F) (q : IntentQueue (MovementIntent F))
    (p : IntentQueue (NpcAiInput F)) (room : IsBounded q) (space : IsBounded p) where
  abbrev taken : WorldFrameApplier F → WorldFrameApplier F
  taken w = record w {
    movement_queue = some (take_frame q).0;
    npc_ai_input_queue = some (take_frame p).0;
  }

  unfoldable KeptOnFailure : Result (Unit {0}) → FrameApplied F → Type 0
  KeptOnFailure built r = (e : String) → r.outcome ≡ rejected e → IsKept q p built r

  both_restored :
      (w : WorldFrameApplier F) (built : Result (Unit {0})) (e : String)
      → KeptOnFailure built (refused (restore_both (taken w) q.pending p.pending) e)
  unfolding KeptOnFailure take_frame
  both_restored w built e m h = (restored-taken q room, inl (restored-taken p space))

  untouched :
      (w : WorldFrameApplier F) (built : Result (Unit {0})) (e : String)
      → KeptOnFailure built (
          refused
            (record w { movement_queue = some q; npc_ai_input_queue = some p; owner_acks = [] })
            e)
  unfolding KeptOnFailure
  untouched w built e = λ m h. (refl, inl refl)

  movements_restored :
      (w : WorldFrameApplier F) (built : Result (Unit {0})) (e : String)
      → KeptOnFailure built (
          refused
            (restore_movements
              (record w {
                movement_queue = some (take_frame q).0;
                npc_ai_input_queue = some p;
                owner_acks = [];
              })
              q.pending)
            e)
  unfolding KeptOnFailure take_frame
  movements_restored w built e = λ m h. (restored-taken q room, inl refl)

  queue_npcs-kept :
      (w : WorldFrameApplier F) (frame : FrameActions F) (b : Built) (r : Field F × Bool)
      → KeptOnFailure b.outcome (queue_npcs fl (taken w) frame q.pending p.pending b r)
  unfolding KeptOnFailure
  queue_npcs-kept w frame b (f, false) = both_restored (record w { field = f }) b.outcome _
  queue_npcs-kept w frame b (f, true) = λ e h. absurd (ground arith)

  queue_intents-kept :
      (w : WorldFrameApplier F) (frame : FrameActions F) (b : Built) (r : Field F × Bool)
      → KeptOnFailure b.outcome (queue_intents fl (taken w) frame q.pending p.pending b r)
  queue_intents-kept w frame b (f, false) = both_restored (record w { field = f }) b.outcome _
  queue_intents-kept w frame b (f, true) =
      queue_npcs-kept (record w { field = f }) frame b (queue_npc_movements fl f p.pending)

  actions_built-kept :
      (w : WorldFrameApplier F) (frame : FrameActions F) (b : Built) (o : Result (Unit {0}))
      → b.outcome ≡ o
      → KeptOnFailure b.outcome (actions_built fl (taken w) frame q.pending p.pending b o)
  unfolding KeptOnFailure take_frame
  actions_built-kept w frame b (err m) k = λ e h. (restored-taken q room, inr (λ g. cc, refl))
  actions_built-kept w frame b (ok u) k =
      queue_intents-kept w frame b (queue_movements fl w.field q.pending)

  apply_actions-KeptOnFailure :
      (w : WorldFrameApplier F) (frame : FrameActions F)
      → KeptOnFailure (build_actions w.update_builder frame).outcome (
          apply_actions fl
            (record w { movement_queue = some q; npc_ai_input_queue = some p })
            frame)
  unfolding apply_actions take_frame
  apply_actions-KeptOnFailure w frame =
      let b = build_actions w.update_builder frame in
      let P = KeptOnFailure b.outcome in
      if_lem P (not (all_valid frame.actions)) _ _ (λ g. untouched w b.outcome _)
        (λ g.
          if_lem P (not (all_present w.field q.pending)) _ _ (λ k. movements_restored w b.outcome _)
            (λ k.
              if_lem P (not (all_possible fl w.field p.pending)) _ _
                (λ l. both_restored (record w { owner_acks = [] }) b.outcome _)
                (λ l.
                  actions_built-kept (with_built (record w { owner_acks = [] }) b) frame b b.outcome
                    refl)))

  -- A frame of actions that is refused leaves the queued movements of sessions as they were,
  -- and those of NPCs too unless the updates could not be built, where both queues are within
  -- their bounds.
  pub apply_actions-IsKept :
      (w : WorldFrameApplier F) (frame : FrameActions F) (e : String)
      → (apply_actions fl
          (record w { movement_queue = some q; npc_ai_input_queue = some p })
          frame).outcome
        ≡ rejected e
      → IsKept q p (build_actions w.update_builder frame).outcome (
          apply_actions fl
            (record w { movement_queue = some q; npc_ai_input_queue = some p })
            frame)
  unfolding KeptOnFailure
  apply_actions-IsKept w frame = apply_actions-KeptOnFailure w frame
