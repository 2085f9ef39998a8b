-- ===== src/World/UpdateText.antt =====
-- The payloads that src/WorldFrameUpdateBuilder.cpp writes: what an update says of an input, of the
-- outcome of an attack or a spell, of a hazard and of a pose.
use seed_origin.Base.{ℕ, List, ◌++◌, if◌then◌else◌, codes, pos}
use seed_origin.World.Float.{FloatText}
use seed_origin.World.Input.{
  MovementIntent, CombatIntent, SpellIntent, ChatIntent, WorldInputBody, WorldInput,
  CombatResolution,
}
use seed_origin.World.InputQueue.{to_string}
use seed_origin.World.ActionQueue.{QueuedAction}
use seed_origin.World.MovementText.{MovementAck}

abbrev chat_text : ChatIntent → List ℕ
chat_text i =
    codes "chat=sender:"
    ++ (to_string i.sender_id
        ++ (codes ";audience:" ++ (i.audience ++ (codes ";message:" ++ i.message))))

module _ {F : Type 0} where
  unfoldable pub action_text : QueuedAction F → List ℕ
  action_text q =
      codes "action="
      ++ (to_string q.action.action_type
          ++ (codes ";actionSequence=" ++ to_string (pos q.sequence)))

module _ {F : Type 0} (ft : FloatText F) where
  abbrev movement_text : MovementIntent F → List ℕ
  movement_text i =
      codes "movement=session:"
      ++ (to_string i.session_id
          ++ (codes ";dx="
              ++ (ft.show i.dx
                  ++ (codes ";dy="
                      ++ (ft.show i.dy
                          ++ (codes ";dz="
                              ++ (ft.show i.dz
                                  ++ (codes ";clientInputSequence="
                                      ++ to_string (pos i.client_input_sequence)))))))))

  abbrev combat_text : CombatIntent F → List ℕ
  combat_text i =
      codes "combat=attacker:"
      ++ (to_string i.attacker_id
          ++ (codes ";target:"
              ++ (to_string i.target_id
                  ++ (codes ";power:"
                      ++ (ft.show i.power ++ (codes ";requestId:" ++ i.request_id))))))

  abbrev spell_text : SpellIntent F → List ℕ
  spell_text i =
      codes "spell=caster:"
      ++ (to_string i.caster_id
          ++ (codes ";target:"
              ++ (to_string i.target_id
                  ++ (codes ";element:"
                      ++ (i.element
                          ++ (codes ";power:"
                              ++ (ft.show i.power ++ (codes ";requestId:" ++ i.request_id))))))))

  abbrev body_text : WorldInputBody F → List ℕ
  body_text (WorldInputBody.action a) = codes "action=" ++ to_string a.action_type
  body_text (WorldInputBody.movement i) = movement_text i
  body_text (WorldInputBody.combat i) = combat_text i
  body_text (WorldInputBody.spell i) = spell_text i
  body_text (WorldInputBody.chat i) = chat_text i

  unfoldable pub input_text : WorldInput F → List ℕ
  input_text i = body_text i.body ++ (codes ";inputSequence=" ++ to_string (pos i.sequence))

  unfoldable pub hazard_text : F → F → List ℕ
  hazard_text severity instability =
      codes "etherHazard=severity:"
      ++ (ft.show severity ++ (codes ";instability:" ++ ft.show instability))

  -- `;damage:…` up to the request, which the two kinds of result share.
  abbrev outcome_text : CombatResolution F → List ℕ
  outcome_text r =
      codes ";damage:"
      ++ (to_string r.damage
          ++ (codes ";remainingHp:"
              ++ (to_string r.remaining_hp
                  ++ (codes ";mpSpent:"
                      ++ (to_string r.mp_spent
                          ++ (codes ";cooldownUntil:"
                              ++ (to_string (pos r.cooldown_until)
                                  ++ (codes ";requestId:" ++ r.request_id))))))))

  abbrev ether_delta_text : F × F × F × F → List ℕ
  ether_delta_text (fire, water, earth, air) =
      codes ";etherDelta:fire="
      ++ (ft.show fire
          ++ (codes ",water="
              ++ (ft.show water
                  ++ (codes ",earth=" ++ (ft.show earth ++ (codes ",air=" ++ ft.show air))))))

  abbrev attack_result_text : CombatResolution F → List ℕ
  attack_result_text r =
      codes "combatResult=attacker:"
      ++ (to_string r.actor_id ++ (codes ";target:" ++ (to_string r.target_id ++ outcome_text r)))

  abbrev spell_result_text : CombatResolution F → List ℕ
  spell_result_text r =
      codes "spellResult=caster:"
      ++ (to_string r.actor_id
          ++ (codes ";target:"
              ++ (to_string r.target_id
                  ++ (codes ";element:"
                      ++ (r.element
                          ++ (codes ";basePower:"
                              ++ (ft.show r.base_power
                                  ++ (codes ";effectivePower:"
                                      ++ (ft.show r.effective_power
                                          ++ (outcome_text r
                                              ++ ether_delta_text r.ether_delta))))))))))

  unfoldable pub resolution_text : CombatResolution F → List ℕ
  resolution_text r =
      (if r.spell then spell_result_text r else attack_result_text r)
      ++ (codes ";inputSequence:" ++ to_string (pos r.input_sequence))

  unfoldable pub public_pose_text : MovementAck F → List ℕ
  public_pose_text ack =
      codes ";x="
      ++ (ft.show ack.x ++ (codes ";y=" ++ (ft.show ack.y ++ (codes ";z=" ++ ft.show ack.z))))

  unfoldable pub local_pose_text : MovementAck F → List ℕ
  local_pose_text ack =
      codes ";local.x="
      ++ (ft.show ack.x
          ++ (codes ";local.y="
              ++ (ft.show ack.y
                  ++ (codes ";local.z="
                      ++ (ft.show ack.z
                          ++ (codes ";local.lastProcessedInputSequence="
                              ++ to_string (pos ack.last_processed_input_sequence)))))))
