-- ===== src/World/Input.antt =====
-- The inputs of a frame: include/seed/WorldInputQueue.h, the intents of MovementIntentQueue.h and
-- the resolutions of Field.h. A `WorldInput` has a body of each kind, of which its kind selects one.
use seed_origin.Base.{ℕ, Bool, List, ℤ}
use seed_origin.World.Entities.{Action}

pub record MovementIntent (F : Type 0) : Type 0 where
  pub sequence : ℕ
  pub session_id : ℤ
  pub dx : F
  pub dy : F
  pub dz : F
  pub client_input_sequence : ℕ

pub record CombatIntent (F : Type 0) : Type 0 where
  pub attacker_id : ℤ
  pub target_id : ℤ
  pub power : F
  pub request_id : List ℕ

pub record SpellIntent (F : Type 0) : Type 0 where
  pub caster_id : ℤ
  pub target_id : ℤ
  pub element : List ℕ
  pub power : F
  pub request_id : List ℕ

pub record ChatIntent : Type 0 where
  pub sender_id : ℤ
  pub audience : List ℕ
  pub message : List ℕ

pub data WorldInputBody (F : Type 0) : Type 0 where
  action : Action F → WorldInputBody F
  movement : MovementIntent F → WorldInputBody F
  combat : CombatIntent F → WorldInputBody F
  spell : SpellIntent F → WorldInputBody F
  chat : ChatIntent → WorldInputBody F

pub record WorldInput (F : Type 0) : Type 0 where
  pub sequence : ℕ
  pub body : WorldInputBody F

pub record CombatResolution (F : Type 0) : Type 0 where
  pub spell : Bool
  pub input_sequence : ℕ
  pub actor_id : ℤ
  pub target_id : ℤ
  pub element : List ℕ
  pub request_id : List ℕ
  pub base_power : F
  pub effective_power : F
  pub damage : ℤ
  pub remaining_hp : ℤ
  pub mp_spent : ℤ
  pub cooldown_until : ℕ
  pub ether_delta : F × F × F × F
