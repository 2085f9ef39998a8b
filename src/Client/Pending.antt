-- ===== src/Client/Pending.antt =====
-- include/seed/PendingInputBuffer.h and src/PendingInputBuffer.cpp: the movements that a client has
-- predicted and the server has not yet acknowledged.
pub mod Order
use seed_origin.Base.{
  ℕ, Bool, true, false, ◌||◌, List, [], ◌∷◌, ◌++◌, leb, ◌==◌, if◌then◌else◌, length, last_or,
}

abbrev pub max_pending_prediction_inputs : ℕ
max_pending_prediction_inputs = 64

pub record PendingMoveInput (F : Type 0) : Type 0 where
  pub client_input_sequence : ℕ
  pub dx : F
  pub dy : F
  pub dz : F

module _ {F : Type 0} where
  -- `!pending.empty() && input.clientInputSequence <= pending.back().clientInputSequence`
  abbrev is_not_newer : PendingMoveInput F → List (PendingMoveInput F) → Bool
  is_not_newer input [] = false
  is_not_newer input (m ∷ ms) = leb input.client_input_sequence (last_or m ms).client_input_sequence

  -- The buffer and whether the input was taken.
  unfoldable pub push :
      List (PendingMoveInput F) → PendingMoveInput F → List (PendingMoveInput F) × Bool
  push pending input =
      if input.client_input_sequence == 0
        || leb max_pending_prediction_inputs (length pending)
        || is_not_newer input pending
      then (pending, false)
      else (pending ++ input ∷ [], true)

  unfoldable pub acknowledge_up_to : List (PendingMoveInput F) → ℕ → List (PendingMoveInput F)
  acknowledge_up_to [] last_processed = []
  acknowledge_up_to (m ∷ ms) last_processed =
      let rest = acknowledge_up_to ms last_processed in
      if leb m.client_input_sequence last_processed then rest else m ∷ ms
