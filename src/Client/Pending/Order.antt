-- ===== src/Client/Pending/Order.antt =====
-- The numbers in the buffer of src/PendingInputBuffer.cpp go up, so that an acknowledgement takes
-- away its front.
use seed_origin.Base.{
  ℕ, zero, suc, ◌≤◌, ◌<◌, true, List, [], ◌∷◌, ◌++◌, length, length-append, take, drop, last_or,
  ◌≡◌, refl, arith,
}
use seed_origin.Client.Pending.{
  PendingMoveInput, max_pending_prediction_inputs, push, acknowledge_up_to,
}

module _ {F : Type 0} where
  -- The numbers go up from, and without, the first argument.
  abbrev pub Above : ℕ → List (PendingMoveInput F) → Type 0
  Above n [] = Unit
  Above n (m ∷ ms) = (n < m.client_input_sequence) × Above m.client_input_sequence ms

  abbrev pub last_sequence : ℕ → List (PendingMoveInput F) → ℕ
  last_sequence n [] = n
  last_sequence n (m ∷ ms) = last_sequence m.client_input_sequence ms

  Above-append :
      (n : ℕ) (ms : List (PendingMoveInput F)) (m : PendingMoveInput F)
      → Above n ms
      → last_sequence n ms < m.client_input_sequence
      → Above n (ms ++ m ∷ [])
  Above-append n [] m h k = (k, tt)
  Above-append n (x ∷ ms) m h k = (h.0, Above-append x.client_input_sequence ms m h.1 k)

  last_or-last_sequence :
      (m : PendingMoveInput F) (ms : List (PendingMoveInput F))
      → (last_or m ms).client_input_sequence ≡ last_sequence m.client_input_sequence ms
  last_or-last_sequence m [] = refl
  last_or-last_sequence m (x ∷ ms) = last_or-last_sequence x ms

  pub push-Above :
      (ms after : List (PendingMoveInput F)) (m : PendingMoveInput F)
      → push ms m ≡ (after, true)
      → Above 0 ms
      → (after ≡ ms ++ m ∷ []) × Above 0 after × (length after ≤ max_pending_prediction_inputs)
  unfolding push
  push-Above [] after m e h = ground arith
  push-Above (x ∷ ms) after m e h = ground (
    arith,
    last_or-last_sequence x ms,
    Above-append 0 (x ∷ ms) m h,
    length-append (x ∷ ms) (m ∷ []),
  )

  last_sequence-grows :
      (n k : ℕ) (ms : List (PendingMoveInput F)) → Above n ms → n ≤ last_sequence n (take k ms)
  last_sequence-grows n zero ms h = omega arith
  last_sequence-grows n (suc k) [] h = omega arith
  last_sequence-grows n (suc k) (m ∷ ms) h =
      omega (arith, h.0, last_sequence-grows m.client_input_sequence k ms h.1)

  -- What is acknowledged up to the number of its `k`-th element loses its first `k`.
  pub acknowledge_up_to-drop :
      (n k : ℕ) (ms : List (PendingMoveInput F))
      → Above n ms
      → acknowledge_up_to ms (last_sequence n (take k ms)) ≡ drop k ms
  unfolding acknowledge_up_to
  acknowledge_up_to-drop n zero [] h = refl
  acknowledge_up_to-drop n zero (m ∷ ms) h = ground (arith, h.0)
  acknowledge_up_to-drop n (suc k) [] h = refl
  acknowledge_up_to-drop n (suc k) (m ∷ ms) h = ground (
    arith,
    last_sequence-grows m.client_input_sequence k ms h.1,
    acknowledge_up_to-drop m.client_input_sequence k ms h.1,
  )

  pub Above-drop : (n k : ℕ) (ms : List (PendingMoveInput F)) → Above n ms → Above 0 (drop k ms)
  Above-drop n zero [] h = tt
  Above-drop n zero (m ∷ ms) h = (omega (arith, h.0), h.1)
  Above-drop n (suc k) [] h = tt
  Above-drop n (suc k) (m ∷ ms) h = Above-drop m.client_input_sequence k ms h.1
