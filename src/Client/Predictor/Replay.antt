-- ===== src/Client/Predictor/Replay.antt =====
-- `replayUnacked` of src/LocalMovementPredictor.cpp on movements of which the simulation refuses none.
use seed_origin.Base.{
  ℕ, zero, suc, List, [], ◌∷◌, ◌++◌, Option, none, some, take, drop, ◌≡◌, refl, ap, ◌∙◌, arith,
}
use seed_origin.World.Float.{FloatOps}
use seed_origin.Client.Pending.{PendingMoveInput}
use seed_origin.Client.Predictor.{PredictedPose, integrate, on_pose, replay}

module _ {F : Type 0} (fl : FloatOps F) where
  abbrev pub then_pose :
      Option (PredictedPose F)
      → (PredictedPose F → Option (PredictedPose F))
      → Option (PredictedPose F)
  then_pose none next = none
  then_pose (some p) next = next p

  -- The pose behind all the movements, `none` where one of them is refused.
  unfoldable pub simulated : PredictedPose F → List (PendingMoveInput F) → Option (PredictedPose F)
  simulated p [] = some p
  simulated p (m ∷ ms) = then_pose (integrate fl p m) (λ q. simulated q ms)

  then_pose-eq-some :
      (o : Option (PredictedPose F)) (next : PredictedPose F → Option (PredictedPose F))
      (q : PredictedPose F)
      → then_pose o next ≡ some q
      → (x : PredictedPose F) × (o ≡ some x) × (next x ≡ some q)
  then_pose-eq-some none next q h = absurd (ground arith)
  then_pose-eq-some (some x) next q h = (x, refl, h)

  some_pose : (p q : PredictedPose F) → some p ≡ some q → p ≡ q
  some_pose p q h = cc

  pub simulated-append :
      (p q r : PredictedPose F) (ms : List (PendingMoveInput F)) (m : PendingMoveInput F)
      → simulated p ms ≡ some q
      → integrate fl q m ≡ some r
      → simulated p (ms ++ m ∷ []) ≡ some r
  unfolding simulated
  simulated-append p q r [] m h k =
      ap (λ t. simulated t (m ∷ [])) (some_pose p q h) ∙ ap (λ o. then_pose o (λ t. some t)) k
  simulated-append p q r (x ∷ ms) m h k =
      let (t, e, rest) = then_pose-eq-some (integrate fl p x) (λ t. simulated t ms) q h in
      ap (λ o. then_pose o (λ u. simulated u (ms ++ m ∷ []))) e ∙ simulated-append t q r ms m rest k

  -- The replay of movements of which none is refused reaches their pose, also from the pose that
  -- is behind the first of them.
  pub replay-simulated :
      (p q : PredictedPose F) (ms : List (PendingMoveInput F))
      → simulated p ms ≡ some q
      → replay fl p ms ≡ q
  unfolding simulated replay
  replay-simulated p q [] h = some_pose p q h
  replay-simulated p q (x ∷ ms) h =
      let (t, e, rest) = then_pose-eq-some (integrate fl p x) (λ t. simulated t ms) q h in
      ap (on_pose fl p (λ u. replay fl u ms)) e ∙ replay-simulated t q ms rest

  pub simulated-drop :
      (p q : PredictedPose F) (k : ℕ) (ms : List (PendingMoveInput F))
      → simulated p ms ≡ some q
      → simulated (replay fl p (take k ms)) (drop k ms) ≡ some q
  unfolding simulated replay
  simulated-drop p q zero ms h = h
  simulated-drop p q (suc k) [] h = h
  simulated-drop p q (suc k) (x ∷ ms) h =
      let (t, e, rest) = then_pose-eq-some (integrate fl p x) (λ t. simulated t ms) q h in
      ap (λ o. simulated (on_pose fl p (λ u. replay fl u (take k ms)) o) (drop k ms)) e
      ∙ simulated-drop t q k ms rest
