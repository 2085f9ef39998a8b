-- ===== src/Net/Outbound/Order.antt =====
-- The byte stream that src/OutboundFrameQueue.cpp's queue feeds to a socket which takes as much as
-- it likes of the first frame at a time, as `ClientSession::flush` has it.
use seed_origin.Base.{
  ℕ, zero, suc, if_lem, ◌≤◌, ◌<◌, Bool, true, false, List, [], ◌∷◌, ◌++◌, append_assoc, append-nil,
  ltb, ◌==◌, length, length-append, take, drop, concat, Result, ok, err, ◌≡◌, refl, sym, ap, ◌∙◌,
  arith,
}
use seed_origin.Net.Outbound.{OutboundFrameQueue, max_outbound_frames, enqueue, consume_front}

-- A frame is queued, or the socket takes some bytes of the first one.
pub data OutboundStep : Type 0 where
  offered : List ℕ → OutboundStep
  sent : ℕ → OutboundStep

-- The queue, the bytes that the socket took, and the bytes of the frames that were accepted.
pub record Progress : Type 0 where
  pub frames : OutboundFrameQueue
  pub taken : List ℕ
  pub accepted : List ℕ

abbrev pub nothing_sent : Progress
nothing_sent = record { frames = []; taken = []; accepted = [] }

abbrev pub first_bytes : ℕ → OutboundFrameQueue → List ℕ
first_bytes n [] = []
first_bytes n (frame ∷ frames) = take n frame

abbrev pub offer : Progress → List ℕ → Result OutboundFrameQueue → Progress
offer p frame (err e) = p
offer p frame (ok frames) = record p { frames = frames; accepted = p.accepted ++ frame }

abbrev pub send : Progress → ℕ → OutboundFrameQueue × Bool → Progress
send p n (frames, false) = p
send p n (frames, true) = record p { frames = frames; taken = p.taken ++ first_bytes n p.frames }

abbrev pub outbound_step : Progress → OutboundStep → Progress
outbound_step p (offered frame) = offer p frame (enqueue p.frames frame)
outbound_step p (sent n) = send p n (consume_front p.frames n)

unfoldable pub outbound_steps : Progress → List OutboundStep → Progress
outbound_steps p [] = p
outbound_steps p (s ∷ ss) = outbound_steps (outbound_step p s) ss

pub record IsInOrder (p : Progress) : Type 0 where
  pub stream : p.taken ++ concat p.frames ≡ p.accepted
  pub bounded : length p.frames ≤ max_outbound_frames

concat-append : (xs : List (List ℕ)) (y : List ℕ) → concat (xs ++ y ∷ []) ≡ concat xs ++ y
concat-append [] y = append-nil y
concat-append (x ∷ xs) y = ap (◌++◌ x) (concat-append xs y) ∙ sym (append_assoc x (concat xs) y)

take-append-drop : (n : ℕ) (xs : List ℕ) → take n xs ++ drop n xs ≡ xs
take-append-drop zero xs = refl
take-append-drop (suc n) [] = refl
take-append-drop (suc n) (x ∷ xs) = ap (◌∷◌ x) (take-append-drop n xs)

take_all : (n : ℕ) (xs : List ℕ) → n ≡ length xs → take n xs ≡ xs
take_all zero [] h = refl
take_all zero (x ∷ xs) h = ground arith
take_all (suc n) [] h = refl
take_all (suc n) (x ∷ xs) h = ap (◌∷◌ x) (take_all n xs (omega (arith, h)))

enqueue-eq-ok :
    (q r : OutboundFrameQueue) (frame : List ℕ)
    → enqueue q frame ≡ ok r
    → (r ≡ q ++ frame ∷ []) × (length q < max_outbound_frames)
unfolding enqueue
enqueue-eq-ok q r frame h = ground arith

offered-IsInOrder :
    (p : Progress) (frame : List ℕ) (r : Result OutboundFrameQueue)
    → enqueue p.frames frame ≡ r
    → IsInOrder p
    → IsInOrder (offer p frame r)
offered-IsInOrder p frame (err e) h w = w
offered-IsInOrder p frame (ok q) h w =
    let (grown, room) = enqueue-eq-ok p.frames q frame h in
    record {
      stream =
          ap (λ t. p.taken ++ concat t) grown
          ∙ ap (◌++◌ p.taken) (concat-append p.frames frame)
          ∙ sym (append_assoc p.taken (concat p.frames) frame)
          ∙ ap (λ t. t ++ frame) w.stream;
      bounded = ground (arith, grown, room, length-append p.frames (frame ∷ []));
    }

-- What the socket takes moves from the queue to the stream.
moved :
    (taken front back accepted first : List ℕ) (rest : List ℕ)
    → front ++ back ≡ first
    → taken ++ (first ++ rest) ≡ accepted
    → (taken ++ front) ++ (back ++ rest) ≡ accepted
moved taken front back accepted first rest h k =
    append_assoc taken front (back ++ rest)
    ∙ ap (◌++◌ taken) (sym (append_assoc front back rest) ∙ ap (λ t. t ++ rest) h)
    ∙ k

sent-IsInOrder :
    (q : OutboundFrameQueue) (taken accepted : List ℕ) (n : ℕ)
    → let p : Progress = record { frames = q; taken = taken; accepted = accepted } in
      IsInOrder p → IsInOrder (send p n (consume_front q n))
unfolding consume_front
sent-IsInOrder [] taken accepted n w = w
sent-IsInOrder (frame ∷ frames) taken accepted n w =
    let p : Progress = record { frames = frame ∷ frames; taken = taken; accepted = accepted } in
    let P = λ (r : OutboundFrameQueue × Bool). IsInOrder (send p n r) in
    if_lem P (ltb (length frame) n) (frame ∷ frames, false) _ (λ h. w)
      (λ h.
        if_lem P (n == length frame) (frames, true) (drop n frame ∷ frames, true)
          (λ k. record {
            stream =
                moved taken (take n frame) [] accepted frame (concat frames)
                  (append-nil (take n frame) ∙ take_all n frame (ground arith)) w.stream;
            bounded = omega (arith, w.bounded);
          })
          (λ k. record {
            stream =
                moved taken (take n frame) (drop n frame) accepted frame (concat frames)
                  (take-append-drop n frame) w.stream;
            bounded = omega (arith, w.bounded);
          }))

step-IsInOrder : (p : Progress) (s : OutboundStep) → IsInOrder p → IsInOrder (outbound_step p s)
step-IsInOrder p (offered frame) w = offered-IsInOrder p frame (enqueue p.frames frame) refl w
step-IsInOrder p (sent n) w = sent-IsInOrder p.frames p.taken p.accepted n w

steps-IsInOrder :
    (p : Progress) (ss : List OutboundStep) → IsInOrder p → IsInOrder (outbound_steps p ss)
unfolding outbound_steps
steps-IsInOrder p [] w = w
steps-IsInOrder p (s ∷ ss) w = steps-IsInOrder (outbound_step p s) ss (step-IsInOrder p s w)

-- However frames are queued and bytes of the first frame taken by turns, the bytes taken and then
-- those queued are the accepted frames one after the other, and at most 256 frames are queued.
pub outbound_steps-IsInOrder : (ss : List OutboundStep) → IsInOrder (outbound_steps nothing_sent ss)
outbound_steps-IsInOrder ss =
    steps-IsInOrder nothing_sent ss (record { stream = refl; bounded = omega arith })
