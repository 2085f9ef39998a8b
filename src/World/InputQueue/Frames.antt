-- ===== src/World/InputQueue/Frames.antt =====
-- The numbering and the bound of src/WorldInputQueue.cpp's queue, under any sequence of operations.
use seed_origin.Base.{
  ℕ, ◌+◌, ◌≤◌, Bool, false, not, ◌||◌, List, [], ◌∷◌, ◌++◌, ltb, ◌==◌, if◌then◌else◌, if_lem,
  length, length-append, all_bytes, ℤ, pos, leb_ℤ, uint64_max, ◌≡◌, arith,
}
use seed_origin.World.Float.{FloatOps}
use seed_origin.World.Entities.{Action}
use seed_origin.World.Movement.{is_valid_movement_delta}
use seed_origin.World.Input.{MovementIntent, WorldInput, WorldInputBody}
use seed_origin.World.Field.Combat.{is_element_char}
use seed_origin.World.InputSequence.{
  ClientInputSequenceTracker, ClientInputAdmission, accept, ignore_stale, reject_too_far_ahead,
  reject_invalid, admit,
}
use seed_origin.World.InputQueue.{
  WorldInputQueue, MovementEnqueueResult, rejected, new_queue, is_full, push, push_movement,
  admitted, enqueue_action, enqueue_chat, enqueue_combat, enqueue_spell, enqueue_sequenced_movement,
  is_bad_power, is_refused_request, is_message_char, take_frame, clear, max_pending_inputs,
}

-- The inputs are numbered in strictly increasing order from `low` on, and below `high`.
abbrev pub Ascends : {F : Type 0} → ℕ → List (WorldInput F) → ℕ → Type 0
Ascends low [] high = low ≤ high
Ascends low (i ∷ is) high = low ≤ i.sequence × Ascends (i.sequence + 1) is high

-- The queue is within its bound, and its inputs are in the order of their distinct numbers, all of
-- which are below the next one.
pub record IsOrdered {F : Type 0} (q : WorldInputQueue F) : Type 0 where
  pub ascends : Ascends 1 q.pending q.next_sequence
  pub bounded : length q.pending ≤ max_pending_inputs
  pub fits : q.next_sequence ≤ uint64_max

-- A call of an operation that changes the queue.
pub data QueueCall (F : Type 0) : Type 0 where
  action : Action F → QueueCall F
  movement : ℤ → F → F → F → ℕ → QueueCall F
  combat : ℤ → ℤ → F → List ℕ → QueueCall F
  spell : ℤ → ℤ → List ℕ → F → List ℕ → QueueCall F
  chat : ℤ → List ℕ → List ℕ → QueueCall F
  take : QueueCall F
  clear_all : QueueCall F

module _ {F : Type 0} where
  Ascends-append :
      (low high : ℕ) (xs : List (WorldInput F)) (b : WorldInputBody F)
      → Ascends low xs high
      → Ascends low (xs ++ (record { sequence = high; body = b }) ∷ []) (high + 1)
  Ascends-append low high [] b h = (h, omega arith)
  Ascends-append low high (i ∷ is) b (h, k) = (h, Ascends-append (i.sequence + 1) high is b k)

  Ascends-le : (low high : ℕ) (xs : List (WorldInput F)) → Ascends low xs high → low ≤ high
  Ascends-le low high [] h = h
  Ascends-le low high (i ∷ is) (h, k) =
      let later = Ascends-le (i.sequence + 1) high is k in omega arith

  -- A push, whatever it notes of the request and of the client's number.
  push-IsOrdered :
      (q : WorldInputQueue F) (b : WorldInputBody F) (requests : List (List ℕ))
      (tracker : ClientInputSequenceTracker)
      → is_full q ≡ false
      → IsOrdered q
      → IsOrdered (record (push q b) {
        accepted_combat_requests = requests;
        input_sequence_tracker = tracker;
      })
  push-IsOrdered q b requests tracker h w = record {
    ascends = Ascends-append 1 q.next_sequence q.pending b w.ascends;
    bounded = ground (
      arith,
      w.bounded,
      length-append q.pending ((record { sequence = q.next_sequence; body = b }) ∷ []),
    );
    fits = ground (arith, w.fits);
  }

  emptied-IsOrdered :
      (q : WorldInputQueue F) (requests : List (List ℕ))
      → IsOrdered q
      → IsOrdered (record q { pending = []; accepted_combat_requests = requests })
  emptied-IsOrdered q requests w = record {
    ascends = Ascends-le 1 q.next_sequence q.pending w.ascends;
    bounded = omega arith;
    fits = w.fits;
  }

  -- A guard, which keeps the queue where it holds.
  guarded :
      {R : Type 0} (b : Bool) (q : WorldInputQueue F) (x : R) (y : WorldInputQueue F × R)
      → IsOrdered q
      → (b ≡ false → IsOrdered y.0)
      → IsOrdered (if b then (q, x) else y).0
  guarded {R = R} b q x y w h =
      if_lem (λ (r : WorldInputQueue F × R). IsOrdered r.0) b (q, x) y (λ e. w) h

  push_movement-IsOrdered :
      (q : WorldInputQueue F) (i : MovementIntent F) → IsOrdered q → IsOrdered (push_movement q i).0
  push_movement-IsOrdered q i w =
      guarded (is_full q) q rejected _ w
        (λ h. push-IsOrdered q (WorldInputBody.movement i) q.accepted_combat_requests _ h w)

  admitted-IsOrdered :
      (q : WorldInputQueue F) (i : MovementIntent F) (a : ClientInputAdmission)
      → IsOrdered q
      → IsOrdered (admitted q i a).0
  admitted-IsOrdered q i accept w = push_movement-IsOrdered q i w
  admitted-IsOrdered q i ignore_stale w = w
  admitted-IsOrdered q i reject_too_far_ahead w = w
  admitted-IsOrdered q i reject_invalid w = w

  -- The intent that `enqueueSequencedMovement` queues.
  abbrev intent : ℤ → F → F → F → ℕ → MovementIntent F
  intent s dx dy dz n = record {
    sequence = 0;
    session_id = s;
    dx = dx;
    dy = dy;
    dz = dz;
    client_input_sequence = n;
  }

module _ {F : Type 0} (fl : FloatOps F) where
  abbrev pub queue_call : WorldInputQueue F → QueueCall F → WorldInputQueue F
  queue_call q (action a) = (enqueue_action q a).0
  queue_call q (movement s dx dy dz n) = (enqueue_sequenced_movement fl q s dx dy dz n).0
  queue_call q (combat a t p r) = (enqueue_combat fl q a t p r).0
  queue_call q (spell c t e p r) = (enqueue_spell fl q c t e p r).0
  queue_call q (chat s a m) = (enqueue_chat q s a m).0
  queue_call q take = (take_frame q).0
  queue_call q clear_all = clear q

  unfoldable pub queue_calls : WorldInputQueue F → List (QueueCall F) → WorldInputQueue F
  queue_calls q [] = q
  queue_calls q (c ∷ cs) = queue_calls (queue_call q c) cs

  queue_call-IsOrdered :
      (q : WorldInputQueue F) (c : QueueCall F) → IsOrdered q → IsOrdered (queue_call q c)
  unfolding enqueue_action enqueue_sequenced_movement enqueue_combat enqueue_spell enqueue_chat
      take_frame clear
  queue_call-IsOrdered q (action a) w = guarded (not a.valid) q false _ w (λ v.
      guarded (is_full q) q false _ w (λ h.
        push-IsOrdered q (WorldInputBody.action a) q.accepted_combat_requests
          q.input_sequence_tracker h w))
  queue_call-IsOrdered q (movement s dx dy dz n) w =
      guarded (leb_ℤ s (pos 0) || not (is_valid_movement_delta fl dx dy dz)) q rejected _ w (λ v.
        if_lem (λ (r : WorldInputQueue F × MovementEnqueueResult). IsOrdered r.0) (n == 0) _ _
          (λ z. push_movement-IsOrdered q (intent s dx dy dz n) w)
          (λ z. admitted-IsOrdered q (intent s dx dy dz n) (admit q.input_sequence_tracker s n) w))
  queue_call-IsOrdered q (combat a t p r) w =
      guarded (leb_ℤ a (pos 0) || leb_ℤ t (pos 0) || is_bad_power fl p) q false _ w (λ v.
        guarded (is_full q) q false _ w (λ h.
          guarded (is_refused_request q.accepted_combat_requests a r) q false _ w (λ u.
            push-IsOrdered q
              (WorldInputBody.combat
                (record { attacker_id = a; target_id = t; power = p; request_id = r }))
              _ q.input_sequence_tracker h w)))
  queue_call-IsOrdered q (spell c t e p r) w =
      guarded
        (leb_ℤ c (pos 0)
          || leb_ℤ t (pos 0)
          || length e == 0
          || ltb 32 (length e)
          || is_bad_power fl p)
        q false _ w
        (λ v. guarded (not (all_bytes is_element_char e)) q false _ w (λ m.
          guarded (is_full q) q false _ w (λ h.
            guarded (is_refused_request q.accepted_combat_requests c r) q false _ w (λ u.
              push-IsOrdered q
                (WorldInputBody.spell
                  (record { caster_id = c; target_id = t; element = e; power = p; request_id = r }))
                _ q.input_sequence_tracker h w))))
  queue_call-IsOrdered q (chat s a m) w =
      guarded
        (leb_ℤ s (pos 0)
          || length a == 0
          || ltb 16 (length a)
          || length m == 0
          || ltb 512 (length m))
        q false _ w
        (λ v.
          guarded (not (all_bytes is_element_char a) || not (all_bytes is_message_char m)) q false _
            w
            (λ n. guarded (is_full q) q false _ w (λ h.
              push-IsOrdered q
                (WorldInputBody.chat (record { sender_id = s; audience = a; message = m }))
                q.accepted_combat_requests q.input_sequence_tracker h w)))
  queue_call-IsOrdered q take w = emptied-IsOrdered q q.accepted_combat_requests w
  queue_call-IsOrdered q clear_all w = emptied-IsOrdered q [] w

  calls_from-IsOrdered :
      (q : WorldInputQueue F) (cs : List (QueueCall F)) → IsOrdered q → IsOrdered (queue_calls q cs)
  unfolding queue_calls
  calls_from-IsOrdered q [] w = w
  calls_from-IsOrdered q (c ∷ cs) w =
      calls_from-IsOrdered (queue_call q c) cs (queue_call-IsOrdered q c w)

  -- Whatever operations run on a new input queue, it holds at most 8192 inputs, numbered from 1
  -- in strictly increasing order below the next number, which fits a 64-bit word.
  pub queue_calls-IsOrdered : (cs : List (QueueCall F)) → IsOrdered (queue_calls new_queue cs)
  queue_calls-IsOrdered cs =
      calls_from-IsOrdered new_queue cs
        (record { ascends = omega arith; bounded = omega arith; fits = omega arith })
