-- ===== src/World/InputQueue/Requests.antt =====
-- What src/WorldInputQueue.cpp accepts once: requests by their identifiers, and movements by the
-- numbers that their client gives them.
use seed_origin.Base.{
  ℕ, ◌≤◌, Bool, true, false, List, [], ◌∷◌, ◌==◌, length, bytes_eq_iff, ℤ, pos, leb_ℤ, eqb_ℤ_iff,
  lookup, lookup-insert, ℤ_key, All, ◌≡◌, arith,
}
use seed_origin.World.Float.{FloatOps}
use seed_origin.World.Movement.{is_valid_movement_delta}
use seed_origin.World.InputSequence.{admit, sequence_or_zero}
use seed_origin.World.InputQueue.{
  WorldInputQueue, enqueued, ignored_stale, enqueue_combat, request_key, contains,
  is_refused_request, note_request, enqueue_spell, enqueue_sequenced_movement, enqueue_action,
  enqueue_chat, take_frame, clear,
}
use seed_origin.World.InputQueue.Frames.{
  QueueCall, action, movement, combat, spell, chat, take, clear_all, queue_call, queue_calls,
}

-- `clear` forgets the requests; the other operations do not.
abbrev pub is_clear : {F : Type 0} → QueueCall F → Bool
is_clear (action a) = false
is_clear (movement s dx dy dz n) = false
is_clear (combat a t p r) = false
is_clear (spell c t e p r) = false
is_clear (chat s a m) = false
is_clear take = false
is_clear clear_all = true

-- The number that the queue's tracker has for a session.
abbrev number_of : {F : Type 0} → WorldInputQueue F → ℤ → ℕ
number_of q s = sequence_or_zero (lookup s q.input_sequence_tracker.last_accepted)

note_request-contains :
    (key : List ℕ) (accepted : List (List ℕ)) (a : ℤ) (r : List ℕ)
    → contains key accepted ≡ true
    → contains key (note_request accepted a r) ≡ true
note_request-contains key accepted a r h = ground arith

module _ {F : Type 0} (fl : FloatOps F) where
  -- No operation but `clear` forgets a request.
  queue_call-contains :
      (q : WorldInputQueue F) (key : List ℕ) (c : QueueCall F)
      → is_clear c ≡ false
      → contains key q.accepted_combat_requests ≡ true
      → contains key (queue_call fl q c).accepted_combat_requests ≡ true
  unfolding enqueue_action enqueue_sequenced_movement enqueue_combat enqueue_spell enqueue_chat
      take_frame
  queue_call-contains q key (action a) u h = ground arith
  queue_call-contains q key (movement s dx dy dz n) u h = ground arith
  queue_call-contains q key (combat a t p r) u h =
      ground (arith, note_request-contains key q.accepted_combat_requests a r)
  queue_call-contains q key (spell c t e p r) u h =
      ground (arith, note_request-contains key q.accepted_combat_requests c r)
  queue_call-contains q key (chat s a m) u h = ground arith
  queue_call-contains q key take u h = h
  queue_call-contains q key clear_all u h = cc

  queue_calls-contains :
      (q : WorldInputQueue F) (key : List ℕ) (cs : List (QueueCall F))
      → All (λ c. is_clear c ≡ false) cs
      → contains key q.accepted_combat_requests ≡ true
      → contains key (queue_calls fl q cs).accepted_combat_requests ≡ true
  unfolding queue_calls
  queue_calls-contains q key [] u h = h
  queue_calls-contains q key (c ∷ cs) (u, us) h =
      queue_calls-contains (queue_call fl q c) key cs us (queue_call-contains q key c u h)

  enqueue_combat-contains :
      (q : WorldInputQueue F) (a t : ℤ) (p : F) (r : List ℕ)
      → (length r == 0) ≡ false
      → (enqueue_combat fl q a t p r).1 ≡ true
      → contains (request_key a r) (enqueue_combat fl q a t p r).0.accepted_combat_requests ≡ true
  unfolding enqueue_combat
  enqueue_combat-contains q a t p r h k =
      ground (arith, bytes_eq_iff (request_key a r) (request_key a r))

  refused_again :
      (q : WorldInputQueue F) (a t : ℤ) (element : List ℕ) (p : F) (r : List ℕ)
      → (length r == 0) ≡ false
      → contains (request_key a r) q.accepted_combat_requests ≡ true
      → (enqueue_combat fl q a t p r ≡ (q, false))
        × (enqueue_spell fl q a t element p r ≡ (q, false))
  unfolding enqueue_combat enqueue_spell is_refused_request
  refused_again q a t element p r h k = ground arith

  -- Once an attack with a non-empty request identifier is queued, neither an attack nor a spell
  -- of the same actor with that identifier is, whatever operations other than `clear` come
  -- between, and the queue stays as it is then.
  pub enqueue_combat-once :
      (q : WorldInputQueue F) (actor_id target_id other_id : ℤ) (element : List ℕ) (power other : F)
      (request_id : List ℕ) (between : List (QueueCall F))
      → (length request_id == 0) ≡ false
      → (enqueue_combat fl q actor_id target_id power request_id).1 ≡ true
      → All (λ c. is_clear c ≡ false) between
      → let later =
          queue_calls fl (enqueue_combat fl q actor_id target_id power request_id).0 between in
        (enqueue_combat fl later actor_id other_id other request_id ≡ (later, false))
        × (enqueue_spell fl later actor_id other_id element other request_id ≡ (later, false))
  enqueue_combat-once q actor_id target_id other_id element power other request_id between h k u =
      let after = (enqueue_combat fl q actor_id target_id power request_id).0 in
      refused_again (queue_calls fl after between) actor_id other_id element other request_id h (
        queue_calls-contains after (request_key actor_id request_id) between u
          (enqueue_combat-contains q actor_id target_id power request_id h k))

  -- No operation takes the number of a session back.
  queue_call-number_of :
      (q : WorldInputQueue F) (s : ℤ) (c : QueueCall F)
      → number_of q s ≤ number_of (queue_call fl q c) s
  unfolding enqueue_action enqueue_sequenced_movement enqueue_combat enqueue_spell enqueue_chat
      take_frame clear admit
  queue_call-number_of q s (action a) = ground arith
  queue_call-number_of q s (movement t dx dy dz n) =
      ground (arith, lookup-insert s t n q.input_sequence_tracker.last_accepted, eqb_ℤ_iff s t)
  queue_call-number_of q s (combat a t p r) = ground arith
  queue_call-number_of q s (spell c t e p r) = ground arith
  queue_call-number_of q s (chat t a m) = ground arith
  queue_call-number_of q s take = omega arith
  queue_call-number_of q s clear_all = omega arith

  queue_calls-number_of :
      (q : WorldInputQueue F) (s : ℤ) (cs : List (QueueCall F))
      → number_of q s ≤ number_of (queue_calls fl q cs) s
  unfolding queue_calls
  queue_calls-number_of q s [] = omega arith
  queue_calls-number_of q s (c ∷ cs) =
      omega (arith, queue_call-number_of q s c, queue_calls-number_of (queue_call fl q c) s cs)

  enqueued-number_of :
      (q : WorldInputQueue F) (s : ℤ) (dx dy dz : F) (n : ℕ)
      → (n == 0) ≡ false
      → (enqueue_sequenced_movement fl q s dx dy dz n).1 ≡ enqueued
      → (leb_ℤ s (pos 0) ≡ false)
        × (number_of (enqueue_sequenced_movement fl q s dx dy dz n).0 s ≡ n)
  unfolding enqueue_sequenced_movement admit
  enqueued-number_of q s dx dy dz n h k =
      ground (arith, lookup-insert s s n q.input_sequence_tracker.last_accepted, eqb_ℤ_iff s s)

  ignored_again :
      (q : WorldInputQueue F) (s : ℤ) (dx dy dz : F) (n : ℕ)
      → leb_ℤ s (pos 0) ≡ false
      → (n == 0) ≡ false
      → is_valid_movement_delta fl dx dy dz ≡ true
      → n ≤ number_of q s
      → enqueue_sequenced_movement fl q s dx dy dz n ≡ (q, ignored_stale)
  unfolding enqueue_sequenced_movement admit
  ignored_again q s dx dy dz n h k v le = ground arith

  -- Once a movement numbered by its client is queued, the session's valid movements with that
  -- number or a lower one, other than 0, are ignored as stale, whatever operations come
  -- between, and the queue stays as it is then.
  pub enqueue_sequenced_movement-stale :
      (q : WorldInputQueue F) (session_id : ℤ) (dx dy dz ex ey ez : F) (number stale : ℕ)
      (between : List (QueueCall F))
      → (number == 0) ≡ false
      → (enqueue_sequenced_movement fl q session_id dx dy dz number).1 ≡ enqueued
      → stale ≤ number
      → (stale == 0) ≡ false
      → is_valid_movement_delta fl ex ey ez ≡ true
      → let later =
          queue_calls fl (enqueue_sequenced_movement fl q session_id dx dy dz number).0 between in
        enqueue_sequenced_movement fl later session_id ex ey ez stale ≡ (later, ignored_stale)
  enqueue_sequenced_movement-stale q session_id dx dy dz ex ey ez number stale between h k le z v =
      let after = (enqueue_sequenced_movement fl q session_id dx dy dz number).0 in
      let (positive, noted) = enqueued-number_of q session_id dx dy dz number h k in
      ignored_again (queue_calls fl after between) session_id ex ey ez stale positive z v
        (omega (arith, noted, queue_calls-number_of after session_id between))
