-- ===== src/World/Updates/Numbers.antt =====
-- What the numbers of src/WorldFrameUpdateBuilder.cpp are worth to a client that has applied the
-- updates before them.
use seed_origin.Base.{
  ℕ, zero, suc, ◌+◌, true, false, List, [], ◌∷◌, ◌++◌, append_assoc, append-nil, ltb, ◌==◌, if_lem,
  length, Result, ok, err, uint64_max, ◌≡◌, refl, sym, ap, ◌∙◌, subst, arith,
}
use seed_origin.Net.Update.{max_update_payload, WorldUpdate, validate_world_update}
use seed_origin.Net.Sequence.{WorldUpdateSequenceTracker, receive, accept, apply}
use seed_origin.Net.Sequence.Order.{applied, keep}
use seed_origin.World.Float.{FloatText}
use seed_origin.World.Input.{WorldInput}
use seed_origin.World.ActionQueue.{WorldFrameInputs}
use seed_origin.World.Updates.{
  WorldFrameUpdateBuilder, Built, event_update, append_event, append_events, if_done, go_on,
  input_texts, build,
}

abbrev next_builder : WorldFrameUpdateBuilder → WorldFrameUpdateBuilder
next_builder b = record { update_sequence = b.update_sequence + 1; event_id = b.event_id + 1 }

-- The events with these payloads, numbered from where the builder is.
unfoldable events : WorldFrameUpdateBuilder → ℕ → List (List ℕ) → List WorldUpdate
events b tick [] = []
events b tick (p ∷ ps) = event_update b tick p ∷ events (next_builder b) tick ps

-- Each of them is valid, and its number is not the largest one.
abbrev AllValid : WorldFrameUpdateBuilder → ℕ → List (List ℕ) → Type 0
AllValid b tick [] = Unit
AllValid b tick (p ∷ ps) =
    ((b.update_sequence == uint64_max) ≡ false)
    × (validate_world_update (event_update b tick p) ≡ ok tt)
    × AllValid (next_builder b) tick ps

append_event_lem :
    (b : WorldFrameUpdateBuilder) (tick : ℕ) (payload : List ℕ) (updates : List WorldUpdate)
    → (append_event b tick payload updates).outcome ≡ ok tt
    → ((append_event b tick payload updates).updates ≡ updates ++ event_update b tick payload ∷ [])
      × ((append_event b tick payload updates).builder ≡ next_builder b)
      × ((b.update_sequence == uint64_max) ≡ false)
      × (validate_world_update (event_update b tick payload) ≡ ok tt)
unfolding append_event
append_event_lem b tick payload updates h = ground arith

go_on-ok :
    (r : Built) (next : WorldFrameUpdateBuilder → List WorldUpdate → Built)
    → (go_on r next).outcome ≡ ok tt
    → (r.outcome ≡ ok tt) × (go_on r next ≡ next r.builder r.updates)
go_on-ok r next h = at_outcome r.outcome refl
  where
    at_outcome :
        (o : Result (Unit {0}))
        → r.outcome ≡ o
        → (r.outcome ≡ ok tt) × (go_on r next ≡ next r.builder r.updates)
    at_outcome (ok tt) e = (e, ap (λ o. if_done o r (next r.builder r.updates)) e)
    at_outcome (err m) e = absurd (ground arith)

append_events_lem :
    (b : WorldFrameUpdateBuilder) (tick : ℕ) (ps : List (List ℕ)) (updates : List WorldUpdate)
    → (append_events b tick ps updates).outcome ≡ ok tt
    → ((append_events b tick ps updates).updates ≡ updates ++ events b tick ps)
      × ((append_events b tick ps updates).builder.update_sequence ≡ b.update_sequence + length ps)
      × AllValid b tick ps
unfolding append_events events
append_events_lem b tick [] updates h = (sym (append-nil updates), omega arith, tt)
append_events_lem b tick (p ∷ ps) updates h =
    let next =
      λ (b' : WorldFrameUpdateBuilder) (us : List WorldUpdate). append_events b' tick ps us in
    let first = append_event b tick p updates in
    let (fine, e) = go_on-ok first next h in
    let (us, bs, small, v) = append_event_lem b tick p updates fine in
    let same : append_events b tick (p ∷ ps) updates
        ≡ append_events (next_builder b) tick ps (updates ++ event_update b tick p ∷ []) =
      e
      ∙ ap (λ c. append_events c tick ps first.updates) bs
      ∙ ap (append_events (next_builder b) tick ps) us in
    let (all, count, valid) =
      append_events_lem (next_builder b) tick ps (updates ++ event_update b tick p ∷ [])
        (sym (ap (λ r. r.outcome) same) ∙ h) in
    (
      ap (λ r. r.updates) same
          ∙ all
          ∙ append_assoc updates (event_update b tick p ∷ []) (events (next_builder b) tick ps),
      omega (arith, count, ap (λ r. r.builder.update_sequence) same),
      (small, v, valid),
    )

-- The tracker behind what a client has received.
unfoldable pub tracker_after :
    WorldUpdateSequenceTracker → List WorldUpdate → WorldUpdateSequenceTracker
tracker_after t [] = t
tracker_after t (u ∷ us) = tracker_after (receive t u).tracker us

-- `count` numbers from `n` up.
unfoldable pub numbers_from : ℕ → ℕ → List ℕ
numbers_from n zero = []
numbers_from n (suc count) = n ∷ numbers_from (n + 1) count

receive_expected :
    (t : WorldUpdateSequenceTracker) (u : WorldUpdate)
    → t.has_sequence ≡ true
    → t.expected_sequence ≡ u.sequence
    → (u.sequence == uint64_max) ≡ false
    → validate_world_update u ≡ ok tt
    → ((receive t u).verdict ≡ apply)
      × ((receive t u).tracker.has_sequence ≡ true)
      × ((receive t u).tracker.expected_sequence ≡ u.sequence + 1)
unfolding receive accept
receive_expected t u h e m v = ground arith

events-applied :
    (t : WorldUpdateSequenceTracker) (b : WorldFrameUpdateBuilder) (tick : ℕ) (ps : List (List ℕ))
    → t.has_sequence ≡ true
    → t.expected_sequence ≡ b.update_sequence
    → AllValid b tick ps
    → (applied t (events b tick ps) ≡ numbers_from b.update_sequence (length ps))
      × ((tracker_after t (events b tick ps)).has_sequence ≡ true)
      × ((tracker_after t (events b tick ps)).expected_sequence ≡ b.update_sequence + length ps)
unfolding events applied numbers_from tracker_after
events-applied t b tick [] h e v = (refl, h, omega (arith, e))
events-applied t b tick (p ∷ ps) h e (small, valid, rest) =
    let u = event_update b tick p in
    let (a, begun, up) = receive_expected t u h e small valid in
    let (all, has, behind) =
      events-applied (receive t u).tracker (next_builder b) tick ps begun up rest in
    (
      ap (λ v. keep v u.sequence (applied (receive t u).tracker (events (next_builder b) tick ps)))
            a
          ∙ ap (◌∷◌ b.update_sequence) all,
      has,
      omega (arith, behind),
    )

-- The client applies the updates of a call, all of them and each once, and then expects the number
-- that the builder gives next.
abbrev pub IsDelivered : WorldUpdateSequenceTracker → ℕ → ℕ → Built → Type 0
IsDelivered t n count r =
    (applied t r.updates ≡ numbers_from n count)
    × ((tracker_after t r.updates).has_sequence ≡ true)
    × ((tracker_after t r.updates).expected_sequence ≡ r.builder.update_sequence)

append_events-IsDelivered :
    (t : WorldUpdateSequenceTracker) (b : WorldFrameUpdateBuilder) (tick : ℕ) (ps : List (List ℕ))
    → (append_events b tick ps []).outcome ≡ ok tt
    → t.has_sequence ≡ true
    → t.expected_sequence ≡ b.update_sequence
    → IsDelivered t b.update_sequence (length ps) (append_events b tick ps [])
append_events-IsDelivered t b tick ps h begun e =
    let (us, count, valid) = append_events_lem b tick ps [] h in
    let (all, has, behind) = events-applied t b tick ps begun e valid in
    (
      ap (applied t) us ∙ all,
      ap (λ l. (tracker_after t l).has_sequence) us ∙ has,
      ap (λ l. (tracker_after t l).expected_sequence) us ∙ behind ∙ sym count,
    )

module _ {F : Type 0} (ft : FloatText F) where
  length-input_texts : (is : List (WorldInput F)) → length (input_texts ft is) ≡ length is
  length-input_texts [] = refl
  length-input_texts (i ∷ is) = ap suc (length-input_texts is)

  -- Where the updates of a frame of inputs can be built, a client that expects the builder's
  -- number applies all of them, one for each input, and expects the builder's next number
  -- afterwards.
  pub build-IsDelivered :
      (b : WorldFrameUpdateBuilder) (frame : WorldFrameInputs F) (t : WorldUpdateSequenceTracker)
      → (build ft b frame).outcome ≡ ok tt
      → t.has_sequence ≡ true
      → t.expected_sequence ≡ b.update_sequence
      → IsDelivered t b.update_sequence (length frame.inputs) (build ft b frame)
  unfolding build
  build-IsDelivered b frame t h begun e =
      let texts = input_texts ft frame.inputs in
      if_lem
        (λ (r : Built). r.outcome ≡ ok tt → IsDelivered t b.update_sequence (length frame.inputs) r)
        (ltb max_update_payload (length frame.inputs)) _ (append_events b frame.world_tick texts [])
        (λ g k. absurd (ground arith))
        (λ g k.
          subst (λ n. IsDelivered t b.update_sequence n (append_events b frame.world_tick texts []))
            (length-input_texts frame.inputs)
            (append_events-IsDelivered t b frame.world_tick texts k begun e))
        h
