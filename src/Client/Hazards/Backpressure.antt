-- ===== src/Client/Hazards/Backpressure.antt =====
-- What becomes of a hazard for which src/ClientHazardEffectQueue.cpp has no room.
use seed_origin.Base.{ℕ, Result, ok, err, ◌≡◌, refl, sym, ap, ◌∙◌, subst, arith}
use seed_origin.Net.Update.{WorldUpdate}
use seed_origin.Net.Sequence.{
  WorldUpdateSequenceTracker, SyncDecision, apply, ignore_duplicate, request_snapshot, reject,
  receive, accept,
}
use seed_origin.World.Float.{FloatOps, FloatText}
use seed_origin.Client.Hazards.{
  ClientHazardEffectQueue, ignored_duplicate, backpressure, Ingested, checked, decided, with_sync,
  push_effect, ingest_parsed, ingest_checked, ingest, parse_hazard, drain,
}

-- An update that has had its turn is a duplicate when it comes again.
receive_again :
    (t : WorldUpdateSequenceTracker) (u : WorldUpdate)
    → (receive t u).verdict ≡ apply
    → ((receive (receive t u).tracker u).verdict ≡ ignore_duplicate)
      × ((receive (receive t u).tracker u).tracker ≡ (receive t u).tracker)
unfolding receive accept
receive_again t u h = ground arith

module _ {F : Type 0} (fl : FloatOps F) (ft : FloatText F) where
  pushed_lem :
      (q : ClientHazardEffectQueue F) (u : WorldUpdate) (h : F × F)
      → (push_effect fl ft q u h).result ≡ backpressure
      → (push_effect fl ft q u h).after ≡ q
  pushed_lem q u (severity, instability) e = ground arith

  -- The effects are those from before the call, and the update counts as a duplicate from then on,
  -- also where effects have been drained in between.
  abbrev pub IsLost :
      ClientHazardEffectQueue F
      → ClientHazardEffectQueue F
      → (ClientHazardEffectQueue F → Ingested F)
      → Type 0
  IsLost q after again =
      (after.effects ≡ q.effects)
      × ((n : ℕ)
          → ((again (drain after n).0).result ≡ ignored_duplicate)
            × ((again (drain after n).0).after.effects ≡ (drain after n).0.effects))

  decided-eq-backpressure :
      (q : ClientHazardEffectQueue F) (v : SyncDecision) (go : Ingested F)
      → (decided q v go).result ≡ backpressure
      → (v ≡ apply) × (go.result ≡ backpressure) × (decided q v go ≡ go)
  decided-eq-backpressure q apply go h = (refl, h, refl)
  decided-eq-backpressure q ignore_duplicate go h = absurd (ground arith)
  decided-eq-backpressure q request_snapshot go h = absurd (ground arith)
  decided-eq-backpressure q reject go h = absurd (ground arith)

  parsed-IsLost :
      (q : ClientHazardEffectQueue F) (u : WorldUpdate) (p : Result (F × F))
      → (ingest_parsed fl ft q u p).result ≡ backpressure
      → IsLost q (ingest_parsed fl ft q u p).after (λ r. ingest_parsed fl ft r u p)
  unfolding drain
  parsed-IsLost q u (err e) h = absurd (ground arith)
  parsed-IsLost q u (ok hazard) h =
      let s = receive q.sync u in
      let next = with_sync q s in
      let (v, full, e) =
        decided-eq-backpressure next s.verdict (push_effect fl ft next u hazard) h in
      let same = ap (λ r. r.after) e ∙ pushed_lem next u hazard full in
      let (again, kept) = receive_again q.sync u v in
      let after_decision = λ (n : ℕ) (w : SyncDecision).
        decided (with_sync (drain next n).0 (receive s.tracker u)) w
          (push_effect fl ft (with_sync (drain next n).0 (receive s.tracker u)) u hazard) in
      (
        ap (λ r. r.effects) same,
        λ n.
            subst
              (λ a.
                ((ingest_parsed fl ft (drain a n).0 u (ok hazard)).result ≡ ignored_duplicate)
                × ((ingest_parsed fl ft (drain a n).0 u (ok hazard)).after.effects
                    ≡ (drain a n).0.effects))
              (sym same)
              (
                ap (λ w. (after_decision n w).result) again,
                ap (λ w. (after_decision n w).after.effects) again,
              ),
      )

  checked-IsLost :
      (q : ClientHazardEffectQueue F) (u : WorldUpdate) (c : Result (Unit {0}))
      → (ingest_checked fl ft q u c).result ≡ backpressure
      → IsLost q (ingest_checked fl ft q u c).after (λ r. ingest_checked fl ft r u c)
  checked-IsLost q u (err e) h = absurd (ground arith)
  checked-IsLost q u (ok valid) h = parsed-IsLost q u (parse_hazard fl ft u.payload) h

  -- A hazard for which the client's queue has no room is lost: the queued effects stay as they
  -- were, and when the same update comes again, also after effects have been drained, it is
  -- ignored as a duplicate.
  pub ingest-IsLost :
      (q : ClientHazardEffectQueue F) (u : WorldUpdate)
      → (ingest fl ft q u).result ≡ backpressure
      → IsLost q (ingest fl ft q u).after (λ r. ingest fl ft r u)
  unfolding ingest
  ingest-IsLost q u h = checked-IsLost q u (checked u) h
