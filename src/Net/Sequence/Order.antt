-- ===== src/Net/Sequence/Order.antt =====
-- Updates are applied in order, each once, with none left out.
use seed_origin.Base.{
  ℕ, zero, suc, ◌+◌, ◌%◌, ◌^◌, ◌≤◌, ◌<◌, ◌==◌, if◌then◌else◌, ◌≡◌, ◌≢◌, refl, ◌⊎◌, inl, inr, true,
  false, List, [], ◌∷◌, ◌++◌, map, All, arith, ok, uint64_max, subst, ap, ◌∙◌, ◌↔◌,
}
use mathlib.Core.List.{map-append}
use seed_origin.Net.Update.{WorldUpdate, validate_world_update}
use seed_origin.Net.Sequence.{
  WorldUpdateSequenceTracker, accept, receive, apply, ignore_duplicate, request_snapshot, reject,
  reset_after_snapshot, confirm_snapshot, SyncDecision,
}

-- The next number is always one that an update can carry and that can still be incremented.
pub record IsSynchronized (t : WorldUpdateSequenceTracker) : Type 0 where
  pub positive : 1 ≤ t.expected_sequence
  pub fits : t.expected_sequence ≤ uint64_max
  pub begins : t.has_sequence ≡ false → t.expected_sequence ≡ 1

pub accept-IsSynchronized :
    (t : WorldUpdateSequenceTracker) (u : WorldUpdate)
    → u.sequence ≤ uint64_max
    → IsSynchronized t
    → IsSynchronized (accept t u).0
unfolding accept
accept-IsSynchronized t u h v = ground arith

abbrev pub keep : SyncDecision → ℕ → List ℕ → List ℕ
keep apply m ms = m ∷ ms
keep ignore_duplicate m ms = ms
keep request_snapshot m ms = ms
keep reject m ms = ms

-- The sequence numbers of the updates that a client applies, out of those that it receives.
unfoldable pub applied : WorldUpdateSequenceTracker → List WorldUpdate → List ℕ
applied t [] = []
applied t (u ∷ us) = let r = receive t u in keep r.verdict u.sequence (applied r.tracker us)

-- Each number is the successor of the one before it, beginning with the first argument.
abbrev pub Consecutive : ℕ → List ℕ → Type 0
Consecutive n [] = Unit
Consecutive n (m ∷ ms) = (m ≡ n) × Consecutive (n + 1) ms

abbrev pub IsGapless : List ℕ → Type 0
IsGapless [] = Unit
IsGapless (m ∷ ms) = Consecutive (m + 1) ms

-- What one update does to a tracker that has its baseline.
receive_step :
    (t : WorldUpdateSequenceTracker) (u : WorldUpdate)
    → t.has_sequence ≡ true
    → ((receive t u).verdict ≡ apply)
        × (u.sequence ≡ t.expected_sequence)
        × ((receive t u).tracker.has_sequence ≡ true)
        × ((receive t u).tracker.expected_sequence ≡ t.expected_sequence + 1)
      ⊎ ((receive t u).verdict ≢ apply) × ((receive t u).tracker ≡ t)
unfolding receive accept
receive_step t u h = ground arith

keep_ne : (v : SyncDecision) (m : ℕ) (ms : List ℕ) → v ≢ apply → keep v m ms ≡ ms
keep_ne v m ms h = ground arith

applied-Consecutive :
    (t : WorldUpdateSequenceTracker) (us : List WorldUpdate)
    → t.has_sequence ≡ true
    → Consecutive t.expected_sequence (applied t us)
unfolding applied
applied-Consecutive t [] h = tt
applied-Consecutive t (u ∷ us) h = elim (receive_step t u h) [
  | inl (v, e, b, n) ↦ rw (v) (
    e,
    subst (λ k. Consecutive k (applied (receive t u).tracker us)) n
        (applied-Consecutive (receive t u).tracker us b),
  )
  | inr (v, e) ↦
      rw (keep_ne (receive t u).verdict u.sequence (applied (receive t u).tracker us) v) (
        subst (λ q. Consecutive q.expected_sequence (applied (receive t u).tracker us)) e
          (applied-Consecutive (receive t u).tracker us (ap (λ q. q.has_sequence) e ∙ h)))
]

first_step :
    (t : WorldUpdateSequenceTracker) (u : WorldUpdate)
    → ((receive t u).verdict ≡ apply)
        × ((receive t u).tracker.has_sequence ≡ true)
        × ((receive t u).tracker.expected_sequence ≡ u.sequence + 1)
      ⊎ ((receive t u).verdict ≢ apply)
unfolding receive accept
first_step t u = ground arith

-- From any state of the tracker, the sequence numbers of the updates that a client applies go up
-- one by one, whatever it receives.
pub applied-IsGapless :
    (t : WorldUpdateSequenceTracker) (us : List WorldUpdate) → IsGapless (applied t us)
unfolding applied
applied-IsGapless t [] = tt
applied-IsGapless t (u ∷ us) = elim (first_step t u) [
  | inl (v, b, n) ↦ rw (v) (
      subst (λ k. Consecutive k (applied (receive t u).tracker us)) n
        (applied-Consecutive (receive t u).tracker us b))
  | inr v ↦
      rw (keep_ne (receive t u).verdict u.sequence (applied (receive t u).tracker us) v)
        (applied-IsGapless (receive t u).tracker us)
]

-- With a baseline, the verdict on a valid update below the largest number tells how its number
-- compares to the expected one, and an update that is not applied leaves the tracker.
pub receive_verdict :
    (t : WorldUpdateSequenceTracker) (u : WorldUpdate)
    → t.has_sequence ≡ true
    → validate_world_update u ≡ ok tt
    → u.sequence < uint64_max
    → ((receive t u).verdict ≡ apply ↔ u.sequence ≡ t.expected_sequence)
      × ((receive t u).verdict ≡ ignore_duplicate ↔ u.sequence < t.expected_sequence)
      × ((receive t u).verdict ≡ request_snapshot ↔ t.expected_sequence < u.sequence)
      × (((receive t u).verdict ≡ apply) ⊎ ((receive t u).tracker ≡ t))
unfolding receive accept
receive_verdict t u h v m = ground arith

-- An update that a tracker with its baseline can apply when its turn comes.
abbrev pub IsReceivable : WorldUpdate → Type 0
IsReceivable u = (validate_world_update u ≡ ok tt) × (u.sequence < uint64_max)

-- The numbers that come in their turn, the first argument being the next one to come.
unfoldable pub in_turn : ℕ → List ℕ → List ℕ
in_turn n [] = []
in_turn n (m ∷ ms) =
    let next = in_turn (n + 1) ms in let same = in_turn n ms in if m == n then m ∷ next else same

receive_in_turn :
    (t : WorldUpdateSequenceTracker) (u : WorldUpdate)
    → t.has_sequence ≡ true
    → IsReceivable u
    → ((receive t u).verdict ≡ apply)
        × ((u.sequence == t.expected_sequence) ≡ true)
        × ((receive t u).tracker.has_sequence ≡ true)
        × ((receive t u).tracker.expected_sequence ≡ t.expected_sequence + 1)
      ⊎ ((receive t u).verdict ≢ apply)
        × ((u.sequence == t.expected_sequence) ≡ false)
        × ((receive t u).tracker ≡ t)
unfolding receive accept
receive_in_turn t u h (v, m) = ground arith

pub applied-eq-in_turn :
    (t : WorldUpdateSequenceTracker) (us : List WorldUpdate)
    → t.has_sequence ≡ true
    → All IsReceivable us
    → applied t us ≡ in_turn t.expected_sequence (map (λ u. u.sequence) us)
unfolding applied in_turn
applied-eq-in_turn t [] h a = refl
applied-eq-in_turn t (u ∷ us) h (v, a) = elim (receive_in_turn t u h v) [
  | inl (d, e, b, n) ↦
      let later = applied-eq-in_turn (receive t u).tracker us b a in ground (arith, later)
  | inr (d, e, k) ↦
      let later = applied-eq-in_turn (receive t u).tracker us (ap (λ q. q.has_sequence) k ∙ h) a in
      ground (
        arith,
        keep_ne (receive t u).verdict u.sequence (applied (receive t u).tracker us) d,
        later,
      )
]

-- The numbers from one on, so many of them.
abbrev pub counted : ℕ → ℕ → List ℕ
counted n zero = []
counted n (suc k) = n ∷ counted (n + 1) k

in_turn-counted : (n k : ℕ) → in_turn n (counted n k) ≡ counted n k
unfolding in_turn
in_turn-counted n zero = refl
in_turn-counted n (suc k) = ground (arith, in_turn-counted (n + 1) k)

in_turn-stale :
    (n : ℕ) (old : List ℕ) (ms : List ℕ)
    → All (λ m. m < n) old
    → in_turn n (old ++ ms) ≡ in_turn n ms
unfolding in_turn
in_turn-stale n [] ms a = refl
in_turn-stale n (m ∷ old) ms (l, a) = ground (arith, in_turn-stale n old ms a)

-- Once a snapshot is confirmed at a number below the largest 64-bit one, a client with any
-- tracker ignores the valid updates up to that number that come first, and applies all of those
-- that follow it in order.
pub confirm_snapshot_resumes :
    (t : WorldUpdateSequenceTracker) (n k : ℕ) (old us : List WorldUpdate)
    → n < uint64_max
    → All IsReceivable (old ++ us)
    → All (λ m. m < n + 1) (map (λ u. u.sequence) old)
    → map (λ u. u.sequence) us ≡ counted (n + 1) k
    → applied (confirm_snapshot t n) (old ++ us) ≡ counted (n + 1) k
unfolding reset_after_snapshot
confirm_snapshot_resumes t n k old us h a stale e =
    let start : (n + 1) % 2 ^ 64 ≡ n + 1 = omega arith in
    applied-eq-in_turn (confirm_snapshot t n) (old ++ us) refl a
    ∙ rw (start, map-append (λ u. u.sequence) old us, e)
        (in_turn-stale (n + 1) (map (λ u. u.sequence) old) (counted (n + 1) k) stale
          ∙ in_turn-counted (n + 1) k)
