-- ===== src/Net/Sequence.antt =====
-- src/WorldUpdateSequence.cpp and src/WorldUpdateSync.cpp: what the receiver of the update stream
-- does with the sequence number of each update.
pub mod Order
use seed_origin.Base.{
  ℕ, ◌+◌, ◌-◌, ◌%◌, ◌^◌, Bool, true, false, not, ◌&&◌, ltb, ◌==◌, if◌then◌else◌, Result, ok, err,
  uint64_max,
}
use seed_origin.Net.Update.{WorldUpdate, is_event, validate_world_update}

pub data UpdateSequenceStatus : Type 0 where
  accepted duplicate gap invalid : UpdateSequenceStatus

pub record WorldUpdateSequenceTracker : Type 0 where
  pub has_sequence : Bool
  pub expected_sequence : ℕ

abbrev pub initial : WorldUpdateSequenceTracker
initial = record { has_sequence = false; expected_sequence = 1 }

-- The part of `accept` behind the validation.
abbrev pub accept_valid :
    WorldUpdateSequenceTracker → WorldUpdate → WorldUpdateSequenceTracker × UpdateSequenceStatus
accept_valid t u =
    if u.sequence == uint64_max
    then (t, invalid)
    else if not t.has_sequence
    then (if is_event u.kind && not (u.sequence == t.expected_sequence)
        then (t, if ltb t.expected_sequence u.sequence then gap else duplicate)
        else (record { has_sequence = true; expected_sequence = u.sequence + 1 }, accepted))
    else if ltb u.sequence t.expected_sequence
    then (t, duplicate)
    else if ltb t.expected_sequence u.sequence
    then (t, gap)
    else (record t { expected_sequence = t.expected_sequence + 1 }, accepted)

unfoldable pub accept :
    WorldUpdateSequenceTracker → WorldUpdate → WorldUpdateSequenceTracker × UpdateSequenceStatus
accept t u = elim (validate_world_update u) [ ok _ ↦ accept_valid t u | err _ ↦ (t, invalid) ]

unfoldable pub reset_after_snapshot : WorldUpdateSequenceTracker → ℕ → WorldUpdateSequenceTracker
reset_after_snapshot t sequence = record {
  has_sequence = true;
  expected_sequence = (sequence + 1) % 2 ^ 64;
}

pub data SyncDecision : Type 0 where
  apply ignore_duplicate request_snapshot reject : SyncDecision

abbrev pub decision : UpdateSequenceStatus → SyncDecision
decision accepted = apply
decision duplicate = ignore_duplicate
decision gap = request_snapshot
decision invalid = reject

pub record SyncResult : Type 0 where
  pub tracker : WorldUpdateSequenceTracker
  pub verdict : SyncDecision
  pub expected : ℕ

-- `WorldUpdateSyncController::receive`; the controller holds nothing but the tracker.
unfoldable pub receive : WorldUpdateSequenceTracker → WorldUpdate → SyncResult
receive t u =
    let (t', status) = accept t u in
    record { tracker = t'; verdict = decision status; expected = t'.expected_sequence }

-- `WorldUpdateSyncController::confirmSnapshot`
abbrev pub confirm_snapshot : WorldUpdateSequenceTracker → ℕ → WorldUpdateSequenceTracker
confirm_snapshot = reset_after_snapshot
