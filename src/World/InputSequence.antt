-- ===== src/World/InputSequence.antt =====
-- `ClientInputSequenceTracker` of src/ClientInputSequence.cpp: the numbers that clients give to
-- their movements.
use seed_origin.Base.{
  ℕ, ◌-◌, ◌||◌, [], Option, none, some, ltb, leb, ◌==◌, if◌then◌else◌, ℤ, pos, leb_ℤ, Map, lookup,
  insert, ℤ_key,
}

abbrev pub max_client_input_ahead : ℕ
max_client_input_ahead = 64

pub data ClientInputAdmission : Type 0 where
  accept ignore_stale reject_too_far_ahead reject_invalid : ClientInputAdmission

pub record ClientInputSequenceTracker : Type 0 where
  pub last_accepted : Map ℤ ℕ
  pub last_processed_by_session : Map ℤ ℕ

abbrev pub no_tracks : ClientInputSequenceTracker
no_tracks = record { last_accepted = []; last_processed_by_session = [] }

abbrev pub sequence_or_zero : Option ℕ → ℕ
sequence_or_zero none = 0
sequence_or_zero (some n) = n

-- `admit` on the number that the session accepted last.
abbrev pub admission : ℕ → ℕ → ClientInputAdmission
admission previous sequence =
    if leb sequence previous
    then ignore_stale
    else if ltb max_client_input_ahead (sequence - previous)
    then reject_too_far_ahead
    else accept

unfoldable pub admit : ClientInputSequenceTracker → ℤ → ℕ → ClientInputAdmission
admit t session_id sequence =
    if leb_ℤ session_id (pos 0) || sequence == 0
    then reject_invalid
    else admission (sequence_or_zero (lookup session_id t.last_accepted)) sequence

abbrev pub note_accepted : ClientInputSequenceTracker → ℤ → ℕ → ClientInputSequenceTracker
note_accepted t session_id sequence = record t {
  last_accepted = insert session_id sequence t.last_accepted;
}

abbrev pub last_processed : ClientInputSequenceTracker → ℤ → ℕ
last_processed t session_id = sequence_or_zero (lookup session_id t.last_processed_by_session)

unfoldable pub note_processed : ClientInputSequenceTracker → ℤ → ℕ → ClientInputSequenceTracker
note_processed t session_id sequence =
    if sequence == 0
    then t
    else (let value = last_processed t session_id in
        record t {
          last_processed_by_session =
              insert session_id (if ltb value sequence then sequence else value)
                t.last_processed_by_session;
        })

abbrev pub rebase : ClientInputSequenceTracker → ℤ → ℕ → ClientInputSequenceTracker
rebase t session_id sequence = record t {
  last_accepted = insert session_id sequence t.last_accepted;
  last_processed_by_session = insert session_id sequence t.last_processed_by_session;
}
