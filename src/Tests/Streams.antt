-- ===== src/Tests/Streams.antt =====
-- Byte streams, sequence numbers, rate limits and queues on concrete values.
use seed_origin.Base.{
  ℕ, ◌≤◌, ◌<◌, true, false, List, [], ◌∷◌, ◌++◌, replicate, take, drop, ℤ, pos, ok, err, ◌≡◌, ◌↔◌,
  ◌⊎◌, refl, arith, All, length-replicate, concat,
}
use seed_origin.Net.Command.{NetworkCommand, CommandType, move, chat}
use seed_origin.Net.Frame.{frame_of}
use seed_origin.Net.Frame.Streaming.{
  command_format, command_IsFormat, IsSendable, feed-command_encodings,
}
use seed_origin.Net.Reassembly.{Accumulator, Appended, append, feed, emit_all, drain}
use seed_origin.Net.Reassembly
use seed_origin.Net.Reassembly.Stream.{IsBounded, append-append, append-IsBounded}
use seed_origin.Net.Reassembly.Delivery.{Fits, encodings, append_overflow}
use seed_origin.Net.Update.{WorldUpdate, validate_world_update, update_frame_of}
use seed_origin.Net.Update.Streaming.{
  update_format, update_IsFormat, IsPublishable, feed-update_encodings,
}
use seed_origin.Net.Sequence
use seed_origin.Net.Sequence.{
  WorldUpdateSequenceTracker, apply, ignore_duplicate, request_snapshot, receive, confirm_snapshot,
}
use seed_origin.Net.Sequence.Order.{
  IsGapless, applied, applied-IsGapless, IsReceivable, in_turn, confirm_snapshot_resumes,
  receive_verdict,
}
use seed_origin.Net.RateLimit.{no_counters, begin_frame}
use seed_origin.Net.RateLimit.Limit.{granted, granted-begin_frame}
use seed_origin.Net.Outbound.Order.{
  offered, sent, outbound_steps, nothing_sent, IsInOrder, outbound_steps-IsInOrder,
}
use seed_origin.Tests.Wire.{step_east, step_frame, hello_update, hello_update-IsRepresentable}

step_east-IsSendable : IsSendable step_east
step_east-IsSendable = (ground arith, ground arith)

-- The frames of two commands, cut behind the first 10 bytes.
abbrev two_steps : List NetworkCommand
two_steps = step_east ∷ step_east ∷ []

abbrev two_chunks : List (List ℕ)
two_chunks = take 10 step_frame ∷ (drop 10 step_frame ++ step_frame) ∷ []

two_chunks_encoded : concat two_chunks ≡ encodings frame_of two_steps
unfolding encodings
two_chunks_encoded = refl

two_chunks-Fits : Fits command_format command_IsFormat Reassembly.initial two_chunks
unfolding append drain
two_chunks-Fits = (omega arith, (omega arith, tt))

feed-command_encodings_example :
    feed command_format Reassembly.initial two_chunks
    ≡ record { after = Reassembly.initial; items = two_steps; outcome = ok tt }
feed-command_encodings_example =
    feed-command_encodings two_steps two_chunks (step_east-IsSendable, (step_east-IsSendable, tt))
      two_chunks_encoded two_chunks-Fits

hello_update-IsPublishable : IsPublishable hello_update
unfolding validate_world_update
hello_update-IsPublishable = (refl, hello_update-IsRepresentable)

abbrev hello_frame : List ℕ
hello_frame = update_frame_of hello_update

hello_encoded :
    concat (take 20 hello_frame ∷ drop 20 hello_frame ∷ [])
    ≡ encodings update_frame_of (hello_update ∷ [])
unfolding encodings
hello_encoded = refl

hello-Fits :
    Fits update_format update_IsFormat Reassembly.initial
      (take 20 hello_frame ∷ drop 20 hello_frame ∷ [])
unfolding append drain
hello-Fits = (omega arith, (omega arith, tt))

feed-update_encodings_example :
    feed update_format Reassembly.initial (take 20 hello_frame ∷ drop 20 hello_frame ∷ [])
    ≡ record { after = Reassembly.initial; items = hello_update ∷ []; outcome = ok tt }
feed-update_encodings_example =
    feed-update_encodings (hello_update ∷ []) (take 20 hello_frame ∷ drop 20 hello_frame ∷ [])
      (hello_update-IsPublishable, tt) hello_encoded hello-Fits

initial-IsBounded : IsBounded command_format command_IsFormat Reassembly.initial
initial-IsBounded = record { bounded = omega arith }

half_accepted : (append command_format Reassembly.initial (take 10 step_frame)).outcome ≡ ok tt
unfolding append drain
half_accepted = refl

append-append_example :
    append command_format Reassembly.initial (take 10 step_frame ++ drop 10 step_frame)
    ≡ emit_all (append command_format Reassembly.initial (take 10 step_frame)).items (
        append command_format
          (append command_format Reassembly.initial (take 10 step_frame)).after
          (drop 10 step_frame))
append-append_example =
    append-append command_format command_IsFormat Reassembly.initial (take 10 step_frame)
      (drop 10 step_frame) initial-IsBounded (omega arith) half_accepted

append-IsBounded_example :
    IsBounded command_format command_IsFormat
      (append command_format Reassembly.initial step_frame).after
append-IsBounded_example =
    append-IsBounded command_format command_IsFormat Reassembly.initial step_frame initial-IsBounded

-- A whole command, of which the end has not come yet, is in the buffer, and a read of 4096 bytes
-- follows.
abbrev full_read : List ℕ
full_read = replicate 4096 0

abbrev most_of_step : Accumulator
most_of_step = record { buffered = take 19 step_frame; failed = false }

most_of_step-IsBounded : IsBounded command_format command_IsFormat most_of_step
most_of_step-IsBounded = record { bounded = omega arith }

append_overflow_example :
    let r = append command_format most_of_step full_read in
    (r.outcome ≡ err "stream frame exceeds maximum size")
    × (r.items ≡ [])
    × ((append command_format r.after step_frame).outcome ≡ err "frame accumulator is failed")
    × ((append command_format r.after step_frame).after ≡ r.after)
append_overflow_example =
    append_overflow command_format command_IsFormat most_of_step full_read step_frame
      most_of_step-IsBounded refl (omega (arith, length-replicate {A = ℕ} 4096 0))

abbrev at_one : WorldUpdateSequenceTracker
at_one = record { has_sequence = true; expected_sequence = 1 }

abbrev some_updates : List WorldUpdate
some_updates =
    hello_update
    ∷ hello_update
    ∷ (record hello_update { sequence = 4 })
    ∷ (record hello_update { sequence = 2 })
    ∷ []

applied-IsGapless_example : IsGapless (applied Sequence.initial some_updates)
applied-IsGapless_example = applied-IsGapless Sequence.initial some_updates

in_turn_run : in_turn 1 (1 ∷ 1 ∷ 4 ∷ 2 ∷ []) ≡ 1 ∷ 2 ∷ []
unfolding in_turn
in_turn_run = refl

late_updates-IsReceivable : All IsReceivable (
    hello_update
    ∷ (record hello_update { sequence = 4 })
    ∷ (record hello_update { sequence = 5 })
    ∷ [])
unfolding validate_world_update
late_updates-IsReceivable = ((refl, omega arith), ((refl, omega arith), ((refl, omega arith), tt)))

-- The update 1, which the snapshot at 3 has already, comes late.
confirm_snapshot_resumes_example :
    applied (confirm_snapshot at_one 3) (
      hello_update
      ∷ (record hello_update { sequence = 4 })
      ∷ (record hello_update { sequence = 5 })
      ∷ [])
    ≡ 4 ∷ 5 ∷ []
confirm_snapshot_resumes_example =
    confirm_snapshot_resumes at_one 3 2 (hello_update ∷ [])
      ((record hello_update { sequence = 4 }) ∷ (record hello_update { sequence = 5 }) ∷ [])
      (omega arith) late_updates-IsReceivable (omega arith, tt) refl

hello_valid : validate_world_update hello_update ≡ ok tt
unfolding validate_world_update
hello_valid = refl

receive_verdict_example :
    ((receive at_one hello_update).verdict ≡ apply ↔ hello_update.sequence ≡ 1)
    × ((receive at_one hello_update).verdict ≡ ignore_duplicate ↔ 1 < 1)
    × ((receive at_one hello_update).verdict ≡ request_snapshot ↔ 1 < 1)
    × (((receive at_one hello_update).verdict ≡ apply)
        ⊎ ((receive at_one hello_update).tracker ≡ at_one))
receive_verdict_example = receive_verdict at_one hello_update refl hello_valid (omega arith)

abbrev two_chats : List (ℤ × CommandType)
two_chats = (pos 7, chat) ∷ (pos 7, move) ∷ (pos 7, chat) ∷ []

granted-begin_frame_example : granted (begin_frame no_counters 1) two_chats (pos 7) chat ≤ 4
granted-begin_frame_example =
    granted-begin_frame no_counters 1 two_chats (pos 7) chat refl (omega arith)

outbound_steps-IsInOrder_example :
    IsInOrder (outbound_steps nothing_sent (offered step_frame ∷ sent 5 ∷ offered step_frame ∷ []))
outbound_steps-IsInOrder_example =
    outbound_steps-IsInOrder (offered step_frame ∷ sent 5 ∷ offered step_frame ∷ [])
