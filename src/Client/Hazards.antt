-- ===== src/Client/Hazards.antt =====
-- src/ClientHazardEffectQueue.cpp: the hazards of the ether that the client has been told of and has
-- not yet shown.
pub mod Backpressure
use seed_origin.Base.{
  ℕ, ◌+◌, Bool, true, false, not, ◌&&◌, ◌||◌, List, [], ◌∷◌, ◌++◌, Option, none, some, is_some, leb,
  ltb, ◌==◌, if◌then◌else◌, length, take, drop, codes, String, Result, ok, err, and_then, split_at,
  strip_prefix, split_text,
}
use seed_origin.Net.Update.{WorldUpdate, is_event, validate_world_update}
use seed_origin.Net.Sequence.{
  WorldUpdateSequenceTracker, SyncDecision, apply, ignore_duplicate, request_snapshot, reject,
  SyncResult, receive, confirm_snapshot,
}
use seed_origin.World.Float.{FloatOps, FloatText}
use seed_origin.World.MovementText.{parse_finite_float}

abbrev pub max_hazard_effects : ℕ
max_hazard_effects = 256

pub record HazardEffect (F : Type 0) : Type 0 where
  pub world_tick : ℕ
  pub sequence : ℕ
  pub event_id : ℕ
  pub severity : F
  pub instability : F

pub data HazardIngestResult : Type 0 where
  applied ignored_duplicate snapshot_requested rejected backpressure : HazardIngestResult

pub record ClientHazardEffectQueue (F : Type 0) : Type 0 where
  pub effects : List (HazardEffect F)
  pub sync : WorldUpdateSequenceTracker

-- A call on the queue: what it leaves, its result, and the text of its error if it writes one.
pub record Ingested (F : Type 0) : Type 0 where
  pub after : ClientHazardEffectQueue F
  pub result : HazardIngestResult
  pub error : String

-- The guard of both calls, with the text that it leaves.
abbrev pub checked : WorldUpdate → Result (Unit {0})
checked u =
    if not (is_event u.kind) || u.event_id == 0
    then err "invalid WorldUpdate Event"
    else validate_world_update u

module _ {F : Type 0} where
  abbrev pub answer : ClientHazardEffectQueue F → HazardIngestResult → String → Ingested F
  answer q result error = record { after = q; result = result; error = error }

  -- What both calls do at the decision of the tracker, with `go` for an update in its turn.
  abbrev pub decided : ClientHazardEffectQueue F → SyncDecision → Ingested F → Ingested F
  decided q apply go = go
  decided q ignore_duplicate go = answer q ignored_duplicate ""
  decided q request_snapshot go = answer q snapshot_requested ""
  decided q reject go = answer q rejected ""

  abbrev pub with_sync : ClientHazardEffectQueue F → SyncResult → ClientHazardEffectQueue F
  with_sync q s = record q { sync = s.tracker }

  abbrev pub observe_checked :
      ClientHazardEffectQueue F → WorldUpdate → Result (Unit {0}) → Ingested F
  observe_checked q u (err e) = answer q rejected e
  observe_checked q u (ok valid) =
      let s = receive q.sync u in
      let next = with_sync q s in decided next s.verdict (answer next applied "")

  unfoldable pub observe_event : ClientHazardEffectQueue F → WorldUpdate → Ingested F
  observe_event q u = observe_checked q u (checked u)

  -- The new queue and the effects that are taken, of which the call returns the number.
  unfoldable pub drain :
      ClientHazardEffectQueue F → ℕ → ClientHazardEffectQueue F × List (HazardEffect F)
  drain q limit = (record q { effects = drop limit q.effects }, take limit q.effects)

  abbrev pub confirm : ClientHazardEffectQueue F → ℕ → ClientHazardEffectQueue F
  confirm q sequence = record q { sync = confirm_snapshot q.sync sequence }

module _ {F : Type 0} (fl : FloatOps F) (ft : FloatText F) where
  -- The severity and the instability behind the second separator, which no semicolon may follow.
  abbrev hazard_numbers : Option (List ℕ × List ℕ) → Option (F × F)
  hazard_numbers none = none
  hazard_numbers (some (first, second)) =
      if is_some (split_at b';' second)
      then none
      else and_then (parse_finite_float fl ft first) (λ severity.
        and_then (parse_finite_float fl ft second) (λ instability.
          if fl.fleb severity (fl.lit 0 1) || fl.fleb instability (fl.lit 1 1)
          then none
          else some (severity, instability)))

  abbrev valid_or_err : Option (F × F) → Result (F × F)
  valid_or_err none = err "hazard event contains invalid fields"
  valid_or_err (some h) = ok h

  abbrev hazard_fields : Option (List ℕ) → Result (F × F)
  hazard_fields none = err "hazard event is missing severity"
  hazard_fields (some text) =
      valid_or_err (hazard_numbers (split_text (codes ";instability:") text))

  abbrev hazard_text : Option (List ℕ) → Result (F × F)
  hazard_text none = err "world update is not an ether hazard event"
  hazard_text (some fields) = hazard_fields (strip_prefix (codes "severity:") fields)

  unfoldable pub parse_hazard : List ℕ → Result (F × F)
  parse_hazard payload = hazard_text (strip_prefix (codes "etherHazard=") payload)

  -- An update in its turn finds room, or it is lost.
  abbrev pub push_effect : ClientHazardEffectQueue F → WorldUpdate → F × F → Ingested F
  push_effect q u (severity, instability) =
      if leb max_hazard_effects (length q.effects)
      then answer q backpressure "hazard effect queue is full"
      else answer
          (record q {
            effects =
                q.effects
                ++ (record {
                  world_tick = u.world_tick;
                  sequence = u.sequence;
                  event_id = u.event_id;
                  severity = severity;
                  instability = instability;
                })
                  ∷ [];
          })
          applied ""

  abbrev pub ingest_parsed : ClientHazardEffectQueue F → WorldUpdate → Result (F × F) → Ingested F
  ingest_parsed q u (err e) = answer q rejected e
  ingest_parsed q u (ok h) =
      let s = receive q.sync u in
      let next = with_sync q s in decided next s.verdict (push_effect next u h)

  abbrev pub ingest_checked :
      ClientHazardEffectQueue F → WorldUpdate → Result (Unit {0}) → Ingested F
  ingest_checked q u (err e) = answer q rejected e
  ingest_checked q u (ok valid) = ingest_parsed q u (parse_hazard u.payload)

  unfoldable pub ingest : ClientHazardEffectQueue F → WorldUpdate → Ingested F
  ingest q u = ingest_checked q u (checked u)
