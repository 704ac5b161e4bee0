-- ===== src/Examples/Replay.antt =====
-- Examples of replays: one tick of a world, and a command.
use tickline.Base.{◌≡◌, refl, ok, arith, [], ◌∷◌}
use tickline.Base.Int.{pos, ◌+ℤ◌, ◌-ℤ◌, ◌*ℤ◌, quot, rem, negate}
use tickline.Simulation.Clock
use tickline.Simulation.Clock.{Tick}
use tickline.Simulation.Motion.{integrate_axis, checked_add, within_symmetric_limit}
use tickline.Simulation.World.{World}
use tickline.Simulation.Advance.{
  advance, apply_commands, integrate_entity, integrate_entities, remove_due,
}
use tickline.Command.Evidence.Chain.{empty_log}
use tickline.Command.Evidence.Chain.Growth.{empty_log-verify}
use tickline.Command.Pipeline.{Submitted, submit}
use tickline.Command.Pipeline.Outcome.{IsCountable}
use tickline.Command.Pipeline.Continuity.{submit-Continues}
use tickline.Command.Replay.{CommandEvidenceReplayPolicy, CommandEvidenceReplayResult, replay}
use tickline.Command.Replay.Counted.{IsCounted, advance-IsCounted}
use tickline.Command.Replay.Run.{Run, finished, ticked, submitted}
use tickline.Command.Replay.Complete.{IsVerdict, replay-Run}
use tickline.Command.Replay.Verified.{IsRunOf, replay-IsRunOf}
use tickline.Command.Replay.Total.{replay_total}
use tickline.Command.Evidence.Codec.{digest_command_evidence}
use tickline.Examples.Command.{only_record}
use tickline.Examples.Data.{envelope, opened, opened-IsOpen, peopled, peopled-IsValid, walker}

abbrev policy : CommandEvidenceReplayPolicy
policy = record { maximum_tick_advances = 1_000_000 }

peopled-IsCounted : IsCounted peopled
peopled-IsCounted = record {
  valid = peopled-IsValid;
  entities = omega arith;
  pending = omega arith;
}

abbrev first_tick : Tick
first_tick = record { index = 1; elapsed = pos 50_000 }

-- The world after one tick.
abbrev later : World
later = record peopled {
  clock = record { tick_duration = pos 50_000; tick_index = 1; elapsed = pos 50_000 };
  entities = (7, record { state = walker; residual_x = pos 500_000; residual_y = pos 0 }) ∷ [];
}

advance-peopled : advance peopled ≡ ok (first_tick, later)
unfolding advance Clock.advance Clock.current_tick apply_commands integrate_entities
    integrate_entity integrate_axis checked_add within_symmetric_limit remove_due ◌+ℤ◌ ◌-ℤ◌ ◌*ℤ◌
    quot rem negate
advance-peopled = refl

later-IsCounted : IsCounted later
later-IsCounted = (advance-IsCounted peopled later first_tick peopled-IsCounted advance-peopled).0

later-IsCountable : IsCountable 1_000 empty_log later
later-IsCountable = record {
  records = omega arith;
  room = λ e. omega arith;
  entities = omega arith;
  pending = omega arith;
}

returned : (r : Submitted) × (submit 1_000 empty_log opened later envelope ≡ ok r)
returned =
    let (r, e, _) =
      submit-Continues 1_000 empty_log opened later envelope later-IsCounted.valid opened-IsOpen
        later-IsCountable empty_log-verify in
    (r, e)

abbrev submission : Submitted
submission = returned.0

tick_and_command : Run 1_000 submission.session submission.evidence opened peopled empty_log 1
tick_and_command = ticked opened peopled later empty_log 0 first_tick advance-peopled (
    submitted opened later empty_log 0 envelope submission returned.1
      (finished submission.session submission.world submission.evidence refl refl))

replay-Run_example :
    (result : CommandEvidenceReplayResult) × (replay policy 1_000 opened peopled
        submission.evidence.records submission.evidence.head_digest
      ≡ ok result)
    × IsVerdict submission.session submission.evidence 1 result
replay-Run_example =
    replay-Run policy 1_000 opened submission.session peopled submission.evidence 1 (omega arith)
      peopled-IsCounted tick_and_command (omega arith)

verdict :
    (result : CommandEvidenceReplayResult) × (replay policy 1_000 opened peopled
        submission.evidence.records submission.evidence.head_digest
      ≡ ok result)
    × IsVerdict submission.session submission.evidence 1 result
verdict =
    replay-Run policy 1_000 opened submission.session peopled submission.evidence 1 (omega arith)
      peopled-IsCounted tick_and_command (omega arith)

replay-IsRunOf_example :
    (found : IsRunOf 1_000
      (record {
        session = opened;
        world = peopled;
        evidence = empty_log;
        performed_tick_advances = 0;
      })
      submission.evidence.records
      1_000_000
      verdict.0)
    × (found.final.head_digest ≡ submission.evidence.head_digest)
replay-IsRunOf_example =
    replay-IsRunOf policy 1_000 opened peopled submission.evidence.records
      submission.evidence.head_digest verdict.0 (omega arith) verdict.1 verdict.2.code

replay_total_example :
    (result : CommandEvidenceReplayResult) × (replay policy 1_000 opened peopled
        (only_record ∷ [])
        (digest_command_evidence only_record)
      ≡ ok result)
replay_total_example =
    replay_total policy 1_000 opened peopled (only_record ∷ [])
      (digest_command_evidence only_record) peopled-IsCounted opened-IsOpen (omega arith)
      (omega arith)
