-- ===== src/Command/Replay/Run.antt =====
-- The runs that a log of evidence records: ticks of the world (World::advance) and submissions to
-- the pipeline, in any order.
use tickline.Base.{
  ℕ, zero, suc, ◌+◌, Option, none, some, Exception, Result-cases, inl, inr, subst₂, ◌≡◌, refl, sym,
  ap, subst, true, ok, arith,
}
use tickline.Simulation.Clock.{Tick}
use tickline.Simulation.World.{World}
use tickline.Simulation.Advance.{advance}
use tickline.Command.Envelope.{CommandEnvelope}
use tickline.Command.Session.{CommandSession}
use tickline.Command.Evidence.Chain.{CommandEvidenceLog, verify}
use tickline.Command.Evidence.Chain.Growth.{append-verify}
use tickline.Command.Pipeline.{Submitted, submit}
use tickline.Command.Pipeline.Recorded.{submit-IsRecorded}
use tickline.Command.Replay.{advance_steps}

-- A run of `ticks` ticks, and of submissions between them, from a session, a world and a log to the
-- session `last` and the log `final`.
pub data Run (max_size : ℕ) (last : CommandSession) (final : CommandEvidenceLog)
    : CommandSession → World → CommandEvidenceLog → ℕ → Type 0 where
  finished :
      (s : CommandSession) (w : World) (log : CommandEvidenceLog)
      → s ≡ last
      → log ≡ final
      → Run max_size last final s w log zero
  ticked :
      (s : CommandSession) (w w' : World) (log : CommandEvidenceLog) (n : ℕ) (t : Tick)
      → advance w ≡ ok (t, w')
      → Run max_size last final s w' log n
      → Run max_size last final s w log (suc n)
  submitted :
      (s : CommandSession) (w : World) (log : CommandEvidenceLog) (n : ℕ) (c : CommandEnvelope)
      (r : Submitted)
      → submit max_size log s w c ≡ ok r
      → Run max_size last final r.session r.world r.evidence n
      → Run max_size last final s w log n

stopped :
    (w w' : World) (e : Exception) → ◌≡◌ {A = World × Option Exception} (w, some e) (w', none) → ⊥
stopped w w' e p = let q : ◌≡◌ {A = Option Exception} (some e) none = ap (λ x. x.1) p in cc

-- One more tick behind those that were made.
pub advance_steps-suc :
    (k : ℕ) (w w1 w2 : World) (t : Tick)
    → advance_steps k w ≡ (w1, none)
    → advance w1 ≡ ok (t, w2)
    → advance_steps (suc k) w ≡ (w2, none)
unfolding advance_steps
advance_steps-suc zero w w1 w2 t e f = let same : w ≡ w1 = ap (λ p. p.0) e in rw (same, f) refl
advance_steps-suc (suc k) w w1 w2 t e f = elim (Result-cases (advance w)) [
  | inr (thrown, g) ↦ absurd (stopped w w1 thrown (rw g at e))
  | inl ((_, w0), g) ↦ rw g (advance_steps-suc k w0 w1 w2 t (rw g at e) f)
]

module _ (max_size : ℕ) (last : CommandSession) (final : CommandEvidenceLog) where
  -- Ticks in front of a run.
  pub ticks-Run :
      (k : ℕ) (s : CommandSession) (w w' : World) (log : CommandEvidenceLog) (n : ℕ)
      → advance_steps k w ≡ (w', none)
      → Run max_size last final s w' log n
      → Run max_size last final s w log (k + n)
  unfolding advance_steps
  ticks-Run zero s w w' log n e r =
      subst₂ (λ (v : World) (m : ℕ). Run max_size last final s v log m) (sym (ap (λ p. p.0) e))
        (omega arith) r
  ticks-Run (suc k) s w w' log n e r = elim (Result-cases (advance w)) [
    | inr (thrown, f) ↦ absurd (stopped w w' thrown (rw f at e))
    | inl ((t, w1), f) ↦
        subst (Run max_size last final s w log) (omega arith)
          (ticked s w w1 log (k + n) t f (ticks-Run k s w1 w' log n (rw f at e) r))
  ]

  -- Whatever a run adds to a log that verifies, the log still verifies.
  pub Run-verify :
      (s : CommandSession) (w : World) (log : CommandEvidenceLog) (n : ℕ)
      → Run max_size last final s w log n
      → verify log ≡ true
      → verify final ≡ true
  Run-verify s w log n (finished _ _ _ _ e) h =
      subst (λ (l : CommandEvidenceLog). verify l ≡ true) e h
  Run-verify s w log n (ticked _ _ w' _ m t _ r) h = Run-verify s w' log m r h
  Run-verify s w log n (submitted _ _ _ _ c r e run) h =
      let (_, _, room, recorded) = submit-IsRecorded max_size log s w c r e in
      Run-verify r.session r.world r.evidence n run (
        subst (λ (l : CommandEvidenceLog). verify l ≡ true) (sym recorded.appended)
          (append-verify recorded.entry log h room).0)
