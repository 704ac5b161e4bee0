-- ===== src/Command/Session/Laws.antt =====
-- cpp/src/command/command_session.cpp: which commands a session admits.
use tickline.Base.{
  ℕ, ◌<◌, ltb, ◌==◌, ==_iff, sym, ltb→lt, Option, some, not, Bool-cases, false, ◌≡◌, ◌≢◌, ◌⊎◌, inl,
  inr, refl, ap, ◌∙◌, ok, ok-injective, first_step, throw_if-eq-ok, arith,
}
use tickline.Base.Int.{pos, pos_part, neg_part, leb_ℤ}
use tickline.Simulation.Schedule.{VelocityCommand}
use tickline.Command.Envelope.{CommandEnvelope, valid}
use tickline.Command.Validator.{
  CommandRejectionCode, CommandValidationPolicy, none, command_validator, check_command,
  duplicate_sequence, sequence_regression,
}
use tickline.Command.Validator.Laws.{IsAcceptable, IsGuarded, validate_iff}
use tickline.Command.Session.{
  CommandSession, CommandAdmissionResult, command_session, evaluate, admit, context_of, translate,
  is_none,
}

-- A session that the constructor made, whatever it has accepted since.
pub record IsOpen (s : CommandSession) : Type 0 where
  pub window : 0 < s.policy.maximum_future_ticks
  pub velocity_limit :
      (0 < pos_part s.policy.max_abs_velocity) × (neg_part s.policy.max_abs_velocity ≡ 0)
  pub client : 0 < s.client_id
  pub session : 0 < s.session_id

-- What a session admits: an acceptable command with a sequence above all it accepted.
abbrev pub IsAdmitted : CommandSession → CommandEnvelope → ℕ → Type 0
IsAdmitted s c tick =
    IsAcceptable s.policy c (context_of s tick) × (s.highest_accepted_sequence < c.sequence)

abbrev pub accepted_result : VelocityCommand → CommandAdmissionResult
accepted_result c = record { code = none; command = some c }

abbrev pub rejected_result : CommandRejectionCode → CommandAdmissionResult
rejected_result code = record { code = code; command = Option.none }

code_cases :
    (code : CommandRejectionCode) → (code ≡ none) ⊎ ((code ≢ none) × (is_none code ≡ false))
code_cases none = inl refl
code_cases _ = inr (λ e. cc e, refl)

module _ (s : CommandSession) (c : CommandEnvelope) (tick : ℕ) (o : IsOpen s) where
  guarded : IsGuarded s.policy (context_of s tick)
  guarded = record {
    window = o.window;
    velocity_limit = o.velocity_limit;
    client = o.client;
    session = o.session;
  }

  -- A session admits a command exactly if it is acceptable and its sequence is above the highest
  -- accepted one; then the result holds the command for the world. Otherwise the result holds a
  -- code that is not `none`. Nothing is thrown.
  pub evaluate_cases :
      (IsAdmitted s c tick × (evaluate s c tick ≡ ok (accepted_result (translate c))))
      ⊎ ((¬ IsAdmitted s c tick)
          × ((code : CommandRejectionCode) × (code ≢ none)
              × (evaluate s c tick ≡ ok (rejected_result code))))
  unfolding evaluate admit
  evaluate_cases =
      let (valid, passes) = validate_iff s.policy c (context_of s tick) guarded in
      elim (code_cases (check_command s.policy c (context_of s tick))) [
        | inr (ne, n) ↦ inr (
          λ a. ne (ok-injective (sym valid ∙ passes.1 a.0)),
          (check_command s.policy c (context_of s tick), ne, rw (valid, n)),
        )
        | inl e ↦
            let acceptable = passes.0 (valid ∙ ap ok e) in
            elim (Bool-cases (c.sequence == s.highest_accepted_sequence)) [
              | inl t ↦ inr (
                λ a. absurd (omega (arith, a.1, (==_iff _ _).0 t)),
                (duplicate_sequence, λ z. cc z, rw (valid, e, t)),
              )
              | inr t ↦ elim (Bool-cases (ltb c.sequence s.highest_accepted_sequence)) [
                | inl l ↦ inr (
                  λ a. absurd (omega (arith, a.1, ltb→lt _ _ l)),
                  (sequence_regression, λ z. cc z, rw (valid, e, t, l)),
                )
                | inr l ↦ inl ((acceptable, ground arith), rw (valid, e, t, l))
              ]
            ]
      ]

-- A session that the constructor made is open and has accepted nothing.
pub command_session-IsOpen :
    (client session : ℕ) (policy : CommandValidationPolicy) (s : CommandSession)
    → command_session client session policy ≡ ok s
    → IsOpen s × (s.highest_accepted_sequence ≡ 0)
unfolding command_session command_validator
command_session-IsOpen client session policy s e =
    let (v, ev, e0) = first_step (command_validator policy) _ e in
    let (t1, e1) = throw_if-eq-ok (policy.maximum_future_ticks == 0) _ _ ev in
    let (t2, e2) = throw_if-eq-ok (leb_ℤ policy.max_abs_velocity (pos 0)) _ _ e1 in
    let (t3, e3) = throw_if-eq-ok (not (valid client)) _ _ e0 in
    let (t4, e4) = throw_if-eq-ok (not (valid session)) _ _ e3 in
    rw (← ok-injective e4, ← ok-injective e2)
      (
        record {
          window = ground arith;
          velocity_limit = ground arith;
          client = ground arith;
          session = ground arith;
        },
        refl,
      )
