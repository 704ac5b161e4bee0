-- ===== src/Command/Validator/Laws.antt =====
-- cpp/src/command/command_validator.cpp: which envelopes pass.
use tickline.Base.{
  ◌+◌, ◌-◌, ◌<◌, ◌≤◌, lt→leb, le→ltb, ==_refl, ==_ne, true, ◌≡◌, ◌↔◌, ok, ok-injective, arith,
}
use tickline.Base.Int.{pos_part, neg_part}
use tickline.Simulation.Motion.{IsWithin}
use tickline.Simulation.Motion.Exact.{
  IsWithin-within_symmetric_limit, within_symmetric_limit-IsWithin,
}
use tickline.Command.Envelope.{CommandEnvelope}
use tickline.Command.Validator.{
  CommandValidationPolicy, CommandValidationContext, none, validate, check_command,
  velocity_is_valid,
}

-- What a session asks of a command, its sequence aside.
pub record IsAcceptable (p : CommandValidationPolicy) (c : CommandEnvelope)
    (x : CommandValidationContext) : Type 0 where
  pub schema : c.schema_version ≡ 1
  pub type : c.type ≡ 1
  pub client : c.client_id ≡ x.authenticated_client_id
  pub session : c.session_id ≡ x.active_session_id
  pub numbered : 0 < c.sequence
  pub ahead : x.current_tick < c.target_tick
  pub soon : c.target_tick ≤ x.current_tick + p.maximum_future_ticks
  pub allowed :
      IsWithin c.payload.velocity.x p.max_abs_velocity
      × IsWithin c.payload.velocity.y p.max_abs_velocity

-- A policy that the constructor lets through, and the identifiers of a session.
pub record IsGuarded (p : CommandValidationPolicy) (x : CommandValidationContext) : Type 0 where
  pub window : 0 < p.maximum_future_ticks
  pub velocity_limit : (0 < pos_part p.max_abs_velocity) × (neg_part p.max_abs_velocity ≡ 0)
  pub client : 0 < x.authenticated_client_id
  pub session : 0 < x.active_session_id

module _ (p : CommandValidationPolicy) (c : CommandEnvelope) (x : CommandValidationContext)
    (g : IsGuarded p x) where
  velocity_is_valid_iff : (velocity_is_valid p c.payload.velocity ≡ true) ↔ (
      IsWithin c.payload.velocity.x p.max_abs_velocity
      × IsWithin c.payload.velocity.y p.max_abs_velocity)
  unfolding velocity_is_valid
  velocity_is_valid_iff = (
    λ h. (
      within_symmetric_limit-IsWithin c.payload.velocity.x p.max_abs_velocity g.velocity_limit.1
          (ground arith),
      within_symmetric_limit-IsWithin c.payload.velocity.y p.max_abs_velocity g.velocity_limit.1
          (ground arith),
    ),
    λ a. rw (
      IsWithin-within_symmetric_limit c.payload.velocity.x p.max_abs_velocity g.velocity_limit.1
          a.0,
      IsWithin-within_symmetric_limit c.payload.velocity.y p.max_abs_velocity g.velocity_limit.1
          a.1,
    ),
  )

  IsAcceptable-check_command : IsAcceptable p c x → check_command p c x ≡ none
  unfolding check_command
  IsAcceptable-check_command a = rw (
    a.schema,
    a.type,
    a.client,
    a.session,
    ==_ne x.authenticated_client_id 0 (λ z. omega (arith, g.client)),
    ==_ne x.active_session_id 0 (λ z. omega (arith, g.session)),
    ==_refl x.authenticated_client_id,
    ==_refl x.active_session_id,
    ==_ne c.sequence 0 (λ z. omega (arith, a.numbered)),
    lt→leb x.current_tick c.target_tick a.ahead,
    le→ltb p.maximum_future_ticks (c.target_tick - x.current_tick) (omega (arith, a.soon)),
    velocity_is_valid_iff.1 a.allowed,
  )

  check_command-IsAcceptable : check_command p c x ≡ none → IsAcceptable p c x
  unfolding check_command
  check_command-IsAcceptable e = record {
    schema = ground arith;
    type = ground arith;
    client = ground arith;
    session = ground arith;
    numbered = ground arith;
    ahead = ground arith;
    soon = ground arith;
    allowed = velocity_is_valid_iff.0 (ground arith);
  }

  -- Under a policy and a context that the constructors let through, validate never throws, and
  -- accepts exactly the commands with the known schema and type, the session's two identifiers, a
  -- number above zero, a tick ahead by at most the policy's window, and a velocity within its limit.
  pub validate_iff :
      (validate p c x ≡ ok (check_command p c x))
      × ((validate p c x ≡ ok none) ↔ IsAcceptable p c x)
  unfolding validate
  validate_iff =
      let known = ==_ne x.authenticated_client_id 0 (λ z. omega (arith, g.client)) in
      let active = ==_ne x.active_session_id 0 (λ z. omega (arith, g.session)) in
      (
        rw (known, active),
        (
          λ e. check_command-IsAcceptable (ok-injective (rw (known, active) at e)),
          λ a. rw (known, active, IsAcceptable-check_command a),
        ),
      )
