-- ===== src/Command/Replay/Same.antt =====
-- The defaulted `operator==` of cpp/include/tickline/command/command_evidence.hpp and
-- command_envelope.hpp: field by field.
use tickline.Base.{
  ◌==◌, ==_iff, ==_refl, ◌&&◌, Bool, true, false, Option, some, none, ◌≡◌, refl, sym, ◌∙◌, ap,
}
use tickline.Base.Int.{ℤ, pos, negsuc}
use tickline.Command.Envelope.{CommandEnvelope, SetVelocityPayload}
use tickline.Command.Validator.{CommandRejectionCode}
use tickline.Command.Evidence.{CommandEvidenceEntry, CommandEvidenceRecord, CommandQueueOutcome}
use tickline.Command.Evidence.Codec.{rejection_value, outcome_value}
use tickline.Command.Evidence.Decode.{known_rejection_code, known_queue_outcome}
use tickline.Command.Evidence.RoundTrip.{known-rejection_value, known-outcome_value}
use tickline.Command.Evidence.Chain.{same_bytes}
use tickline.Command.Evidence.Chain.Growth.{same_bytes_refl, same_bytes-eq}

abbrev pub same_integer : ℤ → ℤ → Bool
same_integer (pos m) (pos n) = m == n
same_integer (pos m) (negsuc n) = false
same_integer (negsuc m) (pos n) = false
same_integer (negsuc m) (negsuc n) = m == n

unfoldable same_payload : SetVelocityPayload → SetVelocityPayload → Bool
same_payload a b =
    a.entity_id == b.entity_id
    && (same_integer a.velocity.x b.velocity.x && same_integer a.velocity.y b.velocity.y)

unfoldable same_envelope : CommandEnvelope → CommandEnvelope → Bool
unfolding same_payload
same_envelope a b =
    a.schema_version == b.schema_version
    && (a.type == b.type
        && (a.client_id == b.client_id
            && (a.session_id == b.session_id
                && (a.sequence == b.sequence
                    && (a.target_tick == b.target_tick && same_payload a.payload b.payload)))))

unfoldable same_entry : CommandEvidenceEntry → CommandEvidenceEntry → Bool
unfolding same_envelope
same_entry a b =
    a.world_fingerprint_before == b.world_fingerprint_before
    && (a.observed_tick == b.observed_tick
        && (same_envelope a.envelope b.envelope
            && (a.session_sequence_before == b.session_sequence_before
                && (a.session_sequence_after == b.session_sequence_after
                    && (a.pending_commands_before == b.pending_commands_before
                        && (a.pending_commands_after == b.pending_commands_after
                            && (rejection_value a.rejection_code == rejection_value b.rejection_code
                                && outcome_value a.queue_outcome
                                  == outcome_value b.queue_outcome)))))))

unfoldable pub same_record : CommandEvidenceRecord → CommandEvidenceRecord → Bool
unfolding same_entry
same_record a b =
    a.ordinal == b.ordinal
    && (same_bytes a.previous_record_digest b.previous_record_digest && same_entry a.entry b.entry)

and_true : (a b : Bool) → (a && b) ≡ true → (a ≡ true) × (b ≡ true)
and_true true b h = (refl, h)
and_true false b h = cc

same_integer_refl : (a : ℤ) → same_integer a a ≡ true
same_integer_refl (pos n) = ==_refl n
same_integer_refl (negsuc n) = ==_refl n

same_integer-eq : (a b : ℤ) → same_integer a b ≡ true → a ≡ b
same_integer-eq (pos m) (pos n) h = ap pos ((==_iff m n).0 h)
same_integer-eq (pos m) (negsuc n) h = cc
same_integer-eq (negsuc m) (pos n) h = cc
same_integer-eq (negsuc m) (negsuc n) h = ap negsuc ((==_iff m n).0 h)

pub same_record_refl : (r : CommandEvidenceRecord) → same_record r r ≡ true
unfolding same_record same_entry same_envelope same_payload
same_record_refl r = simp (==_refl, same_bytes_refl, same_integer_refl)

same_payload-eq : (a b : SetVelocityPayload) → same_payload a b ≡ true → a ≡ b
unfolding same_payload
same_payload-eq a b h =
    let (e1, h1) = and_true _ _ h in
    let (e2, e3) = and_true _ _ h1 in
    let p1 = (==_iff a.entity_id b.entity_id).0 e1 in
    let p2 = same_integer-eq a.velocity.x b.velocity.x e2 in
    let p3 = same_integer-eq a.velocity.y b.velocity.y e3 in
    λ i. record { entity_id = p1 i; velocity = record { x = p2 i; y = p3 i } }

same_envelope-eq : (a b : CommandEnvelope) → same_envelope a b ≡ true → a ≡ b
unfolding same_envelope
same_envelope-eq a b h =
    let (e1, h1) = and_true _ _ h in
    let (e2, h2) = and_true _ _ h1 in
    let (e3, h3) = and_true _ _ h2 in
    let (e4, h4) = and_true _ _ h3 in
    let (e5, h5) = and_true _ _ h4 in
    let (e6, h6) = and_true _ _ h5 in
    let p1 = (==_iff a.schema_version b.schema_version).0 e1 in
    let p2 = (==_iff a.type b.type).0 e2 in
    let p3 = (==_iff a.client_id b.client_id).0 e3 in
    let p4 = (==_iff a.session_id b.session_id).0 e4 in
    let p5 = (==_iff a.sequence b.sequence).0 e5 in
    let p6 = (==_iff a.target_tick b.target_tick).0 e6 in
    let p7 = same_payload-eq a.payload b.payload h6 in
    λ i. record {
      schema_version = p1 i;
      type = p2 i;
      client_id = p3 i;
      session_id = p4 i;
      sequence = p5 i;
      target_tick = p6 i;
      payload = p7 i;
    }

pub some_injective {ℓ} : {A : Type ℓ} (a b : A) → ◌≡◌ {A = Option A} (some a) (some b) → a ≡ b
some_injective a b e = ap (λ o. elim o [ none ↦ a | some x ↦ x ]) e

-- A number stands for one code only.
rejection_value_injective :
    (a b : CommandRejectionCode) → rejection_value a ≡ rejection_value b → a ≡ b
rejection_value_injective a b e =
    some_injective a b
      (sym (known-rejection_value a) ∙ ap known_rejection_code e ∙ known-rejection_value b)

outcome_value_injective : (a b : CommandQueueOutcome) → outcome_value a ≡ outcome_value b → a ≡ b
outcome_value_injective a b e =
    some_injective a b
      (sym (known-outcome_value a) ∙ ap known_queue_outcome e ∙ known-outcome_value b)

same_entry-eq : (a b : CommandEvidenceEntry) → same_entry a b ≡ true → a ≡ b
unfolding same_entry
same_entry-eq a b h =
    let (e1, h1) = and_true _ _ h in
    let (e2, h2) = and_true _ _ h1 in
    let (e3, h3) = and_true _ _ h2 in
    let (e4, h4) = and_true _ _ h3 in
    let (e5, h5) = and_true _ _ h4 in
    let (e6, h6) = and_true _ _ h5 in
    let (e7, h7) = and_true _ _ h6 in
    let (e8, e9) = and_true _ _ h7 in
    let p1 = (==_iff a.world_fingerprint_before b.world_fingerprint_before).0 e1 in
    let p2 = (==_iff a.observed_tick b.observed_tick).0 e2 in
    let p3 = same_envelope-eq a.envelope b.envelope e3 in
    let p4 = (==_iff a.session_sequence_before b.session_sequence_before).0 e4 in
    let p5 = (==_iff a.session_sequence_after b.session_sequence_after).0 e5 in
    let p6 = (==_iff a.pending_commands_before b.pending_commands_before).0 e6 in
    let p7 = (==_iff a.pending_commands_after b.pending_commands_after).0 e7 in
    let p8 = rejection_value_injective _ _ ((==_iff _ _).0 e8) in
    let p9 = outcome_value_injective _ _ ((==_iff _ _).0 e9) in
    λ i. record {
      world_fingerprint_before = p1 i;
      observed_tick = p2 i;
      envelope = p3 i;
      session_sequence_before = p4 i;
      session_sequence_after = p5 i;
      pending_commands_before = p6 i;
      pending_commands_after = p7 i;
      rejection_code = p8 i;
      queue_outcome = p9 i;
    }

pub same_record-eq : (a b : CommandEvidenceRecord) → same_record a b ≡ true → a ≡ b
unfolding same_record
same_record-eq a b h =
    let (e1, h1) = and_true _ _ h in
    let (e2, e3) = and_true _ _ h1 in
    let p1 = (==_iff a.ordinal b.ordinal).0 e1 in
    let p2 = same_bytes-eq a.previous_record_digest b.previous_record_digest e2 in
    let p3 = same_entry-eq a.entry b.entry e3 in
    λ i. record { ordinal = p1 i; previous_record_digest = p2 i; entry = p3 i }
