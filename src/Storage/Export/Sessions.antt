-- ===== src/Storage/Export/Sessions.antt =====
-- cpp/src/storage/investigation_bundle_exporter.cpp: what the map of projections holds for a session.
use tickline.Base.{
  if◌then◌else◌, Bool, Bool-cases, true, false, Option, none, some, ◌≡◌, refl, ap, ap₂, ◌∙◌, inl,
  inr, List, [], ◌∷◌, arith,
}
use tickline.Command.Evidence.{CommandEvidenceRecord}
use tickline.Storage.Store.{StoredEvidenceRecord}
use tickline.Storage.Bundle.{
  SessionKey, SessionProjection, Projections, same_key, find_projection, project, back,
}

abbrev key_of : CommandEvidenceRecord → SessionKey
key_of r = (r.entry.envelope.client_id, r.entry.envelope.session_id)

-- The records of a session, in their order.
abbrev pub records_of : SessionKey → List StoredEvidenceRecord → List StoredEvidenceRecord
records_of key [] = []
records_of key (x ∷ xs) =
    if same_key (key_of x.evidence) key then x ∷ records_of key xs else records_of key xs

-- What the records of a session come to: the target ticks of the first and of the last one, and the
-- session's sequence after the last one.
abbrev pub projection_of : List StoredEvidenceRecord → Option SessionProjection
projection_of [] = none
projection_of (x ∷ xs) = some (record {
  last_committed_sequence = (back x xs).evidence.entry.session_sequence_after;
  first_target_tick = x.evidence.entry.envelope.target_tick;
  last_target_tick = (back x xs).evidence.entry.envelope.target_tick;
})

-- The projection of a session with one record more.
abbrev updated : CommandEvidenceRecord → Option SessionProjection → SessionProjection
updated r none = record {
  last_committed_sequence = r.entry.session_sequence_after;
  first_target_tick = r.entry.envelope.target_tick;
  last_target_tick = r.entry.envelope.target_tick;
}
updated r (some p) = record p {
  last_committed_sequence = r.entry.session_sequence_after;
  last_target_tick = r.entry.envelope.target_tick;
}

abbrev updated_by : List StoredEvidenceRecord → Option SessionProjection → Option SessionProjection
updated_by [] o = o
updated_by (x ∷ xs) o = updated_by xs (some (updated x.evidence o))

abbrev with_last : SessionProjection → List StoredEvidenceRecord → SessionProjection
with_last p [] = p
with_last p (x ∷ xs) = record p {
  last_committed_sequence = (back x xs).evidence.entry.session_sequence_after;
  last_target_tick = (back x xs).evidence.entry.envelope.target_tick;
}

updated_by-with_last :
    (xs : List StoredEvidenceRecord) (p : SessionProjection)
    → updated_by xs (some p) ≡ some (with_last p xs)
updated_by-with_last [] p = refl
updated_by-with_last (x ∷ []) p = refl
updated_by-with_last (x ∷ (y ∷ ys)) p = updated_by-with_last (y ∷ ys) (updated x.evidence (some p))

updated_by-projection_of : (xs : List StoredEvidenceRecord) → updated_by xs none ≡ projection_of xs
updated_by-projection_of [] = refl
updated_by-projection_of (x ∷ []) = refl
updated_by-projection_of (x ∷ (y ∷ ys)) = updated_by-with_last (y ∷ ys) (updated x.evidence none)

same_key-eq : (k l : SessionKey) → same_key k l ≡ true → k ≡ l
same_key-eq (a, b) (c, d) e =
    let h : (a ≡ c) × (b ≡ d) = ground arith in ap₂ (λ x y. (x, y)) h.0 h.1

other_key : (k l m : SessionKey) → same_key k l ≡ false → same_key k m ≡ true → same_key l m ≡ false
other_key (a, b) (c, d) (e, f) h g = ground arith

find_projection-project :
    (key : SessionKey) (r : CommandEvidenceRecord) (ps : Projections)
    → find_projection key (project r ps) ≡ (
        if same_key (key_of r) key
        then some (updated r (find_projection key ps))
        else find_projection key ps)
unfolding find_projection project
find_projection-project key r [] = refl
find_projection-project key r ((k, p) ∷ ps) = elim (Bool-cases (same_key k (key_of r))) [
  | inl t ↦
      let same = same_key-eq k (key_of r) t in
      elim (Bool-cases (same_key (key_of r) key)) [
        | inl u ↦ rw (t, same, u) refl
        | inr u ↦ rw (t, same, u) refl
      ]
  | inr t ↦ elim (Bool-cases (same_key k key)) [
    | inl u ↦ rw (t, u, other_key k (key_of r) key t u) refl
    | inr u ↦ rw (t, u) (find_projection-project key r ps)
  ]
]

if_updated :
    (b : Bool) (x : StoredEvidenceRecord) (xs : List StoredEvidenceRecord)
    (o : Option SessionProjection)
    → updated_by xs (if b then some (updated x.evidence o) else o)
      ≡ updated_by (if b then x ∷ xs else xs) o
if_updated true x xs o = refl
if_updated false x xs o = refl

-- The rounds of the loop over the evidence, as far as the projections go.
abbrev pub projected_by : List StoredEvidenceRecord → Projections → Projections
projected_by [] ps = ps
projected_by (x ∷ xs) ps = projected_by xs (project x.evidence ps)

find_projection-updated :
    (key : SessionKey) (xs : List StoredEvidenceRecord) (ps : Projections)
    → find_projection key (projected_by xs ps)
      ≡ updated_by (records_of key xs) (find_projection key ps)
find_projection-updated key [] ps = refl
find_projection-updated key (x ∷ xs) ps =
    find_projection-updated key xs (project x.evidence ps)
    ∙ ap (updated_by (records_of key xs)) (find_projection-project key x.evidence ps)
    ∙ if_updated (same_key (key_of x.evidence) key) x (records_of key xs) (find_projection key ps)

-- After the loop the map holds for each session what its records come to, and nothing for any other.
pub find_projection-projected_by :
    (key : SessionKey) (xs : List StoredEvidenceRecord)
    → find_projection key (projected_by xs []) ≡ projection_of (records_of key xs)
unfolding find_projection
find_projection-projected_by key xs =
    find_projection-updated key xs [] ∙ updated_by-projection_of (records_of key xs)
