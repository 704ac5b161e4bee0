-- ===== src/Storage/Bundle/Pages.antt =====
-- cpp/src/storage/investigation_bundle_exporter.cpp, load_all_evidence: evidence that a store gives
-- page by page.
use tickline.Base.{
  ℕ, zero, suc, ◌≤◌, ◌<◌, ltb, lt→ltb, le→ltb, ltb→lt, ltb→le, if◌then◌else◌, Bool-cases, false,
  inl, inr, Option, none, some, ◌≡◌, refl, ap, sym, ◌∙◌, subst, List, [], ◌∷◌, ◌++◌, append_assoc,
  append-nil, length, length-take, length-drop, take, take_all, drop, take-append-drop, All,
  All-append, All-mono, Result, ok, arith,
}
use tickline.Base.Int.{ℤ}
use tickline.Storage.Store.{StoredEvidenceRecord, InvestigationStore}
use tickline.Storage.Bundle.{
  ExportException, Loaded, not_increasing, load_page, load_all_evidence, evidence_query, page_size,
  after_page,
}

-- `ordinal > ?`
abbrev pub newer : Option ℕ → List StoredEvidenceRecord → List StoredEvidenceRecord
newer none xs = xs
newer (some o) [] = []
newer (some o) (x ∷ xs) =
    if ltb o x.evidence.ordinal then x ∷ newer (some o) xs else newer (some o) xs

-- Ordinals that rise, from above the one before.
abbrev pub Rises : Option ℕ → List StoredEvidenceRecord → Type 0
Rises a [] = Unit {0}
Rises a (x ∷ xs) =
    (not_increasing a x.evidence.ordinal ≡ false) × Rises (some (x.evidence.ordinal)) xs

-- A store that holds `evidence` for an archive, in the order of the ordinals: a query without other
-- conditions gives the first of the records behind the ordinal, as many as the limit allows.
unfoldable pub IsStored : InvestigationStore → ℤ → List StoredEvidenceRecord → Type 0
IsStored store archive_id evidence =
    (after : Option ℕ)
    → store.query_evidence archive_id (evidence_query after)
      ≡ ok (take page_size (newer after evidence))

-- Nothing that was loaded lies above the last ordinal.
abbrev Below : Option ℕ → List StoredEvidenceRecord → Type 0
Below none done = done ≡ []
Below (some o) done = All (λ x. x.evidence.ordinal ≤ o) done

newer-append :
    (o : ℕ) (xs ys : List StoredEvidenceRecord)
    → newer (some o) (xs ++ ys) ≡ newer (some o) xs ++ newer (some o) ys
newer-append o [] ys = refl
newer-append o (x ∷ xs) ys = elim (Bool-cases (ltb o x.evidence.ordinal)) [
  | inl t ↦ rw (t, newer-append o xs ys) refl
  | inr t ↦ rw (t, newer-append o xs ys) refl
]

newer_below :
    (o : ℕ) (xs : List StoredEvidenceRecord)
    → All (λ x. x.evidence.ordinal ≤ o) xs
    → newer (some o) xs ≡ []
newer_below o [] h = refl
newer_below o (x ∷ xs) (h, hs) = rw (le→ltb o x.evidence.ordinal h) (newer_below o xs hs)

not_increasing_lt : (o n : ℕ) → not_increasing (some o) n ≡ false → o < n
not_increasing_lt o n h = ground arith

newer_above :
    (o p : ℕ) (xs : List StoredEvidenceRecord) → o ≤ p → Rises (some p) xs → newer (some o) xs ≡ xs
newer_above o p [] le h = refl
newer_above o p (x ∷ xs) le (h, hs) =
    let more : o < x.evidence.ordinal = omega (arith, not_increasing_lt p x.evidence.ordinal h) in
    rw (lt→ltb o x.evidence.ordinal more)
      (ap (◌∷◌ x) (newer_above o x.evidence.ordinal xs (omega arith) hs))

newer-todo :
    (a : Option ℕ) (done todo : List StoredEvidenceRecord)
    → Below a done
    → Rises a todo
    → newer a (done ++ todo) ≡ todo
newer-todo none done todo b r = ap (λ xs. xs ++ todo) b
newer-todo (some o) done todo b r =
    newer-append o done todo ∙ rw (newer_below o done b) (newer_above o o todo (omega arith) r)

Below-snoc :
    (a : Option ℕ) (done : List StoredEvidenceRecord) (x : StoredEvidenceRecord)
    → Below a done
    → not_increasing a x.evidence.ordinal ≡ false
    → Below (some (x.evidence.ordinal)) (done ++ (x ∷ []))
Below-snoc none done x b h = rw b (omega arith, tt)
Below-snoc (some o) done x b h =
    All-append _ done (x ∷ [])
      (All-mono _ _
        (λ y (k : y.evidence.ordinal ≤ o). omega (arith, not_increasing_lt o x.evidence.ordinal h))
        done b)
      (omega arith, tt)

-- A page of records that rise is loaded whole, and what lies behind it still rises.
load_page-rising :
    (page todo : List StoredEvidenceRecord) (l : Loaded)
    → Below l.after_ordinal l.records
    → Rises l.after_ordinal (page ++ todo)
    → (l' : Loaded) × (load_page page l ≡ ok l')
      × (l'.records ≡ l.records ++ page)
      × Below l'.after_ordinal l'.records
      × Rises l'.after_ordinal todo
unfolding load_page
load_page-rising [] todo l b r = (l, refl, sym (append-nil l.records), b, r)
load_page-rising (x ∷ page) todo l b (h, r) =
    let next : Loaded = record {
      records = l.records ++ (x ∷ []);
      after_ordinal = some (x.evidence.ordinal);
    } in
    let (l', e, records, below, rises) =
      load_page-rising page todo next (Below-snoc l.after_ordinal l.records x b h) r in
    (l', rw h e, records ∙ append_assoc l.records (x ∷ []) page, below, rises)

module _ (store : InvestigationStore) (archive_id : ℤ) where
  -- What a round makes of its page.
  after_page-eq :
      (continue : Loaded → Result ExportException (List StoredEvidenceRecord)) (l l' : Loaded)
      (todo : List StoredEvidenceRecord)
      → load_page (take page_size todo) l ≡ ok l'
      → l'.records ≡ l.records ++ take page_size todo
      → (page_size ≤ length todo → continue l' ≡ ok (l.records ++ todo))
      → after_page continue l (take page_size todo) ≡ ok (l.records ++ todo)
  after_page-eq continue l l' [] e records rest = ap ok (sym (append-nil l.records))
  after_page-eq continue l l' (x ∷ xs) e records rest =
      let page = take page_size (x ∷ xs) in
      let size = length-take page_size (x ∷ xs) in
      elim (Bool-cases (ltb (length page) page_size)) [
        | inl t ↦
            let small : length (x ∷ xs) ≤ page_size =
              omega (arith, size, ltb→lt (length page) page_size t) in
            rw (e, t)
              (ap ok (records ∙ ap (λ ys. l.records ++ ys) (take_all page_size (x ∷ xs) small)))
        | inr t ↦ rw (e, t) (rest (omega (arith, size, ltb→le (length page) page_size t)))
      ]

  load_all-todo :
      (rounds : ℕ) (l : Loaded) (todo : List StoredEvidenceRecord)
      → IsStored store archive_id (l.records ++ todo)
      → Below l.after_ordinal l.records
      → Rises l.after_ordinal todo
      → length todo < rounds
      → load_all_evidence store archive_id rounds l ≡ ok (l.records ++ todo)
  unfolding load_all_evidence IsStored
  load_all-todo zero l todo stored b r h = absurd (omega arith)
  load_all-todo (suc rounds) l todo stored b r h =
      let page = take page_size todo in
      let behind = drop page_size todo in
      let split = take-append-drop page_size todo in
      let (l', e, records, below, rises) =
        load_page-rising page behind l b
          (subst (λ (xs : List StoredEvidenceRecord). Rises l.after_ordinal xs) (sym split) r) in
      let whole : l'.records ++ behind ≡ l.records ++ todo =
        ap (λ xs. xs ++ behind) records
        ∙ append_assoc l.records page behind
        ∙ ap (λ xs. l.records ++ xs) split in
      rw (stored l.after_ordinal, newer-todo l.after_ordinal l.records todo b r)
        (after_page-eq (load_all_evidence store archive_id rounds) l l' todo e records (λ large.
          load_all-todo rounds l' behind (subst (IsStored store archive_id) (sym whole) stored)
            below rises (omega (arith, large, length-drop page_size todo))
          ∙ ap ok whole))

  -- From a store that holds records with rising ordinals for the archive, in pages of a hundred, the
  -- loop collects all of them in their order, if it may go one round more than there are records. It
  -- never meets its error of ordinals that do not increase.
  pub load_all_evidence-IsStored :
      (rounds : ℕ) (evidence : List StoredEvidenceRecord)
      → IsStored store archive_id evidence
      → Rises none evidence
      → length evidence < rounds
      → load_all_evidence store archive_id rounds (record { records = []; after_ordinal = none })
        ≡ ok evidence
  load_all_evidence-IsStored rounds evidence stored r h =
      load_all-todo rounds (record { records = []; after_ordinal = none }) evidence stored refl r h
