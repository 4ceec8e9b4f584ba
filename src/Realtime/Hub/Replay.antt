-- ===== src/Realtime/Hub/Replay.antt =====
-- What a client that resumes is shown of the changes that it missed.
use lazypock.Base.{
  ℕ, ◌+◌, ◌≤◌, true, false, ◌&&◌, List, [], ◌∷◌, Option, none, ◌≡◌, ◌⊎◌, refl, ap, arith, All,
  Bool-cases, inl, inr, zero, suc, &&-true, length, ltb, take, retain, map, length-take,
}
use lazypock.Base.Text.{Text, text_eq}
use lazypock.Realtime.Context.{RequestContext}
use lazypock.Realtime.Event.{ChangeEvent, is_delete}
use lazypock.Realtime.Hub.{Delivered, is_some, replayed, replay_rows, replay, replay_limit}

abbrev pub Among : ChangeEvent → List ChangeEvent → Type 0
Among e [] = ⊥
Among e (f ∷ fs) = (e ≡ f) ⊎ Among e fs

-- A change of the log that is asked for.
abbrev Row : List ChangeEvent → Text → ℕ → ChangeEvent → Type 0
Row log collection since e =
    Among e log × ((text_eq e.collection collection ≡ true) × (ltb since e.log_id ≡ true))

take-Row :
    (log : List ChangeEvent) (c : Text) (since n : ℕ) (rows : List ChangeEvent)
    → All (Row log c since) rows
    → All (Row log c since) (take n rows)
take-Row log c since zero rows h = tt
take-Row log c since (suc n) [] h = tt
take-Row log c since (suc n) (e ∷ rows) h = (h.0, take-Row log c since n rows h.1)

retain-Row :
    (log : List ChangeEvent) (c : Text) (since : ℕ) (rows : List ChangeEvent)
    → ((e : ChangeEvent) → Among e rows → Among e log)
    → All (Row log c since) (retain (λ e. text_eq e.collection c && ltb since e.log_id) rows)
retain-Row log c since [] h = tt
retain-Row log c since (e ∷ rows) h =
    elim (Bool-cases (text_eq e.collection c && ltb since e.log_id)) [
      | inl fits ↦ rw fits (
        (h e (inl refl), &&-true (text_eq e.collection c) (ltb since e.log_id) fits),
        retain-Row log c since rows (λ f k. h f (inr k)),
      )
      | inr misses ↦ rw misses (retain-Row log c since rows (λ f k. h f (inr k)))
    ]

-- A delete as it is delivered.
abbrev pub as_delete : {Value : Type 0} → ChangeEvent → Delivered Value
as_delete e = record { event = e; document = none }

module _ {Value : Type 0} (document_for : ℕ → Text → Text → RequestContext → Option Value) where
  -- Some query showed the record, and the next one gave what is delivered.
  abbrev pub Asked : Text → RequestContext → Delivered Value → Type 0
  Asked collection c d =
      (n : ℕ) × ((is_some (document_for n collection d.event.record_id c) ≡ true)
        × (d.document ≡ document_for (n + 1) collection d.event.record_id c))

  -- What is shown of a change of the log.
  abbrev pub Shown : List ChangeEvent → Text → ℕ → RequestContext → Delivered Value → Type 0
  Shown log collection since c d =
      Row log collection since d.event
      × (((is_delete d.event.op ≡ true) × (d.document ≡ none))
          ⊎ ((is_delete d.event.op ≡ false) × Asked collection c d))

  replayed-Shown :
      (log : List ChangeEvent) (n : ℕ) (collection : Text) (since : ℕ) (c : RequestContext)
      (rows : List ChangeEvent)
      → All (Row log collection since) rows
      → All (Shown log collection since c) (replayed document_for n collection c rows)
  unfolding replayed
  replayed-Shown log n collection since c [] h = tt
  replayed-Shown log n collection since c (e ∷ rows) h = elim (Bool-cases (is_delete e.op)) [
    | inl gone ↦ rw gone ((h.0, inl (gone, refl)), replayed-Shown log n collection since c rows h.1)
    | inr there ↦ elim (Bool-cases (is_some (document_for n collection e.record_id c))) [
      | inl visible ↦
          rw (there, visible)
            (
              (h.0, inr (there, (n, (visible, refl)))),
              replayed-Shown log (n + 2) collection since c rows h.1,
            )
      | inr hidden ↦ rw (there, hidden) (replayed-Shown log (n + 1) collection since c rows h.1)
    ]
  ]

  length-replayed :
      (n : ℕ) (collection : Text) (c : RequestContext) (rows : List ChangeEvent)
      → length (replayed document_for n collection c rows) ≤ length rows
  unfolding replayed
  length-replayed n collection c [] = omega arith
  length-replayed n collection c (e ∷ rows) = ground (
    arith,
    length-replayed n collection c rows,
    length-replayed (n + 1) collection c rows,
    length-replayed (n + 2) collection c rows,
  )

  replayed-deletes :
      (n : ℕ) (collection : Text) (c : RequestContext) (rows : List ChangeEvent)
      → retain (λ d. is_delete d.event.op) (replayed document_for n collection c rows)
        ≡ map as_delete (retain (λ e. is_delete e.op) rows)
  unfolding replayed
  replayed-deletes n collection c [] = refl
  replayed-deletes n collection c (e ∷ rows) = elim (Bool-cases (is_delete e.op)) [
    | inl gone ↦
        rw gone (rw gone (ap (λ ds. as_delete e ∷ ds) (replayed-deletes n collection c rows)))
    | inr there ↦ elim (Bool-cases (is_some (document_for n collection e.record_id c))) [
      | inl visible ↦ rw (there, visible) (rw there (replayed-deletes (n + 2) collection c rows))
      | inr hidden ↦ rw (there, hidden) (replayed-deletes (n + 1) collection c rows)
    ]
  ]

  -- What is replayed are changes of the log, of the collection, after the given id, and at most
  -- `replay_limit` of them: a delete with no record, and any other change only where a query
  -- showed the identity the record, with what the next query gives, which may be nothing.
  pub replay-Shown :
      (log : List ChangeEvent) (collection : Text) (since : ℕ) (c : RequestContext)
      → All (Shown log collection since c) (replay document_for log collection since c)
        × (length (replay document_for log collection since c) ≤ replay_limit)
  unfolding replay replay_rows
  replay-Shown log collection since c =
      let fits = retain (λ e. text_eq e.collection collection && ltb since e.log_id) log in
      (
        replayed-Shown log 0 collection since c (take replay_limit fits) (
            take-Row log collection since replay_limit fits
              (retain-Row log collection since log (λ e h. h))),
        omega (
          arith,
          length-replayed 0 collection c (take replay_limit fits),
          length-take replay_limit fits,
        ),
      )

  -- Whoever resumes is shown every delete among the rows that are read, in order and with no
  -- record.
  pub replay-deletes :
      (log : List ChangeEvent) (collection : Text) (since : ℕ) (c : RequestContext)
      → retain (λ d. is_delete d.event.op) (replay document_for log collection since c)
        ≡ map as_delete (retain (λ e. is_delete e.op) (replay_rows log collection since))
  unfolding replay
  replay-deletes log collection since c =
      replayed-deletes 0 collection c (replay_rows log collection since)
