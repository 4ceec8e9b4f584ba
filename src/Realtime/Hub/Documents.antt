-- ===== src/Realtime/Hub/Documents.antt =====
-- The documents that the fan-out gathers are those of each target's identity.
use lazypock.Base.{
  true, false, List, [], ◌∷◌, Option, none, some, ◌≡◌, refl, ap, sym, if◌then◌else◌, All,
  Bool-cases, inl, inr, subst,
}
use lazypock.Base.Text.{Text}
use lazypock.Realtime.Context.{RequestContext, context_eq, context_eq→eq, context_eq_refl}
use lazypock.Realtime.Event.{ChangeEvent, is_delete}
use lazypock.Realtime.Hub.{Target, is_some, document, gather, documents}

module _ {Value : Type 0} (document_for : Text → Text → RequestContext → Option Value)
    (e : ChangeEvent) where
  abbrev pub own : RequestContext → Option Value
  own c = document_for e.collection e.record_id c

  -- Every document on hand is that of its identity.
  abbrev Sound : List (RequestContext × Option Value) → Type 0
  Sound docs = All (λ d. d.1 ≡ own d.0) docs

  document-Sound :
      (docs : List (RequestContext × Option Value)) (c : RequestContext)
      → Sound docs
      → is_some (document c docs) ≡ true
      → document c docs ≡ some (own c)
  unfolding document
  document-Sound [] c h k = cc
  document-Sound ((j, d) ∷ docs) c h k = elim (Bool-cases (context_eq j c)) [
    | inl same ↦ rw same (ap (λ x. some x) (subst (λ x. d ≡ own x) (context_eq→eq j c same) h.0))
    | inr apart ↦ rw apart (document-Sound docs c h.1 (rw apart at k))
  ]

  -- One round of the gathering: the documents after it, still sound, hold the target's and all before.
  abbrev added :
      Target → List (RequestContext × Option Value) → List (RequestContext × Option Value)
  added t docs =
      if is_some (document t.context docs) then docs else (t.context, own t.context) ∷ docs

  added-Sound :
      (t : Target) (docs : List (RequestContext × Option Value)) → Sound docs → Sound (added t docs)
  added-Sound t docs h = elim (Bool-cases (is_some (document t.context docs))) [
    | inl held ↦ rw held h
    | inr new ↦ rw new (refl, h)
  ]

  added-holds :
      (t : Target) (docs : List (RequestContext × Option Value))
      → is_some (document t.context (added t docs)) ≡ true
  unfolding document
  added-holds t docs = elim (Bool-cases (is_some (document t.context docs))) [
    | inl held ↦ rw held held
    | inr new ↦ rw (new, context_eq_refl t.context)
  ]

  added-keeps :
      (t : Target) (docs : List (RequestContext × Option Value)) (c : RequestContext)
      → is_some (document c docs) ≡ true
      → is_some (document c (added t docs)) ≡ true
  unfolding document
  added-keeps t docs c h = elim (Bool-cases (is_some (document t.context docs))) [
    | inl held ↦ rw held h
    | inr new ↦
        rw new (elim (Bool-cases (context_eq t.context c)) [
          | inl same ↦ rw same
          | inr apart ↦ rw apart h
        ])
  ]

  gather-keeps :
      (ts : List Target) (docs : List (RequestContext × Option Value)) (c : RequestContext)
      → is_some (document c docs) ≡ true
      → is_some (document c (gather document_for e ts docs)) ≡ true
  unfolding gather
  gather-keeps [] docs c h = h
  gather-keeps (t ∷ ts) docs c h = gather-keeps ts (added t docs) c (added-keeps t docs c h)

  gather-Sound :
      (ts : List Target) (docs : List (RequestContext × Option Value))
      → Sound docs
      → Sound (gather document_for e ts docs)
  unfolding gather
  gather-Sound [] docs h = h
  gather-Sound (t ∷ ts) docs h = gather-Sound ts (added t docs) (added-Sound t docs h)

  gather-holds :
      (ts : List Target) (docs : List (RequestContext × Option Value))
      → All (λ t. is_some (document t.context (gather document_for e ts docs)) ≡ true) ts
  unfolding gather
  gather-holds [] docs = tt
  gather-holds (t ∷ ts) docs = (
    gather-keeps ts (added t docs) t.context (added-holds t docs),
    gather-holds ts (added t docs),
  )

  -- What the documents say of a target's identity.
  abbrev pub Covers : List (RequestContext × Option Value) → List Target → Type 0
  Covers docs =
      All (λ t. document t.context docs ≡ (if is_delete e.op then none else some (own t.context)))

  Covers-there :
      (docs : List (RequestContext × Option Value)) (ts : List Target)
      → Sound docs
      → is_delete e.op ≡ false
      → All (λ t. is_some (document t.context docs) ≡ true) ts
      → Covers docs ts
  Covers-there docs [] h d k = tt
  Covers-there docs (t ∷ ts) h d k =
      (rw d (document-Sound docs t.context h k.0), Covers-there docs ts h d k.1)

  Covers-none : (ts : List Target) → is_delete e.op ≡ true → Covers [] ts
  unfolding document
  Covers-none [] d = tt
  Covers-none (t ∷ ts) d = (rw d, Covers-none ts d)

  -- A delete gathers nothing, and any other change the document of each target's own identity.
  pub documents-Covers : (ts : List Target) → Covers (documents document_for e ts) ts
  documents-Covers ts = elim (Bool-cases (is_delete e.op)) [
    | inl gone ↦
        let empty : documents document_for e ts ≡ [] = rw gone in
        subst (λ docs. Covers docs ts) (sym empty) (Covers-none ts gone)
    | inr there ↦
        let full : documents document_for e ts ≡ gather document_for e ts [] = rw there in
        subst (λ docs. Covers docs ts) (sym full)
          (Covers-there (gather document_for e ts []) ts (gather-Sound ts [] tt) there
            (gather-holds ts []))
  ]
