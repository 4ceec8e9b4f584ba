-- ===== src/Realtime/Hub/Fanout.antt =====
-- The fan-out against its promise: a change is sent to those who want it and may see it, each with
-- what it may see.
use lazypock.Base.{
  Bool, not, ◌&&◌, ◌||◌, List, [], ◌∷◌, Option, none, some, ◌≡◌, refl, ap, ◌∙◌, if◌then◌else◌,
  Bool-cases, inl, inr,
}
use lazypock.Base.Text.{Text}
use lazypock.Realtime.Context.{RequestContext}
use lazypock.Realtime.Event.{ChangeEvent, is_delete, from_connection}
use lazypock.Realtime.Hub.{
  Hub, Delivered, Subscriber, Target, Sent, Fanned, is_some, is_owner, flatten, knows, other_record,
  document, documents, allowed, collect, deliver, sending, fan_out,
}
use lazypock.Realtime.Hub.Documents.{Covers, documents-Covers}

-- A subscription wants a change that its own connection did not make, of the record it is limited to.
abbrev pub wants : ChangeEvent → Subscriber → Bool
wants e s = not (from_connection e s.connection_id) && not (other_record s.record_id e.record_id)

module _ {Value Channel : Type 0} (try_send : Channel → Delivered Value → Channel × Sent)
    (document_for : Text → Text → RequestContext → Option Value) where
  -- A subscriber may see a delete as a superuser or if it was shown the record, and any other change if
  -- the collection's policy shows it the record.
  abbrev pub may_see : ChangeEvent → Subscriber → Bool
  may_see e s =
      if is_delete e.op
      then is_owner s.context.role || knows e.record_id s.seen
      else is_some (document_for e.collection e.record_id s.context)

  -- What a subscriber is sent: a delete with no record, any other change with the record as the
  -- policy shows it to this subscriber.
  abbrev pub shown : ChangeEvent → Subscriber → Delivered Value
  shown e s = record {
    event = e;
    document = if is_delete e.op then none else document_for e.collection e.record_id s.context;
  }

  -- One send, in order, to each subscriber that wants the change and may see it, and none to any other.
  unfoldable pub send_visible : ChangeEvent → List Subscriber → Fanned Channel → Fanned Channel
  send_visible e [] st = st
  send_visible e (s ∷ rest) st =
      send_visible e rest
        (if wants e s && may_see e s then sending try_send st s.id (shown e s) else st)

  abbrev target : ChangeEvent → Subscriber → Target
  target e s = record { id = s.id; context = s.context; known = knows e.record_id s.seen }

  -- One target: what the gathered documents allow is what the subscriber may see.
  deliver-target :
      (e : ChangeEvent) (docs : List (RequestContext × Option Value)) (s : Subscriber)
      (st : Fanned Channel)
      → document s.context docs
        ≡ (if is_delete e.op then none else some (document_for e.collection e.record_id s.context))
      → (if allowed e (target e s) docs
          then sending try_send st s.id
              (record { event = e; document = flatten (document s.context docs) })
          else st)
        ≡ (if may_see e s then sending try_send st s.id (shown e s) else st)
  unfolding allowed
  deliver-target e docs s st h = elim (Bool-cases (is_delete e.op)) [
    | inl gone ↦ rw (h, gone)
    | inr there ↦ rw (h, there)
  ]

  deliver-collect :
      (e : ChangeEvent) (docs : List (RequestContext × Option Value)) (subs : List Subscriber)
      (st : Fanned Channel)
      → Covers document_for e docs (collect e subs)
      → deliver try_send e docs (collect e subs) st ≡ send_visible e subs st
  unfolding deliver collect send_visible
  deliver-collect e docs [] st h = refl
  deliver-collect e docs (s ∷ subs) st h = elim (Bool-cases (from_connection e s.connection_id)) [
    | inl echo ↦ rw echo (deliver-collect e docs subs st (rw echo at h))
    | inr fresh ↦ elim (Bool-cases (other_record s.record_id e.record_id)) [
      | inl other ↦ rw (fresh, other) (deliver-collect e docs subs st (rw (fresh, other) at h))
      | inr same ↦
          let k : Covers document_for e docs (target e s ∷ collect e subs) =
            rw (fresh, same) at h in
          rw (fresh, same)
            (ap (λ x. deliver try_send e docs (collect e subs) x) (deliver-target e docs s st k.0)
              ∙ deliver-collect e docs subs
                  (if may_see e s then sending try_send st s.id (shown e s) else st) k.1)
    ]
  ]

  -- A change is sent, in the order of the registry, to each subscriber that wants it and may see
  -- it, with the record as that subscriber's own identity is shown it, and to no other, although
  -- the visibility is asked once for each identity.
  pub fan_out-eq-send_visible :
      (h : Hub Channel) (e : ChangeEvent) (subs : List Subscriber)
      → fan_out try_send document_for h e subs
        ≡ send_visible e subs
            (record { channels = h.channels; dropped = h.dropped; delivered = [] })
  unfolding fan_out
  fan_out-eq-send_visible h e subs =
      deliver-collect e (documents document_for e (collect e subs)) subs
        (record { channels = h.channels; dropped = h.dropped; delivered = [] })
        (documents-Covers document_for e (collect e subs))
