-- ===== src/Realtime/Hub/Registry.antt =====
-- The registry over any run of the hub: subscriptions come and go, and changes are fanned out.
pub mod Lists
use lazypock.Base.{
  ℕ, ◌+◌, ◌≤◌, ◌<◌, Bool, true, false, not, List, [], ◌∷◌, ◌++◌, Option, ◌≡◌, refl, ap, sym, ◌∙◌,
  arith, if◌then◌else◌, All, Bool-cases, Option-cases, inl, inr, length, any, null, retain, ◌==◌,
  ==_refl,
}
use lazypock.Base.Text.{Text, text_eq, text_eq_iff, text_eq_refl}
use lazypock.Base.Dict.{
  Dict, lookup, insert, remove, Distinct, insert-Distinct, remove-Distinct, lookup-insert,
  lookup-remove,
}
use lazypock.Realtime.Context.{RequestContext}
use lazypock.Realtime.Event.{ChangeEvent}
use lazypock.Realtime.Hub.{
  Hub, Delivered, Subscriber, Sent, trim_seen, remember, recent_ids, listed, subscribers_of,
  subscribe, unsubscribe, dispatch, fan_out,
}
use lazypock.Realtime.Hub.Registry.Lists.{
  Bounded, All-append, All-later, All-retain, All-remember, All-if, listed-insert, listed-written,
  listed-at,
}

module _ {Channel : Type 0} where
  -- A collection has one list of subscriptions, each of them bounded.
  pub record IsValid (h : Hub Channel) : Type 0 where
    pub distinct : Distinct h.subscribers
    pub bounded : (c : Text) → All (Bounded h.next_id) (subscribers_of c h)

  pub subscribers_of-unsubscribe :
      (h : Hub Channel) (c j : Text) (id : ℕ)
      → subscribers_of j (unsubscribe h c id) ≡ (
          if text_eq c j
          then retain (λ s. not (s.id == id)) (subscribers_of c h)
          else subscribers_of j h)
  unfolding unsubscribe
  subscribers_of-unsubscribe h c j id = elim (Option-cases (lookup c h.subscribers)) [
    | inl gone ↦ rw (unsubscribe, gone) (listed-at c j [] h.subscribers (rw gone))
    | inr (subs, held) ↦
        rw (unsubscribe, held)
          (listed-written c j (retain (λ s. not (s.id == id)) subs) h.subscribers)
  ]

module _ {Channel : Type 0} (channel : ℕ → Channel) where
  pub subscribers_of-subscribe :
      (h : Hub Channel) (c j : Text) (r : Option Text) (x : RequestContext) (conn : Text)
      → subscribers_of j (subscribe channel h c r x conn).1 ≡ (
          if text_eq c j
          then subscribers_of c h
            ++ record {
              id = h.next_id;
              record_id = r;
              context = x;
              connection_id = conn;
              seen = [];
            }
              ∷ []
          else subscribers_of j h)
  unfolding subscribe
  subscribers_of-subscribe h c j r x conn =
      listed-insert c j
        (subscribers_of c h
          ++ record { id = h.next_id; record_id = r; context = x; connection_id = conn; seen = [] }
            ∷ [])
        h.subscribers

module _ {Value Channel : Type 0} (try_send : Channel → Delivered Value → Channel × Sent)
    (document_for : Text → Text → RequestContext → Option Value) where
  -- What a dispatch leaves of a list of subscriptions.
  abbrev remembered : Hub Channel → ChangeEvent → List Subscriber → List Subscriber
  remembered h e subs =
      let st = fan_out try_send document_for h e subs in
      if null st.delivered then subs else remember e.record_id st.delivered subs

  subscribers_of-dispatch :
      (h : Hub Channel) (e : ChangeEvent) (j : Text)
      → subscribers_of j (dispatch try_send document_for h e) ≡ (
          if text_eq e.collection j
          then remembered h e (subscribers_of e.collection h)
          else subscribers_of j h)
  unfolding dispatch
  subscribers_of-dispatch h e j = elim (Option-cases (lookup e.collection h.subscribers)) [
    | inl gone ↦ rw (dispatch, gone) (listed-at e.collection j [] h.subscribers (rw gone))
    | inr (subs, held) ↦
        elim (Bool-cases (null (fan_out try_send document_for h e subs).delivered)) [
          | inl nobody ↦
              rw (dispatch, held, nobody) (listed-at e.collection j subs h.subscribers (rw held))
          | inr somebody ↦
              rw (dispatch, held, somebody)
                (listed-insert e.collection j
                  (remember e.record_id (fan_out try_send document_for h e subs).delivered subs)
                  h.subscribers)
        ]
  ]

  module _ (channel : ℕ → Channel) where
    -- One call on the hub.
    pub data Step (h : Hub Channel) : Hub Channel → Type 0 where
      subscribes :
          (c : Text) (r : Option Text) (x : RequestContext) (conn : Text)
          → Step h (subscribe channel h c r x conn).1
      unsubscribes : (c : Text) (id : ℕ) → Step h (unsubscribe h c id)
      dispatches : (e : ChangeEvent) → Step h (dispatch try_send document_for h e)

    pub data Run : Hub Channel → Hub Channel → Type 0 where
      stop : {h : Hub Channel} → Run h h
      next : {g h k : Hub Channel} → Step g h → Run h k → Run g k

    subscribe-IsValid :
        (h : Hub Channel) (c : Text) (r : Option Text) (x : RequestContext) (conn : Text)
        → IsValid h
        → IsValid (subscribe channel h c r x conn).1
    unfolding subscribe
    subscribe-IsValid h c r x conn v =
        let new : Subscriber = record {
          id = h.next_id;
          record_id = r;
          context = x;
          connection_id = conn;
          seen = [];
        } in
        let old : (j : Text) → All (Bounded (h.next_id + 1)) (subscribers_of j h) =
          λ j. All-later h.next_id (subscribers_of j h) (v.bounded j) in
        record {
          distinct = insert-Distinct c (subscribers_of c h ++ new ∷ []) h.subscribers v.distinct;
          bounded = λ j. rw (subscribers_of-subscribe channel h c j r x conn) (
              All-if (h.next_id + 1) (text_eq c j) (subscribers_of c h ++ new ∷ [])
                (subscribers_of j h)
                (All-append (h.next_id + 1) (subscribers_of c h) new (old c)
                  (omega arith, omega arith))
                (old j));
        }

  unsubscribe-Distinct :
      (h : Hub Channel) (c : Text) (id : ℕ)
      → Distinct h.subscribers
      → Distinct (unsubscribe h c id).subscribers
  unfolding unsubscribe
  unsubscribe-Distinct h c id d = elim (Option-cases (lookup c h.subscribers)) [
    | inl gone ↦ rw (unsubscribe, gone) d
    | inr (subs, held) ↦ elim (Bool-cases (null (retain (λ s. not (s.id == id)) subs))) [
      | inl last ↦ rw (unsubscribe, held, last) (remove-Distinct c h.subscribers d)
      | inr left ↦
          rw (unsubscribe, held, left)
            (insert-Distinct c (retain (λ s. not (s.id == id)) subs) h.subscribers d)
    ]
  ]

  unsubscribe-next_id :
      (h : Hub Channel) (c : Text) (id : ℕ) → (unsubscribe h c id).next_id ≡ h.next_id
  unfolding unsubscribe
  unsubscribe-next_id h c id = elim (Option-cases (lookup c h.subscribers)) [
    | inl gone ↦ rw (unsubscribe, gone)
    | inr (subs, held) ↦ rw (unsubscribe, held)
  ]

  unsubscribe-IsValid :
      (h : Hub Channel) (c : Text) (id : ℕ) → IsValid h → IsValid (unsubscribe h c id)
  unsubscribe-IsValid h c id v = record {
    distinct = unsubscribe-Distinct h c id v.distinct;
    bounded = λ j.
        rw (unsubscribe-next_id h c id, subscribers_of-unsubscribe h c j id)
          (All-if h.next_id (text_eq c j) (retain (λ s. not (s.id == id)) (subscribers_of c h))
            (subscribers_of j h)
            (All-retain h.next_id (λ s. not (s.id == id)) (subscribers_of c h) (v.bounded c))
            (v.bounded j));
  }

  dispatch-Distinct :
      (h : Hub Channel) (e : ChangeEvent)
      → Distinct h.subscribers
      → Distinct (dispatch try_send document_for h e).subscribers
  unfolding dispatch
  dispatch-Distinct h e d = elim (Option-cases (lookup e.collection h.subscribers)) [
    | inl gone ↦ rw (dispatch, gone) d
    | inr (subs, held) ↦
        elim (Bool-cases (null (fan_out try_send document_for h e subs).delivered)) [
          | inl nobody ↦ rw (dispatch, held, nobody) d
          | inr somebody ↦
              rw (dispatch, held, somebody)
                (insert-Distinct e.collection
                  (remember e.record_id (fan_out try_send document_for h e subs).delivered subs)
                  h.subscribers d)
        ]
  ]

  dispatch-next_id :
      (h : Hub Channel) (e : ChangeEvent) → (dispatch try_send document_for h e).next_id ≡ h.next_id
  unfolding dispatch
  dispatch-next_id h e = elim (Option-cases (lookup e.collection h.subscribers)) [
    | inl gone ↦ rw (dispatch, gone)
    | inr (subs, held) ↦ rw (dispatch, held)
  ]

  dispatch-IsValid :
      (h : Hub Channel) (e : ChangeEvent) → IsValid h → IsValid (dispatch try_send document_for h e)
  dispatch-IsValid h e v =
      let subs = subscribers_of e.collection h in
      let ids = (fan_out try_send document_for h e subs).delivered in
      record {
        distinct = dispatch-Distinct h e v.distinct;
        bounded = λ j.
            rw (dispatch-next_id h e, subscribers_of-dispatch h e j)
              (All-if h.next_id (text_eq e.collection j) (remembered h e subs) (subscribers_of j h)
                (All-if h.next_id (null ids) subs (remember e.record_id ids subs)
                  (v.bounded e.collection)
                  (All-remember h.next_id e.record_id ids subs (v.bounded e.collection)))
                (v.bounded j));
      }

  module _ (channel : ℕ → Channel) where
    Step-IsValid : {h k : Hub Channel} → Step channel h k → IsValid h → IsValid k
    Step-IsValid {h} (Step.subscribes c r x conn) v = subscribe-IsValid channel h c r x conn v
    Step-IsValid {h} (Step.unsubscribes c id) v = unsubscribe-IsValid h c id v
    Step-IsValid {h} (Step.dispatches e) v = dispatch-IsValid h e v

    -- Over any run of subscribing, unsubscribing and fanning out, a collection keeps one list,
    -- every subscription's id stays below the next one, and none holds more than `recent_ids`
    -- ids.
    pub Run-IsValid : {h k : Hub Channel} → Run channel h k → IsValid h → IsValid k
    Run-IsValid Run.stop v = v
    Run-IsValid (Run.next step more) v = Run-IsValid more (Step-IsValid step v)

-- Taking out the newest id takes out the newest subscription alone.
retain-append :
    (n : ℕ) (xs : List Subscriber) (y : Subscriber)
    → All (Bounded n) xs
    → y.id ≡ n
    → retain (λ s. not (s.id == n)) (xs ++ y ∷ []) ≡ xs
retain-append n [] y h k = rw (k, ==_refl n)
retain-append n (x ∷ xs) y h k =
    let older : (x.id == n) ≡ false = ground (arith, h.0.0) in
    rw (older, retain-append n xs y h.1 k)

module _ {Channel : Type 0} (channel : ℕ → Channel) where
  -- In a valid hub, a subscription that is given back at once leaves every collection's
  -- subscriptions as they were.
  pub unsubscribe-subscribe :
      (h : Hub Channel) (c j : Text) (r : Option Text) (x : RequestContext) (conn : Text)
      → IsValid h
      → (let (id, k) = subscribe channel h c r x conn in subscribers_of j (unsubscribe k c id))
        ≡ subscribers_of j h
  unfolding subscribe
  unsubscribe-subscribe h c j r x conn v =
      let new : Subscriber = record {
        id = h.next_id;
        record_id = r;
        context = x;
        connection_id = conn;
        seen = [];
      } in
      let k : Hub Channel = (subscribe channel h c r x conn).1 in
      elim (Bool-cases (text_eq c j)) [
        | inl same ↦
            let held : subscribers_of c k ≡ subscribers_of c h ++ new ∷ [] =
              subscribers_of-subscribe channel h c c r x conn ∙ rw (text_eq_refl c) refl in
            subscribers_of-unsubscribe k c j h.next_id
            ∙ rw same (
                ap (λ subs. retain (λ s. not (s.id == h.next_id)) subs) held
                ∙ (retain-append h.next_id (subscribers_of c h) new (v.bounded c) refl
                    ∙ ap (λ t. subscribers_of t h) ((text_eq_iff c j).0 same)))
        | inr other ↦
            subscribers_of-unsubscribe k c j h.next_id
            ∙ rw other (subscribers_of-subscribe channel h c j r x conn ∙ rw other refl)
      ]
