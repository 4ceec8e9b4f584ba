-- ===== src/Realtime/Hub.antt =====
-- crates/realtime/src/hub.rs: the subscription registry of a node, and its fan-out. A sender is a reference to a
-- channel, which the hub's state holds by the subscription's id; the channels of tokio and the
-- visibility query are parameters. The two locked parts of `dispatch` are `collect` and `remember`.
mod Documents
pub mod Fanout
pub mod Registry
pub mod Replay
use lazypock.Base.{
  ℕ, ◌+◌, Bool, true, false, not, ◌&&◌, ◌||◌, List, [], ◌∷◌, ◌++◌, Option, none, some, ltb, leb,
  ◌==◌, if◌then◌else◌, length, any, null, retain, take,
}
use lazypock.Base.Text.{Text, text_eq, codes}
use lazypock.Base.Dict.{Dict, lookup, insert, remove}
use lazypock.Realtime.Context.{Role, RequestContext, context_eq}
use lazypock.Realtime.Event.{ChangeOp, ChangeEvent, is_delete, from_connection}

-- `CLIENT_QUEUE`, `RECENT_IDS` and `REPLAY_LIMIT`.
abbrev pub client_queue : ℕ
client_queue = 256

abbrev pub recent_ids : ℕ
recent_ids = 256

abbrev pub replay_limit : ℕ
replay_limit = 200

pub record Delivered (Value : Type 0) : Type 0 where
  pub event : ChangeEvent
  pub document : Option Value

pub record Subscriber : Type 0 where
  pub id : ℕ
  pub record_id : Option Text
  pub context : RequestContext
  pub connection_id : Text
  pub seen : List Text

pub record Hub (Channel : Type 0) : Type 0 where
  pub subscribers : Dict (List Subscriber)
  pub next_id : ℕ
  pub dropped : ℕ
  pub channels : ℕ → Channel

-- What `try_send` answers.
pub data Sent : Type 0 where
  sent full closed : Sent

pub record Target : Type 0 where
  pub id : ℕ
  pub context : RequestContext
  pub known : Bool

-- Whether a subscription limited to one record is about another.
abbrev pub other_record : Option Text → Text → Bool
other_record none id = false
other_record (some wanted) id = not (text_eq wanted id)

abbrev pub knows : Text → List Text → Bool
knows id seen = any (λ x. text_eq x id) seen

-- The first locked part of `dispatch`: who is concerned, in the order of the registry.
unfoldable pub collect : ChangeEvent → List Subscriber → List Target
unfolding from_connection text_eq
collect e [] = []
collect e (s ∷ rest) =
    let more = collect e rest in
    if from_connection e s.connection_id
    then more
    else if other_record s.record_id e.record_id
    then more
    else record { id = s.id; context = s.context; known = knows e.record_id s.seen } ∷ more

-- The trimming loop over the ids that a subscription was shown, oldest first.
unfoldable pub trim_seen : List Text → List Text
trim_seen [] = []
trim_seen (x ∷ xs) =
    let rest = trim_seen xs in if ltb recent_ids (length (x ∷ xs)) then rest else x ∷ xs

-- The second locked part of `dispatch`, for the list of one collection.
unfoldable pub remember : Text → List ℕ → List Subscriber → List Subscriber
unfolding trim_seen
remember id delivered [] = []
remember id delivered (s ∷ rest) =
    (if any (λ d. d == s.id) delivered
      then record s { seen = trim_seen (s.seen ++ id ∷ []) }
      else s)
    ∷ remember id delivered rest

abbrev pub is_owner : Role → Bool
is_owner Role.owner = true
is_owner _ = false

abbrev pub is_some {ℓ} : {A : Type ℓ} → Option A → Bool
is_some none = false
is_some (some a) = true

abbrev pub flatten {ℓ} : {A : Type ℓ} → Option (Option A) → Option A
flatten none = none
flatten (some o) = o

abbrev pub update {ℓ} : {A : Type ℓ} → (ℕ → A) → ℕ → A → ℕ → A
update f i a j = if j == i then a else f j

-- What the fan-out has done so far.
pub record Fanned (Channel : Type 0) : Type 0 where
  pub channels : ℕ → Channel
  pub dropped : ℕ
  pub delivered : List ℕ

module _ {Value : Type 0} where
  -- The map of documents by identity.
  unfoldable pub document :
      RequestContext → List (RequestContext × Option Value) → Option (Option Value)
  unfolding context_eq
  document c [] = none
  document c ((k, d) ∷ rest) = let more = document c rest in if context_eq k c then some d else more

  unfoldable pub allowed : ChangeEvent → Target → List (RequestContext × Option Value) → Bool
  unfolding document
  allowed e t docs =
      if is_delete e.op
      then is_owner t.context.role || t.known
      else is_some (flatten (document t.context docs))

-- `replay_rows`: the log in the order of its ids, `since` exclusive.
unfoldable pub replay_rows : List ChangeEvent → Text → ℕ → List ChangeEvent
unfolding text_eq
replay_rows log collection since =
    take replay_limit (retain (λ e. text_eq e.collection collection && ltb since e.log_id) log)

module _ {Value : Type 0} (document_for : Text → Text → RequestContext → Option Value) where
  -- One visibility query for each distinct identity.
  unfoldable pub gather :
      ChangeEvent
      → List Target
      → List (RequestContext × Option Value)
      → List (RequestContext × Option Value)
  unfolding document
  gather e [] docs = docs
  gather e (t ∷ rest) docs = gather e rest (
      if is_some (document t.context docs)
      then docs
      else (t.context, document_for e.collection e.record_id t.context) ∷ docs)

  abbrev pub documents : ChangeEvent → List Target → List (RequestContext × Option Value)
  documents e ts = if is_delete e.op then [] else gather e ts []

-- The queries of one replay are numbered, since the database moves on between them.
module _ {Value : Type 0} (document_for : ℕ → Text → Text → RequestContext → Option Value) where
  -- The loop of `replay`, from its `n`-th query on: one query for whether a change is allowed, and another for its record.
  unfoldable pub replayed : ℕ → Text → RequestContext → List ChangeEvent → List (Delivered Value)
  replayed n collection c [] = []
  replayed n collection c (e ∷ rest) =
      let as_delete = replayed n collection c rest in
      let as_hidden = replayed (n + 1) collection c rest in
      let as_shown = replayed (n + 2) collection c rest in
      if is_delete e.op
      then record { event = e; document = none } ∷ as_delete
      else if is_some (document_for n collection e.record_id c)
      then record { event = e; document = document_for (n + 1) collection e.record_id c } ∷ as_shown
      else as_hidden

  unfoldable pub replay : List ChangeEvent → Text → ℕ → RequestContext → List (Delivered Value)
  unfolding replay_rows replayed
  replay log collection since c = replayed 0 collection c (replay_rows log collection since)

module _ {Value Channel : Type 0} (try_send : Channel → Delivered Value → Channel × Sent) where
  -- What a send does to the fan-out's state.
  abbrev pub sending : Fanned Channel → ℕ → Delivered Value → Fanned Channel
  sending st id d =
      let (channel, outcome) = try_send (st.channels id) d in
      record {
        channels = update st.channels id channel;
        dropped = elim outcome [ full ↦ st.dropped + 1 | _ ↦ st.dropped ];
        delivered = elim outcome [ sent ↦ st.delivered ++ id ∷ [] | _ ↦ st.delivered ];
      }

  -- The loop over the targets.
  unfoldable pub deliver :
      ChangeEvent
      → List (RequestContext × Option Value)
      → List Target
      → Fanned Channel
      → Fanned Channel
  unfolding allowed
  deliver e docs [] st = st
  deliver e docs (t ∷ rest) st = deliver e docs rest (
      if allowed e t docs
      then sending st t.id (record { event = e; document = flatten (document t.context docs) })
      else st)

module _ {Value Channel : Type 0} (try_send : Channel → Delivered Value → Channel × Sent)
    (document_for : Text → Text → RequestContext → Option Value) where
  -- The fan-out to the subscribers of one collection.
  unfoldable pub fan_out : Hub Channel → ChangeEvent → List Subscriber → Fanned Channel
  unfolding collect gather deliver
  fan_out h e subs =
      let targets = collect e subs in
      let start : Fanned Channel = record {
        channels = h.channels;
        dropped = h.dropped;
        delivered = [];
      } in
      deliver try_send e (documents document_for e targets) targets start

  unfoldable pub dispatch : Hub Channel → ChangeEvent → Hub Channel
  unfolding fan_out remember lookup insert
  dispatch h e = elim (lookup e.collection h.subscribers) [
    | none ↦ h
    | some subs ↦
        let st = fan_out h e subs in
        record h {
          subscribers =
              if null st.delivered
              then h.subscribers
              else insert e.collection (remember e.record_id st.delivered subs) h.subscribers;
          dropped = st.dropped;
          channels = st.channels;
        }
  ]

-- `unwrap_or_default`.
abbrev pub listed : Option (List Subscriber) → List Subscriber
listed none = []
listed (some subs) = subs

module _ {Channel : Type 0} where
  abbrev pub subscribers_of : Text → Hub Channel → List Subscriber
  subscribers_of collection h = listed (lookup collection h.subscribers)

module _ {Channel : Type 0} (channel : ℕ → Channel) where
  -- The id is the counter's, and the channel a new one.
  unfoldable pub subscribe :
      Hub Channel → Text → Option Text → RequestContext → Text → ℕ × Hub Channel
  unfolding lookup insert
  subscribe h collection record_id context connection_id =
      let new : Subscriber = record {
        id = h.next_id;
        record_id = record_id;
        context = context;
        connection_id = connection_id;
        seen = [];
      } in
      (
        h.next_id,
        record h {
          subscribers = insert collection (subscribers_of collection h ++ new ∷ []) h.subscribers;
          next_id = h.next_id + 1;
          channels = update h.channels h.next_id (channel client_queue);
        },
      )

module _ {Channel : Type 0} where
  unfoldable pub unsubscribe : Hub Channel → Text → ℕ → Hub Channel
  unfolding lookup insert remove
  unsubscribe h collection id = elim (lookup collection h.subscribers) [
    | none ↦ h
    | some subs ↦
        let left = retain (λ s. not (s.id == id)) subs in
        record h {
          subscribers =
              if null left
              then remove collection h.subscribers
              else insert collection left h.subscribers;
        }
  ]

  unfoldable pub subscription_count : Hub Channel → ℕ
  subscription_count h = total h.subscribers
    where
      total : Dict (List Subscriber) → ℕ
      total [] = 0
      total ((k, subs) ∷ rest) = length subs + total rest
