-- ===== src/Realtime/Tests.antt =====
-- The hub at concrete inputs: a channel is the list of what it was sent, and a record is visible to
-- signed-in users only.
use lazypock.Base.{
  ℕ, ◌++◌, ◌≤◌, ◌≡◌, refl, leb, Option, some, none, List, [], ◌∷◌, length, retain, map, All,
  if◌then◌else◌,
}
use lazypock.Base.Text.{Text, codes, text_eq}
use lazypock.Base.Dict.{lookup, insert}
use lazypock.Realtime.Context.{Role, RequestContext, anonymous}
use lazypock.Realtime.Event.{ChangeEvent, ChangeOp, is_delete}
use lazypock.Realtime.Hub.{
  Hub, Delivered, Sent, fan_out, dispatch, subscribe, unsubscribe, subscribers_of, replay,
  replay_rows, replay_limit,
}
use lazypock.Realtime.Hub.Fanout.{send_visible, fan_out-eq-send_visible}
use lazypock.Realtime.Hub.Registry.{IsValid, Run, Step, Run-IsValid, unsubscribe-subscribe}
use lazypock.Realtime.Hub.Replay.{Shown, as_delete, replay-Shown, replay-deletes}

abbrev posts : Text
posts = codes "posts"

-- A channel takes two deliveries.
abbrev try_send : List (Delivered Text) → Delivered Text → List (Delivered Text) × Sent
try_send c d = if leb 2 (length c) then (c, Sent.full) else (c ++ d ∷ [], Sent.sent)

abbrev visible : Role → Text → Option Text
visible Role.anon id = none
visible _ id = some id

abbrev document_for : Text → Text → RequestContext → Option Text
document_for collection id context = visible context.role id

-- The record is gone after the first query.
abbrev asked : ℕ → Text → Text → RequestContext → Option Text
asked n collection id context = if leb n 0 then visible context.role id else none

abbrev channel : ℕ → List (Delivered Text)
channel n = []

abbrev member : RequestContext
member = record anonymous { role = Role.authenticated }

abbrev guest : RequestContext
guest = record anonymous { role = Role.anon }

abbrev empty : Hub (List (Delivered Text))
empty = record { subscribers = []; next_id = 1; dropped = 0; channels = channel }

empty-IsValid : IsValid empty
unfolding lookup
empty-IsValid = record { distinct = tt; bounded = λ c. tt }

abbrev one : Hub (List (Delivered Text))
one = (subscribe channel empty posts none member (codes "c1")).1

abbrev two : Hub (List (Delivered Text))
two = (subscribe channel one posts none guest (codes "c2")).1

abbrev created : ChangeEvent
created = record {
  log_id = 7;
  collection = posts;
  op = ChangeOp.create;
  record_id = codes "r1";
  origin = none;
}

abbrev deleted : ChangeEvent
deleted = record created { log_id = 8; op = ChangeOp.delete }

-- The member is sent the record, and is the one who remembers it.
dispatched :
    map (λ s. s.seen) (subscribers_of posts (dispatch try_send document_for two created))
    ≡ (codes "r1" ∷ []) ∷ [] ∷ []
unfolding dispatch subscribe lookup insert text_eq anonymous
dispatched = refl

fan_out-eq-send_visible_example :
    fan_out try_send document_for two created (subscribers_of posts two)
    ≡ send_visible try_send document_for created
        (subscribers_of posts two)
        (record { channels = two.channels; dropped = two.dropped; delivered = [] })
fan_out-eq-send_visible_example =
    fan_out-eq-send_visible try_send document_for two created (subscribers_of posts two)

Run-IsValid_example : IsValid (dispatch try_send document_for two created)
Run-IsValid_example =
    Run-IsValid try_send document_for channel
      (Run.next (Step.subscribes posts none member (codes "c1")) (
        Run.next (Step.subscribes posts none guest (codes "c2"))
          (Run.next (Step.dispatches created) Run.stop)))
      empty-IsValid

unsubscribe-subscribe_example :
    (let (id, k) = subscribe channel empty posts none member (codes "c1") in
      subscribers_of posts (unsubscribe k posts id))
    ≡ subscribers_of posts empty
unsubscribe-subscribe_example =
    unsubscribe-subscribe channel empty posts posts none member (codes "c1") empty-IsValid

abbrev log : List ChangeEvent
log = created ∷ deleted ∷ []

replay-Shown_example :
    All (Shown asked log posts 6 member) (replay asked log posts 6 member)
    × (length (replay asked log posts 6 member) ≤ replay_limit)
replay-Shown_example = replay-Shown asked log posts 6 member

replay-deletes_example :
    retain (λ d. is_delete d.event.op) (replay asked log posts 6 guest)
    ≡ map as_delete (retain (λ e. is_delete e.op) (replay_rows log posts 6))
replay-deletes_example = replay-deletes asked log posts 6 guest
