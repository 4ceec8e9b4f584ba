-- ===== src/Realtime/Event.antt =====
-- crates/realtime/src/event.rs: one change to one record.
use lazypock.Base.{ℕ, Bool, true, false, not, ◌&&◌, Option, none, some, null}
use lazypock.Base.Text.{Text, text_eq}

pub data ChangeOp : Type 0 where
  create update delete : ChangeOp

pub record ChangeEvent : Type 0 where
  pub log_id : ℕ
  pub collection : Text
  pub op : ChangeOp
  pub record_id : Text
  pub origin : Option Text

abbrev pub is_delete : ChangeOp → Bool
is_delete ChangeOp.delete = true
is_delete _ = false

abbrev pub is_origin : Option Text → Text → Bool
is_origin none connection = false
is_origin (some o) connection = text_eq o connection

-- Whether the connection is the one that caused the change.
unfoldable pub from_connection : ChangeEvent → Text → Bool
from_connection e connection = not (null connection) && is_origin e.origin connection
