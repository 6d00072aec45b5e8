-- ===== src/Paperless/World.antt =====
-- What a run of the worker meets: the server, the clock, the ids that the database draws, the state of
-- Redis, and the other transactions that come in between its awaited calls.
use versi_go.Prelude.{ℕ, Text, Bool, Option}
use versi_go.Config.SyncSchedule.{RawInterval}
use versi_go.Paperless.{Store}
use versi_go.Paperless.Client.{Connection}

-- The awaited calls of a sync run at which other transactions are let in.
pub data Moment : Type 0 where
  at_lookup : Moment
  at_listing : Moment
  -- before the n-th remote document, and the n-th local link, is looked at
  before_document : ℕ → Moment
  before_removal : ℕ → Moment
  at_backfill : Moment

pub record World : Type 0 where
  pub connection : Connection
  -- `new Date()`, in milliseconds since the epoch
  pub now : ℕ
  -- the id of the n-th row that a table gets
  pub uuid : ℕ → Text
  -- `new Date(text)`: none for a text that is no date
  pub to_date : Text → Option ℕ
  pub others : Moment → Store → Store
  -- the message of the error, other than P2002, that the insertion of the n-th document meets
  pub insert_error : ℕ → Option Text
  pub queue_up : Bool
  pub sync_enabled : Option Bool
  pub sync_interval_ms : RawInterval
