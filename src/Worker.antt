-- ===== src/Worker.antt =====
-- cmd/worker/consumer.go: entries of the Redis stream become recorded clicks, and are acknowledged
-- once they are.
pub mod Delivery
pub mod Reclaim
pub mod Loop
use knives.Prelude.{
  ℕ, Text, Bool, ◌==◌, not, if◌then◌else◌, List, [], ◌∷◌, Option, none, some, any, select, map,
}
use knives.World.{failing, later}
use knives.World.Effects.{Result, ok, err}
use knives.Clicks.{ClickEvent, ClickDb, record_batch}
use knives.UserAgent.{ParsedAgent, categorize}

-- One stream entry; a field that it lacks, or that is no string, is the empty text.
pub record Message : Type 0 where
  pub id : ℕ
  pub short_url_id : Text
  pub clicked_at : Text
  pub referrer_host : Text
  pub user_agent : Text
  pub ip_hash : Text
  pub country_code : Text

-- google/uuid's Parse, time.Parse with RFC3339Nano and mileusna/useragent's Parse.
pub record Parsers : Type 0 where
  pub parse_uuid : Text → Option ℕ
  pub parse_time : Text → Option ℕ
  pub parse_agent : Text → ParsedAgent

-- The database and the consumer group's entries that were read and not yet acknowledged.
pub record Worker : Type 0 where
  pub db : ClickDb
  pub pending : List Message

module _ (p : Parsers) where
  unfoldable pub parse_with : Message → ℕ → Option ℕ → Option ClickEvent
  parse_with msg url none = none
  parse_with msg url (some at) =
      let agent = categorize p.parse_agent msg.user_agent in
      some (record {
        stream_id = msg.id;
        short_url_id = url;
        clicked_at = at;
        referrer_host = msg.referrer_host;
        user_agent_raw = msg.user_agent;
        ip_hash = msg.ip_hash;
        country_code = msg.country_code;
        os = agent.os;
        browser = agent.browser;
      })

  abbrev pub parse_for : Message → Option ℕ → Option ClickEvent
  parse_for msg none = none
  parse_for msg (some url) = parse_with msg url (p.parse_time msg.clicked_at)

  unfoldable pub parse_click_event : Message → Option ClickEvent
  parse_click_event msg = parse_for msg (p.parse_uuid msg.short_url_id)

  abbrev pub cons_event : Option ClickEvent → List ClickEvent → List ClickEvent
  cons_event none evs = evs
  cons_event (some ev) evs = ev ∷ evs

  -- The loop over the messages: a malformed one is dropped.
  unfoldable pub parsed_events : List Message → List ClickEvent
  parsed_events [] = []
  parsed_events (msg ∷ msgs) = cons_event (parse_click_event msg) (parsed_events msgs)

  abbrev pub in_batch : List Message → Message → Bool
  in_batch msgs m = any (λ (n : Message). n.id == m.id) msgs

  -- XACK of every id of the batch, malformed ones too.
  unfoldable pub acknowledge : List Message → Worker → Worker
  acknowledge msgs w =
      let db' : ClickDb = record w.db { faults = later w.db.faults } in
      let rest = select (λ m. not (in_batch msgs m)) w.pending in
      if failing w.db.faults then record w { db = db' } else record w { db = db'; pending = rest }

  abbrev pub acknowledge_recorded : List Message → Worker → Result (Unit {0}) × ClickDb → Worker
  acknowledge_recorded msgs w (ok _, db') = acknowledge msgs (record w { db = db' })
  acknowledge_recorded msgs w (err e, db') = record w { db = db' }

  abbrev pub record_events : List Message → List ClickEvent → Worker → Worker
  record_events msgs [] w = acknowledge msgs w
  record_events msgs (ev ∷ evs) w = acknowledge_recorded msgs w (record_batch (ev ∷ evs) w.db)

  unfoldable pub process_batch : List Message → Worker → Worker
  process_batch [] w = w
  process_batch (msg ∷ msgs) w = record_events (msg ∷ msgs) (parsed_events (msg ∷ msgs)) w
