-- ===== src/Examples/Visits.antt =====
-- Click events, and the batches of the worker.
use knives.Prelude.{ℕ, Text, codes, ◌≡◌, refl, List, [], ◌∷◌, Option, none, some, All, any}
use knives.Clicks.{ClickEvent, ClickDb, record_batch}
use knives.Clicks.Counting.{Batched, record_batch_counts}
use knives.Clicks.Recording.{IsRecorded}
use knives.Worker.{
  Message, Parsers, Worker, parsed_events, process_batch, parse_click_event, parse_with,
}
use knives.Worker.Delivery.{
  IsDelivered, process_batch_delivers, unacknowledged, process_batch_completes,
}
use knives.UserAgent.{ParsedOs}
use knives.Examples.Data.{short_url}

abbrev click : ClickEvent
click = record {
  stream_id = 1;
  short_url_id = 31;
  clicked_at = 5;
  referrer_host = [];
  user_agent_raw = [];
  ip_hash = [];
  country_code = [];
  os = "Other";
  browser = "Other";
}

abbrev other_click : ClickEvent
other_click = record click { stream_id = 2 }

abbrev pub db : ClickDb
db = record { events = []; daily = []; short_urls = short_url ∷ []; faults = [] }

-- The same event twice, and another one.
abbrev batch : List ClickEvent
batch = click ∷ click ∷ other_click ∷ []

record_batch_counts_example : Batched 31 0 db (record_batch batch db)
record_batch_counts_example = record_batch_counts 31 0 batch db

abbrev any_uuid : Text → Option ℕ
any_uuid [] = none
any_uuid (c ∷ s) = some 31

abbrev pub parsers : Parsers
parsers = record {
  parse_uuid = any_uuid;
  parse_time = λ t. some 5;
  parse_agent = λ raw. record { os = ParsedOs.unlisted; name = "Other" };
}

abbrev pub message : Message
message = record {
  id = 1;
  short_url_id = codes "u";
  clicked_at = codes "t";
  referrer_host = [];
  user_agent = codes "curl";
  ip_hash = [];
  country_code = [];
}

abbrev malformed : Message
malformed = record message { id = 2; short_url_id = [] }

abbrev worker : Worker
worker = record { db = db; pending = message ∷ malformed ∷ [] }

process_batch_delivers_example :
    IsDelivered
      (message ∷ malformed ∷ [])
      (parsed_events parsers (message ∷ malformed ∷ []))
      worker
      (process_batch parsers (message ∷ malformed ∷ []) worker)
process_batch_delivers_example = process_batch_delivers parsers (message ∷ malformed ∷ []) worker

process_batch_completes_example :
    let w' = process_batch parsers (message ∷ malformed ∷ []) worker in
    (w'.pending ≡ unacknowledged parsers (message ∷ malformed ∷ []) worker)
    × All (IsRecorded w'.db) (parsed_events parsers (message ∷ malformed ∷ []))
unfolding parsed_events parse_click_event parse_with any
process_batch_completes_example =
    process_batch_completes parsers message (malformed ∷ []) worker refl (refl, tt)
