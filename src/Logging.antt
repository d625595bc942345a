-- ===== src/Logging.antt =====
-- internal/logging/logging.go: the record of one request, and what Kafka and Redis are given of it.
-- `json.Marshal` is a parameter; the writer to Kafka and the publisher of Redis are libraries.
use kenbun.Prelude.{ℕ, ◌*◌, ◌^◌, String, Bool, true, Option, none, some, List, ℤ}
use kenbun.Provider.{Outcome, ok, err}

pub record LogEvent (F : Type 0) : Type 0 where
  pub request_id : String
  pub tenant_id : String
  pub provider : String
  pub model : String
  pub prompt_tokens : ℤ
  pub completion_tokens : ℤ
  pub cost_cents : F
  pub latency_ms : ℤ
  pub status : ℤ
  pub cached : Bool
  pub timestamp : ℤ

pub record LogMessage (V : Type 0) : Type 0 where
  pub key : String
  pub value : V

-- `kafka.Writer`, with the time of a batch in nanoseconds
pub record KafkaWriter : Type 0 where
  pub brokers : List String
  pub topic : String
  pub is_async : Bool
  pub batch_size : ℕ
  pub batch_timeout : ℕ

-- the channel of Redis that `Broadcast` publishes to
abbrev pub live_channel : String
live_channel = "logs:live"

unfoldable pub new_multi_logger : List String → String → KafkaWriter
new_multi_logger brokers topic = record {
  brokers = brokers;
  topic = topic;
  is_async = true;
  batch_size = 1000;
  batch_timeout = 10 * 10 ^ 6;
}

module _ {V X : Type 0} where
  abbrev pub keyed : String → Outcome X V → Outcome X (LogMessage V)
  keyed key (err x) = err x
  keyed key (ok payload) = ok (record { key = key; value = payload })

  abbrev pub payload_of : Outcome X V → Option V
  payload_of (err x) = none
  payload_of (ok payload) = some payload

module _ {F V X : Type 0} where
  -- `Log`: the message for the writer, or the error that keeps it from being written.
  unfoldable pub log_message : (LogEvent F → Outcome X V) → LogEvent F → Outcome X (LogMessage V)
  log_message marshal event = keyed event.tenant_id (marshal event)

  -- `Broadcast`: the payload that is published; `none` is the nil payload of a failed marshal.
  unfoldable pub broadcast_payload : (LogEvent F → Outcome X V) → LogEvent F → Option V
  broadcast_payload marshal event = payload_of (marshal event)
