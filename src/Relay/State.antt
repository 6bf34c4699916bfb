-- ===== src/Relay/State.antt =====
-- The state that the handlers of server/src/wire/handlers.ts read and write, and what is outside the
-- program: the configuration and the runtime's sockets and clock.
use unseen_fyi.Prelude.{ℕ, ◌+◌, Bool, true, false, Option, none, List, [], update}
use unseen_fyi.Prelude.Int.{ℤ}
use unseen_fyi.Wire.Bytes.{Bytes}
use unseen_fyi.Wire.Codes.{Role, ErrorCode}
use unseen_fyi.Limit.Bucket.{Limits, Bucket, create_relay_bucket}
use unseen_fyi.Limit.IpKey.{Text}
use unseen_fyi.Limit.IpLimiter.{IpLimiter, IpLimiterConfig, create_ip_limiter}
use unseen_fyi.Room.Registry.{Socket, RoomId, Registry}

-- server/src/types.ts
pub data ConnectionState : Type 0 where
  pending_hello waiting_for_peer paired : ConnectionState

pub record ConnectionData : Type 0 where
  pub state : ConnectionState
  pub room_id : Option RoomId
  pub role : Option Role
  pub ip : Text
  pub admitted : Bool
  pub hello_timer : Bool  -- whether the field is set
  pub relay_bucket : Bucket
  pub handshake_forwards : ℕ

pub data SendStatus : Type 0 where
  sent queued dropped : SendStatus

pub data CloseReason : Type 0 where
  for_error : ErrorCode → CloseReason
  timeout grace_expired ack_dropped peer_joined_dropped peer_buffer_overflow : CloseReason

-- What the relay asked of the runtime, oldest first.
pub data Effect : Type 0 where
  send : Socket → Bytes → SendStatus → Effect
  close : Socket → ℕ → CloseReason → Effect

-- server/src/metrics/counters.ts
pub record Counters : Type 0 where
  pub total_connections : ℕ
  pub relays_total : ℕ
  pub rate_limit_rejections : ℕ
  pub capacity_rejections : ℕ

pub record Config : Type 0 where
  pub ip_limits : IpLimiterConfig
  pub relay_bucket : Limits
  pub grace_period_ms : ℕ
  pub max_connections : ℕ

-- What the runtime decides: the number that a send returns and how much a socket has buffered, given all that
-- was asked of the runtime before, and `isIP`.
pub record Runtime : Type 0 where
  pub returned : List Effect → Socket → Bytes → ℤ
  pub buffered : List Effect → Socket → ℕ
  pub is_ip : Text → ℕ

-- The deps of the handlers, with the time at which the handler runs.
pub record Deps : Type 0 where
  pub config : Config
  pub runtime : Runtime
  pub now : ℕ

-- `timers` says for which sockets the timeout of `startHelloTimer` is still to fire, and `alive`
-- lists the sockets that are open: both belong to the runtime.
pub record Server : Type 0 where
  pub conns : Socket → ConnectionData
  pub registry : Registry
  pub limiter : IpLimiter
  pub counters : Counters
  pub open_connections : ℕ
  pub timers : Socket → Bool
  pub alive : List Socket
  pub out : List Effect

unfoldable pub create_initial_connection_data : Text → Config → ℕ → ConnectionData
unfolding create_relay_bucket
create_initial_connection_data ip config now = record {
  state = pending_hello;
  room_id = none;
  role = none;
  ip = ip;
  admitted = false;
  hello_timer = false;
  relay_bucket = create_relay_bucket config.relay_bucket now;
  handshake_forwards = 0;
}

abbrev pub create_metrics_counters : Counters
create_metrics_counters = record {
  total_connections = 0;
  relays_total = 0;
  rate_limit_rejections = 0;
  capacity_rejections = 0;
}

-- A server that has just started; what `conns` holds for a socket that was never open is not read.
unfoldable pub start_server : Config → Server
unfolding create_initial_connection_data
start_server config = record {
  conns = λ ws. create_initial_connection_data [] config 0;
  registry = [];
  limiter = create_ip_limiter;
  counters = create_metrics_counters;
  open_connections = 0;
  timers = λ ws. false;
  alive = [];
  out = [];
}

abbrev pub is_pending : ConnectionState → Bool
is_pending pending_hello = true
is_pending _ = false

abbrev pub is_paired : ConnectionState → Bool
is_paired paired = true
is_paired _ = false

-- Writes to `ws.data`.
abbrev pub set_data : Server → Socket → ConnectionData → Server
set_data s ws data' = record s { conns = update s.conns ws data' }

abbrev pub inc_rate_limit_reject : Server → Server
inc_rate_limit_reject s = record s {
  counters = record s.counters { rate_limit_rejections = s.counters.rate_limit_rejections + 1 };
}

abbrev pub inc_capacity_reject : Server → Server
inc_capacity_reject s = record s {
  counters = record s.counters { capacity_rejections = s.counters.capacity_rejections + 1 };
}

abbrev pub inc_relay : Server → Server
inc_relay s = record s {
  counters = record s.counters { relays_total = s.counters.relays_total + 1 };
}

abbrev pub inc_connection : Server → Server
inc_connection s = record s {
  counters = record s.counters { total_connections = s.counters.total_connections + 1 };
}
