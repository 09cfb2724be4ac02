-- ===== src/TunnelMetrics.antt =====
-- include/core/tunnel_metrics.h and src/tunnel_metrics.cpp: seven uint64_t counters. Each method is
-- one atomic operation on one counter.
use tunnel_proxy.Base.{ℕ, ◌+◌, ◌%◌, ◌^◌, ◌==◌, if◌then◌else◌}

pub record TunnelMetrics : Type 0 where
  pub connection_attempts : ℕ
  pub connection_successes : ℕ
  pub connection_failures : ℕ
  pub reconnects : ℕ
  pub bytes_sent : ℕ
  pub bytes_received : ℕ
  pub errors : ℕ

abbrev pub new : TunnelMetrics
new = record {
  connection_attempts = 0;
  connection_successes = 0;
  connection_failures = 0;
  reconnects = 0;
  bytes_sent = 0;
  bytes_received = 0;
  errors = 0;
}

-- `fetch_add` on a uint64_t.
abbrev fetch_add : ℕ → ℕ → ℕ
fetch_add counter n = (counter + n) % 2 ^ 64

unfoldable pub record_connection_attempt : TunnelMetrics → TunnelMetrics
record_connection_attempt m = record m { connection_attempts = fetch_add m.connection_attempts 1 }

unfoldable pub record_connection_success : TunnelMetrics → TunnelMetrics
record_connection_success m = record m { connection_successes = fetch_add m.connection_successes 1 }

unfoldable pub record_connection_failure : TunnelMetrics → TunnelMetrics
record_connection_failure m = record m { connection_failures = fetch_add m.connection_failures 1 }

unfoldable pub record_reconnect : TunnelMetrics → TunnelMetrics
record_reconnect m = record m { reconnects = fetch_add m.reconnects 1 }

unfoldable pub record_bytes_sent : ℕ → TunnelMetrics → TunnelMetrics
record_bytes_sent n m = record m { bytes_sent = fetch_add m.bytes_sent n }

unfoldable pub record_bytes_received : ℕ → TunnelMetrics → TunnelMetrics
record_bytes_received n m = record m { bytes_received = fetch_add m.bytes_received n }

unfoldable pub record_error : TunnelMetrics → TunnelMetrics
record_error m = record m { errors = fetch_add m.errors 1 }

unfoldable pub reset : TunnelMetrics → TunnelMetrics
reset m = new

-- `double` and its operations, as a parameter of `error_rate`.
pub record Double : Type 1 where
  pub Float : Type 0
  pub of_uint64 : ℕ → Float
  pub divide : Float → Float → Float
  pub zero : Float

unfoldable pub error_rate : (d : Double) → TunnelMetrics → d.Float
error_rate d m =
    if m.connection_attempts == 0
    then d.zero
    else d.divide (d.of_uint64 m.errors) (d.of_uint64 m.connection_attempts)
