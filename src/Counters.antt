-- ===== src/Counters.antt =====
-- backend/internal/metrics/metrics.go: the counters of the server, of which each method is one atomic step.
use cachestack.Base.{ℕ, ◌+◌, ◌++◌}
use cachestack.Text.{text}
use cachestack.Text.Decimal.{ℤ, pos, negsuc, show_ℕ, show_ℤ}
use cachestack.Int.{◌+ℤ◌}
use cachestack.Command.{Bytes}

pub record Collector : Type 0 where
  pub total_ops : ℕ
  pub ops_last_sec : ℕ
  pub window_ops : ℕ
  pub total_conns : ℕ
  pub active_conns : ℤ
  pub total_errors : ℕ

-- `New`, but for the start time and the goroutine.
abbrev pub new_collector : Collector
new_collector = record {
  total_ops = 0;
  ops_last_sec = 0;
  window_ops = 0;
  total_conns = 0;
  active_conns = pos 0;
  total_errors = 0;
}

-- `RecordOp`
unfoldable pub record_op : Collector → Collector
record_op c = record c { total_ops = c.total_ops + 1; window_ops = c.window_ops + 1 }

-- `RecordError`
unfoldable pub record_error : Collector → Collector
record_error c = record c { total_errors = c.total_errors + 1 }

-- `ConnOpen` and `ConnClose`
unfoldable pub conn_open : Collector → Collector
conn_open c = record c { total_conns = c.total_conns + 1; active_conns = c.active_conns +ℤ pos 1 }

unfoldable pub conn_close : Collector → Collector
conn_close c = record c { active_conns = c.active_conns +ℤ negsuc 0 }

-- A round of `windowSweeper`.
unfoldable pub rotate : Collector → Collector
rotate c = record c { ops_last_sec = c.window_ops; window_ops = 0 }

-- `Summary`; the seconds that the server has been up are formatted by the library.
unfoldable pub summary : Bytes → Collector → ℕ → ℕ → Bytes
summary uptime c key_count bytes_used =
    text "uptime_seconds:"
    ++ (uptime
        ++ (text "\r\nops_per_sec:"
            ++ (show_ℕ c.ops_last_sec
                ++ (text "\r\ntotal_ops:"
                    ++ (show_ℕ c.total_ops
                        ++ (text "\r\nactive_conns:"
                            ++ (show_ℤ c.active_conns
                                ++ (text "\r\ntotal_conns:"
                                    ++ (show_ℕ c.total_conns
                                        ++ (text "\r\ntotal_errors:"
                                            ++ (show_ℕ c.total_errors
                                                ++ (text "\r\nkeys:"
                                                    ++ (show_ℕ key_count
                                                        ++ (text "\r\nmem_bytes:"
                                                            ++ show_ℕ bytes_used))))))))))))))
