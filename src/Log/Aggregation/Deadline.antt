-- ===== src/Log/Aggregation/Deadline.antt =====
-- How long a trace waits for logs (LogServer/LogAggregation.cpp).
use tars_framework.Base.{ℕ, ◌≡◌, some, List, [], ◌∷◌, String, string_key}
use tars_framework.Base.Map.{Map, find}
use tars_framework.Log.Trace.{IRawLog, update_i_trace}
use tars_framework.Log.Aggregation.{ITraceOperator, LogAggregation, push_raw_log}

-- Logs of any traces, each with the time at which it comes.
unfoldable pub push_logs : List (IRawLog × ℕ) → LogAggregation → LogAggregation
push_logs [] a = a
push_logs ((log, now) ∷ logs) a = push_logs logs (push_raw_log log now a)

-- The trace is there, with the time of its first log; the waiting times are those of `a`.
record Dated (a : LogAggregation) (trace : String) (time : ℕ) (b : LogAggregation) : Type 0 where
  op : ITraceOperator
  there : find trace b.itrace_operators ≡ some op
  dated : op.update_time ≡ time
  same_closure : b.closure_overtime ≡ a.closure_overtime
  same_max : b.max_overtime ≡ a.max_overtime

keeps_date : IRawLog → ITraceOperator → ITraceOperator
keeps_date log op = record op { itrace = update_i_trace log op.itrace }
