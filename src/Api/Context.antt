-- ===== src/Api/Context.antt =====
-- context.Context, as far as the program builds one.
use gcp_metrics_exporter.Api.Time.{Duration}

-- `with_timeout parent d` is `context.WithTimeout(parent, d)`.
pub data Context : Type 0 where
  background : Context
  request_context : Context
  with_timeout : Context → Duration → Context
