-- ===== src/Http/Tests.antt =====
-- Runs of the client of `fetch`.
use sumurai.Prelude.{false, none}
use sumurai.Prelude.Text.{Text, lit}
use sumurai.Http.{Response}

abbrev expired : Response Text
expired = record {
  is_ok = false;
  status = 401;
  status_text = lit "Unauthorized";
  json = none;
  error_data = none;
}
