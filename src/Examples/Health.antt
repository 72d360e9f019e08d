-- ===== src/Examples/Health.antt =====
-- Three ports on one device, with its management and transit devices.
use connector.Base.{◌≡◌, ◌↔◌, true, some, none, if◌then◌else◌, ◌==◌}
use connector.Status.{Link, Links, StatusOutput, status, opens, is_ready}
use connector.Status.Ready.{IsHealthy, status-IsHealthy}
use connector.Examples.Claims.{three_free}

abbrev works : Link
works = record { flag_up = true; oper_up = true; has_tc_filter = true }

abbrev links : Links
links n = if n == 11 then some works else none

abbrev outcome : StatusOutput
outcome = (status-IsHealthy 3 three_free links true).0

status-IsHealthy_example :
    (out : StatusOutput) × (status 3 three_free (opens (some links) true) ≡ some out)
    × ((is_ready out ≡ true) ↔ IsHealthy 3 three_free links true)
status-IsHealthy_example = status-IsHealthy 3 three_free links true
