-- ===== src/Conversions/Tests.antt =====
-- The conversions at single values.
use sendingnetwork_ios.Common.{◌≡◌}
use sendingnetwork_ios.Conversions.{
  user_hangup, user_busy, call_hangup_reason, call_hangup_reason_string,
}
use sendingnetwork_ios.Conversions.RoundTrip.{call_hangup_reason-call_hangup_reason_string}

call_hangup_reason-call_hangup_reason_string_example :
    call_hangup_reason (call_hangup_reason_string user_busy) ≡ user_hangup
call_hangup_reason-call_hangup_reason_string_example =
    call_hangup_reason-call_hangup_reason_string user_busy
