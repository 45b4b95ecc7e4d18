-- ===== src/Forwarder/Labels.antt =====
-- The enumerations of src/forwarder.rs and the labels that it logs for an outcome.
use rustblocker.Base.{Option, none, some, Bytes, codes, bytes_eq, trim, to_lowercase, if◌then◌else◌}
use rustblocker.Message.{
  ResponseCode, no_error, form_err, serv_fail, nx_domain, not_imp, refused, yx_domain, yx_rr_set,
  nx_rr_set, not_auth, not_zone, bad_vers, bad_sig, bad_key, bad_time, bad_mode, bad_name, bad_alg,
  bad_trunc, bad_cookie, unknown,
}

pub data ForwardStrategy : Type 0 where
  adaptive parallel : ForwardStrategy

abbrev pub default_strategy : ForwardStrategy
default_strategy = adaptive

unfoldable pub as_str : ForwardStrategy → Bytes
as_str adaptive = codes "adaptive"
as_str parallel = codes "parallel"

-- `none` is the error "invalid forward strategy".
unfoldable pub from_str : Bytes → Option ForwardStrategy
from_str value =
    let text = to_lowercase (trim value) in
    if bytes_eq text (codes "adaptive")
    then some adaptive
    else if bytes_eq text (codes "parallel")
    then some parallel
    else none

-- What hickory reports of a failed lookup, as far as the source tells its errors apart.
pub data IoKind : Type 0 where
  timed_out would_block other_kind : IoKind

pub data NetError : Type 0 where
  timeout no_connections busy proto query_case_mismatch parse_int other_error : NetError
  io : IoKind → NetError

unfoldable pub classify_upstream_failure : NetError → Bytes
classify_upstream_failure timeout = codes "timeout"
classify_upstream_failure (io timed_out) = codes "timeout"
classify_upstream_failure (io would_block) = codes "timeout"
classify_upstream_failure (io other_kind) = codes "transport_error"
classify_upstream_failure no_connections = codes "transport_error"
classify_upstream_failure busy = codes "transport_error"
classify_upstream_failure proto = codes "protocol_error"
classify_upstream_failure query_case_mismatch = codes "protocol_error"
classify_upstream_failure parse_int = codes "protocol_error"
classify_upstream_failure other_error = codes "upstream_error"

unfoldable pub response_code_label : ResponseCode → Bytes
response_code_label no_error = codes "noerror"
response_code_label form_err = codes "formerr"
response_code_label serv_fail = codes "servfail"
response_code_label nx_domain = codes "nxdomain"
response_code_label not_imp = codes "notimp"
response_code_label refused = codes "refused"
response_code_label yx_domain = codes "yxdomain"
response_code_label yx_rr_set = codes "yxrrset"
response_code_label nx_rr_set = codes "nxrrset"
response_code_label not_auth = codes "notauth"
response_code_label not_zone = codes "notzone"
response_code_label bad_vers = codes "badvers"
response_code_label bad_sig = codes "badsig"
response_code_label bad_key = codes "badkey"
response_code_label bad_time = codes "badtime"
response_code_label bad_mode = codes "badmode"
response_code_label bad_name = codes "badname"
response_code_label bad_alg = codes "badalg"
response_code_label bad_trunc = codes "badtrunc"
response_code_label bad_cookie = codes "badcookie"
response_code_label (unknown n) = codes "unknown_response"
