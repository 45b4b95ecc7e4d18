-- ===== src/Message/Codes.antt =====
-- The enumerations of DNS that the program tells apart: src/handler.rs and src/forwarder.rs match on
-- them.
use rustblocker.Base.{ℕ}

pub data ResponseCode : Type 0 where
  no_error form_err serv_fail nx_domain not_imp refused yx_domain yx_rr_set nx_rr_set : ResponseCode
  not_auth not_zone bad_vers bad_sig bad_key bad_time bad_mode bad_name bad_alg : ResponseCode
  bad_trunc bad_cookie : ResponseCode
  unknown : ℕ → ResponseCode

pub data RecordType : Type 0 where
  a aaaa : RecordType
  other_type : ℕ → RecordType

pub data DnsClass : Type 0 where
  internet : DnsClass
  other_class : ℕ → DnsClass
