-- ===== src/Message.antt =====
-- DNS messages as far as the program reads them (hickory's `Message`, `Request` and `Metadata`), and
-- the two translations of src/forwarder.rs. Resource records and EDNS belong to hickory: their types
-- and EDNS operations are fields of an interface, with the behaviour that the program relies on.
mod Codes
pub mod Laws
pub use Codes.*
use rustblocker.Base.{ℕ, ◌≤◌, ◌≡◌, Bool, true, false, Option, none, some, List, [], ◌∷◌, Bytes, min}

-- `Edns`, `Record` and `Query` of hickory.
pub record Dns : Type 1 where
  pub Edns : Type 0
  pub Record : Type 0
  pub max_payload : Edns → ℕ
  pub set_max_payload : Edns → ℕ → Edns
  pub dnssec_ok : Edns → Bool
  -- `Message::max_payload`, of a message with these EDNS data.
  pub message_payload : Option Edns → ℕ
  -- A payload of 512 bytes or more is stored as it is.
  pub set_max_payload_lem : (e : Edns) (n : ℕ) → 512 ≤ n → max_payload (set_max_payload e n) ≡ n

pub record Metadata : Type 0 where
  pub id : ℕ
  pub response_code : ResponseCode
  pub authoritative : Bool
  pub recursion_desired : Bool
  pub recursion_available : Bool
  pub authentic_data : Bool
  pub checking_disabled : Bool

pub record Query : Type 0 where
  pub name : Bytes
  pub query_type : RecordType
  pub query_class : DnsClass

module _ (dns : Dns) where
  open dns use {Edns, Record, max_payload, set_max_payload, dnssec_ok, message_payload}

  pub record Message : Type 0 where
    pub metadata : Metadata
    pub queries : List Query
    pub answers : List Record
    pub authorities : List Record
    pub additionals : List Record
    pub edns : Option Edns

  -- What the server hands to the handler. The address of the client is a number.
  pub record Request : Type 0 where
    pub src_ip : ℕ
    pub metadata : Metadata
    pub queries : List Query
    pub edns : Option Edns

  pub record RequestOptions : Type 0 where
    pub use_edns : Bool
    pub edns_payload_len : ℕ
    pub edns_set_dnssec_ok : Bool
    pub recursion_desired : Bool

  -- The message and the options of a `DnsRequest`.
  pub record DnsRequest : Type 0 where
    pub message : Message
    pub options : RequestOptions

  is_some : Option Edns → Bool
  is_some none = false
  is_some (some e) = true

  wants_dnssec : Option Edns → Bool
  wants_dnssec none = false
  wants_dnssec (some e) = dnssec_ok e

  unfoldable pub upstream_request : Metadata → Query → Option Edns → DnsRequest
  unfolding is_some wants_dnssec
  upstream_request metadata query edns = record {
    message = record {
      metadata = metadata;
      queries = query ∷ [];
      answers = [];
      authorities = [];
      additionals = [];
      edns = edns;
    };
    options = record {
      use_edns = is_some edns;
      edns_payload_len = message_payload edns;
      edns_set_dnssec_ok = wants_dnssec edns;
      recursion_desired = metadata.recursion_desired;
    };
  }

  -- The EDNS data that go down: those of upstream within the client's payload, or none.
  unfoldable pub down_edns : Option Edns → Option Edns → Option Edns
  down_edns none upstream = none
  down_edns (some client) none = none
  down_edns (some client) (some upstream) =
      some (set_max_payload upstream (min (max_payload upstream) (max_payload client)))

  unfoldable pub downstream_message : Message → ℕ → Option Edns → Message
  unfolding down_edns
  downstream_message message request_id client_edns =
      let metadata = message.metadata in
      record message {
        metadata = record metadata { id = request_id };
        edns = down_edns client_edns message.edns;
      }
