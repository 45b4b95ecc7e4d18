-- ===== src/Message/Laws.antt =====
-- The two translations of messages in src/forwarder.rs (`upstream_request`, `downstream_message`).
use rustblocker.Base.{ℕ, ◌≤◌, ◌≡◌, refl, Option, none, some, arith, min}
use rustblocker.Message.{Dns, Message, downstream_message, down_edns}

module _ (dns : Dns) where
  open dns use {Edns, max_payload}

  -- The EDNS data of a reply fit the client: none if the client or the upstream sent none, and no
  -- larger payload than the client's and the upstream's if both did.
  abbrev pub FitsClient : Option Edns → Option Edns → Option Edns → Type 0
  FitsClient none upstream down = down ≡ none
  FitsClient (some client) none down = down ≡ none
  FitsClient (some client) (some upstream) down =
      (e : Edns) × (down ≡ some e)
      × (max_payload e ≡ min (max_payload upstream) (max_payload client))

  abbrev pub HasPayload : Option Edns → Type 0
  HasPayload none = Unit
  HasPayload (some e) = 512 ≤ max_payload e

  -- The message that goes to the client keeps the response code, every flag and every section of the
  -- upstream's, has the request's id, and its EDNS data fit the client, when the payloads that both
  -- sides announce are at least 512 bytes.
  pub downstream_message_lem :
      (m : Message dns) (id : ℕ) (client : Option Edns)
      → HasPayload client
      → HasPayload m.edns
      → let metadata = m.metadata in
        ((downstream_message dns m id client).metadata ≡ record metadata { id = id })
        × ((downstream_message dns m id client).queries ≡ m.queries)
        × ((downstream_message dns m id client).answers ≡ m.answers)
        × ((downstream_message dns m id client).authorities ≡ m.authorities)
        × ((downstream_message dns m id client).additionals ≡ m.additionals)
        × FitsClient client m.edns (downstream_message dns m id client).edns
  unfolding downstream_message down_edns
  downstream_message_lem m id client k l = (refl, refl, refl, refl, refl, fits client m.edns k l)
    where
      fits :
          (client upstream : Option Edns)
          → HasPayload client
          → HasPayload upstream
          → FitsClient client upstream (down_edns dns client upstream)
      fits none upstream k l = refl
      fits (some client) none k l = refl
      fits (some client) (some upstream) k l =
          (_, refl, dns.set_max_payload_lem upstream _ (omega arith))
