-- ===== src/Transport/Pull/Exchange.antt =====
-- internal/transport/pull_client.go: the requests of the pull client, and what it takes of the
-- answers.
--
-- A limit of 0 in `PullOptions` stands for one that is not positive. `Network` is the parameters: the
-- JSON of the types that are sent and received, the addresses and the cryptography of Address, the
-- time in RFC 3339, and `send`, the answer of http.Client.Do to a request.
use mgate_agent.Base.{
  ℕ, ◌*◌, Bool, Option, none, some, List, ◌||◌, ltb, leb, length, if◌then◌else◌, Result, ok, err,
}
use mgate_agent.Base.Text.{Text, codes}
use mgate_agent.Protocol.{second, CommandPayload, ResultPayload, Envelope}
use mgate_agent.Outbox.Store.{StoreError}
use mgate_agent.Commands.Handler.{Handler}
use mgate_agent.Transport.Dispatcher.{ResultDispatcher, Sender, set_pull_sender}
use mgate_agent.Transport.Message.{PullRequestPayload, PullResponsePayload}
use mgate_agent.Transport.Address.{
  Location, AddressError, build_http_url, Header, Crypto, signed_header,
}

pub record PullOptions : Type 0 where
  pub base_url : Text
  pub pull_path : Text
  pub result_path : Text
  pub request_timeout : ℕ
  pub pull_interval : ℕ
  pub max_response_bytes : ℕ
  pub max_commands : ℕ
  pub device_id : Text
  pub tenant_id : Text
  pub device_secret : Text
  pub agent_version : Text
  pub device_name : Text

pub record HttpRequest : Type 0 where
  pub method : Text
  pub url : Text
  pub header : Header
  pub content_type : Text
  pub body : Text

-- the bytes of a body, and whether reading fails after them
pub record Body : Type 0 where
  pub bytes : Text
  pub breaks : Bool

pub record Response : Type 0 where
  pub status_code : ℕ
  pub body : Body

pub data PullError : Type 0 where
  bad_address : AddressError → PullError
  not_encoded no_nonce no_answer read_failed too_long not_decoded too_many_commands : PullError
  bad_status : ℕ → PullError
  outbox_failed : StoreError → PullError

pub data SetupError : Type 0 where
  no_handler no_dispatcher : SetupError

pub record Network : Type 0 where
  pub parse_url : Text → Option Location
  pub print_url : Location → Text
  pub crypto : Crypto
  pub rfc3339 : ℕ → Text
  pub encode_request : PullRequestPayload → Option Text
  pub encode_envelope : Envelope → Option Text
  pub encode_result : ResultPayload → Option Text
  pub decode_response : Text → Option PullResponsePayload
  pub decode_command : Text → Option CommandPayload
  pub send : ℕ → HttpRequest → Option Response

abbrev pub default_max_message_bytes : ℕ
default_max_message_bytes = 64 * 1024

abbrev pub default_max_pull_commands : ℕ
default_max_pull_commands = 16

abbrev pub or_default : ℕ → ℕ → ℕ
or_default d n = if leb n 0 then d else n

-- the defaults of NewPullClient
unfoldable pub with_defaults : PullOptions → PullOptions
with_defaults o = record o {
  request_timeout = or_default (15 * second) o.request_timeout;
  pull_interval = or_default (10 * second) o.pull_interval;
  max_response_bytes = or_default default_max_message_bytes o.max_response_bytes;
  max_commands = or_default default_max_pull_commands o.max_commands;
}

-- a status that is no success
unfoldable pub is_bad_status : ℕ → Bool
is_bad_status status = ltb status 200 || leb 300 status

-- readLimited
unfoldable pub read_limited : Body → ℕ → Result PullError Text
read_limited body max_bytes =
    if ltb max_bytes (length body.bytes)
    then err too_long
    else if body.breaks
    then err read_failed
    else ok body.bytes

module _ (net : Network) where
  -- newSignedJSONRequest with http.MethodPost
  unfoldable pub new_signed_json_request :
      PullOptions → ℕ → Option Text → Text → Text → Text → Result PullError HttpRequest
  unfolding signed_header
  new_signed_json_request o now nonce url path body =
      elim (signed_header net.crypto o.device_secret o.device_id o.tenant_id o.agent_version
        (codes "POST") path body (net.rfc3339 now) nonce) [
          | none ↦ err no_nonce
          | some header ↦ ok (record {
            method = codes "POST";
            url = url;
            header = header;
            content_type = codes "application/json";
            body = body;
          })
        ]

  -- an address, a request with the JSON, its answer and the status of that
  unfoldable pub exchange :
      PullOptions → ℕ → Option Text → Text → Option Text → Result PullError Body
  unfolding build_http_url new_signed_json_request is_bad_status
  exchange o now nonce path json =
      elim (build_http_url net.parse_url net.print_url o.base_url path) [
        | err e ↦ err (bad_address e)
        | ok url ↦ elim json [
          | none ↦ err not_encoded
          | some body ↦ elim (new_signed_json_request o now nonce url path body) [
            | err e ↦ err e
            | ok req ↦ elim (net.send now req) [
              | none ↦ err no_answer
              | some resp ↦
                  if is_bad_status resp.status_code
                  then err (bad_status resp.status_code)
                  else ok resp.body
            ]
          ]
        ]
      ]

  -- postEnvelope
  unfoldable pub post_envelope :
      PullOptions → ℕ → Option Text → Envelope → Result PullError (Unit {0})
  unfolding exchange
  post_envelope o now nonce env =
      elim (exchange o now nonce o.result_path (net.encode_envelope env)) [
        | err e ↦ err e
        | ok _ ↦ ok tt
      ]

  -- (*PullClient).SendRecord, with the nonce and the error's text of each time
  unfoldable pub send_record : PullOptions → (ℕ → Option Text) → (PullError → Text) → Sender
  unfolding post_envelope
  send_record o nonces describe now r = elim (post_envelope o now (nonces now) r.envelope) [
    | err e ↦ some (describe e)
    | ok _ ↦ none
  ]

  -- NewPullClient: its options, and the dispatcher that now sends through it
  unfoldable pub new_pull_client :
      Option Handler
      → Option ResultDispatcher
      → PullOptions
      → (ℕ → Option Text)
      → (PullError → Text)
      → Result SetupError (PullOptions × ResultDispatcher)
  unfolding with_defaults send_record set_pull_sender
  new_pull_client none dispatcher o nonces describe = err no_handler
  new_pull_client (some h) none o nonces describe = err no_dispatcher
  new_pull_client (some h) (some d) o nonces describe =
      let opts = with_defaults o in
      ok (opts, set_pull_sender (some (send_record opts nonces describe)) d)

  -- the commands of the body of a response
  unfoldable pub batch_of : PullOptions → Body → Result PullError (List Envelope)
  unfolding read_limited
  batch_of o body = elim (read_limited body o.max_response_bytes) [
    | err e ↦ err e
    | ok data' ↦ elim (net.decode_response data') [
      | none ↦ err not_decoded
      | some payload ↦
          if ltb o.max_commands (length payload.commands)
          then err too_many_commands
          else ok payload.commands
    ]
  ]
