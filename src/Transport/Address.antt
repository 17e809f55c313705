-- ===== src/Transport/Address.antt =====
-- internal/transport/http_auth.go, and the addresses and the handshake of ws_client.go: where a
-- request goes, and how it is signed.
--
-- net/url is the parameters `parse_url` and `print_url` on the parts of a URL; `rest` is the parts
-- that the program neither reads nor sets. SHA-256, HMAC and base64 are those of Auth. `nonce` is
-- the base64 of 16 random bytes, `none` when the random source fails, and `timestamp` the time in
-- RFC 3339.
use mgate_agent.Base.{Bool, not, Option, none, some, [], ◌||◌, ◌&&◌, if◌then◌else◌, Result, ok, err}
use mgate_agent.Base.Text.{Text, codes, text_eq, has_prefix}
use mgate_agent.Auth.{sign}

-- `scheme` is in lower case, as url.Parse gives it
pub record Location : Type 0 where
  pub scheme : Text
  pub host : Text
  pub path : Text
  pub raw_query : Text
  pub fragment : Text
  pub rest : Text

pub data AddressError : Type 0 where
  bad_base wrong_scheme no_host bad_path not_absolute : AddressError

-- pathURL.IsAbs() || !strings.HasPrefix(path, "/")
unfoldable pub is_not_rooted : Text → Location → Bool
is_not_rooted path l = not (text_eq l.scheme []) || not (has_prefix path (codes "/"))

-- the URL with the path, and without a query and a fragment
unfoldable pub with_path : Text → Location → Location
with_path path u = record u { path = path; raw_query = []; fragment = [] }

-- the scheme of a WebSocket for that of HTTP
unfoldable pub web_socket_scheme : Text → Option Text
web_socket_scheme scheme =
    if text_eq scheme (codes "https")
    then some (codes "wss")
    else if text_eq scheme (codes "http")
    then some (codes "ws")
    else none

module _ (parse_url : Text → Option Location) (print_url : Location → Text) where
  -- the tests on the host and the path
  unfoldable pub locate : Text → Location → Result AddressError Text
  unfolding is_not_rooted with_path
  locate path u = if text_eq u.host [] then err no_host else elim (parse_url path) [
    | none ↦ err bad_path
    | some l ↦ if is_not_rooted path l then err not_absolute else ok (print_url (with_path path u))
  ]

  -- BuildHTTPURL
  unfoldable pub build_http_url : Text → Text → Result AddressError Text
  unfolding locate
  build_http_url base_url path = elim (parse_url base_url) [
    | none ↦ err bad_base
    | some u ↦
        if not (text_eq u.scheme (codes "http")) && not (text_eq u.scheme (codes "https"))
        then err wrong_scheme
        else locate path u
  ]

  -- BuildWebSocketURL
  unfoldable pub build_web_socket_url : Text → Text → Result AddressError Text
  unfolding web_socket_scheme locate
  build_web_socket_url base_url ws_path = elim (parse_url base_url) [
    | none ↦ err bad_base
    | some u ↦ elim (web_socket_scheme u.scheme) [
      | none ↦ err wrong_scheme
      | some scheme ↦ locate ws_path (record u { scheme = scheme })
    ]
  ]

-- the headers X-MGate-Device-ID and so on
pub record Header : Type 0 where
  pub device_id : Text
  pub tenant_id : Text
  pub timestamp : Text
  pub nonce : Text
  pub signature : Text
  pub agent_version : Text

pub record Crypto : Type 0 where
  pub sha256 : Text → Text
  pub hmac : Text → Text → Text
  pub base64 : Text → Text

-- signedHeader
unfoldable pub signed_header :
    Crypto → Text → Text → Text → Text → Text → Text → Text → Text → Option Text → Option Header
unfolding sign
signed_header c secret device_id tenant_id agent_version method path body timestamp none = none
signed_header c secret device_id tenant_id agent_version method path body timestamp (some nonce) =
    some (record {
      device_id = device_id;
      tenant_id = tenant_id;
      timestamp = timestamp;
      nonce = nonce;
      signature = sign c.sha256 c.hmac c.base64 secret (record {
        method = method;
        path = path;
        timestamp = timestamp;
        nonce = nonce;
        body = body;
      });
      agent_version = agent_version;
    })
