-- ===== src/Route.antt =====
-- conformance/check_transport_route.py: the states, events and effects that a case of the transport
-- route names, with the helpers that write them. A dict with a `kind` is a constructor.
pub mod Cases
mod Tests
use construct_protos.Prelude.{ℕ, List, [], ◌∷◌, ◌++◌, Bool, true, Option, none, some, String}
use construct_protos.Bytes.{codes}

-- NOW
abbrev pub now : ℕ
now = 1_000_000

-- RELAY
abbrev pub relay : String
relay = "relay.example:443"

-- PORT
abbrev pub port : ℕ
port = 49262

-- COOLDOWN
abbrev pub cooldown : ℕ
cooldown = 30_000

-- SOFT_FAIL_THRESHOLD
abbrev pub soft_fail_threshold : ℕ
soft_fail_threshold = 3

-- The dicts of `direct`, PROBING, OFFLINE, `active` and of the cooldown. `veil_active` has the relay,
-- the port, since when it is up, and the soft failures of the lanes `auth` and `sealed`.
pub data State : Type 0 where
  direct : ℕ → State
  veil_probing offline : State
  veil_active : String → ℕ → ℕ → ℕ → ℕ → State
  veil_cooldown : ℕ → State

pub data Mode : Type 0 where
  auto on off : Mode

pub data Via : Type 0 where
  via_direct via_veil : Via

pub data Lane : Type 0 where
  auth sealed : Lane

pub data Method : Type 0 where
  h2 quic veil : Method

pub data Failure : Type 0 where
  transport_unknown mid_session_timeout mid_session_closed mid_session_unknown write_failed :
      Failure
  open_timeout application_error auth_rejected stale_local_proxy stream_timeout : Failure
  tls_fingerprint_blocked tls_cert_expired web_tunnel_blocked : Failure

pub data Event : Type 0 where
  rpc_failed_event : Failure → Via → Bool → Lane → Event
  rpc_succeeded_event : Via → ℕ → Lane → Event
  stream_failed_event : Method → Failure → Via → Event
  stream_opened : Method → Via → Event
  veil_mode_changed : Bool → Event
  network_path_changed : Bool → Bool → Event
  proxy_started : String → ℕ → Bool → Event
  proxy_start_failed : Option String → String → Event
  cooldown_elapsed background_wake veil_config_changed manual_reset : Event

pub data Effect : Type 0 where
  request_proxy_stop request_proxy_start invalidate_grpc_client : Effect
  set_veil_port : Option ℕ → Effect
  demote_relay : String → Effect
  schedule_cooldown_end : ℕ → Effect

-- active(auth=..., sealed=...)
abbrev pub active : ℕ → ℕ → State
active in_auth in_sealed = veil_active relay port 1 in_auth in_sealed

-- rpc_failed(failure, via=..., foreground=..., lane=...)
abbrev pub rpc_failed : Failure → Via → Bool → Lane → Event
rpc_failed failure via foreground lane = rpc_failed_event failure via foreground lane

abbrev pub rpc_succeeded : Via → Lane → Event
rpc_succeeded via lane = rpc_succeeded_event via 50 lane

abbrev pub stream_failed : Failure → Via → Method → Event
stream_failed failure via method = stream_failed_event method failure via

-- UNROUTE
abbrev pub unroute : Effect
unroute = set_veil_port none

-- ROTATE
abbrev pub rotate : List Effect
rotate = request_proxy_stop ∷ unroute ∷ request_proxy_start ∷ invalidate_grpc_client ∷ []

-- [DEMOTE] + ROTATE
abbrev pub rotate_away : List Effect
rotate_away = demote_relay relay ∷ rotate

-- What a case asks for: the state of a start, or the run of some events.
pub data Ask : Type 0 where
  initial : Mode → Bool → Bool → Ask
  run : State → Mode → List Event → Ask

-- A dict of `cases`. `effects` is none for a start, and `allow_escalation` is the one field that a
-- case's `config` has.
pub record Case : Type 0 where
  pub name : List ℕ
  pub ask : Ask
  pub expect_state : State
  pub expect_effects : Option (List Effect)
  pub allow_escalation : Option Bool

abbrev pub case_with : Option Bool → List ℕ → State → Mode → List Event → State → List Effect → Case
case_with config n state mode events expected effects = record {
  name = n;
  ask = run state mode events;
  expect_state = expected;
  expect_effects = some effects;
  allow_escalation = config;
}

-- `case`, with no config
abbrev pub case_of : String → State → Mode → List Event → State → List Effect → Case
case_of n state mode events expected effects =
    case_with none (codes n) state mode events expected effects

abbrev pub start_case : String → Mode → Bool → Bool → State → Case
start_case n mode censored reachable expected = record {
  name = codes n;
  ask = initial mode censored reachable;
  expect_state = expected;
  expect_effects = none;
  allow_escalation = none;
}
