-- ===== src/Route/Cases.antt =====
-- conformance/check_transport_route.py, `build`: the cases, in the file's order, and `main`'s test of
-- their names. The comments of the script that say why a case is as it is stay there.
use construct_protos.Prelude.{
  ◌+◌, List, [], ◌∷◌, ◌++◌, Bool, true, false, not, ◌&&◌, ◌||◌, none, some, map, String,
}
use construct_protos.Bytes.{Bytes, bytes_eq, codes}
use construct_protos.Route.{
  direct, veil_probing, offline, veil_active, veil_cooldown, auto, on, off, via_direct, via_veil,
  auth, sealed, h2, quic, veil, Failure, transport_unknown, mid_session_timeout, mid_session_closed,
  mid_session_unknown, write_failed, open_timeout, application_error, auth_rejected,
  stale_local_proxy, stream_timeout, tls_fingerprint_blocked, tls_cert_expired, web_tunnel_blocked,
  stream_opened, veil_mode_changed, network_path_changed, proxy_started, proxy_start_failed,
  cooldown_elapsed, background_wake, veil_config_changed, manual_reset, request_proxy_stop,
  request_proxy_start, invalidate_grpc_client, set_veil_port, schedule_cooldown_end, active,
  rpc_failed, rpc_succeeded, stream_failed, unroute, rotate, rotate_away, Case, case_with, case_of,
  start_case, now, relay, cooldown,
}

-- The parts of `cases` between the two loops.
abbrev first_cases : List Case
first_cases =
    start_case "initial_auto_censored_is_direct" auto true true (direct 0)
    ∷ start_case "initial_on_probes" on false true veil_probing
    ∷ start_case "initial_unreachable_is_offline" on false false offline
    ∷ case_of "one_direct_failure_counts" (direct 0) auto
        ((rpc_failed transport_unknown via_direct true auth) ∷ []) (direct 1) []
    ∷ case_of "two_direct_failures_escalate" (direct 0) auto
        ((rpc_failed transport_unknown via_direct true auth)
          ∷ (rpc_failed transport_unknown via_direct true auth)
          ∷ [])
        veil_probing (request_proxy_start ∷ invalidate_grpc_client ∷ [])
    ∷ case_of "off_never_escalates" (direct 1) off
        ((rpc_failed transport_unknown via_direct true auth) ∷ []) (direct 2) []
    ∷ case_of "off_never_escalates_on_a_dead_stream" (direct 0) off
        ((stream_failed mid_session_timeout via_direct h2) ∷ []) (direct 2) []
    ∷ case_with (some false) (codes "config_can_forbid_escalation") (direct 1) auto
        ((rpc_failed transport_unknown via_direct true auth) ∷ []) (direct 2) []
    ∷ []

-- for failure in [...]: the failures, with their texts
abbrev stream_deaths : List (Failure × String)
stream_deaths =
    (mid_session_timeout, "mid_session_timeout")
    ∷ (mid_session_closed, "mid_session_closed")
    ∷ (mid_session_unknown, "mid_session_unknown")
    ∷ (write_failed, "write_failed")
    ∷ []

abbrev stream_died : Failure × String → Case
stream_died (failure, text) =
    case_with none (codes "stream_died_" ++ (codes text ++ codes "_escalates_at_once")) (direct 0)
      auto (stream_failed failure via_direct h2 ∷ []) veil_probing
      (request_proxy_start ∷ invalidate_grpc_client ∷ [])

abbrev middle_cases : List Case
middle_cases =
    case_of "open_failure_takes_two" (direct 0) auto
      ((stream_failed open_timeout via_direct h2) ∷ (stream_failed open_timeout via_direct h2) ∷ [])
      veil_probing (request_proxy_start ∷ invalidate_grpc_client ∷ [])
    ∷ case_of "quic_stream_failure_counts_too" (direct 1) auto
        ((stream_failed transport_unknown via_direct quic) ∷ []) veil_probing
        (request_proxy_start ∷ invalidate_grpc_client ∷ [])
    ∷ case_of "a_veil_stream_failure_does_not_count_on_direct" (direct 1) auto
        ((stream_failed mid_session_timeout via_veil veil) ∷ []) (direct 1) []
    ∷ case_of "stream_open_clears_the_streak" (direct 1) auto ((stream_opened h2 via_direct) ∷ [])
        (direct 0) []
    ∷ case_of "rpc_success_clears_the_streak" (direct 1) auto ((rpc_succeeded via_direct auth) ∷ [])
        (direct 0) []
    ∷ case_of "background_failure_ignored" (direct 1) auto
        ((rpc_failed transport_unknown via_direct false auth) ∷ []) (direct 1) []
    ∷ case_of "application_error_ignored" (direct 1) auto
        ((rpc_failed application_error via_direct true auth) ∷ []) (direct 1) []
    ∷ case_of "auth_rejected_ignored" (direct 1) auto
        ((rpc_failed auth_rejected via_direct true auth) ∷ []) (direct 1) []
    ∷ case_of "toggling_auto_does_not_force_veil" (direct 0) auto ((veil_mode_changed true) ∷ [])
        (direct 0) []
    ∷ case_of "turning_on_probes" (direct 0) on ((veil_mode_changed false) ∷ []) veil_probing
        (invalidate_grpc_client ∷ request_proxy_start ∷ [])
    ∷ case_of "turning_off_leaves_veil" (active 0 0) off ((veil_mode_changed false) ∷ []) (direct 0)
        (request_proxy_stop ∷ unroute ∷ invalidate_grpc_client ∷ [])
    ∷ case_of "path_change_in_auto_does_not_start_proxy" (active 0 0) auto
        ((network_path_changed true true) ∷ []) (direct 0)
        (request_proxy_stop ∷ unroute ∷ invalidate_grpc_client ∷ [])
    ∷ case_of "stale_proxy_start_on_direct_is_torn_down" (direct 0) off
        ((proxy_started relay 7 false) ∷ []) (direct 0) (request_proxy_stop ∷ unroute ∷ [])
    ∷ case_of "probing_to_active" veil_probing auto ((proxy_started relay 7 true) ∷ [])
        (veil_active relay 7 now 0 0) ((set_veil_port (some 7)) ∷ invalidate_grpc_client ∷ [])
    ∷ case_of "probing_failure_cools_down" veil_probing auto
        ((proxy_start_failed none "timeout") ∷ []) (veil_cooldown (now + cooldown))
        (unroute ∷ (schedule_cooldown_end (now + cooldown)) ∷ [])
    ∷ case_of "cooldown_ends_on_direct" (veil_cooldown now) auto (cooldown_elapsed ∷ []) (direct 0)
        (invalidate_grpc_client ∷ [])
    ∷ case_of "cooldown_swallows_failures" (veil_cooldown now) auto
        ((rpc_failed transport_unknown via_direct true auth) ∷ []) (veil_cooldown now) []
    ∷ case_of "active_rotates_on_a_hard_failure" (active 0 0) auto
        ((rpc_failed stale_local_proxy via_veil true auth) ∷ []) veil_probing rotate
    ∷ []

abbrev blamed_failures : List (Failure × String)
blamed_failures =
    (tls_fingerprint_blocked, "tls_fingerprint_blocked")
    ∷ (tls_cert_expired, "tls_cert_expired")
    ∷ (web_tunnel_blocked, "web_tunnel_blocked")
    ∷ []

abbrev rotates_away : Failure × String → Case
rotates_away (failure, text) =
    case_with none (codes text ++ codes "_rotates_away_from_the_front") (active 0 0) auto
      (rpc_failed failure via_veil true auth ∷ []) veil_probing rotate_away

abbrev last_cases : List Case
last_cases =
    case_of "active_reconnects_on_a_soft_failure" (active 0 0) auto
      ((rpc_failed stream_timeout via_veil true auth) ∷ []) (active 1 0)
      (invalidate_grpc_client ∷ [])
    ∷ case_of "three_soft_failures_in_a_row_rotate" (active 2 0) auto
        ((rpc_failed transport_unknown via_veil true auth) ∷ []) veil_probing rotate_away
    ∷ case_of "soft_failures_rotate_on_the_sealed_channel_too" (active 0 0) on
        ((rpc_failed stream_timeout via_veil true sealed)
          ∷ (rpc_failed stream_timeout via_veil true sealed)
          ∷ (rpc_failed stream_timeout via_veil true sealed)
          ∷ [])
        veil_probing rotate_away
    ∷ case_of "a_success_clears_its_own_channel" (active 2 2) auto
        ((rpc_succeeded via_veil sealed) ∷ []) (active 2 0) []
    ∷ case_of "a_success_on_the_other_channel_does_not_clear" (active 0 2) auto
        ((rpc_succeeded via_veil auth) ∷ (rpc_failed transport_unknown via_veil true sealed) ∷ [])
        veil_probing rotate_away
    ∷ case_of "a_background_soft_failure_does_not_count" (active 0 2) auto
        ((rpc_failed transport_unknown via_veil false sealed) ∷ []) (active 0 2) []
    ∷ case_of "an_application_error_does_not_count" (active 0 2) auto
        ((rpc_failed application_error via_veil true sealed) ∷ []) (active 0 2) []
    ∷ case_of "a_veil_stream_death_does_not_count" (active 2 0) auto
        ((stream_failed mid_session_timeout via_veil veil) ∷ []) (active 2 0)
        (invalidate_grpc_client ∷ [])
    ∷ case_of "active_reconnects_on_a_veil_stream_death" (active 0 0) auto
        ((stream_failed mid_session_timeout via_veil veil) ∷ []) (active 0 0)
        (invalidate_grpc_client ∷ [])
    ∷ case_of "auto_leaves_veil_when_direct_answers" (active 0 0) auto
        ((rpc_succeeded via_direct auth) ∷ []) (direct 0) (request_proxy_stop ∷ unroute ∷ [])
    ∷ case_of "on_keeps_veil_when_direct_answers" (active 0 0) on
        ((rpc_succeeded via_direct auth) ∷ []) (active 0 0) []
    ∷ case_of "background_wake_replaces_the_veil_listener" (active 0 0) auto (background_wake ∷ [])
        veil_probing rotate
    ∷ case_of "background_wake_leaves_direct_alone" (direct 0) auto (background_wake ∷ [])
        (direct 0) []
    ∷ case_of "background_stale_proxy_does_not_rotate" (active 0 0) auto
        ((rpc_failed stale_local_proxy via_veil false auth) ∷ []) (active 0 0) []
    ∷ case_of "config_change_rotates_active" (active 0 0) auto (veil_config_changed ∷ [])
        veil_probing rotate
    ∷ case_of "offline_ignores_mode" offline on ((veil_mode_changed false) ∷ []) offline []
    ∷ case_of "offline_ignores_failures" offline auto
        ((rpc_failed transport_unknown via_direct true auth) ∷ []) offline []
    ∷ case_of "reachable_again_reapplies_on" offline on ((network_path_changed true false) ∷ [])
        veil_probing
        (request_proxy_stop ∷ unroute ∷ invalidate_grpc_client ∷ request_proxy_start ∷ [])
    ∷ case_of "unreachable_goes_offline" (active 0 0) auto ((network_path_changed false false) ∷ [])
        offline (request_proxy_stop ∷ unroute ∷ invalidate_grpc_client ∷ [])
    ∷ case_of "manual_reset_from_veil" (active 0 0) auto (manual_reset ∷ []) (direct 0)
        (request_proxy_stop ∷ unroute ∷ invalidate_grpc_client ∷ [])
    ∷ case_of "manual_reset_on_direct" (direct 0) auto (manual_reset ∷ []) (direct 0)
        (invalidate_grpc_client ∷ [])
    ∷ case_of "on_cooldown_ends_probing_not_direct" (veil_cooldown now) on (cooldown_elapsed ∷ [])
        veil_probing (invalidate_grpc_client ∷ request_proxy_start ∷ [])
    ∷ case_of "on_manual_reset_probes_again" (active 0 0) on (manual_reset ∷ []) veil_probing
        (request_proxy_stop ∷ unroute ∷ invalidate_grpc_client ∷ request_proxy_start ∷ [])
    ∷ case_of "on_manual_reset_from_direct_probes" (direct 0) on (manual_reset ∷ []) veil_probing
        (invalidate_grpc_client ∷ request_proxy_start ∷ [])
    ∷ []

abbrev pub build : List Case
build =
    first_cases
    ++ (map stream_died stream_deaths
        ++ (middle_cases ++ (map rotates_away blamed_failures ++ last_cases)))

abbrev is_name_in : Bytes → List Bytes → Bool
is_name_in x [] = false
is_name_in x (y ∷ ys) = bytes_eq x y || is_name_in x ys

-- len(names) == len(set(names))
unfoldable pub no_duplicates : List Bytes → Bool
no_duplicates [] = true
no_duplicates (n ∷ ns) = not (is_name_in n ns) && no_duplicates ns

-- [c["name"] for c in build()["cases"]]
abbrev pub names : List Bytes
names = map Case.name build
