-- ===== src/Process/Tests.antt =====
-- A start, a failed shutdown, and the theorems at them.
use go_kickstart.Base.{◌≡◌, refl, false, none, some, [], ◌∷◌, txt, str_eq}
use go_kickstart.Process.{
  failed, joined, same_secrets, ok, err, ServerConfig, parse_log_level, new_logger, check_secrets,
  resolve_otp_secret, stop_requested, serve_failed, Calls, database_opened, database_closed,
  cache_created, cache_closed, listening, serving, drained, serve_returned, signals_watched,
  signals_released, maintenance_started, maintenance_stopped, serve_http, run_opened, run_server,
}
use go_kickstart.Process.Lifecycle.{IsReleased, run_server-released}
use go_kickstart.Process.Secrets.{IsGuarded, resolve_otp_secret-IsGuarded}

program : Unit {0}
unfolding str_eq parse_log_level new_logger check_secrets resolve_otp_secret serve_http run_opened
    run_server
program = tt

abbrev cfg : ServerConfig
cfg = record {
  dev = false;
  log_level = txt "warning";
  log_format = txt "json";
  auth_secret = txt "auth-secret-of-thirty-two-bytes!";
  otp_secret = txt "codes-secret-of-thirty-two-bytes";
}

abbrev calls : Calls
calls = record {
  to_lower = λ s. s;
  random = ok (txt "r");
  new_signer = λ s. none;
  open_database = none;
  new_localizer = none;
  new_authenticator = none;
  new_handler = none;
  listen = none;
  end_ = stop_requested;
  shutdown = none;
  force_close = none;
  served = none;
}

stops_cleanly : run_server calls cfg ≡ (
  none,
  database_opened ∷ cache_created ∷ listening ∷ signals_watched ∷ maintenance_started ∷ serving
      ∷ drained ∷ serve_returned ∷ maintenance_stopped ∷ signals_released ∷ database_closed
      ∷ cache_closed ∷ [],
)
unfolding program
stops_cleanly = refl

reports_both :
    (run_server
      (record calls {
        end_ = serve_failed (some (failed (txt "accept")));
        shutdown = some (failed (txt "timeout"));
      })
      cfg).0
    ≡ some (joined (failed (txt "accept")) (failed (txt "timeout")))
unfolding program
reports_both = refl

same_refused :
    resolve_otp_secret (record cfg { otp_secret = txt "auth-secret-of-thirty-two-bytes!" }) (ok [])
    ≡ err same_secrets
unfolding program
same_refused = refl

abbrev hurried : Calls
hurried = record calls {
  end_ = serve_failed (some (failed (txt "accept")));
  shutdown = some (failed (txt "timeout"));
}

run_server-released_example :
    IsReleased (some (failed (txt "timeout"))) none (run_server hurried cfg)
run_server-released_example = run_server-released hurried cfg

resolve_otp_secret-IsGuarded_example : IsGuarded cfg (txt "codes-secret-of-thirty-two-bytes")
unfolding program
resolve_otp_secret-IsGuarded_example =
    resolve_otp_secret-IsGuarded cfg (ok (txt "r")) (txt "codes-secret-of-thirty-two-bytes") refl
      refl
