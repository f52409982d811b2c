-- ===== src/Process.antt =====
-- cmd: the start and the end of the server. A run is its error and the trace of what it did with what
-- lasts: the database, the cache, the listener, the maintenance and the HTTP server. What each call
-- outside of the package answers is in `Calls`; logs are left out.
pub mod Lifecycle
pub mod Secrets
mod Tests
use go_kickstart.Base.{
  ℕ, ◌&&◌, ◌||◌, Bool, true, false, not, Option, none, some, List, [], ◌∷◌, ◌++◌, leb, length,
  if◌then◌else◌, Text, txt, str_eq,
}

pub data Failure : Type 0 where
  invalid_log_level invalid_log_format : Text → Failure
  short_secret : Text → Failure
  same_secrets : Failure
  failed : Text → Failure
  joined : Failure → Failure → Failure

-- The settings that decide here; `dsn` to `port` are only passed on.
pub record ServerConfig : Type 0 where
  pub dev : Bool
  pub log_level : Text
  pub log_format : Text
  pub auth_secret : Text
  pub otp_secret : Text

-- The loop over the two secrets; `none` where they are long enough, or the mode is development.
unfoldable pub check_secrets : Bool → List (Text × Text) → Option Failure
check_secrets dev [] = none
check_secrets dev ((name, value) ∷ secrets) =
    let rest = check_secrets dev secrets in
    if leb 32 (length value) then rest else if not dev then some (short_secret name) else rest

pub data Result (A : Type 0) : Type 0 where
  ok : A → Result A
  err : Failure → Result A

abbrev pub otp_or_random : ServerConfig → Result Text → Option Failure → Result Text
otp_or_random cfg random (some e) = err e
otp_or_random cfg random none =
    if not (str_eq cfg.otp_secret []) && str_eq cfg.otp_secret cfg.auth_secret
    then err same_secrets
    else if not (str_eq cfg.otp_secret [])
    then ok cfg.otp_secret
    else random

-- `random` is what `secrets.RandStr` answers.
unfoldable pub resolve_otp_secret : ServerConfig → Result Text → Result Text
resolve_otp_secret cfg random = otp_or_random cfg random (
    check_secrets cfg.dev
      ((txt "auth.secret", cfg.auth_secret) ∷ (txt "otp.secret", cfg.otp_secret) ∷ []))

pub data Level : Type 0 where
  debug info warn error : Level

-- `slog.Logger`, by its options: whether it writes JSON, and the source of a line.
pub record Logger : Type 0 where
  pub level : Level
  pub as_json : Bool
  pub add_source : Bool

-- `to_lower` is `strings.ToLower`.
unfoldable pub parse_log_level : (Text → Text) → Text → Result Level
parse_log_level to_lower given =
    let level = to_lower given in
    if str_eq level (txt "debug")
    then ok debug
    else if str_eq level (txt "info")
    then ok info
    else if str_eq level (txt "warn") || str_eq level (txt "warning")
    then ok warn
    else if str_eq level (txt "error")
    then ok error
    else err (invalid_log_level given)

abbrev pub with_format : Text → Bool → Text → Result Level → Result Logger
with_format given dev format (err e) = err e
with_format given dev format (ok level) =
    if str_eq format (txt "json")
    then ok (record { level = level; as_json = true; add_source = dev })
    else if str_eq format (txt "text")
    then ok (record { level = level; as_json = false; add_source = dev })
    else err (invalid_log_format given)

unfoldable pub new_logger : (Text → Text) → ServerConfig → Result Logger
unfolding parse_log_level
new_logger to_lower cfg =
    with_format cfg.log_format cfg.dev (to_lower cfg.log_format)
      (parse_log_level to_lower cfg.log_level)

-- What ends the service: a request to stop, or an error of the server.
pub data End : Type 0 where
  stop_requested : End
  serve_failed : Option Failure → End

-- The answers of the calls; `none` is success. `served` is what `Serve` answers after a shutdown,
-- without `ErrServerClosed`, which is none. `Serve` returns once `Shutdown` was called, and `Shutdown`
-- answers none only when no request is left, as net/http documents; `Close` waits for no request.
pub record Calls : Type 0 where
  pub to_lower : Text → Text
  pub random : Result Text
  pub new_signer : Text → Option Failure
  pub open_database : Option Failure
  pub new_localizer : Option Failure
  pub new_authenticator : Option Failure
  pub new_handler : Option Failure
  pub listen : Option Failure
  pub end_ : End
  pub shutdown : Option Failure
  pub force_close : Option Failure
  pub served : Option Failure

pub data Event : Type 0 where
  database_opened database_closed cache_created cache_closed : Event
  listening serving drained shutdown_failed force_closed close_failed serve_returned : Event
  signals_watched signals_released maintenance_started maintenance_stopped : Event

abbrev pub Run : Type 0
Run = Option Failure × List Event

abbrev pub unless_failed : Option Failure → Run → Run
unless_failed none run = run
unless_failed (some e) run = (some e, [])

abbrev pub does : Event → Run → Run
does event (e, events) = (e, event ∷ events)

-- `defer`
abbrev pub deferring : Event → Run → Run
deferring event (e, events) = (e, events ++ event ∷ [])

-- `errors.Join`
abbrev pub join : Option Failure → Option Failure → Option Failure
join none e = e
join (some e) none = some e
join (some e) (some f) = some (joined e f)

-- `srv.Close()`
abbrev pub closing : Option Failure → Event
closing none = force_closed
closing (some e) = close_failed

-- The shutdown, with the forced close where it fails.
abbrev pub shut_down : Option Failure → Option Failure → Run
shut_down none force = (none, drained ∷ [])
shut_down (some e) force = (join (some e) force, shutdown_failed ∷ closing force ∷ [])

abbrev pub serve_error : End → Option Failure → Option Failure
serve_error stop_requested served = served
serve_error (serve_failed e) served = e

abbrev pub wait : End → List Event
wait stop_requested = serve_returned ∷ []
wait (serve_failed e) = []

abbrev pub first_return : End → List Event
first_return stop_requested = []
first_return (serve_failed e) = serve_returned ∷ []

unfoldable pub serve_http : Calls → Run
serve_http calls =
    let (shutdown_error, events) = shut_down calls.shutdown calls.force_close in
    (
      join (serve_error calls.end_ calls.served) shutdown_error,
      serving ∷ first_return calls.end_ ++ events ++ wait calls.end_,
    )

abbrev pub with_value : {A : Type 0} → Result A → (A → Run) → Run
with_value (err e) run = (some e, [])
with_value (ok a) run = run a

-- The part of `runServer` that has a database and a cache.
unfoldable pub run_opened : Calls → Run
unfolding serve_http
run_opened calls = unless_failed calls.new_localizer (
    unless_failed calls.new_authenticator (
      unless_failed calls.new_handler (
        unless_failed calls.listen (
          does listening (
            does signals_watched (
              deferring signals_released
                (does maintenance_started (deferring maintenance_stopped (serve_http calls)))))))))

unfoldable pub run_server : Calls → ServerConfig → Run
run_server calls cfg = with_value (new_logger calls.to_lower cfg) (λ logger.
    with_value (resolve_otp_secret cfg calls.random) (λ secret.
      unless_failed (calls.new_signer secret) (
        unless_failed calls.open_database (
          does database_opened (
            does cache_created
              (deferring cache_closed (deferring database_closed (run_opened calls))))))))
