-- ===== src/Process/Lifecycle.antt =====
-- What may be done while what lasts, and that a run keeps to it.
use go_kickstart.Base.{
  ◌≡◌, ◌⊎◌, inl, inr, refl, Bool, true, false, not, ◌&&◌, ◌||◌, Option, none, some, List, [], ◌∷◌,
  ◌++◌, if◌then◌else◌, Text,
}
use go_kickstart.Process.{
  Failure, Result, ok, err, ServerConfig, resolve_otp_secret, End, stop_requested, serve_failed,
  Calls, Event, database_opened, database_closed, cache_created, cache_closed, listening, serving,
  drained, shutdown_failed, force_closed, close_failed, serve_returned, signals_watched,
  signals_released, maintenance_started, maintenance_stopped, Run, unless_failed, does, deferring,
  shut_down, wait, first_return, join, serve_error, with_value, new_logger, serve_http, run_opened,
  run_server,
}

-- What is open or runs, or may be: `requests` is whether a request can be in flight, and `listener`
-- whether the listener can be open. `hurried` is whether the graceful shutdown has failed.
pub record Live : Type 0 where
  pub database : Bool
  pub cache : Bool
  pub listener : Bool
  pub server : Bool
  pub signals : Bool
  pub maintenance : Bool
  pub requests : Bool
  pub hurried : Bool

abbrev pub nothing_live : Live
nothing_live = record {
  database = false;
  cache = false;
  listener = false;
  server = false;
  signals = false;
  maintenance = false;
  requests = false;
  hurried = false;
}

abbrev pub allowed : Bool → Live → Option Live
allowed b l = if b then some l else none

-- An event is allowed only at its time: nothing is opened or closed twice, the maintenance and the HTTP
-- server run only over an open database, the database is closed only when the maintenance and the
-- accept loop have ended, with no request in flight unless the graceful shutdown has failed, and the
-- cache only after the database. A forced close ends no request.
abbrev pub happen : Event → Live → Option Live
happen database_opened l = allowed (not l.database) (record l { database = true })
happen cache_created l = allowed (not l.cache) (record l { cache = true })
happen listening l = allowed (l.database && not l.listener) (record l { listener = true })
happen signals_watched l = allowed (not l.signals) (record l { signals = true })
happen maintenance_started l =
    allowed (l.database && not l.maintenance) (record l { maintenance = true })
happen serving l =
    allowed (l.database && l.cache && l.listener && not l.server)
      (record l { server = true; requests = true })
happen serve_returned l = allowed l.server (record l { server = false })
happen drained l =
    allowed (l.database && l.listener) (record l { listener = false; requests = false })
happen shutdown_failed l = allowed (l.database && l.listener) (record l { hurried = true })
happen force_closed l = allowed (l.hurried && l.listener) (record l { listener = false })
happen close_failed l = allowed (l.hurried && l.listener) l
happen maintenance_stopped l = allowed l.maintenance (record l { maintenance = false })
happen signals_released l = allowed l.signals (record l { signals = false })
happen database_closed l =
    allowed (l.database && not l.maintenance && not l.server && (not l.requests || l.hurried))
      (record l { database = false })
happen cache_closed l = allowed (l.cache && not l.database) (record l { cache = false })

abbrev pub all_happen : List Event → Live → Option Live
all_happen [] l = some l
all_happen (e ∷ es) l = elim (happen e l) [ none ↦ none | some l' ↦ all_happen es l' ]

-- The run of a server that has opened its database, closed as `runServer` defers it.
abbrev closed_after : Run → Run
closed_after run =
    does database_opened
      (does cache_created (deferring cache_closed (deferring database_closed run)))

abbrev pub IsClosed : Live → Type 0
IsClosed l =
    (l.database ≡ false)
    × ((l.cache ≡ false) × ((l.signals ≡ false) × ((l.maintenance ≡ false) × (l.server ≡ false))))

-- What a run leaves, given the answers of `Shutdown` and `Close`.
pub record IsReleased (shutdown force : Option Failure) (run : Run) : Type 0 where
  pub left : Live
  pub in_time : all_happen run.1 nothing_live ≡ some left
  pub closed : IsClosed left
  pub no_request : shutdown ≡ none → left.requests ≡ false
  pub no_listener : (shutdown ≡ none) ⊎ (force ≡ none) → left.listener ≡ false

-- What is left when the server was started and all was closed.
abbrev left_after : Option Failure → Option Failure → Live
left_after none force = nothing_live
left_after (some e) none = record nothing_live { requests = true; hurried = true }
left_after (some e) (some f) = record nothing_live {
  requests = true;
  hurried = true;
  listener = true;
}

no_request_after :
    (shutdown force : Option Failure)
    → shutdown ≡ none
    → (left_after shutdown force).requests ≡ false
no_request_after none force h = refl
no_request_after (some e) none h = cc
no_request_after (some e) (some f) h = cc

no_listener_after :
    (shutdown force : Option Failure)
    → (shutdown ≡ none) ⊎ (force ≡ none)
    → (left_after shutdown force).listener ≡ false
no_listener_after none force h = refl
no_listener_after (some e) none h = refl
no_listener_after (some e) (some f) h = elim h [ inl p ↦ cc | inr p ↦ cc ]

IsClosed-left_after : (shutdown force : Option Failure) → IsClosed (left_after shutdown force)
IsClosed-left_after none force = (refl, (refl, (refl, (refl, refl))))
IsClosed-left_after (some e) none = (refl, (refl, (refl, (refl, refl))))
IsClosed-left_after (some e) (some f) = (refl, (refl, (refl, (refl, refl))))

abbrev served_run : End → Option Failure → Option Failure → Option Failure → Run
served_run end_ shutdown force e = closed_after (
    does listening (
      does signals_watched (
        deferring signals_released (
          does maintenance_started (
            deferring maintenance_stopped
              (e, serving ∷ first_return end_ ++ (shut_down shutdown force).1 ++ wait end_))))))

served_in_time :
    (end_ : End) (shutdown force : Option Failure) (e : Option Failure)
    → all_happen (served_run end_ shutdown force e).1 nothing_live
      ≡ some (left_after shutdown force)
served_in_time stop_requested none force e = refl
served_in_time stop_requested (some x) none e = refl
served_in_time stop_requested (some x) (some y) e = refl
served_in_time (serve_failed z) none force e = refl
served_in_time (serve_failed z) (some x) none e = refl
served_in_time (serve_failed z) (some x) (some y) e = refl

-- A run that ends before the server is started leaves nothing.
idle :
    (shutdown force : Option Failure) (run : Run)
    → all_happen run.1 nothing_live ≡ some nothing_live
    → IsReleased shutdown force run
idle shutdown force run h = record {
  left = nothing_live;
  in_time = h;
  closed = (refl, (refl, (refl, (refl, refl))));
  no_request = λ _. refl;
  no_listener = λ _. refl;
}

IsReleased-serve :
    (end_ : End) (shutdown force : Option Failure) (e : Option Failure)
    → IsReleased shutdown force (served_run end_ shutdown force e)
IsReleased-serve end_ shutdown force e = record {
  left = left_after shutdown force;
  in_time = served_in_time end_ shutdown force e;
  closed = IsClosed-left_after shutdown force;
  no_request = no_request_after shutdown force;
  no_listener = no_listener_after shutdown force;
}

IsReleased-unless :
    (shutdown force : Option Failure) (o : Option Failure) (run : Run)
    → IsReleased shutdown force (closed_after run)
    → IsReleased shutdown force (closed_after (unless_failed o run))
IsReleased-unless shutdown force none run h = h
IsReleased-unless shutdown force (some e) run h = idle shutdown force _ refl

run_opened-IsReleased :
    (calls : Calls) → IsReleased calls.shutdown calls.force_close (closed_after (run_opened calls))
unfolding run_opened serve_http
run_opened-IsReleased calls = next calls.new_localizer _ (
    next calls.new_authenticator _ (
      next calls.new_handler _ (
        next calls.listen _ (
          IsReleased-serve calls.end_ calls.shutdown calls.force_close (
            join (serve_error calls.end_ calls.served)
              (shut_down calls.shutdown calls.force_close).0)))))
  where
    next :
        (o : Option Failure) (run : Run)
        → IsReleased calls.shutdown calls.force_close (closed_after run)
        → IsReleased calls.shutdown calls.force_close (closed_after (unless_failed o run))
    next = IsReleased-unless calls.shutdown calls.force_close

-- Whatever the calls of a start answer, and however the server ends, each event of the run of
-- `runServer` comes at its time: the maintenance and the HTTP server run only over an open database,
-- and the database is closed after the maintenance and the accept loop have ended, with no request
-- in flight unless the graceful shutdown has failed, and the cache after it. At the end the
-- database, the cache, the signals, the maintenance and the accept loop are closed; a request may be
-- left only when `Shutdown` failed, and an open listener only when `Close` failed too.
pub run_server-released :
    (calls : Calls) (cfg : ServerConfig)
    → IsReleased calls.shutdown calls.force_close (run_server calls cfg)
unfolding run_server
run_server-released calls cfg =
    with_result (new_logger calls.to_lower cfg) (λ logger. secured)
      (λ logger. with_result (resolve_otp_secret cfg calls.random) signed (λ secret.
        begun (calls.new_signer secret) _
          (begun calls.open_database _ (run_opened-IsReleased calls))))
  where
    Released : Run → Type 0
    Released = IsReleased calls.shutdown calls.force_close

    signed : Text → Run
    signed secret =
        unless_failed (calls.new_signer secret)
          (unless_failed calls.open_database (closed_after (run_opened calls)))

    secured : Run
    secured = with_value (resolve_otp_secret cfg calls.random) signed

    begun : (o : Option Failure) (run : Run) → Released run → Released (unless_failed o run)
    begun none run h = h
    begun (some e) run h = idle calls.shutdown calls.force_close _ refl

    with_result :
        {A : Type 0} (r : Result A) (run : A → Run)
        → ((a : A) → Released (run a))
        → Released (with_value r run)
    with_result (err e) run h = idle calls.shutdown calls.force_close _ refl
    with_result (ok a) run h = h a
