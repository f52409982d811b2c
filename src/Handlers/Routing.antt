-- ===== src/Handlers/Routing.antt =====
-- handlers/routing.go and the paths of handlers/handler.go. The writer under `routingErrorWriter` is
-- what it was told: the statuses and the bodies, the last one first.
use go_kickstart.Base.{
  ℕ, ◌≡◌, refl, ap, ◌∙◌, Bool, true, false, not, ◌&&◌, ◌||◌, List, [], ◌∷◌, ◌++◌, length, ◌==◌,
  if◌then◌else◌, Text, txt, str_eq, trim_space, has_prefix,
}

unfoldable pub route_path : Text → Text → Text
route_path root_prefix given =
    let route = trim_space given in
    if str_eq route [] || str_eq route (txt "/")
    then (if str_eq root_prefix [] then txt "/" else root_prefix)
    else root_prefix ++ (if has_prefix route (txt "/") then route else txt "/" ++ route)

pub data Event : Type 0 where
  header : ℕ → Event
  body : Text → Event
  -- `writeStatus`: the status and the key of the message
  status_error : ℕ → Text → Event

pub record RoutingErrorWriter : Type 0 where
  pub events : List Event
  pub pattern : Text
  pub replaced : Bool

unfoldable pub write_header_through : ℕ → RoutingErrorWriter → RoutingErrorWriter
write_header_through status w =
    if w.replaced
    then w
    else if not (str_eq w.pattern []) || not (status == 404) && not (status == 405)
    then record w { events = header status ∷ w.events }
    else record w {
      events =
          status_error status
            (if status == 405 then txt "err.method_not_allowed" else txt "err.route_not_found")
          ∷ w.events;
      replaced = true;
    }

-- The number of bytes that the caller is told.
unfoldable pub write_through : Text → RoutingErrorWriter → ℕ × RoutingErrorWriter
write_through text w =
    if w.replaced
    then (length text, w)
    else (length text, record w { events = body text ∷ w.events })

unfoldable pub write_all : List Text → RoutingErrorWriter → RoutingErrorWriter
unfolding write_through
write_all [] w = w
write_all (text ∷ texts) w = write_all texts (write_through text w).1

write_through-replaced :
    (text : Text) (w : RoutingErrorWriter) → w.replaced ≡ true → (write_through text w).1 ≡ w
unfolding write_through
write_through-replaced text w r = rw r

write_all-replaced :
    (texts : List Text) (w : RoutingErrorWriter) → w.replaced ≡ true → (write_all texts w) ≡ w
unfolding write_all write_through
write_all-replaced [] w r = refl
write_all-replaced (text ∷ texts) w r =
    ap (write_all texts) (write_through-replaced text w r) ∙ write_all-replaced texts w r

abbrev replacing : ℕ → Text → RoutingErrorWriter → RoutingErrorWriter
replacing status key w = record w { events = status_error status key ∷ w.events; replaced = true }

unknown_route :
    (w : RoutingErrorWriter)
    → w.pattern ≡ []
    → w.replaced ≡ false
    → write_header_through 404 w ≡ replacing 404 (txt "err.route_not_found") w
unfolding write_header_through str_eq
unknown_route w p r = rw (r, p)

method_refused :
    (w : RoutingErrorWriter)
    → w.pattern ≡ []
    → w.replaced ≡ false
    → write_header_through 405 w ≡ replacing 405 (txt "err.method_not_allowed") w
unfolding write_header_through str_eq
method_refused w p r = rw (r, p)

-- A reply of the mux itself with status 404 is replaced: when no pattern matched and nothing was
-- replaced, writing the header 404 and then any bodies leaves one event, the error of an unknown
-- route, and none of the bodies; and 405 leaves the error of a method that is not allowed.
pub write_all-write_header :
    (texts : List Text) (w : RoutingErrorWriter)
    → w.pattern ≡ []
    → w.replaced ≡ false
    → ((write_all texts (write_header_through 404 w)).events
        ≡ status_error 404 (txt "err.route_not_found") ∷ w.events)
      × ((write_all texts (write_header_through 405 w)).events
          ≡ status_error 405 (txt "err.method_not_allowed") ∷ w.events)
write_all-write_header texts w p r = (
  ap (λ (v : RoutingErrorWriter). v.events)
      (ap (write_all texts) (unknown_route w p r)
        ∙ write_all-replaced texts (replacing 404 (txt "err.route_not_found") w) refl),
  ap (λ (v : RoutingErrorWriter). v.events)
      (ap (write_all texts) (method_refused w p r)
        ∙ write_all-replaced texts (replacing 405 (txt "err.method_not_allowed") w) refl),
)
