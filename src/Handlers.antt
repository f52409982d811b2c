-- ===== src/Handlers.antt =====
-- handlers: the reply to a request. A handler takes the decoded body (`none` where decoding fails)
-- and the world, and gives the reply and the world after it. The email parser, the OTP signer and the
-- delivery of mail are parameters; `faults` decides whether a delivery fails.
pub mod Transactions
pub mod Session
pub mod Account
pub mod Routes
pub mod Routing
pub mod Prefix
pub mod Outcome
pub mod Limits
pub mod Replies
pub mod Codes
pub mod Tests
use go_kickstart.Base.{
  ℕ, ◌+◌, ◌*◌, ◌/◌, Bool, true, false, Option, none, some, List, [], ◌∷◌, ◌++◌, ltb, if◌then◌else◌,
  Text, txt, str_eq, ℤ, pos, leb_ℤ, ◌-ℤ◌, pos_part,
}
use go_kickstart.Database.{
  Mail, Error, Result, ok, err, World, M, now, unix_now, random_text, engine, second,
}
use go_kickstart.Database.Challenges.{take_rate_limit}
use go_kickstart.Auth.{Authenticator, Token}

pub record SessionResponse : Type 0 where
  pub access_token : Text
  pub refresh_token : Text
  pub expires_in : ℤ
  pub refresh_token_expires_in : ℤ

pub data Body : Type 0 where
  empty : Body
  message : Text → Body
  session : SessionResponse → Body
  account : Text → ℕ → Body

-- A reply, with the seconds of its Retry-After header.
pub record Reply : Type 0 where
  pub status : ℕ
  pub retry_after : Option ℕ
  pub body : Body

-- A part of a handler goes on with a value or ends the request.
pub data Step {ℓ} (A : Type ℓ) : Type ℓ where
  go : A → Step A
  stop : Reply → Step A

abbrev pub H {ℓ} : Type ℓ → Type ℓ
H A = World → Step A × World

abbrev pub go_on {ℓ} : {A : Type ℓ} → A → H A
go_on a w = (go a, w)

infixl 5 ◌>>=◌ ◌>>◌
module _ {ℓ κ} {A : Type ℓ} {B : Type κ} where
  abbrev pub step_then : Step A × World → (A → H B) → Step B × World
  step_then (go a, w) f = f a w
  step_then (stop r, w) f = (stop r, w)

  abbrev pub ◌>>=◌ : H A → (A → H B) → H B
  ◌>>=◌ m f w = step_then (m w) f

  -- A call, with what the handler does with an error and with a value.
  abbrev pub attempted : Result A × World → (Error → H B) → (A → H B) → Step B × World
  attempted (ok a, w) failed f = f a w
  attempted (err e, w) failed f = failed e w

  abbrev pub attempt : M A → (Error → H B) → (A → H B) → H B
  attempt m failed f w = attempted (m w) failed f

abbrev pub ◌>>◌ {ℓ} : {B : Type ℓ} → H (Unit {0}) → H B → H B
m >> k = m >>= λ _. k

-- `time.Now()` and its Unix time.
unfoldable pub clock_now : H ℕ
unfolding now
clock_now w = (go w.clock, (now w).1)

unfoldable pub unix_clock : H ℕ
unfolding now
unix_clock w = (go (w.clock / second), (now w).1)

-- `writeStatus`, and a reply without a body or with one.
module _ {ℓ} {A : Type ℓ} where
  abbrev pub write_status : ℕ → Text → H A
  write_status status key w =
      (stop (record { status = status; retry_after = none; body = message key }), w)

  abbrev pub write_header : ℕ → H A
  write_header status w = (stop (record { status = status; retry_after = none; body = empty }), w)

  abbrev pub write_json : ℕ → Body → H A
  write_json status body w = (stop (record { status = status; retry_after = none; body = body }), w)

  abbrev too_many : ℕ → H A
  too_many delay w = (
    stop (record {
      status = 429;
      retry_after = some delay;
      body = message (txt "err.otp_rate_limited");
    }),
    w,
  )

-- `Handler`: what its methods use. `strict_parser` is `email.StrictParser` with `Normalize`, and `sign`
-- the method of `otp.Signer`.
pub record Handler : Type 0 where
  pub authenticator : Authenticator
  pub strict_parser : Text → Option Text
  pub mail_from : Text
  pub sign : Text → Text → Text → Text

abbrev pub otp_lifetime : ℕ
otp_lifetime = 600 * second

abbrev pub purpose_login : Text
purpose_login = txt "login"

abbrev pub purpose_email_change : Text
purpose_email_change = txt "email_change"

abbrev pub otp_verify_limit : ℕ
otp_verify_limit = 5

abbrev pub otp_verify_window : ℕ
otp_verify_window = 600

normalized : Option Text → Text
normalized none = []
normalized (some address) = address

-- The empty text stands for an address that is refused.
unfoldable pub normalize_email : Handler → Text → Text
unfolding normalized
normalize_email h original = normalized (h.strict_parser original)

unfoldable pub decode_body {ℓ} : {A : Type ℓ} → Text → Option A → H A
decode_body key none = write_status 400 key
decode_body key (some body) = go_on body

unfoldable pub allow_otp_request : Text → Text → ℕ → ℕ → H (Unit {0})
unfolding unix_clock
allow_otp_request scope key limit window = do
  time ← unix_clock
  attempt (take_rate_limit scope key time (pos window) (pos limit))
      (λ _. write_status 500 (txt "err.check_otp_limit"))
      λ delay. if ltb 0 delay then too_many delay else go_on tt

unfoldable pub allow_otp_issuance : Text → Text → H (Unit {0})
allow_otp_issuance purpose key = do
  allow_otp_request (purpose ++ txt ".issue.minute") key 1 60
  allow_otp_request (purpose ++ txt ".issue.window") key 5 600

unfoldable pub allow_otp_verification : Text → Text → H (Unit {0})
allow_otp_verification purpose key =
    allow_otp_request (purpose ++ txt ".verify") key otp_verify_limit otp_verify_window

unfoldable pub sign_otp : Handler → Text → Text → Text → Text
sign_otp h purpose identity code = h.sign purpose identity code

-- The message with the code.
abbrev pub otp_mail : Handler → Text → Text → Text → Mail
otp_mail h to code purpose = record {
  sender = h.mail_from;
  recipient = to;
  subject_key = txt "mail." ++ purpose ++ txt ".subject";
  body_key = txt "mail." ++ purpose ++ txt ".body";
  code = code;
  minutes = otp_lifetime / (60 * second);
}

abbrev delivered : Mail → H (Unit {0})
delivered mail w = (go tt, record w { sent = mail ∷ w.sent })

-- The mailer fails or takes the message; one that failed is not counted as sent.
unfoldable pub send_otp : Handler → Text → Text → Text → H (Unit {0})
send_otp h to code purpose =
    attempt engine (λ _. write_status 502 (txt "err.send_otp"))
      λ _. delivered (otp_mail h to code purpose)

-- `expiresIn`
unfoldable pub expires_in : ℤ → ℕ → ℤ
expires_in expires_at time = if leb_ℤ expires_at (pos time) then pos 0 else expires_at -ℤ pos time

unfoldable pub new_session_response : Token → Token → ℕ → SessionResponse
new_session_response access refresh time = record {
  access_token = access.value;
  refresh_token = refresh.value;
  expires_in = expires_in access.expires_at time;
  refresh_token_expires_in = expires_in refresh.expires_at time;
}
