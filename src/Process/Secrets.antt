-- ===== src/Process/Secrets.antt =====
-- The secrets with which a server starts.
use go_kickstart.Base.{
  ◌≤◌, ◌≡◌, ◌≢◌, refl, sym, ◌∙◌, true, false, Option, none, some, [], ◌∷◌, arith, length, Text, txt,
  str_eq, str_eq_iff,
}
use go_kickstart.Process.{
  Failure, Result, ok, ServerConfig, check_secrets, otp_or_random, resolve_otp_secret,
}

-- What the secrets of a server that has started are like.
pub record IsGuarded (cfg : ServerConfig) (secret : Text) : Type 0 where
  pub configured : secret ≡ cfg.otp_secret
  pub long : 32 ≤ length secret
  pub long_auth : 32 ≤ length cfg.auth_secret
  pub apart : secret ≢ cfg.auth_secret

long_secrets :
    (cfg : ServerConfig)
    → cfg.dev ≡ false
    → check_secrets cfg.dev
        ((txt "auth.secret", cfg.auth_secret) ∷ (txt "otp.secret", cfg.otp_secret) ∷ [])
      ≡ none
    → (32 ≤ length cfg.auth_secret) × (32 ≤ length cfg.otp_secret)
unfolding check_secrets
long_secrets cfg production h = ground (arith, production, h)

not_empty : (s : Text) → 32 ≤ length s → str_eq s [] ≡ false
unfolding str_eq
not_empty [] h = absurd (omega (arith, h))
not_empty (x ∷ s) h = refl

chosen :
    (cfg : ServerConfig) (random : Result Text) (secret : Text)
    → str_eq cfg.otp_secret [] ≡ false
    → otp_or_random cfg random none ≡ ok secret
    → (secret ≡ cfg.otp_secret) × (str_eq cfg.otp_secret cfg.auth_secret ≡ false)
chosen cfg random secret set h = ground (arith, set, h)

-- Outside of the development mode a server that gets a key for its codes got the configured one, which
-- has at least 32 bytes, as the secret for its tokens has, and the two differ.
pub resolve_otp_secret-IsGuarded :
    (cfg : ServerConfig) (random : Result Text) (secret : Text)
    → cfg.dev ≡ false
    → resolve_otp_secret cfg random ≡ ok secret
    → IsGuarded cfg secret
unfolding resolve_otp_secret
resolve_otp_secret-IsGuarded cfg random secret production h =
    checked
      (check_secrets cfg.dev
        ((txt "auth.secret", cfg.auth_secret) ∷ (txt "otp.secret", cfg.otp_secret) ∷ []))
      refl h
  where
    both : ¬ (false ≡ true)
    both e = cc

    checked :
        (o : Option Failure)
        → check_secrets cfg.dev
            ((txt "auth.secret", cfg.auth_secret) ∷ (txt "otp.secret", cfg.otp_secret) ∷ [])
          ≡ o
        → otp_or_random cfg random o ≡ ok secret
        → IsGuarded cfg secret
    checked (some e) q h = cc
    checked none q h =
        let (long_auth, long_otp) = long_secrets cfg production q in
        let (same, differ) = chosen cfg random secret (not_empty cfg.otp_secret long_otp) h in
        record {
          configured = same;
          long = rw same long_otp;
          long_auth = long_auth;
          apart =
              λ e. both (sym differ ∙ (str_eq_iff cfg.otp_secret cfg.auth_secret).1 (sym same ∙ e));
        }
