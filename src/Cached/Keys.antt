-- ===== src/Cached/Keys.antt =====
-- Cache keys tell accounts and generations apart.
use go_kickstart.Base.{
  ℕ, ◌≡◌, Text, txt, format_int, format_int-injective, format_int-Lacks, cut_unique, append_cancel,
}
use go_kickstart.Cached.{CacheState, account_key, cache_key}

pub account_key-injective : (a b : ℕ) → account_key a ≡ account_key b → a ≡ b
unfolding account_key
account_key-injective a b e = format_int-injective a b (append_cancel (txt "db:account:") _ _ e)

pub cache_key-injective :
    (state : CacheState) (j k : Text) (g h : ℕ)
    → cache_key state j g ≡ cache_key state k h
    → (g ≡ h) × (j ≡ k)
unfolding cache_key
cache_key-injective state j k g h e =
    let (same, rest) =
      cut_unique b':' (format_int g) (format_int h) j k (format_int-Lacks g) (format_int-Lacks h)
        (append_cancel state.prefix _ _ e) in
    (format_int-injective g h same, rest)
