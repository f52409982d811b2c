-- ===== src/Cached/Stored.antt =====
-- What `getJSON` and `setJSON` do to the entries of the store.
use mathlib.Core.Path.{subst}
use go_kickstart.Base.{ℕ, ◌≡◌, ◌∙◌, refl, sym, ap, ◌⊎◌, inl, inr, true, Option, none, some, Text}
use go_kickstart.Cache.{CacheStore, Context}
use go_kickstart.Cache
use go_kickstart.Cached.{
  Profile, or_deleted, stored, encoded, set_json, Json, CacheState, context_of, get_json, decoded,
}

module _ {S : Type 0} (ops : CacheStore S) (json : Json) (state : CacheState) where
  same_store : {s s' : S} → ◌≡◌ {A = Option S} (some s) (some s') → s ≡ s'
  same_store h = cc

  pub get_json_keeps :
      (ctx : Option ℕ) (time : ℕ) (key j w : Text) (s : S)
      → ops.Holds (get_json ops json state ctx time key s).1 j w
      → ops.Holds s j w
  unfolding get_json
  get_json_keeps ctx time key j w s h =
      ops.get_keeps (context_of ctx) time key j w s (after (ops.get (context_of ctx) time key s) h)
    where
      undeleted :
          (s' : S) (o : Option Profile)
          → ops.Holds (or_deleted ops json state ctx key s' o).1 j w
          → ops.Holds s' j w
      undeleted s' none h = ops.delete_keeps (context_of ctx) key j w s' h
      undeleted s' (some p) h = h

      after :
          (r : Cache.Result Text × S)
          → ops.Holds (decoded ops json state ctx key r).1 j w
          → ops.Holds r.1 j w
      after (Cache.err e, s') h = h
      after (Cache.ok d, s') h = undeleted s' (json.unmarshal d) h

  -- A value that was found is in the store.
  pub get_json_found :
      (ctx : Option ℕ) (time : ℕ) (key : Text) (s : S) (p : Profile)
      → (get_json ops json state ctx time key s).0 ≡ some p
      → (d : Text) × (ops.Holds s key d × (json.unmarshal d ≡ some p))
  unfolding get_json
  get_json_found ctx time key s p h = found (ops.get (context_of ctx) time key s) refl h
    where
      readable :
          (s' : S) (o : Option Profile)
          → (or_deleted ops json state ctx key s' o).0 ≡ some p
          → o ≡ some p
      readable s' none h = cc
      readable s' (some q) h = h

      found :
          (r : Cache.Result Text × S)
          → ops.get (context_of ctx) time key s ≡ r
          → (decoded ops json state ctx key r).0 ≡ some p
          → (d : Text) × (ops.Holds s key d × (json.unmarshal d ≡ some p))
      found (Cache.err e, s') g h = cc
      found (Cache.ok d, s') g h =
          (d, (ops.get_found (context_of ctx) time key d s s' g, readable s' (json.unmarshal d) h))

  -- What a cached value is put under.
  pub set_json_keeps :
      (ctx : Option ℕ) (time : ℕ) (key j w : Text) (p : Profile) (s s' : S)
      → json.is_valid p.email ≡ true
      → set_json ops json state ctx time key p s ≡ some s'
      → ops.Holds s' j w
      → ops.Holds s j w ⊎ ((j ≡ key) × (json.unmarshal w ≡ some p))
  unfolding set_json
  set_json_keeps ctx time key j w p s s' valid h held = after (json.marshal p) refl h
    where
      put_in :
          (d : Text) (r : Option (Cache.Result (Unit {0}) × S))
          → json.marshal p ≡ some d
          → ops.set (context_of ctx) time key d s ≡ r
          → stored ops json state r ≡ some s'
          → ops.Holds s j w ⊎ ((j ≡ key) × (json.unmarshal w ≡ some p))
      put_in d none m e h = cc
      put_in d (some (r, s'')) m e h =
          elim (ops.set_keeps (context_of ctx) time key d j w s s' r
            (e ∙ ap (λ o. some (r, o)) (same_store h)) held) [
              | inl old ↦ inl old
              | inr (same, new) ↦
                  inr (same, ap json.unmarshal new ∙ json.unmarshal-marshal p d valid m)
            ]

      after :
          (o : Option Text)
          → json.marshal p ≡ o
          → encoded ops json state ctx time key s o ≡ some s'
          → ops.Holds s j w ⊎ ((j ≡ key) × (json.unmarshal w ≡ some p))
      after none m h = inl (subst (λ s. ops.Holds s j w) (sym (same_store h)) held)
      after (some d) m h = put_in d (ops.set (context_of ctx) time key d s) m refl h
