-- ===== src/Registry/Refresh/Reissue.antt =====
-- What a refresh does to the tokens.
use coap_gateway.Prelude.{
  ℕ, suc, ◌+◌, ◌≡◌, refl, Bool, true, false, not, ◌&&◌, Option, none, some, List, [], ◌∷◌, arith,
  map, any, ◌==◌, if◌then◌else◌,
}
use coap_gateway.Prelude.Text.{Text, text_eq, text_eq_refl}
use coap_gateway.Go.{ret, panics, ◌>>=◌}
use coap_gateway.Token.{encode_to_string}
use coap_gateway.Registry.Schema.{Token}
use coap_gateway.Registry.World.{Engine, World, exec, new_token, rows_affected}
use coap_gateway.Registry.Statements.{reissue_token, count, has_refresh, reissued, same_token}
use coap_gateway.Registry.Devices.{access_token_ttl}
use coap_gateway.Registry.Refresh.{refresh_token}

-- `WHERE refresh_token = ?`
abbrev pub holds : Engine → Text → Token → Bool
holds e refresh t = elim t.refresh_token [ none ↦ false | some r ↦ e.collate r refresh ]

-- Whether a token already has an access token and an expiry.
abbrev pub up_to_date : Text → ℕ → Token → Bool
up_to_date access until t =
    text_eq t.access_token access && elim t.expires_in [ none ↦ false | some at ↦ at == until ]

module _ (e : Engine) (w : World) (device_id user_id refresh : Text) (bytes : List ℕ) where
  -- The rows that MySQL counts are those that are to be changed and differ.
  changes :
      (access : Text) (t : Token)
      → (has_refresh e refresh t
          && not (same_token t (reissued access (w.now + access_token_ttl) t)))
        ≡ (holds e refresh t && not (up_to_date access (w.now + 6000) t))
  changes access t = changed_row t.refresh_token t.expires_in
    where
      changed_row :
          (r : Option Text) (at : Option ℕ)
          → let u : Token = record t { refresh_token = r; expires_in = at } in
            (has_refresh e refresh u
              && not (same_token u (reissued access (w.now + access_token_ttl) u)))
            ≡ (holds e refresh u && not (up_to_date access (w.now + 6000) u))
      changed_row none at = refl
      changed_row (some r) none = ground (arith, text_eq_refl r)
      changed_row (some r) (some at) = ground (arith, text_eq_refl r)

  count-any :
      {R : Type 0} (p q : R → Bool) (rs : List R)
      → ((r : R) → p r ≡ q r)
      → (count p rs == 0) ≡ not (any q rs)
  count-any p q [] h = refl
  count-any p q (r ∷ rs) h = ground (arith, h r, count-any p q rs h)

  -- If nothing fails and the new access token fits its column, a refresh gives exactly the tokens
  -- that have the refresh token the new access token for 6000 seconds, leaves their refresh token
  -- and all other tokens, and returns the new access token beside the old refresh token and 6000;
  -- if this changes no token it returns three empty values and no error. The device and the user
  -- that the request names play no part.
  pub refresh_token_reissues :
      (access : Text)
      → e.random w.calls ≡ some bytes
      → e.fault (suc w.calls) ≡ false
      → e.fit 45 (encode_to_string bytes) ≡ some access
      → refresh_token e device_id user_id refresh w ≡ (
        ret (
            if any
              (λ t. holds e refresh t && not (up_to_date access (w.now + 6000) t))
              w.db.tokens.rows
            then record {
              access_token = encode_to_string bytes;
              refresh_token = refresh;
              ttl = 6000;
              error = none;
            }
            else record { access_token = []; refresh_token = []; ttl = 0; error = none }),
        record w {
          db = record w.db {
            tokens = record w.db.tokens {
              rows =
                  map
                    (λ (t : Token).
                      if holds e refresh t
                      then record {
                        token_id = t.token_id;
                        refresh_token = t.refresh_token;
                        access_token = access;
                        expires_in = some (w.now + 6000);
                      }
                      else t)
                    w.db.tokens.rows;
            };
          };
          calls = suc (suc w.calls);
        },
      )
  unfolding refresh_token exec new_token rows_affected reissue_token ◌>>=◌
  refresh_token_reissues access r f fit = ground (
    arith,
    r,
    f,
    fit,
    count-any
        (λ t.
          has_refresh e refresh t
          && not (same_token t (reissued access (w.now + access_token_ttl) t)))
        (λ t. holds e refresh t && not (up_to_date access (w.now + 6000) t)) w.db.tokens.rows
        (changes access),
  )

  -- A refresh whose update fails and has not been carried out panics, and the tokens stay as they were.
  pub refresh_token_panics :
      e.random w.calls ≡ some bytes
      → e.fault (suc w.calls) ≡ true
      → e.lost (suc w.calls) ≡ false
      → ((refresh_token e device_id user_id refresh w).0 ≡ panics)
        × ((refresh_token e device_id user_id refresh w).1.db ≡ w.db)
  unfolding refresh_token exec new_token rows_affected ◌>>=◌
  refresh_token_panics r f l = ground (arith, r, f, l)
