-- ===== src/Registry/Statements/Updates.antt =====
-- The UPDATE statements of pkg/registry/mysqlredisregistry.go.
use coap_gateway.Prelude.{
  ℕ, ◌+◌, Bool, false, not, ◌&&◌, Option, none, some, map, ◌==◌, if◌then◌else◌,
}
use coap_gateway.Prelude.Text.{Text, text_eq}
use coap_gateway.Registry.Schema.{Token, Device, Database}
use coap_gateway.Registry.World.{Engine, ExecResult, Statement}
use coap_gateway.Registry.Statements.Tables.{◌>>=◌, count, option_eq}

-- `WHERE token_id = ?`; NULL matches nothing
abbrev pub id_is : Option ℕ → ℕ → Bool
id_is none i = false
id_is (some j) i = i == j

abbrev pub renewed : Text → Text → ℕ → Token → Token
renewed refresh access at t = record t {
  refresh_token = some refresh;
  access_token = access;
  expires_in = some at;
}

abbrev pub same_token : Token → Token → Bool
same_token s t =
    option_eq text_eq s.refresh_token t.refresh_token
    && (text_eq s.access_token t.access_token && option_eq ◌==◌ s.expires_in t.expires_in)

-- UPDATE of the rows that a test picks; the rows affected are those that change.
abbrev pub update_tokens : (Token → Bool) → (Token → Token) → Database → Database × ExecResult
update_tokens pick f d = (
  record d {
    tokens = record d.tokens {
      rows = map (λ (t : Token). if pick t then f t else t) d.tokens.rows;
    };
  },
  record { last_id = 0; affected = count (λ t. pick t && not (same_token t (f t))) d.tokens.rows },
)

abbrev pub reissued : Text → ℕ → Token → Token
reissued access at t = record t { access_token = access; expires_in = some at }

module _ (e : Engine) where
  -- UPDATE token SET refresh_token = ?, access_token = ?, expires_in = DATE_ADD(CURRENT_TIMESTAMP(),
  -- INTERVAL ? SECOND) WHERE token_id = ?
  unfoldable pub renew_token : Text → Text → ℕ → ℕ → Option ℕ → Statement
  renew_token refresh access now ttl token_id d = do
    r ← e.fit 45 refresh
    a ← e.fit 45 access
    some (update_tokens (λ t. id_is token_id t.token_id) (renewed r a (now + ttl)) d)

  abbrev pub has_refresh : Text → Token → Bool
  has_refresh refresh t = elim t.refresh_token [ none ↦ false | some r ↦ e.collate r refresh ]

  -- UPDATE token SET access_token = ?, expires_in = DATE_ADD(CURRENT_TIMESTAMP(), INTERVAL ? SECOND)
  -- WHERE refresh_token = ?
  unfoldable pub reissue_token : Text → ℕ → ℕ → Text → Statement
  reissue_token access now ttl refresh d = do
    a ← e.fit 45 access
    some (update_tokens (has_refresh refresh) (reissued a (now + ttl)) d)

  -- update device set published_resources = ? where device.device_uuid = ?
  unfoldable pub publish : Text → Text → Statement
  publish json uuid d = do
    j ← e.fit_json json
    let hit = λ (r : Device). e.collate r.device_uuid uuid
    some (
      record d {
        devices = record d.devices {
          rows =
              map (λ (r : Device). if hit r then record r { published_resources = some j } else r)
                d.devices.rows;
        };
      },
      record {
        last_id = 0;
        affected =
            count (λ r. hit r && not (option_eq text_eq r.published_resources (some j)))
              d.devices.rows;
      },
    )
