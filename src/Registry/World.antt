-- ===== src/Registry/World.antt =====
-- What the registry runs in: the two databases, the clock of the database server, and everything
-- that the servers, their drivers and the random source decide for themselves.
use coap_gateway.Prelude.{
  ℕ, suc, ◌+◌, ◌≡◌, Bool, true, false, Option, none, some, List, [], ◌∷◌, if◌then◌else◌, ltb, ◌≤◌,
  length,
}
use coap_gateway.Prelude.Text.{Text, text_eq}
use coap_gateway.Go.{Go, ret, pure, panic}
use coap_gateway.Token.{generate_random_string}
use coap_gateway.Registry.Schema.{Database}

-- A SET that Redis has accepted, with its time; a time to live of 0 means none.
pub record CacheSet : Type 0 where
  pub key : Text
  pub value : Text
  pub ttl : ℕ
  pub at : ℕ

-- MySQL, Redis and the random source, as far as the program does not decide.
pub record Engine : Type 0 where
  -- Two texts under the collation of a column, in `=` and in UNIQUE keys.
  pub collate : Text → Text → Bool
  -- An integer column against a text argument.
  pub id_matches : ℕ → Text → Bool
  -- What a character column of a width stores for a value; `none` is an error.
  pub fit : ℕ → Text → Option Text
  -- What a json column stores for a value; `none` is an error.
  pub fit_json : Text → Option Text
  -- Whether the call with a number fails in the driver or in the server.
  pub fault : ℕ → Bool
  -- Whether the server has carried out a failed call, so that only the answer is lost.
  pub lost : ℕ → Bool
  -- Whether the optimizer has a DELETE of a row and its token, which finds something, delete the
  -- tokens first.
  pub tokens_first : Text → Text → Database → Bool
  -- What `rand.Read` puts into a buffer of 32 bytes at a call; `none` is its error.
  pub random : ℕ → Option (List ℕ)
  -- What GET returns after these SETs, the newest first, at a time; `none` is redis.Nil.
  pub cached : List CacheSet → ℕ → Text → Option Text

pub record World : Type 0 where
  pub db : Database
  pub cache : List CacheSet
  pub now : ℕ
  pub calls : ℕ

-- The errors of the registry: sql.ErrNoRows, redis.Nil, errorMediatorTokenNotfound, one of the
-- random source, and any other of a driver or of a server.
pub data Err : Type 0 where
  no_rows cache_nil mediator_token_not_found random_failed driver : Err

-- sql.Result
pub record ExecResult : Type 0 where
  pub last_id : ℕ
  pub affected : ℕ

-- A value or an error, of a call that returns one of the two.
pub data Result {ℓ} (A : Type ℓ) : Type ℓ where
  ok : A → Result A
  err : Err → Result A

-- The returned `err`.
abbrev pub error_of {ℓ} : {A : Type ℓ} → Result A → Option Err
error_of (ok a) = none
error_of (err x) = some x

-- `err != nil`
abbrev pub has_error {ℓ} : {A : Type ℓ} → Option A → Bool
has_error none = false
has_error (some x) = true

-- Every call to the outside has a number of its own.
abbrev pub tick : World → World
tick w = record w { calls = suc w.calls }

-- What a statement does, or `none` if the server refuses it (a constraint, a value too long).
abbrev pub Statement : Type 0
Statement = Database → Option (Database × ExecResult)

module _ (e : Engine) where
  abbrev executed : Option (Database × ExecResult) → World → Result ExecResult × World
  executed none w = (err driver, w)
  executed (some (d, r)) w = (ok r, record w { db = d })

  -- db.ExecContext: a refused statement changes nothing; an error of the driver leaves open whether
  -- the statement has taken effect.
  unfoldable pub exec : Statement → Go World (Result ExecResult)
  exec stmt w =
      if e.fault w.calls
      then (ret (err driver), if e.lost w.calls then (executed (stmt w.db) (tick w)).1 else tick w)
      else let (r, w') = executed (stmt w.db) (tick w) in (ret r, w')

  abbrev scanned {ℓ} : {A : Type ℓ} → Option A → Result A
  scanned none = err no_rows
  scanned (some a) = ok a

  -- db.QueryRowContext and Scan: the first row, or an error.
  unfoldable pub query_row {ℓ} : {A : Type ℓ} → (World → Option A) → Go World (Result A)
  query_row select w =
      if e.fault w.calls then (ret (err driver), tick w) else (ret (scanned (select w)), tick w)

  abbrev generated : Option Text → Result Text
  generated none = err random_failed
  generated (some t) = ok t

  -- GenerateRandomString(tokenEntropy)
  unfoldable pub new_token : Go World (Result Text)
  unfolding generate_random_string
  new_token w = (ret (generated (generate_random_string (e.random w.calls))), tick w)

  abbrev remembered : Text → Text → ℕ → World → World
  remembered k v ttl w = record w {
    cache = record { key = k; value = v; ttl = ttl; at = w.now } ∷ w.cache;
    calls = suc w.calls;
  }

  -- db.Set(key, value, ttl).Err() of Redis; as above, an error leaves open whether the SET has been
  -- carried out.
  unfoldable pub cache_set : Text → Text → ℕ → Go World (Option Err)
  cache_set k v ttl w =
      if e.fault w.calls
      then (ret (some driver), if e.lost w.calls then remembered k v ttl w else tick w)
      else (ret none, remembered k v ttl w)

  abbrev got : Option Text → Result Text
  got none = err cache_nil
  got (some v) = ok v

  -- db.Get(key).Result() of Redis
  unfoldable pub cache_get : Text → Go World (Result Text)
  cache_get k w =
      if e.fault w.calls
      then (ret (err driver), tick w)
      else (ret (got (e.cached w.cache w.now k)), tick w)

-- result.LastInsertId() and result.RowsAffected(): with an error the result is a nil interface,
-- and a method of it panics. With a result the driver's own error is nil.
unfoldable pub last_insert_id : Result ExecResult → Go World ℕ
last_insert_id (err x) = panic
last_insert_id (ok r) = pure r.last_id

unfoldable pub rows_affected : Result ExecResult → Go World ℕ
rows_affected (err x) = panic
rows_affected (ok r) = pure r.affected

-- What Redis documents of SET and GET: the last SET of a key counts, until its time to live ends.
abbrev pub live : CacheSet → ℕ → Bool
live c now = if ltb 0 c.ttl then ltb now (c.at + c.ttl) else true

pub record IsCache (e : Engine) : Type 0 where
  pub cached-nil : (now : ℕ) (k : Text) → e.cached [] now k ≡ none
  pub cached-cons :
      (c : CacheSet) (cs : List CacheSet) (now : ℕ) (k : Text)
      → e.cached (c ∷ cs) now k ≡ (
          if text_eq c.key k
          then (if live c now then some c.value else none)
          else e.cached cs now k)

-- What the databases and the random source document: a text equals itself under a collation, a
-- column stores a value that is no longer than its width as it is, and a successful read fills the
-- buffer of 32 bytes.
pub record IsEngine (e : Engine) : Type 0 where
  pub collate_refl : (s : Text) → e.collate s s ≡ true
  pub fit_short : (n : ℕ) (s : Text) → length s ≤ n → e.fit n s ≡ some s
  pub random_length : (n : ℕ) (bytes : List ℕ) → e.random n ≡ some bytes → length bytes ≡ 32

-- A time with no failures, and what the draws of random bytes are in it.
pub record Quiet (e : Engine) : Type 0 where
  pub no_fault : (n : ℕ) → e.fault n ≡ false
  pub bytes : ℕ → List ℕ
  pub random_bytes : (n : ℕ) → e.random n ≡ some (bytes n)
