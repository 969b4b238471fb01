-- ===== src/Server/Tls.antt =====
-- setupTLS of pkg/app/coap-interface/server.go. The file system and crypto/x509 are parameters.
use coap_gateway.Prelude.{
  ℕ, Bool, true, false, not, ◌&&◌, Option, none, some, List, [], ◌∷◌, ◌++◌, if◌then◌else◌,
}
use coap_gateway.Prelude.Text.{Text, codes, text_eq}
use coap_gateway.Go.{Go, Outcome, ret, pure, panic, modify, ◌>>=◌}
use coap_gateway.Http.Strings.{split}

-- What setupTLS reads of an x509.Certificate.
pub record Certificate : Type 0 where
  pub raw_issuer : Text
  pub raw_subject : Text
  pub is_ca : Bool
  pub serial : ℕ

-- What a call of the function that filepath.Walk is given meets: an error, an entry that is no
-- regular file, a file that cannot be read, or what a file holds.
pub data Visit : Type 0 where
  failed not_regular unreadable : Visit
  file : Text → Visit

-- `pem` gives the type and the bytes of the first block of a file.
pub record Crypto : Type 0 where
  pub load_key_pair : Text → Text → Bool
  pub walk : Text → List Visit
  pub pem : Text → Option (Text × Text)
  pub parse_certificate : Text → Option Certificate
  pub parse : Text → Option (List Certificate)
  pub verify : List Certificate → List Certificate → Certificate → Bool

pub record TlsVariables : Type 0 where
  pub tls_certificate : Option Text
  pub tls_certificate_key : Option Text
  pub tls_ca_pool : Option Text

abbrev pub no_variables : TlsVariables
no_variables = record { tls_certificate = none; tls_certificate_key = none; tls_ca_pool = none }

pub data TlsError : Type 0 where
  not_set : Text → TlsError
  bad_key_pair walk_failed empty_ca_root_pool : TlsError

pub data Setup : Type 0 where
  refused : TlsError → Setup
  configured : List Certificate → List Certificate → Setup

abbrev pub env_certificate : Text
env_certificate = codes "TLS_CERTIFICATE"

abbrev pub env_certificate_key : Text
env_certificate_key = codes "TLS_CERTIFICATE_KEY"

abbrev pub env_ca_pool : Text
env_ca_pool = codes "TLS_CA_POOL"

-- `pair[1]`
abbrev pub value_of {ℓ} : {S : Type ℓ} → List Text → Go S Text
value_of [] = panic
value_of (v ∷ fields) = pure v

unfoldable pub read_tls : Text → List Text → Go TlsVariables (Unit {0})
read_tls key fields =
    if text_eq key env_certificate
    then value_of fields
      >>= (λ v. modify (λ (s : TlsVariables). record s { tls_certificate = some v }))
    else (if text_eq key env_certificate_key
        then value_of fields
          >>= (λ v. modify (λ (s : TlsVariables). record s { tls_certificate_key = some v }))
        else (if text_eq key env_ca_pool
            then value_of fields
              >>= (λ v. modify (λ (s : TlsVariables). record s { tls_ca_pool = some v }))
            else pure tt))

unfoldable pub read_tls_pair : List Text → Go TlsVariables (Unit {0})
unfolding read_tls
read_tls_pair [] = panic
read_tls_pair (key ∷ fields) = read_tls key fields

unfoldable pub read_tls_all : List Text → Go TlsVariables (Unit {0})
unfolding read_tls_pair
read_tls_all [] = pure tt
read_tls_all (e ∷ es) = read_tls_pair (split e (codes "=")) >>= λ _. read_tls_all es

-- The pools after a certificate.
abbrev pub add_certificate :
    Certificate → List Certificate × List Certificate → List Certificate × List Certificate
add_certificate c (roots, intermediates) =
    if text_eq c.raw_issuer c.raw_subject && c.is_ca
    then (roots ++ c ∷ [], intermediates)
    else (if c.is_ca then (roots, intermediates ++ c ∷ []) else (roots, intermediates))

abbrev pub add_parsed :
    Option Certificate → List Certificate × List Certificate → List Certificate × List Certificate
add_parsed none pools = pools
add_parsed (some c) pools = add_certificate c pools

module _ (k : Crypto) where
  abbrev pub block_certificate : Option (Text × Text) → Option Certificate
  block_certificate none = none
  block_certificate (some (kind, der)) =
      if text_eq kind (codes "CERTIFICATE") then k.parse_certificate der else none

  -- The certificate that a file holds, if it holds one.
  abbrev pub file_certificate : Text → Option Certificate
  file_certificate content = block_certificate (k.pem content)

  -- filepath.Walk stops at the first error.
  unfoldable pub walk_all :
      List Certificate × List Certificate
      → List Visit
      → Option (List Certificate × List Certificate)
  walk_all pools [] = some pools
  walk_all pools (failed ∷ vs) = none
  walk_all pools (not_regular ∷ vs) = walk_all pools vs
  walk_all pools (unreadable ∷ vs) = walk_all pools vs
  walk_all pools (file content ∷ vs) = walk_all (add_parsed (file_certificate content) pools) vs

abbrev pub with_pools : Option (List Certificate × List Certificate) → Setup
with_pools none = refused walk_failed
with_pools (some ([], intermediates)) = refused empty_ca_root_pool
with_pools (some (c ∷ roots, intermediates)) = configured (c ∷ roots) intermediates

module _ (k : Crypto) where
  abbrev pub set_up : TlsVariables → Setup
  set_up v = elim v.tls_certificate [
    | none ↦ refused (not_set env_certificate)
    | some cert ↦ elim v.tls_certificate_key [
      | none ↦ refused (not_set env_certificate_key)
      | some key ↦ elim v.tls_ca_pool [
        | none ↦ refused (not_set env_ca_pool)
        | some pool ↦
            if not (k.load_key_pair cert key)
            then refused bad_key_pair
            else with_pools (walk_all k ([], []) (k.walk pool))
      ]
    ]
  ]

  unfoldable pub setup_tls : List Text → Outcome Setup
  unfolding read_tls_all walk_all
  setup_tls environ = ((read_tls_all environ >>= (λ _ v. (ret (set_up v), v))) no_variables).0

  -- VerifyPeerCertificate of the configuration: whether it returns nil.
  abbrev pub verified : List Certificate → List Certificate → List Certificate → Bool
  verified roots intermediates [] = true
  verified roots intermediates (c ∷ cs) =
      k.verify roots intermediates c && verified roots intermediates cs

  abbrev pub verified_raw : List Certificate → List Certificate → Option (List Certificate) → Bool
  verified_raw roots intermediates none = false
  verified_raw roots intermediates (some cs) = verified roots intermediates cs

  unfoldable pub verify_peer : List Certificate → List Certificate → List Text → Bool
  verify_peer roots intermediates [] = true
  verify_peer roots intermediates (raw ∷ raws) =
      verified_raw roots intermediates (k.parse raw) && verify_peer roots intermediates raws
