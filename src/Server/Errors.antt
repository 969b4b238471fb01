-- ===== src/Server/Errors.antt =====
-- pkg/app/coap-interface/error.go: the texts of the errors of setupTLS.
use coap_gateway.Prelude.{Option, none, some, ◌++◌}
use coap_gateway.Prelude.Text.{Text, codes}
use coap_gateway.Server.Tls.{TlsError, not_set, bad_key_pair, walk_failed, empty_ca_root_pool}

-- type Error
pub record Error : Type 0 where
  pub text : Text

-- func (e Error) Error()
abbrev pub error_text : Error → Text
error_text e = e.text

-- Sprintf("Eenviroment variable '%v' is not set", param)
abbrev pub err_env_not_set : Text → Error
err_env_not_set param = record {
  text = codes "Eenviroment variable '" ++ param ++ codes "' is not set";
}

abbrev pub err_empty_ca_root_pool : Error
err_empty_ca_root_pool = record { text = codes "CA Root pool is empty." }

-- The errors of setupTLS that the program makes itself.
abbrev pub own_error : TlsError → Option Error
own_error (not_set param) = some (err_env_not_set param)
own_error empty_ca_root_pool = some err_empty_ca_root_pool
own_error bad_key_pair = none
own_error walk_failed = none
