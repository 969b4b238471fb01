-- ===== src/Northbound/Bearer.antt =====
-- The Authorization headers that provisioning reads.
use coap_gateway.Prelude.{◌≡◌, refl, true, false, [], ◌++◌}
use coap_gateway.Prelude.Text.{Text, codes}
use coap_gateway.Go.{ret, panics, pure, panic}
use coap_gateway.Http.{Exchange}
use coap_gateway.Http.Strings.{contains, split_from}
use coap_gateway.Http.Strings.Splitting.{split_from-whole}
use coap_gateway.Northbound.{Site, mediator_token}

module _ {S : Type 0} (x : Exchange (Site S)) where
  -- A header "Bearer " followed by a token that does not contain these words again is read as the
  -- token.
  pub mediator_token_read :
      (token : Text)
      → contains token (codes "Bearer ") ≡ false
      → mediator_token (codes "Bearer " ++ token) x ≡ (ret token, x)
  unfolding mediator_token split_from contains pure
  mediator_token_read token h = rw (split_from-whole (codes "Bearer ") token [] h) refl

  -- A header with no "Bearer" in it is itself the token.
  pub mediator_token_plain :
      (token : Text)
      → contains token (codes "Bearer") ≡ false
      → mediator_token token x ≡ (ret token, x)
  unfolding mediator_token pure
  mediator_token_plain token h = rw (mediator_token, h) refl

  -- A header that contains "Bearer", but never with a space after it, makes the handler panic, for the
  -- slice of its fields has no second one.
  pub mediator_token_panics :
      (header : Text)
      → contains header (codes "Bearer") ≡ true
      → contains header (codes "Bearer ") ≡ false
      → mediator_token header x ≡ (panics, x)
  unfolding mediator_token pure panic
  mediator_token_panics header h n =
      rw (mediator_token, h, split_from-whole (codes "Bearer ") header [] n) refl
