-- ===== src/Northbound/Kept.antt =====
-- What the handlers of the northbound interface keep of the registry's state, over any registry that
-- keeps it, and how they end: each one returns or panics.
use coap_gateway.Prelude.{
  ℕ, ◌≢◌, refl, length, Bool, true, false, Option, none, some, List, [], ◌∷◌, Bool-cases, inl, inr,
}
use coap_gateway.Prelude.Text.{Text, codes}
use coap_gateway.Go.{Go}
use coap_gateway.Go.Kept.{Ends, Keeps, kept_steps, Stays, Keeps-Stays, Stays-bind}
use coap_gateway.Registry.World.{
  Err, cache_nil, no_rows, mediator_token_not_found, random_failed, driver,
}
use coap_gateway.Registry.Clients.{ClientRegistration}
use coap_gateway.Registry.Interface.{Registry}
use coap_gateway.Registry.Laws.{Lawful}
use coap_gateway.Http.{Request, Exchange, write_header, write, header_if}
use coap_gateway.Http.Strings.{contains, split}
use coap_gateway.Northbound.{Account, Json, Post, Site, with_registry, second_of, mediator_token}
use coap_gateway.Northbound.Accounts.{handle_register_user, provision_mediator, token_refresh}
use coap_gateway.Northbound.Provisioning.{
  write_encoded, answer_client, provision_read, handle_provision_client, write_created,
  handle_provision_device,
}
use coap_gateway.Northbound.Clients.{
  write_registered, unless_redirected, answer_registered, register_read, handle_register_client,
}
use coap_gateway.Northbound.Routing.{
  Network, Posted, responded, refused, silent, returned, http_post, unread_body, device_missing,
  forward, handle_client_request, handle_delete, handle_resource_discovery,
}

-- The store of a site, behind an exchange.
module _ {S : Type 0} (P : S → Type 0) where
  abbrev pub Sited : Exchange (Site S) → Type 0
  Sited x = P x.state.store

  Keeps-write_header : (c : ℕ) → Keeps false Sited (write_header c)
  unfolding write_header
  Keeps-write_header c = record { after = λ x h. h; ends = λ x. tt }

  Keeps-write : (t : Text) → Keeps false Sited (write t)
  unfolding write
  Keeps-write t = record { after = λ x h. h; ends = λ x. tt }

  Keeps-header_if : (f : Bool) (c : ℕ) → Keeps false Sited (header_if f c)
  unfolding header_if
  Keeps-header_if true c = Keeps-write_header c
  Keeps-header_if false c = search kept_steps

  Keeps-with_registry :
      {A : Type 0} (m : Go S A) → Keeps false P m → Keeps false Sited (with_registry m)
  unfolding with_registry
  Keeps-with_registry m k = record {
    after = λ x h. k.after x.state.store h;
    ends = λ x. k.ends x.state.store;
  }

  Keeps-second_of : (fields : List Text) → Keeps false Sited (second_of fields)
  unfolding second_of
  Keeps-second_of [] = search kept_steps
  Keeps-second_of (a ∷ []) = search kept_steps
  Keeps-second_of (a ∷ b ∷ fields) = search kept_steps

  Keeps-mediator_token : (header : Text) → Keeps false Sited (mediator_token header)
  unfolding mediator_token
  Keeps-mediator_token header = elim (Bool-cases (contains header (codes "Bearer"))) [
    | inl q ↦ rw (q, mediator_token) (Keeps-second_of (split header (codes "Bearer ")))
    | inr q ↦ rw (q, mediator_token) (search kept_steps)
  ]

ruleset site_steps = (
  kept_steps, Keeps-write_header, Keeps-write, Keeps-header_if, Keeps-with_registry,
  Keeps-mediator_token,
)

module _ {S : Type 0} (P : S → Type 0) (k : Json) (db : Registry S) (law : Lawful P db) where
  pub handle_register_user-kept :
      (r : Request) → Keeps false (Sited P) (handle_register_user k db r)
  unfolding handle_register_user
  handle_register_user-kept r = search (site_steps, law.register_user) depth 12

  pub provision_mediator-kept : (r : Request) → Keeps false (Sited P) (provision_mediator k db r)
  unfolding provision_mediator
  provision_mediator-kept r = search (site_steps, law.provision_mediator) depth 12

  pub token_refresh-kept : (r : Request) → Keeps false (Sited P) (token_refresh k db r)
  unfolding token_refresh
  token_refresh-kept r = search (site_steps, law.refresh_token) depth 12

  write_encoded-kept : (o : Option Text) → Keeps false (Sited P) (write_encoded k db o)
  unfolding write_encoded
  write_encoded-kept none = search site_steps
  write_encoded-kept (some response) = search site_steps

  answer_client-kept : (r : Text × Option Err) → Keeps false (Sited P) (answer_client k db r)
  unfolding answer_client
  answer_client-kept (mediated, some x) = search site_steps
  answer_client-kept (mediated, none) = write_encoded-kept _

  provision_read-kept :
      (token : Text) (f : Bool) (p : Account × Bool)
      → Keeps false (Sited P) (provision_read k db token f p)
  unfolding provision_read
  provision_read-kept token true p = search site_steps
  provision_read-kept token false (a, true) = search site_steps
  provision_read-kept token false (a, false) =
      search (site_steps, answer_client-kept, law.provision_client)

  pub handle_provision_client-kept :
      (r : Request) → Keeps false (Sited P) (handle_provision_client k db r)
  unfolding handle_provision_client
  handle_provision_client-kept r = search (site_steps, provision_read-kept)

  write_created-kept : (o : Option Text) → Keeps false (Sited P) (write_created k db o)
  unfolding write_created
  write_created-kept none = search site_steps
  write_created-kept (some response) = search site_steps

  pub handle_provision_device-kept :
      (r : Request) → Keeps false (Sited P) (handle_provision_device k db r)
  unfolding handle_provision_device
  handle_provision_device-kept r =
      search (site_steps, write_created-kept, law.provision_device) depth 12

  write_registered-kept : (o : Option Text) → Keeps false (Sited P) (write_registered k db o)
  unfolding write_registered
  write_registered-kept o = search site_steps

  unless_redirected-kept :
      (uri user_id : Text) (c : ClientRegistration)
      → Keeps false (Sited P) (unless_redirected k db uri user_id c)
  unfolding unless_redirected
  unless_redirected-kept [] user_id c = write_registered-kept _
  unless_redirected-kept (u ∷ uri) user_id c = search site_steps

  answer_registered-kept :
      (x : Option Err) (user_id : Text) (c : ClientRegistration)
      → Keeps false (Sited P) (answer_registered k db x user_id c)
  unfolding answer_registered
  answer_registered-kept (some x) user_id c = search site_steps
  answer_registered-kept none user_id c = unless_redirected-kept c.redirect_uri user_id c

  register_read-kept :
      (f : Bool) (p : Account × Bool) → Keeps false (Sited P) (register_read k db f p)
  unfolding register_read
  register_read-kept true p = search site_steps
  register_read-kept false (a, true) = search site_steps
  register_read-kept false (a, false) =
      search (site_steps, answer_registered-kept, law.register_client)

  pub handle_register_client-kept :
      (r : Request) → Keeps false (Sited P) (handle_register_client k db r)
  unfolding handle_register_client
  handle_register_client-kept r = register_read-kept r.unreadable (k.decode r.body)

module _ {S : Type 0} (P : S → Type 0) (net : Network) (db : Registry S) (law : Lawful P db) where
  http_post-Stays : (p : Post) → Stays (Sited P) (http_post net db p)
  unfolding http_post
  http_post-Stays p = record { after = λ x h. h }

  unread_body-kept : (f : Bool) → Keeps false (Sited P) (unread_body net db f)
  unfolding unread_body
  unread_body-kept true = search site_steps
  unread_body-kept false = search site_steps

  device_missing-kept : (x : Option Err) → Keeps false (Sited P) (device_missing net db x)
  unfolding device_missing
  device_missing-kept (some cache_nil) = search site_steps
  device_missing-kept none = search site_steps
  device_missing-kept (some no_rows) = search site_steps
  device_missing-kept (some mediator_token_not_found) = search site_steps
  device_missing-kept (some random_failed) = search site_steps
  device_missing-kept (some driver) = search site_steps

  forward-kept : (o : Option (Text × Bool)) → Keeps false (Sited P) (forward net db o)
  unfolding forward
  forward-kept none = search site_steps
  forward-kept (some (response, failed)) = search site_steps

  unread_body-Stays : (f : Bool) → Stays (Sited P) (unread_body net db f)
  unread_body-Stays f = Keeps-Stays false _ (unread_body-kept f)

  device_missing-Stays : (x : Option Err) → Stays (Sited P) (device_missing net db x)
  device_missing-Stays x = Keeps-Stays false _ (device_missing-kept x)

  forward-Stays : (o : Option (Text × Bool)) → Stays (Sited P) (forward net db o)
  forward-Stays o = Keeps-Stays false _ (forward-kept o)

  lookup-Stays : (id : Text) → Stays (Sited P) (with_registry (db.lookup_private_ip id))
  lookup-Stays id = Keeps-Stays false _ (Keeps-with_registry P _ (law.lookup_private_ip id))

  pub handle_client_request-Stays : (r : Request) → Stays (Sited P) (handle_client_request net db r)
  unfolding handle_client_request
  handle_client_request-Stays r =
      search
        (
          Stays-bind, http_post-Stays, unread_body-Stays, device_missing-Stays, forward-Stays,
          lookup-Stays,
        )
        depth 12

  -- Where no pod is silent.
  module _ (answers : (n : ℕ) (p : Post) → net n p ≢ silent) where
    returned-Ends : (o : Posted) → o ≢ silent → Ends false (returned o)
    returned-Ends (responded response failed) h = tt
    returned-Ends refused h = tt
    returned-Ends silent h = h refl

    http_post-kept : (p : Post) → Keeps false (Sited P) (http_post net db p)
    unfolding http_post
    http_post-kept p = record {
      after = λ x h. h;
      ends = λ x. returned-Ends (net (length x.state.posts) p) (answers _ p);
    }

    pub handle_client_request-kept :
        (r : Request) → Keeps false (Sited P) (handle_client_request net db r)
    unfolding handle_client_request
    handle_client_request-kept r =
        search
          (
            site_steps, http_post-kept, unread_body-kept, device_missing-kept, forward-kept,
            law.lookup_private_ip,
          )
          depth 12

  pub handle_delete-kept : (r : Request) → Keeps false (Sited P) (handle_delete net db r)
  unfolding handle_delete
  handle_delete-kept r = search site_steps

  pub handle_resource_discovery-kept :
      (r : Request) → Keeps false (Sited P) (handle_resource_discovery net db r)
  unfolding handle_resource_discovery
  handle_resource_discovery-kept r = search site_steps
