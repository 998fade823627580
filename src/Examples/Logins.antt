-- ===== src/Examples/Logins.antt =====
-- Login attempts and requests to link an identity.
use knives.Prelude.{
  codes, ◌≡◌, ◌≢◌, refl, true, false, [], ◌∷◌, none, some, find, any, count, text_eq, equal_fold,
  arith,
}
use knives.World.{World, statement}
use knives.World.Effects.{ok}
use knives.World.Rows.{PendingLinkRequest, oidc, saml}
use knives.Storage.Accounts.{
  has_key, find_auth_identity, find_user_by_email, count_auth_identities_for_user,
  create_auth_identity, key_taken, record_audit_log, find_pending_link_request_by_id,
  find_user_by_id, confirm_pending_link_request,
}
use knives.Auth.Identity.{
  LoginAttempt, logged_in, resolve, approve_pending_link, resolve_by_identity, resolve_by_email,
  resolve_existing_user, attach_identity, record_link_audit, complete_link, link_to,
}
use knives.Auth.Identity.Safety.{IsHeldBack, untrusted_no_takeover}
use knives.Auth.Identity.Linking.{linked_user, logged_in_linked}
use knives.Auth.Identity.Requests.{IsCompleted, by_id, approve_ok, approve_once}
use knives.Examples.Data.{plain_crypto, site, world, alice, bob}

-- A stranger's account at another provider, under alice's email.
abbrev stranger : LoginAttempt
stranger = record {
  provider_type = saml;
  provider_config_id = some 8;
  subject = codes "mallory";
  email = codes "Alice@X.org";
  email_verified = true;
  trusted = false;
}

untrusted_no_takeover_example : IsHeldBack world (resolve plain_crypto site stranger world)
unfolding find count has_key text_eq equal_fold
untrusted_no_takeover_example =
    untrusted_no_takeover plain_crypto site stranger world alice refl refl (omega arith) refl

-- The stranger's account where its provider is trusted.
abbrev vouched : LoginAttempt
vouched = record stranger { trusted = true }

logged_in_linked_example :
    linked_user vouched (resolve plain_crypto site vouched world).1.identities ≡ some 1
unfolding resolve find resolve_by_identity find_auth_identity statement has_key resolve_by_email
    find_user_by_email equal_fold resolve_existing_user count_auth_identities_for_user count
    attach_identity create_auth_identity key_taken any record_link_audit record_audit_log
logged_in_linked_example = logged_in_linked plain_crypto site vouched world alice refl

abbrev request : PendingLinkRequest
request = record {
  id = 21;
  existing_user_id = 1;
  provider_type = saml;
  provider_config_id = some 8;
  subject = codes "alice-work";
  token_hash = codes "t0";
  expires_at = 2000;
  confirmed_at = none;
}

abbrev asked : World
asked = record world { pending_links = request ∷ [] }

approved : (approve_pending_link 1 21 asked).0 ≡ ok (logged_in alice)
unfolding approve_pending_link find_pending_link_request_by_id statement find complete_link link_to
    find_user_by_id create_auth_identity key_taken any has_key confirm_pending_link_request
    record_link_audit record_audit_log
approved = refl

approve_ok_example :
    (p : PendingLinkRequest) × (find (by_id 21) asked.pending_links ≡ some p)
    × (p.existing_user_id ≡ 1)
    × IsCompleted p 1 1000 asked (approve_pending_link 1 21 asked).1 alice
approve_ok_example = approve_ok 1 21 asked alice approved

approve_once_example :
    (approve_pending_link 2 21 (approve_pending_link 1 21 asked).1).0 ≢ ok (logged_in bob)
approve_once_example = approve_once 1 21 asked alice approved 2 bob

-- The request that the other email at alice's provider leads to.
abbrev relink : PendingLinkRequest
relink = record request {
  provider_type = oidc;
  provider_config_id = some 7;
  subject = codes "sub-1";
}
