-- ===== src/Examples/Data.antt =====
-- The users, identities and tables that the examples run on.
use knives.Prelude.{codes, true, false, [], ◌∷◌, none, some, text_eq}
use knives.Permission.{owner}
use knives.World.{World}
use knives.World.Rows.{
  User, UserStatus, AuthIdentity, local, oidc, LocalCredential, AuthSettings, UrlPermission,
  ShortUrl, Status, Source,
}
use knives.Auth.Crypto.{Crypto}
use knives.Auth.Identity.{Resolver}
use knives.Auth.Signup.{LocalSignup}

-- Hashes that keep the text as it is.
abbrev pub plain_crypto : Crypto
plain_crypto = record {
  hash_token = λ raw. raw;
  create_hash = λ salt password. some password;
  compare = λ password hash. some (text_eq password hash);
}

abbrev pub site : Resolver
site = record {
  confirm_base_url = codes "https://s.example/confirm";
  pending_links_url = codes "https://s.example/links";
  token_ttl = 0;
}

abbrev pub signup_site : LocalSignup
signup_site = record { verify_base_url = codes "https://s.example/verify"; token_ttl = 0 }

abbrev pub alice : User
alice = record {
  id = 1;
  email = codes "alice@x.org";
  email_verified = true;
  is_system_admin = false;
  status = UserStatus.active;
  created_at = 0;
}

abbrev pub bob : User
bob = record alice { id = 2; email = codes "bob@x.org" }

-- The identity of alice's local account.
abbrev pub alice_local : AuthIdentity
alice_local = record {
  id = 11;
  user_id = 1;
  provider_type = local;
  provider_config_id = none;
  subject = codes "alice@x.org";
  email_at_link = codes "alice@x.org";
  verified = true;
  last_used_at = none;
}

-- Her identity at the provider of configuration 7.
abbrev pub alice_oidc : AuthIdentity
alice_oidc = record alice_local {
  id = 12;
  provider_type = oidc;
  provider_config_id = some 7;
  subject = codes "sub-1";
}

abbrev pub alice_credential : LocalCredential
alice_credential = record {
  user_id = 1;
  password_hash = codes "right-password";
  failed_attempts = 3;
  locked_until = none;
}

abbrev pub settings : AuthSettings
settings = record {
  local_auth_enabled = true;
  self_signup_enabled = true;
  require_email_confirmation = true;
  require_reauth = true;
}

abbrev pub short_url : ShortUrl
short_url = record {
  id = 31;
  domain_id = 5;
  short_code = codes "abc";
  long_url = codes "https://a.example/";
  title = [];
  description = [];
  created_by = 1;
  status = Status.active;
  expires_at = none;
  source = Source.native;
  created_at = 3;
}

abbrev pub alice_owns : UrlPermission
alice_owns = record { short_url_id = 31; user_id = 1; role = owner; granted_by = 1; granted_at = 3 }

-- Alice and bob are registered, alice owns a short URL, and no call fails.
abbrev pub world : World
world = record {
  users = alice ∷ bob ∷ [];
  identities = alice_local ∷ alice_oidc ∷ [];
  pending_links = [];
  credentials = alice_credential ∷ [];
  signups = [];
  audit_log = [];
  auth_settings = settings;
  short_urls = short_url ∷ [];
  permissions = alice_owns ∷ [];
  clicks = [];
  daily = [];
  sessions = [];
  session_index = [];
  providers = record { oidc_configs = []; saml_configs = [] };
  passkeys = [];
  ceremonies = record {
    oidc_states = [];
    saml_requests = [];
    saml_assertions = [];
    passkey_sessions = [];
  };
  cache = [];
  published = [];
  charset = codes "abcdef";
  code_length = 2;
  outbox = [];
  faults = [];
  tokens = codes "t1" ∷ codes "t2" ∷ [];
  draws = 1 ∷ 2 ∷ 3 ∷ [];
  next_id = 100;
  clock = 1000;
  comparisons = 0;
}
