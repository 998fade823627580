-- ===== src/World/Rows.antt =====
-- The rows of the tables that internal/storage reads and writes, and the values that
-- internal/auth and internal/shorturl pass around. UUIDs and times are numbers.
use knives.Prelude.{ℕ, Text, String, Bool, Option, List}
use knives.Permission.{Role}

-- users.status
pub data UserStatus : Type 0 where
  active suspended : UserStatus

pub record User : Type 0 where
  pub id : ℕ
  pub email : Text
  pub email_verified : Bool
  pub is_system_admin : Bool
  pub status : UserStatus
  pub created_at : ℕ

pub data ProviderType : Type 0 where
  local saml oidc : ProviderType

pub record AuthIdentity : Type 0 where
  pub id : ℕ
  pub user_id : ℕ
  pub provider_type : ProviderType
  pub provider_config_id : Option ℕ
  pub subject : Text
  pub email_at_link : Text
  pub verified : Bool
  pub last_used_at : Option ℕ

pub record PendingLinkRequest : Type 0 where
  pub id : ℕ
  pub existing_user_id : ℕ
  pub provider_type : ProviderType
  pub provider_config_id : Option ℕ
  pub subject : Text
  pub token_hash : Text
  pub expires_at : ℕ
  pub confirmed_at : Option ℕ

-- `password_hash` is empty, or NULL, for a user who has never set a local password.
pub record LocalCredential : Type 0 where
  pub user_id : ℕ
  pub password_hash : Text
  pub failed_attempts : ℕ
  pub locked_until : Option ℕ

pub record SignupVerification : Type 0 where
  pub id : ℕ
  pub email : Text
  pub password_hash : Text
  pub token_hash : Text
  pub expires_at : ℕ

pub data MetaValue : Type 0 where
  word : String → MetaValue
  flag : Bool → MetaValue

pub record MetaField : Type 0 where
  pub name : String
  pub value : MetaValue

pub record AuditLogEntry : Type 0 where
  pub actor_user_id : Option ℕ
  pub action : String
  pub target_type : String
  pub target_id : Option ℕ
  pub metadata : List MetaField

-- The mails of internal/auth, each with the link that it carries.
pub data MailBody : Type 0 where
  link_confirmation link_review_notice signup_verification : Text → MailBody

pub record Mail : Type 0 where
  pub to_email : Text
  pub body : MailBody

pub record AuthSettings : Type 0 where
  pub local_auth_enabled : Bool
  pub self_signup_enabled : Bool
  pub require_email_confirmation : Bool
  pub require_reauth : Bool

pub data Status : Type 0 where
  active disabled expired : Status

pub data Source : Type 0 where
  native yourls_import : Source

-- A NULL title or description is the empty text, as `textOrNull` and `.String` read it.
pub record ShortUrl : Type 0 where
  pub id : ℕ
  pub domain_id : ℕ
  pub short_code : Text
  pub long_url : Text
  pub title : Text
  pub description : Text
  pub created_by : ℕ
  pub status : Status
  pub expires_at : Option ℕ
  pub source : Source
  pub created_at : ℕ

pub record UrlPermission : Type 0 where
  pub short_url_id : ℕ
  pub user_id : ℕ
  pub role : Role
  pub granted_by : ℕ
  pub granted_at : ℕ

-- The JSON value that cmd/redirect stores for one short code, or bytes that do not decode.
pub data Cached : Type 0 where
  target : ℕ → Text → Cached
  corrupt : Cached

-- The key is the domain's id and the short code, joined by a colon.
pub record CacheKey : Type 0 where
  pub domain_id : ℕ
  pub short_code : Text

pub record CacheEntry : Type 0 where
  pub domain_id : ℕ
  pub short_code : Text
  pub value : Cached

-- click_stats_daily
pub record DailyRow : Type 0 where
  pub short_url_id : ℕ
  pub date : ℕ
  pub click_count : ℕ

-- The Redis stream id is a number here: only its equality is used.
pub record ClickEvent : Type 0 where
  pub stream_id : ℕ
  pub short_url_id : ℕ
  pub clicked_at : ℕ
  pub referrer_host : Text
  pub user_agent_raw : Text
  pub ip_hash : Text
  pub country_code : Text
  pub os : String
  pub browser : String

-- internal/auth/session.go
pub record Session : Type 0 where
  pub user_id : ℕ
  pub created_at : ℕ
  pub expires_at : ℕ
  pub last_seen_at : ℕ

-- The key `session:` with a token's hash, with the time at which Redis drops it.
pub record SessionEntry : Type 0 where
  pub hash : Text
  pub session : Session
  pub dies_at : ℕ

-- One member of a user's set `user_sessions:`, with the time at which Redis drops the set.
pub record SessionMember : Type 0 where
  pub user_id : ℕ
  pub hash : Text
  pub dies_at : ℕ
