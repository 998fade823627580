-- ===== src/Examples/Sessions.antt =====
-- Sessions, the requests that they authenticate, and the administration of users.
use knives.Storage.Credentials.{find_local_credential, reset_failed_attempts}
use knives.Storage.Accounts.{find_user_by_email}
use knives.Auth.Local.{
  login, login_user, login_credential, login_with, compare_password, login_matched,
}
use knives.Prelude.{
  ℕ, ◌+◌, ◌≡◌, ◌≢◌, refl, codes, true, false, [], ◌∷◌, Option, none, some, find, select, any, arith,
  text_eq, update, equal_fold,
}
use knives.Permission.{Subject}
use knives.World.{World, statement, raw_token}
use knives.World.Rows.{Session, User}
use knives.Auth.Identity.{generate_token}
use knives.Auth.Sessions.{
  new_session, create_session, find_session, delete_all_for_user, touch_session, put_new_session,
  get_session, without_hash, members, remove_unless_empty, remove_sessions, expire_members,
}
use knives.Auth.Sessions.Revocation.{Reachable, start, after, creates, revoked_for_good}
use knives.Api.{Handler, reply, send}
use knives.Api.Sessions.{require_auth}
use knives.Api.Sessions.Login.{login_then_authenticated}
use knives.Api.Logins.{Credentials, handle_local_login, start_session}
use knives.Api.Admin.{PatchUserRequest, handle_patch_user}
use knives.Api.Admin.Caller.{IsActiveAdmin, patch_keeps_caller}
use knives.Examples.Data.{world, plain_crypto, alice, bob}

abbrev ttl : ℕ
ttl = 500

-- Alice and then bob have logged in.
abbrev alice_in : World
alice_in = (create_session plain_crypto 1 ttl world).1

abbrev both_in : World
both_in = (create_session plain_crypto 2 ttl alice_in).1

abbrev bob_session : Session
bob_session = new_session plain_crypto 2 1000 ttl

both_reachable : Reachable plain_crypto ttl both_in
both_reachable = after (after (start {w = world} refl) (creates 1 world)) (creates 2 alice_in)

revoked_for_good_example : bob_session.user_id ≢ 1
unfolding delete_all_for_user members statement create_session generate_token raw_token
    put_new_session remove_unless_empty remove_sessions select expire_members update find_session
    get_session find any text_eq without_hash
revoked_for_good_example =
    revoked_for_good plain_crypto ttl both_in both_reachable 1 refl (codes "t2") 10 bob_session refl

abbrev who : Option Subject → Handler (Option Subject)
who subject = send (reply 200 subject)

abbrev her_password : Credentials
her_password = record { email = codes "alice@x.org"; password = codes "right-password" }

login_then_authenticated_example :
    let w1 = (handle_local_login plain_crypto ttl (codes "dummy") (some her_password) world).1 in
    let w2 : World = record w1 { clock = w1.clock + 10 } in
    require_auth plain_crypto ttl (some (codes "t1")) who w2
    ≡ who
        (some (record { user_id = 1; is_system_admin = false }))
        (touch_session plain_crypto (codes "t1") ttl w2).1
unfolding login login_user find_user_by_email statement find equal_fold login_credential
    find_local_credential login_with compare_password login_matched reset_failed_attempts update
    handle_local_login start_session create_session generate_token raw_token put_new_session
    without_hash expire_members select text_eq
login_then_authenticated_example =
    login_then_authenticated plain_crypto ttl (codes "dummy") her_password world alice alice
      (codes "t1") 10 who refl refl (ground arith) refl refl

abbrev admin : User
admin = record alice { is_system_admin = true }

abbrev administered : World
administered = record world { users = admin ∷ bob ∷ [] }

abbrev the_admin : Subject
the_admin = record { user_id = 1; is_system_admin = true }

abbrev demotion : PatchUserRequest
demotion = record { is_system_admin = some false; status = none }

patch_keeps_caller_example :
    IsActiveAdmin 1 (handle_patch_user (some the_admin) (some 1) (some demotion) administered).1
unfolding find
patch_keeps_caller_example =
    patch_keeps_caller the_admin (some 1) (some demotion) administered (admin, refl, refl)
