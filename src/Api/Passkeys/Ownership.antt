-- ===== src/Api/Passkeys/Ownership.antt =====
-- Users manage their own passkeys alone.
use knives.Prelude.{
  ℕ, ◌≡◌, refl, ap, ◌∙◌, ==_refl, Text, ◌==◌, not, List, [], ◌∷◌, Option, none, some, count, select,
  select-select, select-update, Bool-cases, inl, inr, arith,
}
use knives.Permission.{Subject}
use knives.World.{World, statement, failing}
use knives.World.Effects.{Result, ok, err, Err, Exec, lift, or_raise, protocol_error}
use knives.World.Effects.Inversion.{bind_cases}
use knives.World.Logins.{Passkey}
use knives.Storage.Accounts.{find_user_by_id}
use knives.Storage.Passkeys.{
  is_own, NewPasskey, create_passkey, update_passkey_name, delete_passkey, find_passkeys_by_user_id,
}
use knives.Auth.Nonces.{consume_ceremony}
use knives.Auth.Passkeys.{
  WebauthnLibrary, normalize_passkey_name, load_webauthn_user, consume_session, finish_registration,
  registered,
}
use knives.Api.{Reply, reply, send, try, handle}
use knives.Api.ShortUrls.{read_error}
use knives.Api.Passkeys.{
  name_error, register_error, to_passkey_response, handle_update_passkey_name,
  handle_delete_passkey, register_ceremony, handle_passkey_register_finish,
}

-- The passkeys of everybody else.
abbrev pub of_others : ℕ → World → List Passkey
of_others user_id w = select (λ p. not (p.user_id == user_id)) w.passkeys

delete_scope :
    (id user_id : ℕ) (w : World)
    → of_others user_id (delete_passkey id user_id w).1 ≡ of_others user_id w
unfolding delete_passkey statement
delete_scope id user_id w =
    let rest =
      select-select (λ p. not (p.user_id == user_id)) (λ p. not (is_own id user_id p))
        (λ p e. ground arith) w.passkeys in
    elim (Bool-cases (failing w.faults)) [
      | inl f ↦ rw f refl
      | inr f ↦ elim (Bool-cases (count (is_own id user_id) w.passkeys == 0)) [
        | inl missing ↦ rw (f, missing) refl
        | inr there ↦ rw (f, there) rest
      ]
    ]

rename_scope :
    (id user_id : ℕ) (name : Text) (w : World)
    → of_others user_id (update_passkey_name id user_id name w).1 ≡ of_others user_id w
unfolding update_passkey_name statement
rename_scope id user_id name w =
    let rest =
      select-update (λ p. not (p.user_id == user_id)) (is_own id user_id)
        (λ p. record p { name = name }) (λ p e. (ground arith, ground arith)) w.passkeys in
    elim (Bool-cases (failing w.faults)) [ inl f ↦ rw f refl | inr f ↦ rw f rest ]

create_scope :
    (n : NewPasskey) (w : World)
    → of_others n.user_id (create_passkey n w).1 ≡ of_others n.user_id w
unfolding create_passkey statement select
create_scope n w = ground (arith, ==_refl n.user_id)

load_state : (user_id : ℕ) (w : World) → (load_webauthn_user user_id w).1.passkeys ≡ w.passkeys
unfolding load_webauthn_user find_user_by_id find_passkeys_by_user_id statement
load_state user_id w = ground arith

session_state :
    (ceremony_id : Text) (w : World) → (consume_session ceremony_id w).1.passkeys ≡ w.passkeys
unfolding consume_session consume_ceremony statement
session_state ceremony_id w = ground arith

register_scope :
    (lib : WebauthnLibrary) (user_id : ℕ) (ceremony_id name response : Text) (w : World)
    → of_others user_id (finish_registration lib user_id ceremony_id name response w).1
      ≡ of_others user_id w
unfolding finish_registration
register_scope lib user_id ceremony_id name response w =
    let others = λ (rows : List Passkey). select (λ p. not (p.user_id == user_id)) rows in
    let R = λ (x : Result (Unit {0}) × World). of_others user_id x.1 ≡ of_others user_id w in
    bind_cases R (consume_session ceremony_id) _ w (λ e h. ap others (session_state ceremony_id w))
      (λ session h.
        let v = (consume_session ceremony_id w).1 in
        let loaded = ap others (load_state user_id v) ∙ ap others (session_state ceremony_id w) in
        bind_cases R (load_webauthn_user user_id) _ v (λ e k. loaded)
          (λ user k.
            bind_cases R (or_raise protocol_error (lib.finish_registration user session response)) _
              (load_webauthn_user user_id v).1 (λ e j. loaded)
              (λ credential j.
                create_scope (registered user_id name credential) (load_webauthn_user user_id v).1
                ∙ loaded)))

handled :
    {A B : Type 0} (on_error : Err → Reply B) (f : A → Reply B) (r : Result A × World)
    → (handle on_error (λ a. send (f a)) r).1 ≡ r.1
handled on_error f (ok a, w) = refl
handled on_error f (err e, w) = refl

-- A handler that answers the result of an action leaves the action's state.
try_state :
    {A B : Type 0} (m : Exec World A) (on_error : Err → Reply B) (f : A → Reply B) (w : World)
    → (try m on_error (λ a. send (f a)) w).1 ≡ (m w).1
try_state m on_error f w = handled on_error f (m w)

handle_delete_scope :
    (subject : Subject) (id : Option ℕ) (w : World)
    → of_others subject.user_id (handle_delete_passkey (some subject) id w).1
      ≡ of_others subject.user_id w
unfolding handle_delete_passkey
handle_delete_scope subject none w = refl
handle_delete_scope subject (some id) w =
    ap (of_others subject.user_id) (try_state (delete_passkey id subject.user_id) _ _ w)
    ∙ delete_scope id subject.user_id w

renamed_scope :
    (subject : Subject) (id : ℕ) (name : Result Text) (w : World)
    → of_others subject.user_id
        (try
          (lift name)
          name_error
          (λ s.
            try
              (update_passkey_name id subject.user_id s)
              read_error
              (λ cred. send (reply 200 (to_passkey_response cred))))
          w).1
      ≡ of_others subject.user_id w
renamed_scope subject id (err e) w = refl
renamed_scope subject id (ok s) w =
    ap (of_others subject.user_id) (try_state (update_passkey_name id subject.user_id s) _ _ w)
    ∙ rename_scope id subject.user_id s w

handle_rename_scope :
    (subject : Subject) (id : Option ℕ) (name : Option Text) (w : World)
    → of_others subject.user_id (handle_update_passkey_name (some subject) id name w).1
      ≡ of_others subject.user_id w
unfolding handle_update_passkey_name
handle_rename_scope subject none name w = refl
handle_rename_scope subject (some id) none w = refl
handle_rename_scope subject (some id) (some raw) w =
    renamed_scope subject id (normalize_passkey_name raw) w

named_scope :
    (lib : WebauthnLibrary) (subject : Subject) (ceremony_id response : Text) (name : Result Text)
    (w : World)
    → of_others subject.user_id
        (try
          (lift name)
          name_error
          (λ s.
            try
              (finish_registration lib subject.user_id ceremony_id s response)
              register_error
              (λ _. send (reply 201 tt)))
          w).1
      ≡ of_others subject.user_id w
named_scope lib subject ceremony_id response (err e) w = refl
named_scope lib subject ceremony_id response (ok s) w =
    ap (of_others subject.user_id)
      (try_state (finish_registration lib subject.user_id ceremony_id s response) _ _ w)
    ∙ register_scope lib subject.user_id ceremony_id s response w

register_ceremony_scope :
    (lib : WebauthnLibrary) (subject : Subject) (ceremony_id raw_name response : Text) (w : World)
    → of_others subject.user_id (register_ceremony lib subject ceremony_id raw_name response w).1
      ≡ of_others subject.user_id w
unfolding register_ceremony
register_ceremony_scope lib subject [] raw_name response w = refl
register_ceremony_scope lib subject (c ∷ ceremony_id) raw_name response w =
    named_scope lib subject (c ∷ ceremony_id) response (normalize_passkey_name raw_name) w

-- Whatever a user asks of the passkeys, with whatever calls failing: every passkey of somebody else
-- stands as before, whether one is removed, renamed or registered.
pub passkeys_of_others_stay :
    (lib : WebauthnLibrary) (subject : Subject) (id : Option ℕ) (name : Option Text)
    (ceremony_id raw_name response : Text) (w : World)
    → (of_others subject.user_id (handle_delete_passkey (some subject) id w).1
        ≡ of_others subject.user_id w)
      × (of_others subject.user_id (handle_update_passkey_name (some subject) id name w).1
          ≡ of_others subject.user_id w)
      × (of_others subject.user_id
            (handle_passkey_register_finish lib (some subject) ceremony_id raw_name response w).1
          ≡ of_others subject.user_id w)
unfolding handle_passkey_register_finish
passkeys_of_others_stay lib subject id name ceremony_id raw_name response w = (
  handle_delete_scope subject id w,
  handle_rename_scope subject id name w,
  register_ceremony_scope lib subject ceremony_id raw_name response w,
)
