-- ===== src/Examples/Passkeys.antt =====
-- Passkeys: alice logs in by hers, and bob's stands as before.
use knives.Prelude.{codes, ◌≡◌, true, false, [], ◌∷◌, none, some}
use knives.Permission.{Subject}
use knives.World.{World}
use knives.World.Logins.{Passkey}
use knives.Auth.Passkeys.{WebauthnLibrary, Assertion, finish_passkey_login}
use knives.Api.Passkeys.{
  handle_delete_passkey, handle_update_passkey_name, handle_passkey_register_finish,
}
use knives.Api.Passkeys.Ownership.{of_others, passkeys_of_others_stay}
use knives.Examples.Data.{world}

abbrev alices : Passkey
alices = record {
  id = 41;
  user_id = 1;
  credential_id = codes "k1";
  public_key = codes "p";
  sign_count = 3;
  transports = [];
  name = codes "phone";
  created_at = 5;
  last_used_at = none;
  user_present = true;
  user_verified = true;
  backup_eligible = false;
  backup_state = false;
}

abbrev bobs : Passkey
bobs = record alices { id = 42; user_id = 2; credential_id = codes "k2" }

abbrev genuine : Assertion
genuine = record {
  credential_id = codes "k1";
  sign_count = 4;
  clone_warning = false;
  backup_state = false;
}

abbrev library : Assertion → WebauthnLibrary
library assertion = record {
  begin_registration = λ user. none;
  begin_discoverable_login = none;
  finish_registration = λ user session response. none;
  user_handle = λ session response. some response;
  finish_passkey_login = λ user session response. some assertion;
  parse_uuid = λ handle. some 1;
}

-- A ceremony is under way.
abbrev holding : World
holding = record world {
  passkeys = alices ∷ bobs ∷ [];
  ceremonies = record world.ceremonies {
    passkey_sessions = record { key = codes "c1"; value = codes "session"; dies_at = 5000 } ∷ [];
  };
}

abbrev caller : Subject
caller = record { user_id = 1; is_system_admin = false }

-- Alice asks for bob's passkey, 42.
passkeys_of_others_stay_example :
    (of_others 1 (handle_delete_passkey (some caller) (some 42) holding).1 ≡ of_others 1 holding)
    × (of_others 1 (handle_update_passkey_name (some caller) (some 42) (some (codes "x")) holding).1
        ≡ of_others 1 holding)
    × (of_others 1
          (handle_passkey_register_finish
            (library genuine)
            (some caller)
            (codes "c1")
            (codes "key")
            (codes "response")
            holding).1
        ≡ of_others 1 holding)
passkeys_of_others_stay_example =
    passkeys_of_others_stay (library genuine) caller (some 42) (some (codes "x")) (codes "c1")
      (codes "key") (codes "response") holding
