-- ===== src/Auth/Tests.antt =====
-- Tests of the accounts and sessions, and instances of their theorems.
use playhub_playbooking.Common.{
  All, Result, [], arith, err, false, is_ok, ok, refl, some, true, ℕ, ◌%◌, ◌*◌, ◌+◌, ◌==◌, ◌∷◌, ◌≡◌,
}
use playhub_playbooking.Auth.{
  check_credentials, generate_tokens, login, logout, open_session, refresh, register, rotate,
}
use playhub_playbooking.Auth.Accounts.{logged_in, register-login}
use playhub_playbooking.Auth.Rotation.{logout-refuses, refresh-once}
use playhub_playbooking.Auth.Types.{AuthStore, Crypto, Fresh, Session, Tokens}
use playhub_playbooking.Common.Database.{update_many, update_row}
use playhub_playbooking.Common.ListDatabase.{list_database}

-- A hash is the password; a token is the session with the time at which it was signed, and is valid
-- for seven days.
abbrev crypto : Crypto
crypto = record {
  hash_password = λ salt password. password;
  compare = λ password hash. password == hash;
  compare-hash_password = λ salt password. ground arith;
  sign_access = λ payload now. payload.sid + 1000 * now;
  sign_refresh = λ payload now. payload.sid + 1000 * now;
  verify_refresh = λ token now. some (record { sub = 1; email = 10; sid = token % 1000 });
  hash_token = λ token. token;
  add_days = λ days now. now + 86400000 * days;
}

abbrev fresh : ℕ → Fresh
fresh n = record { salt = 0; user_id = 1; session_id = 100 + n; token_id = n }

abbrev empty : AuthStore
empty = record { users = []; sessions = []; tokens = [] }

unfoldable auth_program : Unit {0}
unfolding generate_tokens check_credentials open_session login register rotate refresh logout
    update_row update_many
auth_program = tt

abbrev registered : AuthStore
registered = (register list_database crypto 1 (fresh 1) empty 10 55 "Asha").1

register-login_example :
    login list_database crypto 9 (fresh 2) registered 10 55
    ≡ logged_in crypto 9 (fresh 2) 1 10 registered
unfolding auth_program
register-login_example =
    register-login list_database crypto 1 9 (fresh 1) (fresh 2) empty 10 55 "Asha" refl
      ((refl, tt), (refl, tt))

abbrev renewed : Result (Tokens × AuthStore)
renewed = refresh list_database crypto 2 2 registered 1101

abbrev after_of : Result (Tokens × AuthStore) → AuthStore
after_of (ok (tokens, after)) = after
after_of (err e) = empty

refresh-once_example : is_ok (refresh list_database crypto 3 3 (after_of renewed) 1101) ≡ false
unfolding auth_program
refresh-once_example =
    refresh-once list_database crypto 2 3 2 3 registered 1101
      (record { access_token = 2101; refresh_token = 2101 }) (after_of renewed) (tt, tt) refl

-- The first token is used again, which is refused; the session stays, and its new token works.
refresh-reuse :
    (is_ok (refresh list_database crypto 3 3 (after_of renewed) 1101) ≡ false)
    × (is_ok (refresh list_database crypto 4 4 (after_of renewed) 2101) ≡ true)
unfolding auth_program
refresh-reuse = (refl, refl)

abbrev left : AuthStore
left = record {
  users = registered.users;
  sessions =
      record {
        id = 101;
        user_id = 1;
        is_active = false;
        expires_at = 604800001;
        revoked_at = some 5;
      }
      ∷ [];
  tokens =
      record {
        id = 1;
        token_hash = 1101;
        session_id = 101;
        is_used = false;
        is_revoked = true;
        expires_at = 604800001;
      }
      ∷ [];
}

logout-refuses_example :
    All (λ (s : Session). s.id ≡ 101 → s.is_active ≡ false) left.sessions
    × (is_ok (refresh list_database crypto 6 2 left 1101) ≡ false)
unfolding auth_program
logout-refuses_example =
    logout-refuses list_database crypto 5 6 2 registered 101 1101 left ((λ _. refl), tt) refl
