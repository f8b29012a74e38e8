-- ===== src/Auth/Accounts.antt =====
-- An account of backend/src/auth/auth.service.ts opens with its password, for its own user.
use Prim.Native.String.{String}
use playhub_playbooking.Common.{
  All, Bool, List, Option-cases, Result, Result-cases, arith, false, inl, inr, is_some, none, ok,
  refl, some, subst, sym, throw_if-eq-ok, true, ℕ, ◌==◌, ◌∙◌, ◌∷◌, ◌≡◌,
}
use playhub_playbooking.Auth.{
  check_credentials, generate_tokens, login, new_user, open_session, payload_of, register,
  user_with,
}
use playhub_playbooking.Auth.Rotation.{generate_tokens-ok}
use playhub_playbooking.Auth.Types.{
  AuthStore, Crypto, Fresh, JwtPayload, RefreshToken, Session, Tokens, User,
}
use playhub_playbooking.Common.Database.{Database}
use playhub_playbooking.Common.Queries.{find_first_only}

open_session-users :
    (db : Database) (crypto : Crypto) (now session_id : ℕ) (store : AuthStore) (user : User)
    (after : AuthStore)
    → open_session db crypto now session_id store user ≡ ok after
    → after.users ≡ store.users
unfolding open_session
open_session-users db crypto now session_id store user after h =
    let p = λ (s : Session). s.id == session_id in
    let (_, k) = throw_if-eq-ok (is_some (db.find_first p store.sessions)) _ _ h in cc

-- A login, also one that throws, leaves the users.
login-users :
    (db : Database) (crypto : Crypto) (now : ℕ) (fresh : Fresh) (store : AuthStore)
    (email password : ℕ)
    → (login db crypto now fresh store email password).1.users ≡ store.users
unfolding login
login-users db crypto now fresh store email password =
    elim (Result-cases (check_credentials db crypto store email password)) [
      | inr (x, e) ↦ rw (login, e) refl
      | inl (user, e) ↦
          elim (Result-cases (open_session db crypto now fresh.session_id store user)) [
            | inr (x, k) ↦ rw (login, e, k) refl
            | inl (with_session, k) ↦
                let kept =
                  open_session-users db crypto now fresh.session_id store user with_session k in
                let payload = payload_of user fresh.session_id in
                elim (Result-cases
                  (generate_tokens db crypto now fresh.token_id with_session payload)) [
                    | inr (x, l) ↦ rw (login, e, k, l) kept
                    | inl ((tokens, after), l) ↦
                        let (_, _, _, same, _) =
                          generate_tokens-ok db crypto now fresh.token_id with_session payload
                            tokens after l in
                        rw (login, e, k, l) (same ∙ kept)
                  ]
          ]
    ]

-- After a registration, at any time and also where its login threw, the email and the password are
-- those of the account that was made.
pub register-check_credentials :
    (db : Database) (crypto : Crypto) (now : ℕ) (fresh : Fresh) (store : AuthStore)
    (email password : ℕ) (full_name : String)
    → is_some (user_with db store email) ≡ false
    → check_credentials db crypto
        (register db crypto now fresh store email password full_name).1
        email
        password
      ≡ ok (new_user crypto fresh email password full_name)
unfolding register check_credentials
register-check_credentials db crypto now fresh store email password full_name free =
    let made = new_user crypto fresh email password full_name in
    let with_user : AuthStore = record store { users = made ∷ store.users } in
    let after = (login db crypto now fresh with_user email password).1 in
    let p = λ (u : User). u.email == email in
    let others : All (λ (u : User). p u ≡ false) store.users =
      elim (Option-cases (user_with db store email)) [
        | inl e ↦ db.find_first-none p store.users e
        | inr (u, e) ↦ absurd (cc (rw e at free))
      ] in
    let self : (email == email) ≡ true = ground arith in
    let users : after.users ≡ made ∷ store.users =
      login-users db crypto now fresh with_user email password in
    let found : user_with db after email ≡ some made =
      subst (λ (us : List User). db.find_first p us ≡ some made) (sym users)
        (find_first_only db p made store.users self others) in
    let fits = crypto.compare-hash_password fresh.salt password in
    rw (register, free, check_credentials, found, fits) refl

-- The tables and the tokens after a login of the user, written out: a session of the user that is
-- active for seven days, and the hash of a refresh token of that session, both tokens being signed for
-- the user, the email and the session.
abbrev pub logged_in : Crypto → ℕ → Fresh → ℕ → ℕ → AuthStore → Result Tokens × AuthStore
logged_in crypto now next user_id email store =
    let payload : JwtPayload = record { sub = user_id; email = email; sid = next.session_id } in
    (
      ok (record {
        access_token = crypto.sign_access payload now;
        refresh_token = crypto.sign_refresh payload now;
      }),
      record store {
        sessions =
            record {
              id = next.session_id;
              user_id = user_id;
              is_active = true;
              expires_at = crypto.add_days 7 now;
              revoked_at = none;
            }
            ∷ store.sessions;
        tokens =
            record {
              id = next.token_id;
              token_hash = crypto.hash_token (crypto.sign_refresh payload now);
              session_id = next.session_id;
              is_used = false;
              is_revoked = false;
              expires_at = crypto.add_days 7 now;
            }
            ∷ store.tokens;
      },
    )

-- The identifier of the session and the hash of the token are in no row.
abbrev pub IsNew : Crypto → ℕ → Fresh → ℕ → ℕ → AuthStore → Type 0
IsNew crypto now next user_id email store =
    All (λ (s : Session). (s.id == next.session_id) ≡ false) store.sessions
    × All
        (λ (t : RefreshToken).
          (t.token_hash
            == crypto.hash_token (
                crypto.sign_refresh (record { sub = user_id; email = email; sid = next.session_id })
                  now))
          ≡ false)
        store.tokens

not_found_new :
    {A : Type 0} (db : Database) (p : A → Bool) (rows : List A)
    → All (λ a. p a ≡ false) rows
    → is_some (db.find_first p rows) ≡ false
not_found_new db p rows fresh = elim (Option-cases (db.find_first p rows)) [
  | inl e ↦ rw e refl
  | inr (a, e) ↦
      let k = db.find_first-some p rows a e in
      absurd (let l = db.find_first-All (λ a. p a ≡ false) p rows a e fresh in cc)
]

-- After a registration with an email that was free, a login with the email and the password, at any
-- time, answers tokens that are signed for the account that was made and for the new session, and adds
-- the session of that account and the hash of its refresh token to the tables, if the identifier of
-- the session and the hash of the token are new.
pub register-login :
    (db : Database) (crypto : Crypto) (now later : ℕ) (fresh next : Fresh) (store : AuthStore)
    (email password : ℕ) (full_name : String)
    → is_some (user_with db store email) ≡ false
    → IsNew crypto later next fresh.user_id email
        (register db crypto now fresh store email password full_name).1
    → login db crypto later next
        (register db crypto now fresh store email password full_name).1
        email
        password
      ≡ logged_in crypto later next fresh.user_id email
          (register db crypto now fresh store email password full_name).1
unfolding login open_session generate_tokens
register-login db crypto now later fresh next store email password full_name free
      (sessions, tokens) =
    let after = (register db crypto now fresh store email password full_name).1 in
    let known =
      register-check_credentials db crypto now fresh store email password full_name free in
    let unopened =
      not_found_new db (λ (s : Session). s.id == next.session_id) after.sessions sessions in
    let unsigned = not_found_new db _ after.tokens tokens in
    rw (login, known, open_session, unopened, generate_tokens, unsigned) refl
