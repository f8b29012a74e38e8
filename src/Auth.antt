-- ===== src/Auth.antt =====
-- backend/src/auth/auth.service.ts: accounts, sessions and their refresh tokens. Where the code
-- writes outside a transaction the tables are returned beside the exception; in `refresh` an
-- exception ends the transaction, so the tables stay as they were, whatever was written before it.
use Prim.Native.String.{String}
pub mod Types
pub mod Rotation
pub mod Accounts
mod Tests
use playhub_playbooking.Common.{
  Exception, Option, Result, conflict, err, error, false, if◌then◌else◌, is_some, ltb, none, not,
  ok, or_throw, some, throw_if, true, unauthorized, ℕ, ◌&&◌, ◌==◌, ◌>>=◌, ◌>>◌, ◌||◌, ◌∷◌,
}
use playhub_playbooking.Auth.Types.{
  AuthStore, Crypto, Fresh, JwtPayload, RefreshToken, Session, Tokens, User,
}
use playhub_playbooking.Common.Database.{Database, update_many, update_row}
use playhub_playbooking.Schema.{is_active}

abbrev pub user_with : Database → AuthStore → ℕ → Option User
user_with db store email = db.find_first (λ (u : User). u.email == email) store.users

abbrev pub token_with : Database → AuthStore → ℕ → Option RefreshToken
token_with db store hash = db.find_first (λ (t : RefreshToken). t.token_hash == hash) store.tokens

-- `generateTokens`: the hash of a refresh token is unique.
unfoldable pub generate_tokens :
    Database → Crypto → ℕ → ℕ → AuthStore → JwtPayload → Result (Tokens × AuthStore)
generate_tokens db crypto now token_id store payload = do
  let refresh_token = crypto.sign_refresh payload now
  let hash = crypto.hash_token refresh_token
  throw_if (is_some (token_with db store hash)) (error "Unique constraint failed: tokenHash")
  let row : RefreshToken = record {
    id = token_id;
    token_hash = hash;
    session_id = payload.sid;
    is_used = false;
    is_revoked = false;
    expires_at = crypto.add_days 7 now;
  }
  let tokens : Tokens = record {
    access_token = crypto.sign_access payload now;
    refresh_token = refresh_token;
  }
  ok (tokens, record store { tokens = row ∷ store.tokens })

-- The user with the email, if the password is theirs.
unfoldable pub check_credentials : Database → Crypto → AuthStore → ℕ → ℕ → Result User
check_credentials db crypto store email password = do
  user ← or_throw (user_with db store email) (unauthorized "Invalid credentials")
  hash ← or_throw user.password_hash (unauthorized "Invalid credentials")
  throw_if (not (crypto.compare password hash)) (unauthorized "Invalid credentials")
  ok user

-- The new session, whose identifier must be new.
unfoldable pub open_session : Database → Crypto → ℕ → ℕ → AuthStore → User → Result AuthStore
open_session db crypto now session_id store user =
    let row : Session = record {
      id = session_id;
      user_id = user.id;
      is_active = true;
      expires_at = crypto.add_days 7 now;
      revoked_at = none;
    } in
    throw_if (is_some (db.find_first (λ (s : Session). s.id == session_id) store.sessions))
      (error "Unique constraint failed: id")
    >> ok (record store { sessions = row ∷ store.sessions })

abbrev pub payload_of : User → ℕ → JwtPayload
payload_of user session_id = record { sub = user.id; email = user.email; sid = session_id }

unfoldable pub login : Database → Crypto → ℕ → Fresh → AuthStore → ℕ → ℕ → Result Tokens × AuthStore
login db crypto now fresh store email password =
    elim (check_credentials db crypto store email password) [
      | err e ↦ (err e, store)
      | ok user ↦ elim (open_session db crypto now fresh.session_id store user) [
        | err e ↦ (err e, store)
        | ok with_session ↦
            elim (generate_tokens db crypto now fresh.token_id with_session
              (payload_of user fresh.session_id)) [
                | err e ↦ (err e, with_session)
                | ok (tokens, after) ↦ (ok tokens, after)
              ]
      ]
    ]

abbrev pub new_user : Crypto → Fresh → ℕ → ℕ → String → User
new_user crypto fresh email password full_name = record {
  id = fresh.user_id;
  email = email;
  full_name = full_name;
  password_hash = some (crypto.hash_password fresh.salt password);
}

unfoldable pub register :
    Database → Crypto → ℕ → Fresh → AuthStore → ℕ → ℕ → String → Result Tokens × AuthStore
register db crypto now fresh store email password full_name =
    if is_some (user_with db store email)
    then (err (conflict "User already exists"), store)
    else login db crypto now fresh
        (record store { users = new_user crypto fresh email password full_name ∷ store.users })
        email password

-- The session of a token, by its foreign key, is active and has not expired.
abbrev pub session_of : Database → AuthStore → RefreshToken → Option Session
session_of db store t = db.find_first (λ (s : Session). s.id == t.session_id) store.sessions

-- An error of the update means that another request used the token.
abbrev pub or_compromised : {A : Type 0} → Result A → Result A
or_compromised (ok a) = ok a
or_compromised (err e) = err (unauthorized "Authentication session compromised.")

-- The steps of the transaction of `refresh`.
unfoldable pub rotate :
    Database → Crypto → ℕ → ℕ → AuthStore → JwtPayload → ℕ → Result (Tokens × AuthStore)
rotate db crypto now token_id store payload hash = do
  row ←
      or_throw (token_with db store hash)
        (unauthorized "Authentication session compromised. Please login again.")
  session ← or_throw (session_of db store row) (error "Session of the token not found")
  throw_if (row.is_used || row.is_revoked || not session.is_active)
      (unauthorized "Authentication session compromised. Please login again.")
  throw_if (ltb session.expires_at now) (unauthorized "Session expired")
  updated ← or_compromised (
      update_row db (λ (t : RefreshToken). t.id == row.id && not t.is_used && not t.is_revoked)
        (λ t. record t { is_used = true }) store.tokens)
  generate_tokens db crypto now token_id (record store { tokens = updated.1 }) payload

abbrev unauthorized_of : Exception → Exception
unauthorized_of (unauthorized m) = unauthorized m
unauthorized_of _ = unauthorized "Invalid refresh token"

-- Every other exception becomes an unauthorized one.
unfoldable pub refresh : Database → Crypto → ℕ → ℕ → AuthStore → ℕ → Result (Tokens × AuthStore)
refresh db crypto now token_id store refresh_token =
    elim (crypto.verify_refresh refresh_token now) [
      | none ↦ err (unauthorized "Invalid refresh token")
      | some payload ↦
          elim (rotate db crypto now token_id store payload (crypto.hash_token refresh_token)) [
            | ok r ↦ ok r
            | err e ↦ err (unauthorized_of e)
          ]
    ]

unfoldable pub logout : Database → ℕ → AuthStore → ℕ → Result AuthStore
logout db now store session_id = do
  updated ←
      update_row db (λ (s : Session). s.id == session_id)
        (λ s. record s { is_active = false; revoked_at = some now }) store.sessions
  ok (record store {
    sessions = updated.1;
    tokens =
        update_many (λ (t : RefreshToken). t.session_id == session_id)
          (λ t. record t { is_revoked = true }) store.tokens;
  })
