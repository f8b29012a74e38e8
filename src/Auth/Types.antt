-- ===== src/Auth/Types.antt =====
-- The tables of backend/prisma/schema.prisma that backend/src/auth/auth.service.ts reads and writes,
-- and what it uses of bcrypt, of the JWT library and of the calendar.
use Prim.Native.String.{String}
use playhub_playbooking.Common.{Bool, List, Option, true, ℕ, ◌≡◌}

pub record User : Type 0 where
  pub id : ℕ
  pub email : ℕ
  pub full_name : String
  pub password_hash : Option ℕ

pub record Session : Type 0 where
  pub id : ℕ
  pub user_id : ℕ
  pub is_active : Bool
  pub expires_at : ℕ
  pub revoked_at : Option ℕ

pub record RefreshToken : Type 0 where
  pub id : ℕ
  pub token_hash : ℕ
  pub session_id : ℕ
  pub is_used : Bool
  pub is_revoked : Bool
  pub expires_at : ℕ

pub record AuthStore : Type 0 where
  pub users : List User
  pub sessions : List Session
  pub tokens : List RefreshToken

-- The user, the email and the session that a token is signed for.
pub record JwtPayload : Type 0 where
  pub sub : ℕ
  pub email : ℕ
  pub sid : ℕ

pub record Tokens : Type 0 where
  pub access_token : ℕ
  pub refresh_token : ℕ

-- `bcrypt.hash` with its salt and `bcrypt.compare`, with the law that a password meets its own hash;
-- `signAsync` at a time and `verifyAsync`, which throws where it is `none`; SHA-256; and the date in
-- a number of days.
pub record Crypto : Type 0 where
  pub hash_password : (salt password : ℕ) → ℕ
  pub compare : (password hash : ℕ) → Bool
  pub compare-hash_password :
      (salt password : ℕ) → compare password (hash_password salt password) ≡ true
  pub sign_access : JwtPayload → ℕ → ℕ
  pub sign_refresh : JwtPayload → ℕ → ℕ
  pub verify_refresh : (token now : ℕ) → Option JwtPayload
  pub hash_token : ℕ → ℕ
  pub add_days : (days now : ℕ) → ℕ

-- What is random in a request: the salt and the identifiers of the rows that it makes.
pub record Fresh : Type 0 where
  pub salt : ℕ
  pub user_id : ℕ
  pub session_id : ℕ
  pub token_id : ℕ
