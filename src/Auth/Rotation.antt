-- ===== src/Auth/Rotation.antt =====
-- A refresh token of backend/src/auth/auth.service.ts is good for one refresh, and for none after the
-- logout of its session.
use playhub_playbooking.Common.{
  >>=-eq-ok, All, Bool, Bool-cases, List, Option-cases, Result, Result-cases, [], ap, arith, err,
  false, inl, inr, is_ok, is_some, ltb, not, ok, or_throw-eq-ok, refl, some, state_of_ok, subst,
  sym, throw_if-eq-ok, true, ℕ, ◌&&◌, ◌==◌, ◌||◌, ◌∙◌, ◌∷◌, ◌≡◌,
}
use playhub_playbooking.Auth.{
  generate_tokens, logout, or_compromised, refresh, rotate, session_of, token_with,
}
use playhub_playbooking.Auth.Types.{AuthStore, Crypto, JwtPayload, RefreshToken, Session, Tokens}
use playhub_playbooking.Common.Database.{
  All-intro, AllPairs, Database, only_row, update_many, update_row, update_row-ok,
}
use playhub_playbooking.Common.Queries.{All-update_many, update_many-makes}

-- Rows have distinct identifiers and distinct hashes.
abbrev pub IsIndexed : List RefreshToken → Type 0
IsIndexed tokens =
    AllPairs
      (λ (a b : RefreshToken). ((a.id == b.id) ≡ false) × ((a.token_hash == b.token_hash) ≡ false))
      tokens

-- Every row with the hash cannot be used.
abbrev pub IsSpent : ℕ → List RefreshToken → Type 0
IsSpent hash tokens =
    All (λ (t : RefreshToken). t.token_hash ≡ hash → (t.is_used || t.is_revoked) ≡ true) tokens

rotate_throws :
    (db : Database) (crypto : Crypto) (now token_id : ℕ) (store : AuthStore) (payload : JwtPayload)
    (hash : ℕ)
    → IsSpent hash store.tokens
    → is_ok (rotate db crypto now token_id store payload hash) ≡ false
unfolding rotate
rotate_throws db crypto now token_id store payload hash spent =
    let p = λ (t : RefreshToken). t.token_hash == hash in
    elim (Option-cases (token_with db store hash)) [
      | inl e ↦ rw (rotate, e) refl
      | inr (row, e) ↦
          let named = db.find_first-some p store.tokens row e in
          let gone : (row.is_used || row.is_revoked) ≡ true =
            db.find_first-All
              (λ (t : RefreshToken). t.token_hash ≡ hash → (t.is_used || t.is_revoked) ≡ true) p
              store.tokens row e spent (ground arith) in
          elim (Option-cases (session_of db store row)) [
            | inl k ↦ rw (rotate, e, k) refl
            | inr (session, k) ↦
                let all : (row.is_used || row.is_revoked || not session.is_active) ≡ true =
                  rw gone refl in
                rw (rotate, e, k, all) refl
          ]
    ]

pub refresh_throws :
    (db : Database) (crypto : Crypto) (now token_id : ℕ) (store : AuthStore) (token : ℕ)
    → IsSpent (crypto.hash_token token) store.tokens
    → is_ok (refresh db crypto now token_id store token) ≡ false
unfolding refresh
refresh_throws db crypto now token_id store token spent =
    elim (Option-cases (crypto.verify_refresh token now)) [
      | inl e ↦ rw (refresh, e) refl
      | inr (payload, e) ↦
          let hash = crypto.hash_token token in
          elim (Result-cases (rotate db crypto now token_id store payload hash)) [
            | inr (x, k) ↦ rw (refresh, e, k) refl
            | inl (r, k) ↦
                let throws = rotate_throws db crypto now token_id store payload hash spent in
                absurd (cc (rw k at throws))
          ]
    ]

pub generate_tokens-ok :
    (db : Database) (crypto : Crypto) (now token_id : ℕ) (store : AuthStore) (payload : JwtPayload)
    (tokens : Tokens) (after : AuthStore)
    → generate_tokens db crypto now token_id store payload ≡ ok (tokens, after)
    → (row : RefreshToken) × (after.tokens ≡ row ∷ store.tokens)
      × All (λ (t : RefreshToken). (t.token_hash == row.token_hash) ≡ false) store.tokens
      × (after.users ≡ store.users)
      × (row.token_hash ≡ crypto.hash_token tokens.refresh_token)
unfolding generate_tokens
generate_tokens-ok db crypto now token_id store payload tokens after h =
    let hash = crypto.hash_token (crypto.sign_refresh payload now) in
    let (fresh, k) = throw_if-eq-ok (is_some (token_with db store hash)) _ _ h in
    let p = λ (t : RefreshToken). t.token_hash == hash in
    let others : All (λ (t : RefreshToken). p t ≡ false) store.tokens =
      elim (Option-cases (token_with db store hash)) [
        | inl e ↦ db.find_first-none p store.tokens e
        | inr (t, e) ↦ absurd (cc (rw e at fresh))
      ] in
    let row : RefreshToken = record {
      id = token_id;
      token_hash = hash;
      session_id = payload.sid;
      is_used = false;
      is_revoked = false;
      expires_at = crypto.add_days 7 now;
    } in
    let made : Tokens = record {
      access_token = crypto.sign_access payload now;
      refresh_token = crypto.sign_refresh payload now;
    } in
    let same : record store { tokens = row ∷ store.tokens } ≡ after =
      state_of_ok made tokens _ after k in
    let token : made ≡ tokens = cc in
    (
      row,
      ap (λ (s : AuthStore). s.tokens) (sym same),
      others,
      ap (λ (s : AuthStore). s.users) (sym same),
      ap (λ (t : Tokens). crypto.hash_token t.refresh_token) token,
    )

or_compromised-ok : {A : Type 0} (r : Result A) (a : A) → or_compromised r ≡ ok a → r ≡ ok a
or_compromised-ok (ok b) a h = h
or_compromised-ok (err e) a h = cc

update_many-IsSpent :
    (p : RefreshToken → Bool) (spend : RefreshToken → RefreshToken) (hash : ℕ) (row : RefreshToken)
    (tokens : List RefreshToken)
    → ((t : RefreshToken) → ((spend t).is_used || (spend t).is_revoked) ≡ true)
    → p row ≡ true
    → row.token_hash ≡ hash
    → All (λ (t : RefreshToken). t.token_hash ≡ row.token_hash → t ≡ row) tokens
    → IsSpent hash (update_many p spend tokens)
unfolding update_many
update_many-IsSpent p spend hash row [] uses fires named only = tt
update_many-IsSpent p spend hash row (t ∷ rest) uses fires named only =
    let others = update_many-IsSpent p spend hash row rest uses fires named only.1 in
    elim (Bool-cases (p t)) [
      | inl e ↦ rw e ((λ _. uses t), others)
      | inr e ↦
          rw e ((λ same. let this : t ≡ row = only.0 (same ∙ sym named) in absurd (cc)), others)
    ]

-- The token that was exchanged is spent afterwards.
rotate-IsSpent :
    (db : Database) (crypto : Crypto) (now token_id : ℕ) (store : AuthStore) (payload : JwtPayload)
    (hash : ℕ) (tokens : Tokens) (after : AuthStore)
    → IsIndexed store.tokens
    → rotate db crypto now token_id store payload hash ≡ ok (tokens, after)
    → IsSpent hash after.tokens
unfolding rotate
rotate-IsSpent db crypto now token_id store payload hash tokens after indexed h =
    let q = λ (t : RefreshToken). t.token_hash == hash in
    let (row, found, h1) = or_throw-eq-ok (token_with db store hash) _ _ h in
    let (session, _, h2) = or_throw-eq-ok (session_of db store row) _ _ h1 in
    let (usable, h3) =
      throw_if-eq-ok (row.is_used || row.is_revoked || not session.is_active) _ _ h2 in
    let (_, h4) = throw_if-eq-ok (ltb session.expires_at now) _ _ h3 in
    let p = λ (t : RefreshToken). t.id == row.id && not t.is_used && not t.is_revoked in
    let spend = λ (t : RefreshToken). record t { is_used = true } in
    let (updated, eu, h5) = >>=-eq-ok (or_compromised (update_row db p spend store.tokens)) _ h4 in
    let (_, _, _, changed) =
      update_row-ok db p spend store.tokens updated (or_compromised-ok _ updated eu) in
    let (new_row, added, others, _, _) =
      generate_tokens-ok db crypto now token_id (record store { tokens = updated.1 }) payload tokens
        after h5 in
    let named = db.find_first-some q store.tokens row found in
    let before : All (λ (t : RefreshToken). (t.token_hash == new_row.token_hash) ≡ false)
        store.tokens =
      All-update_many (λ (t : RefreshToken). (t.token_hash == new_row.token_hash) ≡ false) p spend
        store.tokens (λ t k. k)
        (subst (λ ts. All (λ (t : RefreshToken). (t.token_hash == new_row.token_hash) ≡ false) ts)
          changed others) in
    let differs : (row.token_hash == new_row.token_hash) ≡ false =
      db.find_first-All (λ (t : RefreshToken). (t.token_hash == new_row.token_hash) ≡ false) q
        store.tokens row found before in
    let only : All (λ (t : RefreshToken). t.token_hash ≡ row.token_hash → t ≡ row) store.tokens =
      db.find_first-All
        (λ (b : RefreshToken).
          All (λ (a : RefreshToken). a.token_hash ≡ b.token_hash → a ≡ b) store.tokens)
        q store.tokens row found
        (only_row
          (λ (a b : RefreshToken).
            ((a.id == b.id) ≡ false) × ((a.token_hash == b.token_hash) ≡ false))
          (λ (a b : RefreshToken). a.token_hash ≡ b.token_hash) store.tokens
          (λ a b (_, ne) same. ground arith) (λ a b. sym) indexed) in
    let fires : p row ≡ true = ground arith in
    let spent : IsSpent hash (update_many p spend store.tokens) =
      update_many-IsSpent p spend hash row store.tokens (λ t. refl) fires (ground arith) only in
    rw added ((λ same. absurd (ground arith)), subst (IsSpent hash) (sym changed) spent)

-- A refresh token that was exchanged for new ones is refused at any later time, if rows of tokens
-- had distinct identifiers and distinct hashes.
pub refresh-once :
    (db : Database) (crypto : Crypto) (now later token_id next_id : ℕ) (store : AuthStore)
    (token : ℕ) (tokens : Tokens) (after : AuthStore)
    → IsIndexed store.tokens
    → refresh db crypto now token_id store token ≡ ok (tokens, after)
    → is_ok (refresh db crypto later next_id after token) ≡ false
unfolding refresh
refresh-once db crypto now later token_id next_id store token tokens after indexed h =
    let hash = crypto.hash_token token in
    elim (Option-cases (crypto.verify_refresh token now)) [
      | inl e ↦ absurd (cc (rw (refresh, e) at h))
      | inr (payload, e) ↦ elim (Result-cases (rotate db crypto now token_id store payload hash)) [
        | inr (x, k) ↦ absurd (cc (rw (refresh, e, k) at h))
        | inl (r, k) ↦
            let same : r ≡ (tokens, after) = cc (rw (refresh, e, k) at h) in
            let done : rotate db crypto now token_id store payload hash ≡ ok (tokens, after) =
              k ∙ ap ok same in
            refresh_throws db crypto later next_id after token
              (rotate-IsSpent db crypto now token_id store payload hash tokens after indexed done)
      ]
    ]

-- After the logout of a session its rows are inactive, and a refresh is refused at any later time if
-- the rows of its token belong to the session.
pub logout-refuses :
    (db : Database) (crypto : Crypto) (now later token_id : ℕ) (store : AuthStore)
    (session_id token : ℕ) (after : AuthStore)
    → All
        (λ (t : RefreshToken). t.token_hash ≡ crypto.hash_token token → t.session_id ≡ session_id)
        store.tokens
    → logout db now store session_id ≡ ok after
    → All (λ (s : Session). s.id ≡ session_id → s.is_active ≡ false) after.sessions
      × (is_ok (refresh db crypto later token_id after token) ≡ false)
unfolding logout
logout-refuses db crypto now later token_id store session_id token after own h =
    let p = λ (s : Session). s.id == session_id in
    let close = λ (s : Session). record s { is_active = false; revoked_at = some now } in
    let hash = crypto.hash_token token in
    let q = λ (t : RefreshToken). t.session_id == session_id in
    let revoke = λ (t : RefreshToken). record t { is_revoked = true } in
    let (updated, eu, k) = >>=-eq-ok (update_row db p close store.sessions) _ h in
    let (_, _, _, changed) = update_row-ok db p close store.sessions updated eu in
    let same : record store { sessions = updated.1; tokens = update_many q revoke store.tokens }
        ≡ after =
      cc in
    let sessions : after.sessions ≡ update_many p close store.sessions =
      ap (λ (s : AuthStore). s.sessions) (sym same) ∙ changed in
    let tokens : after.tokens ≡ update_many q revoke store.tokens =
      ap (λ (s : AuthStore). s.tokens) (sym same) in
    let IsClosed = λ (s : Session). s.id ≡ session_id → s.is_active ≡ false in
    let IsGone = λ (t : RefreshToken). t.token_hash ≡ hash → (t.is_used || t.is_revoked) ≡ true in
    let closed : All IsClosed (update_many p close store.sessions) =
      update_many-makes IsClosed (λ s. Unit {0}) p close store.sessions (λ s _. refl)
        (λ s _ out named. absurd (ground arith))
        (All-intro (λ s. Unit {0}) store.sessions (λ s. tt)) in
    let gone : All IsGone (update_many q revoke store.tokens) =
      update_many-makes IsGone (λ t. t.token_hash ≡ hash → t.session_id ≡ session_id) q revoke
        store.tokens (λ t _. ground arith)
        (λ t belongs out named. let this = belongs named in absurd (ground arith)) own in
    (
      subst (All IsClosed) (sym sessions) closed,
      refresh_throws db crypto later token_id after token (subst (All IsGone) (sym tokens) gone),
    )
