-- ===== src/Loyalty/History.antt =====
-- Any sequence of requests to backend/src/loyalty/loyalty.service.ts.
use playhub_playbooking.Common.{
  >>=-eq-ok, List, Option, Option-cases, Result, Result-cases, [], err, if-eq, if◌then◌else◌, inl,
  inr, is_some, ltb, none, not, ok, or_throw-eq-ok, refl, some, state_of_ok, subst, throw_if-eq-ok,
  ℕ, ◌==◌, ◌>>=◌, ◌||◌, ◌∷◌, ◌≡◌,
}
use playhub_playbooking.Common.Database.{Database, update_row}
use playhub_playbooking.Loyalty.{
  add_points_internal, earn_points, get_or_create_account, redeem_points,
}
use playhub_playbooking.Loyalty.Accounts.{IsAccounted}
use playhub_playbooking.Loyalty.Balance.{
  IsFresh, add_points_internal-IsAccounted, get_or_create_account-IsOpened,
  redeem_points-IsAccounted,
}
use playhub_playbooking.Loyalty.Referrals.{
  apply_referral_code, campaign_of, code_of, get_or_create_referral_code, insert_code, min_amount,
  qualify_referral, referee_reward, referral_of, referrer_reward, reward,
}
use playhub_playbooking.Loyalty.Types.{
  Points, PointsKey, PointsType, Referral, ReferralCode, ReferralStatus, bonus, is_pending,
  referee_key, referrer_key,
}

-- The database, and the identifiers of new rows, which no account and no transaction has yet.
pub record Bank : Type 1 where
  pub db : Database
  pub id_of : Points → ℕ
  pub id_of-IsFresh : (points : Points) → IsFresh (id_of points) points

pub data Request : Type 0 where
  open_account : ℕ → Request
  earn : (user points : ℕ) → (reference : Option ℕ) → (key : Option PointsKey) → Request
  redeem : (user points : ℕ) → (reference : Option ℕ) → (key : Option PointsKey) → Request
  make_code : (code fallback user : ℕ) → Request
  apply_code : (id referee code : ℕ) → Request
  qualify : (referee booking amount : ℕ) → Request

abbrev points_after : {A : Type 0} → Points → Result (A × Points) → Points
points_after points (ok (a, after)) = after
points_after points (err e) = points

unfoldable pub serve : Bank → ℕ → Points → Request → Points
serve bank now points (open_account user) =
    (get_or_create_account bank.db (bank.id_of points) points user).1
serve bank now points (Request.earn user n reference key) =
    points_after points (earn_points bank.db now (bank.id_of points) points user n reference key)
serve bank now points (Request.redeem user n reference key) =
    points_after points (redeem_points bank.db now points user n reference key)
serve bank now points (make_code code fallback user) =
    points_after points (get_or_create_referral_code bank.db code fallback points user)
serve bank now points (apply_code id referee code) =
    points_after points (apply_referral_code bank.db id points referee code)
serve bank now points (qualify referee booking amount) =
    points_after points (qualify_referral bank.db now bank.id_of points referee booking amount)

unfoldable pub run : Bank → Points → List (ℕ × Request) → Points
run bank points [] = points
run bank points ((now, r) ∷ rest) = run bank (serve bank now points r) rest

points_after-IsAccounted :
    {A : Type 0} (points : Points) (result : Result (A × Points))
    → IsAccounted points
    → ((a : A) (after : Points) → result ≡ ok (a, after) → IsAccounted after)
    → IsAccounted (points_after points result)
points_after-IsAccounted points (ok (a, after)) sound keeps = keeps a after refl
points_after-IsAccounted points (err e) sound keeps = sound

-- What changes neither accounts nor transactions.
same_accounts :
    (points after : Points)
    → after.accounts ≡ points.accounts
    → after.transactions ≡ points.transactions
    → IsAccounted points
    → IsAccounted after
same_accounts points after a t sound = rw (a, t) sound

insert_code-keeps :
    (db : Database) (points : Points) (user_id code : ℕ) (c : ReferralCode) (after : Points)
    → insert_code db points user_id code ≡ ok (c, after)
    → IsAccounted points
    → IsAccounted after
unfolding insert_code
insert_code-keeps db points user_id code c after h sound =
    let (fresh, e) = throw_if-eq-ok (is_some (code_of db points code)) _ _ h in
    subst IsAccounted (state_of_ok _ c _ after e) sound

make_code-keeps :
    (db : Database) (code fallback : ℕ) (points : Points) (user_id : ℕ) (c : ReferralCode)
    (after : Points)
    → get_or_create_referral_code db code fallback points user_id ≡ ok (c, after)
    → IsAccounted points
    → IsAccounted after
unfolding get_or_create_referral_code
make_code-keeps db code fallback points user_id c after h sound =
    let p = λ (c : ReferralCode). c.user_id == user_id in
    elim (Option-cases (db.find_first p points.codes)) [
      | inr (known, e) ↦
          subst IsAccounted
            (state_of_ok known c points after (rw (get_or_create_referral_code, e) at h)) sound
      | inl e ↦ elim (Result-cases (insert_code db points user_id code)) [
        | inl ((c', after'), k) ↦
            let same : ◌≡◌ {A = Result (ReferralCode × Points)} (ok (c', after')) (ok (c, after)) =
              rw (get_or_create_referral_code, e, k) at h in
            subst IsAccounted (state_of_ok c' c after' after same)
              (insert_code-keeps db points user_id code c' after' k sound)
        | inr (x, k) ↦
            insert_code-keeps db points user_id fallback c after
              (rw (get_or_create_referral_code, e, k) at h) sound
      ]
    ]

apply_code-keeps :
    (db : Database) (new_id : ℕ) (points : Points) (referee_id code : ℕ) (r : Referral)
    (after : Points)
    → apply_referral_code db new_id points referee_id code ≡ ok (r, after)
    → IsAccounted points
    → IsAccounted after
unfolding apply_referral_code
apply_code-keeps db new_id points referee_id code r after h sound =
    let (row, ec, h1) = or_throw-eq-ok (code_of db points code) _ _ h in
    let (other, h2) = throw_if-eq-ok (row.user_id == referee_id) _ _ h1 in
    let (first, h3) = throw_if-eq-ok (is_some (referral_of db points referee_id)) _ _ h2 in
    subst IsAccounted (state_of_ok _ r _ after h3) sound

reward-keeps :
    (bank : Bank) (now : ℕ) (points : Points) (row : Referral) (booking_id : ℕ) (r : Referral)
    (after : Points)
    → reward bank.db now bank.id_of points row booking_id ≡ ok (r, after)
    → IsAccounted points
    → IsAccounted after
unfolding reward
reward-keeps bank now points row booking_id r after h sound =
    let campaign = campaign_of bank.db points row in
    let change = λ (r : Referral). record r {
      status = ReferralStatus.qualified;
      qualifying_booking_id = some booking_id;
    } in
    let (u, eu, h1) =
      >>=-eq-ok (update_row bank.db (λ (r : Referral). r.id == row.id) change points.referrals) _
        h in
    let changed : Points = record points { referrals = u.1 } in
    let ((t, first), ef, h2) =
      >>=-eq-ok
        (add_points_internal bank.db now (bank.id_of changed) changed row.referrer_id
          (referrer_reward campaign) PointsType.referral (some row.id) (some (referrer_key row.id)))
        _ h1 in
    let ((v, second), es, h3) =
      >>=-eq-ok
        (add_points_internal bank.db now (bank.id_of first) first row.referee_id
          (referee_reward campaign) bonus (some row.id) (some (referee_key row.id)))
        _ h2 in
    let one =
      add_points_internal-IsAccounted bank.db now (bank.id_of changed) changed row.referrer_id
        (referrer_reward campaign) PointsType.referral (some row.id) (some (referrer_key row.id)) t
        first (bank.id_of-IsFresh changed) sound ef in
    let two =
      add_points_internal-IsAccounted bank.db now (bank.id_of first) first row.referee_id
        (referee_reward campaign) bonus (some row.id) (some (referee_key row.id)) v second
        (bank.id_of-IsFresh first) one es in
    subst IsAccounted (state_of_ok u.0 r second after h3) two

qualify-keeps :
    (bank : Bank) (now : ℕ) (points : Points) (referee_id booking_id amount : ℕ)
    (r : Option Referral) (after : Points)
    → qualify_referral bank.db now bank.id_of points referee_id booking_id amount ≡ ok (r, after)
    → IsAccounted points
    → IsAccounted after
unfolding qualify_referral
qualify-keeps bank now points referee_id booking_id amount r after h sound =
    elim (Option-cases (referral_of bank.db points referee_id)) [
      | inl e ↦
          subst IsAccounted (state_of_ok none r points after (rw (qualify_referral, e) at h)) sound
      | inr (row, e) ↦
          let refused =
            not (is_pending row.status)
            || ltb amount (min_amount (campaign_of bank.db points row)) in
          let rewarding = reward bank.db now bank.id_of points row booking_id in
          let k : (if refused
                then ok (none, points)
                else ◌>>=◌ {T = Option Referral × Points} rewarding (λ r. ok (some r.0, r.1)))
              ≡ ok (r, after) =
            rw (qualify_referral, e) at h in
          elim (if-eq refused _ _ k) [
            | inl (_, same) ↦ subst IsAccounted (state_of_ok none r points after same) sound
            | inr (_, go) ↦
                let (x, ex, same) = >>=-eq-ok rewarding _ go in
                subst IsAccounted (state_of_ok (some x.0) r x.1 after same)
                  (reward-keeps bank now points row booking_id x.0 x.1 ex sound)
          ]
    ]

serve-IsAccounted :
    (bank : Bank) (now : ℕ) (points : Points) (r : Request)
    → IsAccounted points
    → IsAccounted (serve bank now points r)
unfolding serve earn_points
serve-IsAccounted bank now points (open_account user) sound =
    (get_or_create_account-IsOpened bank.db (bank.id_of points) points user
      (bank.id_of-IsFresh points) sound).0
serve-IsAccounted bank now points (Request.earn user n reference key) sound =
    points_after-IsAccounted points _ sound (λ t after h.
      add_points_internal-IsAccounted bank.db now (bank.id_of points) points user n PointsType.earn
        reference key t after (bank.id_of-IsFresh points) sound h)
serve-IsAccounted bank now points (Request.redeem user n reference key) sound =
    points_after-IsAccounted points _ sound (λ t after h.
      redeem_points-IsAccounted bank.db now points user n reference key t after sound h)
serve-IsAccounted bank now points (make_code code fallback user) sound =
    points_after-IsAccounted points _ sound
      (λ c after h. make_code-keeps bank.db code fallback points user c after h sound)
serve-IsAccounted bank now points (apply_code id referee code) sound =
    points_after-IsAccounted points _ sound
      (λ r after h. apply_code-keeps bank.db id points referee code r after h sound)
serve-IsAccounted bank now points (qualify referee booking amount) sound =
    points_after-IsAccounted points _ sound
      (λ r after h. qualify-keeps bank now points referee booking amount r after h sound)

-- After any sequence of requests, at any times, accounts have distinct identifiers and users, and the
-- balance of every account, which is never negative, is the sum of the points of its transactions, if
-- this held before.
pub run-IsAccounted :
    (bank : Bank) (points : Points) (requests : List (ℕ × Request))
    → IsAccounted points
    → IsAccounted (run bank points requests)
unfolding run
run-IsAccounted bank points [] sound = sound
run-IsAccounted bank points ((now, r) ∷ rest) sound =
    run-IsAccounted bank (serve bank now points r) rest (serve-IsAccounted bank now points r sound)
