-- ===== src/Loyalty/Referrals.antt =====
-- The referrals of backend/src/loyalty/loyalty.service.ts. `code` and `fallback` are the random codes
-- that `getOrCreateReferralCode` makes up.
use playhub_playbooking.Common.{
  Option, Result, bad_request, conflict, err, error, forbidden, if◌then◌else◌, is_some, ltb, none,
  not, ok, or_throw, some, throw_if, ℕ, ◌==◌, ◌>>=◌, ◌>>◌, ◌||◌, ◌∷◌,
}
use playhub_playbooking.Common.Database.{Database, update_row}
use playhub_playbooking.Loyalty.{add_points_internal}
use playhub_playbooking.Loyalty.Types.{
  Campaign, Points, PointsType, Referral, ReferralCode, ReferralStatus, bonus, is_pending,
  referee_key, referrer_key,
}

abbrev pub code_of : Database → Points → ℕ → Option ReferralCode
code_of db points code = db.find_first (λ (c : ReferralCode). c.code == code) points.codes

unfoldable pub insert_code : Database → Points → ℕ → ℕ → Result (ReferralCode × Points)
insert_code db points user_id code =
    let row : ReferralCode = record { user_id = user_id; code = code } in
    throw_if (is_some (code_of db points code)) (error "Unique constraint failed: code")
    >> ok (row, record points { codes = row ∷ points.codes })

unfoldable pub get_or_create_referral_code :
    Database → ℕ → ℕ → Points → ℕ → Result (ReferralCode × Points)
get_or_create_referral_code db code fallback points user_id =
    elim (db.find_first (λ (c : ReferralCode). c.user_id == user_id) points.codes) [
      | some existing ↦ ok (existing, points)
      | none ↦ elim (insert_code db points user_id code) [
        | ok r ↦ ok r
        | err e ↦ insert_code db points user_id fallback
      ]
    ]

abbrev pub referral_of : Database → Points → ℕ → Option Referral
referral_of db points referee_id =
    db.find_first (λ (r : Referral). r.referee_id == referee_id) points.referrals

-- The newest of the active campaigns.
abbrev pub active_campaign : Database → Points → Option Campaign
active_campaign db points =
    db.find_first (λ (c : Campaign). c.is_active)
      (db.order_by (λ (c : Campaign). c.created_at) points.campaigns)

unfoldable pub apply_referral_code : Database → ℕ → Points → ℕ → ℕ → Result (Referral × Points)
apply_referral_code db new_id points referee_id code = do
  row ← or_throw (code_of db points code) (bad_request "Invalid referral code")
  throw_if (row.user_id == referee_id) (forbidden "Self-referral is not allowed")
  throw_if (is_some (referral_of db points referee_id))
      (conflict "You have already applied a referral code")
  let referral : Referral = record {
    id = new_id;
    campaign_id = elim (active_campaign db points) [ some c ↦ some c.id | none ↦ none ];
    referrer_id = row.user_id;
    referee_id = referee_id;
    status = ReferralStatus.pending;
    qualifying_booking_id = none;
  }
  ok (referral, record points { referrals = referral ∷ points.referrals })

abbrev pub campaign_of : Database → Points → Referral → Option Campaign
campaign_of db points row = elim row.campaign_id [
  | none ↦ none
  | some id ↦ db.find_first (λ (c : Campaign). c.id == id) points.campaigns
]

abbrev pub min_amount : Option Campaign → ℕ
min_amount none = 0
min_amount (some c) = c.min_qualifying_amount

abbrev pub referrer_reward : Option Campaign → ℕ
referrer_reward none = 100
referrer_reward (some c) = c.referrer_reward_value

abbrev pub referee_reward : Option Campaign → ℕ
referee_reward none = 50
referee_reward (some c) = c.referee_reward_value

-- The transaction: the row, then the points of both users. `id_of` gives the identifiers of
-- accounts that are opened on the way.
unfoldable pub reward :
    Database → ℕ → (Points → ℕ) → Points → Referral → ℕ → Result (Referral × Points)
reward db now id_of points row booking_id = do
  let campaign = campaign_of db points row
  updated ←
      update_row db (λ (r : Referral). r.id == row.id)
        (λ r. record r {
          status = ReferralStatus.qualified;
          qualifying_booking_id = some booking_id;
        })
        points.referrals
  let changed : Points = record points { referrals = updated.1 }
  first ←
      add_points_internal db now (id_of changed) changed row.referrer_id (referrer_reward campaign)
        PointsType.referral (some row.id) (some (referrer_key row.id))
  second ←
      add_points_internal db now (id_of first.1) first.1 row.referee_id (referee_reward campaign)
        bonus (some row.id) (some (referee_key row.id))
  ok (updated.0, second.1)

-- `none` where the source returns null.
unfoldable pub qualify_referral :
    Database → ℕ → (Points → ℕ) → Points → ℕ → ℕ → ℕ → Result (Option Referral × Points)
qualify_referral db now id_of points referee_id booking_id amount =
    elim (referral_of db points referee_id) [
      | none ↦ ok (none, points)
      | some row ↦
          let go = reward db now id_of points row booking_id >>= λ r. ok (some r.0, r.1) in
          if not (is_pending row.status) || ltb amount (min_amount (campaign_of db points row))
          then ok (none, points)
          else go
    ]
