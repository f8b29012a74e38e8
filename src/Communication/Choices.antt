-- ===== src/Communication/Choices.antt =====
-- What the preferences of backend/src/communication/communication.service.ts let a notice use.
use playhub_playbooking.Common.{
  All, All-map_of, Any, Bool, Bool-cases, Option-cases, arith, false, inl, inr, not, refl, true,
  ◌&&◌, ◌==◌, ◌≡◌, ◌⊎◌,
}
use playhub_playbooking.Common.Database.{Database}
use playhub_playbooking.Common.Queries.{Any-intro, find_first-IsAmong}
use playhub_playbooking.Communication.{is_disabled, is_security, preference_of, ◌=c◌}
use playhub_playbooking.Communication.Types.{
  Category, Channel, Mailroom, Notice, Preference, category_index, email, in_app, marketing, push,
  security, sms, transactional, whatsapp,
}

-- The row is a choice of the user of the notice for its category and the channel.
abbrev pub IsChoice : Notice → Channel → Preference → Type 0
IsChoice notice channel p =
    (p.user_id ≡ notice.user_id) × (p.category ≡ notice.category) × (p.channel ≡ channel)

-- A channel may be used for security, or where the user has made no choice or has chosen it.
abbrev pub MayUse : Mailroom → Notice → Channel → Type 0
MayUse room notice channel =
    (notice.category ≡ security)
    ⊎ (All (λ p. ¬ (IsChoice notice channel p)) room.preferences
        ⊎ Any (λ p. IsChoice notice channel p × (p.is_enabled ≡ true)) room.preferences)

category_of : (a b : Category) → category_index a == category_index b ≡ true → a ≡ b
category_of a b e = ground arith

channel_of : (a b : Channel) → (a =c b) ≡ true → a ≡ b
channel_of in_app b e = ground arith
channel_of email b e = ground arith
channel_of sms b e = ground arith
channel_of whatsapp b e = ground arith
channel_of push b e = ground arith

abbrev pub asks : Notice → Channel → Preference → Bool
asks notice channel p =
    p.user_id == notice.user_id
    && category_index p.category == category_index notice.category
    && p.channel =c channel

asks-IsChoice :
    (notice : Notice) (channel : Channel) (p : Preference)
    → asks notice channel p ≡ true
    → IsChoice notice channel p
asks-IsChoice notice channel p h =
    let (rest, same_channel) =
      both
        (p.user_id == notice.user_id && category_index p.category == category_index notice.category)
        (p.channel =c channel) h in
    let (user, same_category) =
      both (p.user_id == notice.user_id)
        (category_index p.category == category_index notice.category) rest in
    (
      ground arith,
      category_of p.category notice.category same_category,
      channel_of p.channel channel same_channel,
    )
  where
    both : (a b : Bool) → (a && b) ≡ true → (a ≡ true) × (b ≡ true)
    both true b h = (refl, h)
    both false b h = absurd (cc)

IsChoice-asks :
    (notice : Notice) (channel : Channel) (p : Preference)
    → IsChoice notice channel p
    → asks notice channel p ≡ true
IsChoice-asks notice channel p (u, c, d) = rw (u, c, d) (itself notice.category channel)
  where
    itself :
        (c : Category) (d : Channel)
        → (notice.user_id == notice.user_id && category_index c == category_index c && d =c d)
          ≡ true
    itself c d = ground arith

secure : (c : Category) → is_security c ≡ true → c ≡ security
secure security e = refl
secure transactional e = absurd (cc)
secure marketing e = absurd (cc)

-- The code's test is about the choices in the table.
pub is_disabled-MayUse :
    (db : Database) (room : Mailroom) (notice : Notice) (channel : Channel)
    → is_disabled db room notice channel ≡ false
    → MayUse room notice channel
unfolding is_disabled
is_disabled-MayUse db room notice channel h =
    let q = asks notice channel in
    elim (Option-cases (preference_of db room notice channel)) [
      | inl e ↦ inr (
          inl (
            All-map_of room.preferences
              (λ p unfit is. let fits = IsChoice-asks notice channel p is in absurd (cc))
              (db.find_first-none q room.preferences e)))
      | inr (p, e) ↦
          let off : (not p.is_enabled && not (is_security notice.category)) ≡ false =
            rw (is_disabled, e) at h in
          elim (Bool-cases p.is_enabled) [
            | inl on ↦ inr (
                inr (
                  Any-intro _ room.preferences p (find_first-IsAmong db q room.preferences p e) (
                    asks-IsChoice notice channel p (db.find_first-some q room.preferences p e),
                    on,
                  )))
            | inr k ↦
                let urgent : is_security notice.category ≡ true = ground arith in
                inl (secure notice.category urgent)
          ]
    ]
