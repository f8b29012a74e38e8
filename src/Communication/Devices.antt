-- ===== src/Communication/Devices.antt =====
-- The devices and the preferences of users, of backend/src/communication/communication.service.ts.
-- The platform of a device and the times of its use are left out.
use playhub_playbooking.Common.{
  All, All-map_of, Bool, Bool-cases, List, Option-cases, Result, [], any, arith, false, forbidden,
  if◌then◌else◌, inl, inr, not, not_found, ok, or_throw, refl, some, throw_if, true, ℕ, ◌&&◌, ◌==◌,
  ◌>>=◌, ◌>>◌, ◌∙◌, ◌∷◌, ◌≡◌,
}
use playhub_playbooking.Common.Database.{All-intro, Database, update_many, update_row}
use playhub_playbooking.Common.Queries.{update_many-makes}
use playhub_playbooking.Communication.{is_disabled, is_security, ◌=c◌}
use playhub_playbooking.Communication.Types.{
  Category, Channel, Device, Mailroom, Notice, Preference, category_index,
}

-- `registerDevice`: a token that is known goes over to the user.
unfoldable pub register_device : Mailroom → ℕ → ℕ → Mailroom
register_device room user_id token =
    let known = any (λ (d : Device). d.token == token) room.devices in
    record room {
      devices =
          if known
          then update_many (λ (d : Device). d.token == token)
              (λ d. record d { user_id = user_id; is_active = true }) room.devices
          else record { user_id = user_id; token = token; is_active = true } ∷ room.devices;
    }

unfoldable pub unregister_device : Database → Mailroom → ℕ → ℕ → Result (Device × Mailroom)
unregister_device db room user_id token = do
  device ←
      or_throw (db.find_first (λ (d : Device). d.token == token) room.devices)
        (not_found "Device not found")
  throw_if (not (device.user_id == user_id)) (forbidden "You do not own this device registration")
  updated ←
      update_row db (λ (d : Device). d.token == token) (λ d. record d { is_active = false })
        room.devices
  ok (updated.0, record room { devices = updated.1 })

abbrev is_about : ℕ → Category → Channel → Preference → Bool
is_about user_id category channel p =
    p.user_id == user_id
    && category_index p.category == category_index category
    && p.channel =c channel

unfoldable pub update_preference : Mailroom → ℕ → Category → Channel → Bool → Mailroom
update_preference room user_id category channel is_enabled =
    let known = any (is_about user_id category channel) room.preferences in
    record room {
      preferences =
          if known
          then update_many (is_about user_id category channel)
              (λ p. record p { is_enabled = is_enabled }) room.preferences
          else record {
            user_id = user_id;
            category = category;
            channel = channel;
            is_enabled = is_enabled;
          }
            ∷ room.preferences;
    }

any_none :
    {A : Type 0} (p : A → Bool) (rows : List A) → any p rows ≡ false → All (λ a. p a ≡ false) rows
any_none p [] h = tt
any_none p (a ∷ rest) h = (ground arith, any_none p rest (ground arith))

none_any :
    {A : Type 0} (p : A → Bool) (rows : List A) → All (λ a. p a ≡ false) rows → any p rows ≡ false
none_any p [] h = refl
none_any p (a ∷ rest) h = rw h.0 (none_any p rest h.1)

any-find_first :
    {A : Type 0} (db : Database) (p : A → Bool) (rows : List A)
    → any p rows ≡ true
    → (a : A) × (db.find_first p rows ≡ some a)
any-find_first db p rows h = elim (Option-cases (db.find_first p rows)) [
  | inr found ↦ found
  | inl e ↦ absurd (let k = none_any p rows (db.find_first-none p rows e) in cc)
]

any-update_many :
    {A : Type 0} (p : A → Bool) (f : A → A) (rows : List A)
    → ((a : A) → p (f a) ≡ p a)
    → any p rows ≡ true
    → any p (update_many p f rows) ≡ true
unfolding update_many
any-update_many p f [] keeps h = h
any-update_many p f (a ∷ rest) keeps h = elim (Bool-cases (p a)) [
  | inl e ↦ let k = keeps a ∙ e in rw (e, k) refl
  | inr e ↦ rw (e, e) (any-update_many p f rest keeps (rw e at h))
]

-- The preferences of a category and channel are off, and one is there.
switched_off :
    (db : Database) (room : Mailroom) (notice : Notice) (channel : Channel)
    → is_security notice.category ≡ false
    → any (is_about notice.user_id notice.category channel) room.preferences ≡ true
    → All
        (λ p. is_about notice.user_id notice.category channel p ≡ true → p.is_enabled ≡ false)
        room.preferences
    → is_disabled db room notice channel ≡ true
unfolding is_disabled
switched_off db room notice channel ordinary there off =
    let q = is_about notice.user_id notice.category channel in
    let (p, found) = any-find_first db q room.preferences there in
    let fits = db.find_first-some q room.preferences p found in
    let disabled =
      db.find_first-All (λ p. q p ≡ true → p.is_enabled ≡ false) q room.preferences p found off
        fits in
    rw (is_disabled, found, disabled, ordinary) refl

-- After a user switches a channel off for a category, it is off for every notice of the category to
-- the user, unless it is about security.
pub update_preference-is_disabled :
    (db : Database) (room : Mailroom) (notice : Notice) (channel : Channel)
    → is_security notice.category ≡ false
    → is_disabled db
        (update_preference room notice.user_id notice.category channel false)
        notice
        channel
      ≡ true
unfolding update_preference
update_preference-is_disabled db room notice channel ordinary =
    let q = is_about notice.user_id notice.category channel in
    let change = λ (p : Preference). record p { is_enabled = false } in
    let IsOff = λ (p : Preference). q p ≡ true → p.is_enabled ≡ false in
    elim (Bool-cases (any q room.preferences)) [
      | inl e ↦
          let rows = update_many q change room.preferences in
          let off : All IsOff rows =
            update_many-makes IsOff (λ p. Unit {0}) q change room.preferences (λ p _. refl)
              (λ p _ out yes. absurd (cc)) (All-intro (λ p. Unit {0}) room.preferences (λ p. tt)) in
          let there = any-update_many q change room.preferences (λ p. refl) e in
          rw (update_preference, e)
            (switched_off db (record room { preferences = rows }) notice channel ordinary there off)
      | inr e ↦
          let row : Preference = record {
            user_id = notice.user_id;
            category = notice.category;
            channel = channel;
            is_enabled = false;
          } in
          let others =
            All-map_of room.preferences (λ p out yes. absurd (cc))
              (any_none q room.preferences e) in
          let user : (notice.user_id == notice.user_id) ≡ true = ground arith in
          let category : (category_index notice.category == category_index notice.category) ≡ true =
            ground arith in
          let chan : (channel =c channel) ≡ true = ground arith in
          let own : q row ≡ true = rw (user, category, chan) refl in
          let there : any q (row ∷ room.preferences) ≡ true = rw own refl in
          rw (update_preference, e)
            (switched_off db (record room { preferences = row ∷ room.preferences }) notice channel
              ordinary there ((λ _. refl), others))
    ]
