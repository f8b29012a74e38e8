-- ===== src/Communication.antt =====
-- backend/src/communication/communication.service.ts: messages to users over several channels, with
-- a log that stops repeated ones. The channels of one notice are served one after another, in their
-- order; `id_of` gives the identifier of a new row of the log, and `post` is the provider of a
-- channel, which answers or throws.
use Prim.Native.String.{String}
pub mod Types
pub mod Once
pub mod Choices
pub mod Respects
pub mod Devices
mod Tests
use playhub_playbooking.Common.{
  Bool, Exception, List, Option, Result, [], bad_request, conflict, err, error, false, filter,
  forbidden, if◌then◌else◌, is_some, map, none, not, not_found, ok, some, true, unauthorized, ℕ,
  ◌&&◌, ◌==◌, ◌∷◌,
}
use playhub_playbooking.Common.Database.{Database, update_many}
use playhub_playbooking.Communication.Types.{
  Category, Channel, Contact, DeliveryStatus, Device, LogEntry, Mailroom, Message, Notice,
  Preference, Response, category_index, channel_index, email, failed, in_app, marketing, pending,
  push, security, sent, skipped, sms, transactional, whatsapp,
}
use playhub_playbooking.Finance.{post}
use playhub_playbooking.Payments.Webhook.{success}
use playhub_playbooking.Schema.{is_active}

infix 50 ◌=c◌
abbrev pub ◌=c◌ : Channel → Channel → Bool
a =c b = channel_index a == channel_index b

abbrev pub default_channels : Category → List Channel
default_channels security = email ∷ []
default_channels transactional = in_app ∷ email ∷ push ∷ []
default_channels marketing = in_app ∷ push ∷ []

unfoldable pub target_channels : Notice → List Channel
target_channels notice = elim notice.channels [
  | some channels ↦ channels
  | none ↦ default_channels notice.category
]

abbrev pub preference_of : Database → Mailroom → Notice → Channel → Option Preference
preference_of db room notice channel =
    db.find_first
      (λ (p : Preference).
        p.user_id == notice.user_id
        && category_index p.category == category_index notice.category
        && p.channel =c channel)
      room.preferences

abbrev pub is_security : Category → Bool
is_security security = true
is_security _ = false

-- The user has switched the channel off, and the notice is not about security.
unfoldable pub is_disabled : Database → Mailroom → Notice → Channel → Bool
is_disabled db room notice channel = elim (preference_of db room notice channel) [
  | none ↦ false
  | some p ↦ not p.is_enabled && not (is_security notice.category)
]

-- The unique key of the log: rows without an idempotency key never meet.
abbrev pub same_delivery : ℕ → Channel → Option ℕ → Option ℕ → ℕ → Channel → Bool
same_delivery user channel (some k) (some l) user' channel' =
    user == user' && channel =c channel' && k == l
same_delivery user channel _ _ user' channel' = false

abbrev pub is_logged_as : Notice → Channel → LogEntry → Bool
is_logged_as notice channel l =
    same_delivery l.user_id l.channel l.idempotency_key notice.idempotency_key notice.user_id
      channel

-- A new row of the log; `none` where the key is taken.
unfoldable pub insert_log :
    Database
    → (Mailroom → ℕ)
    → Mailroom
    → Notice
    → Channel
    → DeliveryStatus
    → Option String
    → Option Mailroom
insert_log db id_of room notice channel status reason =
    if is_some (db.find_first (is_logged_as notice channel) room.logs)
    then none
    else some (record room {
      logs =
          record {
            id = id_of room;
            user_id = notice.user_id;
            channel = channel;
            status = status;
            template_id = notice.type;
            idempotency_key = notice.idempotency_key;
            error = reason;
            provider_ref = none;
            sent_at = none;
          }
          ∷ room.logs;
    })

-- `logSkipped`.
unfoldable pub log_skipped : Database → (Mailroom → ℕ) → Mailroom → Notice → Channel → Mailroom
log_skipped db id_of room notice channel =
    elim (insert_log db id_of room notice channel skipped (some "DISABLED_BY_USER")) [
      | none ↦ room
      | some logged ↦ logged
    ]

abbrev contact_of : Database → Mailroom → ℕ → Option Contact
contact_of db room user_id = db.find_first (λ (u : Contact). u.id == user_id) room.users

abbrev one_of : Option ℕ → String → Result (List ℕ)
one_of none missing = err (error missing)
one_of (some address) missing = ok (address ∷ [])

-- Where the message goes; for a push, the tokens of the active devices.
abbrev email_of : Option Contact → Option ℕ
email_of none = none
email_of (some u) = u.email

abbrev phone_of : Option Contact → Option ℕ
phone_of none = none
phone_of (some u) = u.phone_number

unfoldable pub recipients_of : Database → Mailroom → ℕ → Channel → Result (List ℕ)
recipients_of db room user_id channel = elim channel [
  | in_app ↦ ok []
  | email ↦ one_of (email_of (contact_of db room user_id)) "User email not found"
  | sms ↦ one_of (phone_of (contact_of db room user_id)) "User phone not found"
  | whatsapp ↦ one_of (phone_of (contact_of db room user_id)) "User phone not found"
  | push ↦ ok (
      map (λ (d : Device). d.token)
        (filter (λ (d : Device). d.user_id == user_id && d.is_active) room.devices))
]

abbrev pub set_log : ℕ → (LogEntry → LogEntry) → Mailroom → Mailroom
set_log id change room = record room {
  logs = update_many (λ (l : LogEntry). l.id == id) change room.logs;
}

abbrev message_of : Exception → String
message_of (error m) = m
message_of (bad_request m) = m
message_of (not_found m) = m
message_of (forbidden m) = m
message_of (conflict m) = m
message_of (unauthorized m) = m

abbrev pub set_failed : Exception → LogEntry → LogEntry
set_failed e l = record l { status = failed; error = some (message_of e) }

abbrev pub set_answered : ℕ → Response → LogEntry → LogEntry
set_answered now r l = record l {
  status = if r.success then sent else failed;
  provider_ref = r.message_id;
  error = r.error;
  sent_at = if r.success then some now else none;
}

abbrev pub set_without_device : LogEntry → LogEntry
set_without_device l = record l { status = skipped; error = some "NO_ACTIVE_DEVICES" }

-- The call of the provider, and what becomes of the row.
unfoldable pub call_provider : (Message → Result Response) → ℕ → Mailroom → ℕ → Message → Mailroom
call_provider post now room id message =
    let called : Mailroom = record room { outbox = message ∷ room.outbox } in
    elim (post message) [
      | err e ↦ set_log id (set_failed e) called
      | ok response ↦ set_log id (set_answered now response) called
    ]

-- What follows the insertion of the row with the identifier: a channel without a recipient is a push
-- without a device, or IN_APP, whose row stays as it is.
unfoldable pub deliver :
    Database → (Message → Result Response) → ℕ → Mailroom → ℕ → Notice → Channel → Mailroom
deliver db post now room id notice channel = elim (recipients_of db room notice.user_id channel) [
  | err e ↦ set_log id (set_failed e) room
  | ok [] ↦ if channel =c push then set_log id set_without_device room else room
  | ok (r ∷ rs) ↦ call_provider post now room id (record {
    user_id = notice.user_id;
    channel = channel;
    template_id = notice.type;
    idempotency_key = notice.idempotency_key;
    recipients = r ∷ rs;
  })
]

unfoldable pub dispatch :
    Database
    → (Message → Result Response)
    → (Mailroom → ℕ)
    → ℕ
    → Mailroom
    → Notice
    → Channel
    → Mailroom
dispatch db post id_of now room notice channel =
    elim (insert_log db id_of room notice channel pending none) [
      | none ↦ room
      | some logged ↦ deliver db post now logged (id_of room) notice channel
    ]

-- One channel of a notice.
unfoldable pub send_over :
    Database
    → (Message → Result Response)
    → (Mailroom → ℕ)
    → ℕ
    → Mailroom
    → Notice
    → Channel
    → Mailroom
send_over db post id_of now room notice channel =
    if channel =c in_app
    then room
    else if is_disabled db room notice channel
    then elim notice.idempotency_key [
      | none ↦ room
      | some key ↦ log_skipped db id_of room notice channel
    ]
    else dispatch db post id_of now room notice channel

unfoldable pub send_each :
    Database
    → (Message → Result Response)
    → (Mailroom → ℕ)
    → ℕ
    → Mailroom
    → Notice
    → List Channel
    → Mailroom
send_each db post id_of now room notice [] = room
send_each db post id_of now room notice (channel ∷ rest) =
    send_each db post id_of now (send_over db post id_of now room notice channel) notice rest

unfoldable pub send_notification :
    Database → (Message → Result Response) → (Mailroom → ℕ) → ℕ → Mailroom → Notice → Mailroom
send_notification db post id_of now room notice =
    send_each db post id_of now room notice (target_channels notice)
