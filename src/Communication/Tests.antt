-- ===== src/Communication/Tests.antt =====
-- Tests of the messages, and instances of their theorems.
use playhub_playbooking.Common.{
  Result, [], false, length, map, none, ok, refl, some, true, ℕ, ◌∷◌, ◌≡◌,
}
use playhub_playbooking.Common.Database.{update_many}
use playhub_playbooking.Common.ListDatabase.{list_database}
use playhub_playbooking.Communication.{
  call_provider, deliver, dispatch, insert_log, is_disabled, log_skipped, recipients_of, send_each,
  send_notification, send_over, target_channels,
}
use playhub_playbooking.Communication.Once.{SendsOnce, send_all, send_all-SendsOnce}
use playhub_playbooking.Communication.Respects.{IsAllowed, Sends, send_notification-IsAllowed}
use playhub_playbooking.Communication.Types.{
  LogEntry, Mailroom, Message, Notice, Response, email, failed, push, sent, skipped, sms,
  transactional,
}

abbrev room : Mailroom
room = record {
  users = record { id = 1; email = some 91; phone_number = none } ∷ [];
  preferences =
      record { user_id = 1; category = transactional; channel = push; is_enabled = false } ∷ [];
  devices = record { user_id = 1; token = 77; is_active = true } ∷ [];
  logs = [];
  outbox = [];
}

abbrev next_log : Mailroom → ℕ
next_log room = length room.logs

-- Every provider answers with success.
abbrev post : Message → Result Response
post m = ok (record { success = true; message_id = some 1; error = none })

abbrev notice : Notice
notice = record {
  user_id = 1;
  type = "BOOKING_CONFIRMED";
  category = transactional;
  channels = some (email ∷ push ∷ sms ∷ []);
  idempotency_key = some 5;
}

unfoldable communication_program : Unit {0}
unfolding target_channels is_disabled insert_log log_skipped recipients_of call_provider deliver
    dispatch send_over send_each send_notification send_all update_many
communication_program = tt

abbrev twice : Mailroom
twice = send_all list_database post next_log room ((10, notice) ∷ (11, notice) ∷ [])

-- One message by email; the push is skipped, and for the SMS there is no number.
send_all-twice :
    (map (λ (m : Message). m.channel) twice.outbox ≡ email ∷ [])
    × (map (λ (l : LogEntry). l.status) twice.logs ≡ failed ∷ skipped ∷ sent ∷ [])
unfolding communication_program
send_all-twice = (refl, refl)

send_all-SendsOnce_example :
    SendsOnce (send_all list_database post next_log room ((10, notice) ∷ (11, notice) ∷ []))
send_all-SendsOnce_example =
    send_all-SendsOnce list_database post next_log room ((10, notice) ∷ (11, notice) ∷ [])
      (tt, tt, (λ user channel key h. tt))

send_notification-IsAllowed_example :
    Sends
      (IsAllowed room notice (target_channels notice))
      room
      (send_notification list_database post next_log 10 room notice)
send_notification-IsAllowed_example =
    send_notification-IsAllowed list_database post next_log 10 room notice
