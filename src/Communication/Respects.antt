-- ===== src/Communication/Respects.antt =====
-- The messages of backend/src/communication/communication.service.ts go where their users allow it.
use Prim.Native.String.{String}
use playhub_playbooking.Common.{
  All, All-append, Any, Bool-cases, List, Option, Option-cases, Result, Result-cases, [], ap,
  append_assoc, false, inl, inr, none, ok, refl, some, subst, sym, ℕ, ◌++◌, ◌∙◌, ◌∷◌, ◌≡◌,
}
use playhub_playbooking.Common.Database.{Database}
use playhub_playbooking.Communication.{
  call_provider, deliver, dispatch, insert_log, is_disabled, is_logged_as, log_skipped,
  recipients_of, send_each, send_notification, send_over, target_channels, ◌=c◌,
}
use playhub_playbooking.Communication.Choices.{MayUse, is_disabled-MayUse}
use playhub_playbooking.Communication.Types.{
  Channel, DeliveryStatus, LogEntry, Mailroom, Message, Notice, Response, in_app, pending, push,
  skipped,
}
use playhub_playbooking.Finance.{post}

-- A message to the user of the notice over a channel that it asks for and that may be used.
abbrev pub IsAllowed : Mailroom → Notice → List Channel → Message → Type 0
IsAllowed room notice channels m =
    (m.user_id ≡ notice.user_id) × MayUse room notice m.channel × Any (λ c. m.channel ≡ c) channels

-- What is sent has the property, and comes before what was sent earlier; the preferences stay.
abbrev pub Sends : (Message → Type 0) → Mailroom → Mailroom → Type 0
Sends P room after =
    (after.preferences ≡ room.preferences)
    × ((added : List Message) × (after.outbox ≡ added ++ room.outbox) × All P added)

nothing_sent : (P : Message → Type 0) (room : Mailroom) → Sends P room room
nothing_sent P room = (refl, ([], refl, tt))

Sends-trans : (P : Message → Type 0) (a b c : Mailroom) → Sends P a b → Sends P b c → Sends P a c
Sends-trans P a b c (kept, (added, e, all)) (kept', (added', e', all')) = (
  kept' ∙ kept,
  (
    added' ++ added,
    e' ∙ ap (λ (ms : List Message). added' ++ ms) e ∙ sym (append_assoc added' added a.outbox),
    All-append P added' added all' all,
  ),
)

module _ (db : Database) (post : Message → Result Response) (id_of : Mailroom → ℕ) (now : ℕ)
    (room : Mailroom) (notice : Notice) (channel : Channel) (P : Message → Type 0) where
  insert_log-Sends :
      (status : DeliveryStatus) (reason : Option String) (logged : Mailroom)
      → insert_log db id_of room notice channel status reason ≡ some logged
      → Sends P room logged
  unfolding insert_log
  insert_log-Sends status reason logged h =
      elim (Option-cases (db.find_first (is_logged_as notice channel) room.logs)) [
        | inr (l, e) ↦ absurd (cc (rw (insert_log, e) at h))
        | inl e ↦
            let row : LogEntry = record {
              id = id_of room;
              user_id = notice.user_id;
              channel = channel;
              status = status;
              template_id = notice.type;
              idempotency_key = notice.idempotency_key;
              error = reason;
              provider_ref = none;
              sent_at = none;
            } in
            let k : some (record room { logs = row ∷ room.logs }) ≡ some logged =
              rw (insert_log, e) at h in
            let same : record room { logs = row ∷ room.logs } ≡ logged = cc in
            subst (Sends P room) same (refl, ([], refl, tt))
      ]

  deliver-Sends :
      (logged : Mailroom) (id : ℕ) (to : List ℕ)
      → ((m : Message) → m.user_id ≡ notice.user_id → m.channel ≡ channel → P m)
      → recipients_of db logged notice.user_id channel ≡ ok to
      → Sends P logged (deliver db post now logged id notice channel)
  unfolding deliver call_provider
  deliver-Sends logged id [] has k = elim (Bool-cases (channel =c push)) [
    | inl y ↦ rw (deliver, k, y) (refl, ([], refl, tt))
    | inr y ↦ rw (deliver, k, y) (refl, ([], refl, tt))
  ]
  deliver-Sends logged id (r ∷ rs) has k =
      let m : Message = record {
        user_id = notice.user_id;
        channel = channel;
        template_id = notice.type;
        idempotency_key = notice.idempotency_key;
        recipients = r ∷ rs;
      } in
      elim (Result-cases (post m)) [
        | inr (x, y) ↦
            rw (deliver, k, call_provider, y) (refl, (m ∷ [], refl, (has m refl refl, tt)))
        | inl (response, y) ↦
            rw (deliver, k, call_provider, y) (refl, (m ∷ [], refl, (has m refl refl, tt)))
      ]

  dispatch-Sends :
      ((m : Message) → m.user_id ≡ notice.user_id → m.channel ≡ channel → P m)
      → Sends P room (dispatch db post id_of now room notice channel)
  unfolding dispatch deliver
  dispatch-Sends has = elim (Option-cases (insert_log db id_of room notice channel pending none)) [
    | inl e ↦ rw (dispatch, e) (nothing_sent P room)
    | inr (logged, e) ↦
        let first = insert_log-Sends pending none logged e in
        elim (Result-cases (recipients_of db logged notice.user_id channel)) [
          | inr (x, k) ↦ rw (dispatch, e, deliver, k) first
          | inl (to, k) ↦
              let second = deliver-Sends logged (id_of room) to has k in
              rw (dispatch, e)
                (Sends-trans P room logged (deliver db post now logged (id_of room) notice channel)
                  first second)
        ]
  ]

  send_over-Sends :
      ((m : Message)
        → m.user_id ≡ notice.user_id
        → m.channel ≡ channel
        → is_disabled db room notice channel ≡ false
        → P m)
      → Sends P room (send_over db post id_of now room notice channel)
  unfolding send_over log_skipped
  send_over-Sends has = elim (Bool-cases (channel =c in_app)) [
    | inl e ↦ rw (send_over, e) (nothing_sent P room)
    | inr e ↦ elim (Bool-cases (is_disabled db room notice channel)) [
      | inr k ↦ rw (send_over, e, k) (dispatch-Sends (λ m u c. has m u c k))
      | inl k ↦ elim (Option-cases notice.idempotency_key) [
        | inl l ↦ rw (send_over, e, k, l) (nothing_sent P room)
        | inr (key, l) ↦
            let reason : Option String = some "DISABLED_BY_USER" in
            elim (Option-cases (insert_log db id_of room notice channel skipped reason)) [
              | inl y ↦
                  let still : Sends P room (log_skipped db id_of room notice channel) =
                    rw (log_skipped, y) (nothing_sent P room) in
                  rw (send_over, e, k, l) still
              | inr (logged, y) ↦
                  let skips : Sends P room (log_skipped db id_of room notice channel) =
                    rw (log_skipped, y) (insert_log-Sends skipped reason logged y) in
                  rw (send_over, e, k, l) skips
            ]
      ]
    ]
  ]

send_each-Sends :
    (db : Database) (post : Message → Result Response) (id_of : Mailroom → ℕ) (now : ℕ)
    (start room : Mailroom) (notice : Notice) (channels : List Channel) (P : Message → Type 0)
    → room.preferences ≡ start.preferences
    → ((m : Message) → IsAllowed start notice channels m → P m)
    → Sends P room (send_each db post id_of now room notice channels)
unfolding send_each
send_each-Sends db post id_of now start room notice [] P kept has = nothing_sent P room
send_each-Sends db post id_of now start room notice (channel ∷ rest) P kept has =
    let after = send_over db post id_of now room notice channel in
    let first : Sends P room after =
      send_over-Sends db post id_of now room notice channel P (λ m u c on.
        let free : MayUse start notice m.channel =
          rw (c, sym kept) (is_disabled-MayUse db room notice channel on) in
        has m (u, free, inl c)) in
    Sends-trans P room after (send_each db post id_of now after notice rest) first (
      send_each-Sends db post id_of now start after notice rest P (first.0 ∙ kept)
        (λ m (u, free, among). has m (u, free, inr among)))

-- A notice leaves the messages that were sent before, and adds messages to its user only, each over a
-- channel that the notice asks for, or that its category has by default, where the notice is about
-- security, or the user has made no choice for the category and the channel, or has a row of the
-- preferences that enables it; the preferences stay.
pub send_notification-IsAllowed :
    (db : Database) (post : Message → Result Response) (id_of : Mailroom → ℕ) (now : ℕ)
    (room : Mailroom) (notice : Notice)
    → Sends
        (IsAllowed room notice (target_channels notice))
        room
        (send_notification db post id_of now room notice)
unfolding send_notification
send_notification-IsAllowed db post id_of now room notice =
    send_each-Sends db post id_of now room room notice (target_channels notice)
      (IsAllowed room notice (target_channels notice)) refl (λ m h. h)
