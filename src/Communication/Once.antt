-- ===== src/Communication/Once.antt =====
-- No message of backend/src/communication/communication.service.ts is sent twice.
use Prim.Native.String.{String}
use playhub_playbooking.Common.{
  All, Bool, Bool-cases, List, Option, Option-cases, Result, Result-cases, [], ap, false,
  if◌then◌else◌, inl, inr, none, ok, refl, some, subst, sym, true, ℕ, ◌==◌, ◌∷◌, ◌≡◌,
}
use playhub_playbooking.Common.Database.{All-intro, AllPairs, AllPairs-update_many, Database}
use playhub_playbooking.Common.Queries.{All-update_many}
use playhub_playbooking.Communication.{
  call_provider, deliver, dispatch, insert_log, is_disabled, is_logged_as, log_skipped,
  recipients_of, same_delivery, send_each, send_notification, send_over, set_answered, set_failed,
  set_log, set_without_device, target_channels, ◌=c◌,
}
use playhub_playbooking.Communication.Types.{
  Channel, DeliveryStatus, LogEntry, Mailroom, Message, Notice, Response, in_app, pending, push,
  skipped,
}
use playhub_playbooking.Finance.{post}
use playhub_playbooking.Interval.Points.{covers}

-- Neither two rows of the log nor two messages have one user, channel and idempotency key; and where
-- no row has a key, no message has it.
abbrev pub SendsOnce : Mailroom → Type 0
SendsOnce room =
    AllPairs
      (λ (a b : LogEntry).
        same_delivery b.user_id b.channel b.idempotency_key a.idempotency_key a.user_id a.channel
        ≡ false)
      room.logs
    × AllPairs
        (λ (a b : Message).
          same_delivery b.user_id b.channel b.idempotency_key a.idempotency_key a.user_id a.channel
          ≡ false)
        room.outbox
    × ((user : ℕ) (channel : Channel) (key : Option ℕ)
        → All
            (λ (l : LogEntry).
              same_delivery l.user_id l.channel l.idempotency_key key user channel ≡ false)
            room.logs
        → All
            (λ (m : Message).
              same_delivery m.user_id m.channel m.idempotency_key key user channel ≡ false)
            room.outbox)

-- A change of a row that keeps its user, its channel and its key.
abbrev KeepsKey : (LogEntry → LogEntry) → Type 0
KeepsKey change =
    (l : LogEntry)
    → ((change l).user_id ≡ l.user_id)
      × ((change l).channel ≡ l.channel)
      × ((change l).idempotency_key ≡ l.idempotency_key)

set_log-SendsOnce :
    (id : ℕ) (change : LogEntry → LogEntry) (room : Mailroom)
    → KeepsKey change
    → SendsOnce room
    → SendsOnce (set_log id change room)
set_log-SendsOnce id change room keeps (rows, messages, covers) = (
  AllPairs-update_many
      (λ (a b : LogEntry).
        same_delivery b.user_id b.channel b.idempotency_key a.idempotency_key a.user_id a.channel
        ≡ false)
      (λ l. Unit {0}) (λ (l : LogEntry). l.id == id) change room.logs
      (λ a b _ _. pair a b (a.id == id) (b.id == id))
      (All-intro (λ l. Unit {0}) room.logs (λ l. tt)) rows,
  messages,
  (λ user channel key none_has. covers user channel key (
      All-update_many
        (λ (l : LogEntry).
          same_delivery l.user_id l.channel l.idempotency_key key user channel ≡ false)
        (λ (l : LogEntry). l.id == id) change room.logs
        (λ l h. rw ((keeps l).0, (keeps l).1, (keeps l).2) at h) none_has)),
)
  where
    pair :
        (a b : LogEntry) (x y : Bool)
        → same_delivery b.user_id b.channel b.idempotency_key a.idempotency_key a.user_id a.channel
          ≡ false
        → same_delivery
            (if y then change b else b).user_id
            (if y then change b else b).channel
            (if y then change b else b).idempotency_key
            (if x then change a else a).idempotency_key
            (if x then change a else a).user_id
            (if x then change a else a).channel
          ≡ false
    pair a b true true h =
        rw ((keeps a).0, (keeps a).1, (keeps a).2, (keeps b).0, (keeps b).1, (keeps b).2) h
    pair a b true false h = rw ((keeps a).0, (keeps a).1, (keeps a).2) h
    pair a b false true h = rw ((keeps b).0, (keeps b).1, (keeps b).2) h
    pair a b false false h = h

-- The tables after a new row of the log.
insert_log-ok :
    (db : Database) (id_of : Mailroom → ℕ) (room : Mailroom) (notice : Notice) (channel : Channel)
    (status : DeliveryStatus) (reason : Option String) (logged : Mailroom)
    → insert_log db id_of room notice channel status reason ≡ some logged
    → (row : LogEntry) × (row.user_id ≡ notice.user_id)
      × (row.channel ≡ channel)
      × (row.idempotency_key ≡ notice.idempotency_key)
      × All (λ l. is_logged_as notice channel l ≡ false) room.logs
      × (logged ≡ record room { logs = row ∷ room.logs })
unfolding insert_log
insert_log-ok db id_of room notice channel status reason logged h =
    elim (Option-cases (db.find_first (is_logged_as notice channel) room.logs)) [
      | inr (l, e) ↦ absurd (cc (rw (insert_log, e) at h))
      | inl e ↦
          let row : LogEntry = record {
            id = id_of room;
            user_id = notice.user_id;
            channel = channel;
            status = status;
            template_id = notice.type;
            idempotency_key = notice.idempotency_key;
            error = reason;
            provider_ref = none;
            sent_at = none;
          } in
          let k : some (record room { logs = row ∷ room.logs }) ≡ some logged =
            rw (insert_log, e) at h in
          (row, refl, refl, refl, db.find_first-none (is_logged_as notice channel) room.logs e, cc)
    ]

module _ (db : Database) (id_of : Mailroom → ℕ) (room : Mailroom) (notice : Notice)
    (channel : Channel) (sound : SendsOnce room) where
  insert_log-SendsOnce :
      (status : DeliveryStatus) (reason : Option String) (logged : Mailroom)
      → insert_log db id_of room notice channel status reason ≡ some logged
      → SendsOnce logged
  insert_log-SendsOnce status reason logged h =
      let (rows, messages, covers) = sound in
      let (row, u, c, k, others, same) =
        insert_log-ok db id_of room notice channel status reason logged h in
      let apart : All
          (λ (l : LogEntry).
            same_delivery l.user_id l.channel l.idempotency_key row.idempotency_key row.user_id
              row.channel
            ≡ false)
          room.logs =
        rw (u, c, k) others in
      subst SendsOnce (sym same)
        ((apart, rows), messages, (λ user chan key none_has. covers user chan key none_has.1))

  -- The message of the row that was made may be sent.
  sent-SendsOnce :
      (status : DeliveryStatus) (reason : Option String) (logged : Mailroom) (m : Message)
      → insert_log db id_of room notice channel status reason ≡ some logged
      → m.user_id ≡ notice.user_id
      → m.channel ≡ channel
      → m.idempotency_key ≡ notice.idempotency_key
      → SendsOnce (record logged { outbox = m ∷ logged.outbox })
  sent-SendsOnce status reason logged m h mu mc mk =
      let (rows, messages, covers) = sound in
      let (row, u, c, k, others, same) =
        insert_log-ok db id_of room notice channel status reason logged h in
      let (rows', messages', covers') = insert_log-SendsOnce status reason logged h in
      let box : logged.outbox ≡ room.outbox = ap (λ (r : Mailroom). r.outbox) same in
      let fresh = covers notice.user_id channel notice.idempotency_key others in
      let apart : All
          (λ (o : Message).
            same_delivery o.user_id o.channel o.idempotency_key m.idempotency_key m.user_id
              m.channel
            ≡ false)
          logged.outbox =
        rw (mu, mc, mk, box) fresh in
      let logs : logged.logs ≡ row ∷ room.logs = ap (λ (r : Mailroom). r.logs) same in
      (
        rows',
        (apart, messages'),
        (λ user chan key none_has.
            let first : same_delivery row.user_id row.channel row.idempotency_key key user chan
                ≡ false =
              (subst
                (λ (ls : List LogEntry).
                  All
                    (λ (l : LogEntry).
                      same_delivery l.user_id l.channel l.idempotency_key key user chan ≡ false)
                    ls)
                logs none_has).0 in
            let own : same_delivery m.user_id m.channel m.idempotency_key key user chan ≡ false =
              rw (mu, mc, mk) (rw (u, c, k) at first) in
            (own, covers' user chan key none_has)),
      )

  delivered_to :
      (post : Message → Result Response) (now : ℕ) (logged : Mailroom) (to : List ℕ)
      → insert_log db id_of room notice channel pending none ≡ some logged
      → recipients_of db logged notice.user_id channel ≡ ok to
      → SendsOnce (deliver db post now logged (id_of room) notice channel)
  unfolding deliver call_provider
  delivered_to post now logged [] e k =
      let after = insert_log-SendsOnce pending none logged e in
      elim (Bool-cases (channel =c push)) [
        | inl y ↦
            rw (deliver, k, y)
              (set_log-SendsOnce (id_of room) set_without_device logged (λ l. (refl, refl, refl))
                after)
        | inr y ↦ rw (deliver, k, y) after
      ]
  delivered_to post now logged (r ∷ rs) e k =
      let m : Message = record {
        user_id = notice.user_id;
        channel = channel;
        template_id = notice.type;
        idempotency_key = notice.idempotency_key;
        recipients = r ∷ rs;
      } in
      let called : Mailroom = record logged { outbox = m ∷ logged.outbox } in
      let after = sent-SendsOnce pending none logged m e refl refl refl in
      elim (Result-cases (post m)) [
        | inr (x, y) ↦
            rw (deliver, k, call_provider, y)
              (set_log-SendsOnce (id_of room) (set_failed x) called (λ l. (refl, refl, refl)) after)
        | inl (response, y) ↦
            rw (deliver, k, call_provider, y)
              (set_log-SendsOnce (id_of room) (set_answered now response) called
                (λ l. (refl, refl, refl)) after)
      ]

  dispatch-SendsOnce :
      (post : Message → Result Response) (now : ℕ)
      → SendsOnce (dispatch db post id_of now room notice channel)
  unfolding dispatch deliver
  dispatch-SendsOnce post now =
      let id = id_of room in
      elim (Option-cases (insert_log db id_of room notice channel pending none)) [
        | inl e ↦ rw (dispatch, e) sound
        | inr (logged, e) ↦ elim (Result-cases (recipients_of db logged notice.user_id channel)) [
          | inr (x, k) ↦
              let after = insert_log-SendsOnce pending none logged e in
              rw (dispatch, e, deliver, k)
                (set_log-SendsOnce id (set_failed x) logged (λ l. (refl, refl, refl)) after)
          | inl (to, k) ↦ rw (dispatch, e) (delivered_to post now logged to e k)
        ]
      ]

  log_skipped-SendsOnce : SendsOnce (log_skipped db id_of room notice channel)
  unfolding log_skipped
  log_skipped-SendsOnce =
      let reason : Option String = some "DISABLED_BY_USER" in
      elim (Option-cases (insert_log db id_of room notice channel skipped reason)) [
        | inl e ↦ rw (log_skipped, e) sound
        | inr (logged, e) ↦ rw (log_skipped, e) (insert_log-SendsOnce skipped reason logged e)
      ]

  send_over-SendsOnce :
      (post : Message → Result Response) (now : ℕ)
      → SendsOnce (send_over db post id_of now room notice channel)
  unfolding send_over
  send_over-SendsOnce post now = elim (Bool-cases (channel =c in_app)) [
    | inl e ↦ rw (send_over, e) sound
    | inr e ↦ elim (Bool-cases (is_disabled db room notice channel)) [
      | inr k ↦ rw (send_over, e, k) (dispatch-SendsOnce post now)
      | inl k ↦ elim (Option-cases notice.idempotency_key) [
        | inl l ↦ rw (send_over, e, k, l) sound
        | inr (key, l) ↦ let logged = log_skipped-SendsOnce in rw (send_over, e, k, l) logged
      ]
    ]
  ]

send_each-SendsOnce :
    (db : Database) (post : Message → Result Response) (id_of : Mailroom → ℕ) (now : ℕ)
    (room : Mailroom) (notice : Notice) (channels : List Channel)
    → SendsOnce room
    → SendsOnce (send_each db post id_of now room notice channels)
unfolding send_each
send_each-SendsOnce db post id_of now room notice [] sound = sound
send_each-SendsOnce db post id_of now room notice (channel ∷ rest) sound =
    send_each-SendsOnce db post id_of now (send_over db post id_of now room notice channel) notice
      rest (send_over-SendsOnce db id_of room notice channel sound post now)

-- The notices of a history, each at its time.
unfoldable pub send_all :
    Database
    → (Message → Result Response)
    → (Mailroom → ℕ)
    → Mailroom
    → List (ℕ × Notice)
    → Mailroom
send_all db post id_of room [] = room
send_all db post id_of room ((now, notice) ∷ rest) =
    send_all db post id_of (send_notification db post id_of now room notice) rest

-- After any sequence of notices, whatever the providers answer or throw, no two messages and no two
-- rows of the log have the same user, channel and idempotency key, and every message with a key has
-- its row, if this held before.
pub send_all-SendsOnce :
    (db : Database) (post : Message → Result Response) (id_of : Mailroom → ℕ) (room : Mailroom)
    (notices : List (ℕ × Notice))
    → SendsOnce room
    → SendsOnce (send_all db post id_of room notices)
unfolding send_all send_notification
send_all-SendsOnce db post id_of room [] sound = sound
send_all-SendsOnce db post id_of room ((now, notice) ∷ rest) sound =
    send_all-SendsOnce db post id_of (send_notification db post id_of now room notice) rest
      (send_each-SendsOnce db post id_of now room notice (target_channels notice) sound)
