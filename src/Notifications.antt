-- ===== src/Notifications.antt =====
-- backend/app/notifications: the rows and the operations of service.py, each in the transaction of
-- its request.
use akar_ai.Prelude.{
  ℕ, ◌==◌, nat_beq_iff, String, ◌≡◌, sym, subst, Bool, true, false, not, Option, none, some, List,
  [], ◌∷◌, ◌++◌, or_else, str, arith, nat_key, Option-cases, Bool-cases, inl, inr,
}
use akar_ai.Exec.{
  Exec, ok, not_found, forbidden, transaction, transaction-cases, pure, gets, modify, or_raise,
  raise_if, ◌>>=◌, ◌>>◌,
}
use akar_ai.Table.{Table, find, put, find-put}
use akar_ai.Database.{DomainEventLog}

-- models.py
pub record Notification : Type 0 where
  pub recipient_user_id : Option ℕ
  pub tenant_id : Option ℕ
  pub channel : String
  pub template_key : Option String
  pub payload : Option String
  pub status : String
  pub read_at : Option ℕ

pub record Inbox : Type 0 where
  pub notifications : Table ℕ Notification
  pub domain_logs : List DomainEventLog

-- `notification.recipient_user_id and str(notification.recipient_user_id) != str(user_id)`
abbrev pub is_for_another : Option ℕ → ℕ → Bool
is_for_another none user_id = false
is_for_another (some recipient) user_id = not (recipient == user_id)

notification_event : String → ℕ → ℕ → DomainEventLog
notification_event event_name notification_id user_id = record {
  event_name = event_name;
  aggregate_type = some "notification";
  aggregate_id = some (str notification_id);
  payload = [];
  agency_tenant_id = none;
  actor_user_id = some user_id;
}

unfoldable pub get_notification : ℕ → ℕ → Exec Inbox Notification
get_notification notification_id user_id = do
  found ← gets (λ inbox. find notification_id inbox.notifications)
  notification ← or_raise (not_found "Notification not found") found
  raise_if (is_for_another notification.recipient_user_id user_id)
      (forbidden "Not your notification")
  pure notification

-- The write of a row and of its event, which the two operations end with.
abbrev store : ℕ → ℕ → String → Notification → Exec Inbox Notification
store notification_id user_id event_name notification = do
  modify
      λ inbox. record inbox { notifications = put notification_id notification inbox.notifications }
  modify λ inbox. record inbox {
    domain_logs = inbox.domain_logs ++ notification_event event_name notification_id user_id ∷ [];
  }
  pure notification

unfoldable pub mark_read : ℕ → ℕ → ℕ → Exec Inbox Notification
unfolding get_notification notification_event
mark_read now notification_id user_id = do
  notification ← get_notification notification_id user_id
  store notification_id user_id "notification.read"
      (record notification { status = "read"; read_at = some now })

unfoldable pub dismiss : ℕ → ℕ → Exec Inbox Notification
unfolding get_notification notification_event
dismiss notification_id user_id = do
  notification ← get_notification notification_id user_id
  store notification_id user_id "notification.dismissed"
      (record notification { status = "dismissed" })

-- The keys of the dict that `create_notification` reads.
pub record NotificationData : Type 0 where
  pub recipient_user_id : Option ℕ
  pub tenant_id : Option ℕ
  pub channel : Option String
  pub template_key : Option String
  pub payload : Option String

unfoldable pub create_notification : ℕ → NotificationData → Exec Inbox Notification
create_notification new_id data_ = do
  let notification : Notification = record {
    recipient_user_id = data_.recipient_user_id;
    tenant_id = data_.tenant_id;
    channel = or_else data_.channel "platform";
    template_key = data_.template_key;
    payload = data_.payload;
    status = "pending";
    read_at = none;
  }
  modify λ inbox. record inbox { notifications = put new_id notification inbox.notifications }
  pure notification

pub data NotificationRequest : Type 0 where
  read : (now notification_id : ℕ) → NotificationRequest
  put_away : (notification_id : ℕ) → NotificationRequest

unfoldable pub handle_notification : ℕ → NotificationRequest → Inbox → Inbox
handle_notification user_id (read now id) inbox = (transaction (mark_read now id user_id) inbox).1
handle_notification user_id (put_away id) inbox = (transaction (dismiss id user_id) inbox).1

module _ (user_id id : ℕ) (inbox : Inbox) (row : Notification)
    (found : find id inbox.notifications ≡ some row)
    (other : is_for_another row.recipient_user_id user_id ≡ true) where
  here : (i : ℕ) → (i == id) ≡ true → find i inbox.notifications ≡ some row
  here i same =
      subst (λ k. find k inbox.notifications ≡ some row) (sym ((nat_beq_iff i id).0 same)) found

  mark_read-other :
      (now i : ℕ) (n : Notification)
      → (mark_read now i user_id inbox).0 ≡ ok n
      → find id (mark_read now i user_id inbox).1.notifications ≡ some row
  unfolding mark_read get_notification
  mark_read-other now i n h = elim (Option-cases (find i inbox.notifications)) [
    | inl missing ↦ absurd (ground (arith, missing))
    | inr (x, e) ↦ elim (Bool-cases (i == id)) [
      | inl same ↦ absurd (ground (arith, e, found, other, here i same))
      | inr apart ↦ ground (
        arith,
        e,
        found,
        apart,
        find-put i id (record x { status = "read"; read_at = some now }) inbox.notifications,
      )
    ]
  ]

  dismiss-other :
      (i : ℕ) (n : Notification)
      → (dismiss i user_id inbox).0 ≡ ok n
      → find id (dismiss i user_id inbox).1.notifications ≡ some row
  unfolding dismiss get_notification
  dismiss-other i n h = elim (Option-cases (find i inbox.notifications)) [
    | inl missing ↦ absurd (ground (arith, missing))
    | inr (x, e) ↦ elim (Bool-cases (i == id)) [
      | inl same ↦ absurd (ground (arith, e, found, other, here i same))
      | inr apart ↦ ground (
        arith,
        e,
        found,
        apart,
        find-put i id (record x { status = "dismissed" }) inbox.notifications,
      )
    ]
  ]

  -- A user's request leaves the notifications of other recipients as they are, whatever it names.
  pub foreign_notification_stays :
      (r : NotificationRequest)
      → find id (handle_notification user_id r inbox).notifications ≡ some row
  unfolding handle_notification
  foreign_notification_stays (read now i) =
      elim (transaction-cases (mark_read now i user_id) inbox) [
        | inl same ↦ rw same found
        | inr (n, done, written) ↦ rw written (mark_read-other now i n done)
      ]
  foreign_notification_stays (put_away i) = elim (transaction-cases (dismiss i user_id) inbox) [
    | inl same ↦ rw same found
    | inr (n, done, written) ↦ rw written (dismiss-other i n done)
  ]
