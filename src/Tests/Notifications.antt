-- ===== src/Tests/Notifications.antt =====
-- A request for another user's notification.
use akar_ai.Prelude.{◌≡◌, refl, none, some, [], ◌∷◌, nat_key}
use akar_ai.Table.{find}
use akar_ai.Notifications.{
  Notification, Inbox, read, handle_notification, foreign_notification_stays,
}

abbrev greeting : Notification
greeting = record {
  recipient_user_id = some 9;
  tenant_id = none;
  channel = "platform";
  template_key = none;
  payload = none;
  status = "pending";
  read_at = none;
}

abbrev inbox : Inbox
inbox = record { notifications = (4, greeting) ∷ []; domain_logs = [] }

foreign_notification_stays_example :
    find 4 (handle_notification 8 (read 100 4) inbox).notifications ≡ some greeting
foreign_notification_stays_example =
    foreign_notification_stays 8 4 inbox greeting (unfold find in refl) refl (read 100 4)
