-- ===== src/Push/Tests.antt =====
-- The theorems on the router of notifications at concrete inputs.
use life_merge.Base.{◌≡◌, refl, ◌⊎◌, true, false, none, [], ◌∷◌, String, str_eq, if◌then◌else◌}
use life_merge.Push.Platforms.{
  Device, NotificationPayload, Reply, response, email_platform, fcm_platform,
}
use life_merge.Push.{metric, route, push_router, send_notification, payload_for, push_program}
use life_merge.Push.Delivery.{IsLower, route-push_router}

abbrev phone : Device
phone = record {
  user_id = 7;
  platform = "android";
  device_token = "token-of-a-phone";
  enabled = true;
}

abbrev old_phone : Device
old_phone = record { user_id = 7; platform = "ios"; device_token = "t"; enabled = false }

abbrev hello : NotificationPayload
hello = payload_for 7 "Hello" "A text" none none phone

-- A server that is down.
abbrev post : NotificationPayload → Reply
post payload = response 503 "unavailable"

abbrev lower : String → String
lower s = s

lower-IsLower : IsLower lower
lower-IsLower = record { ios = refl; android = refl; web = refl }

-- The one device that is enabled is tried by FCM and then reached by mail.
send_test :
    send_notification lower post (phone ∷ old_phone ∷ []) 7 "Hello" "A text" none none
    ≡ (
      metric hello (fcm_platform post) "failed" ∷ metric hello email_platform "delivered" ∷ [],
      true,
    )
      ∷ []
unfolding push_program
send_test = refl

route-push_router_example :
    ((lower phone.platform ≡ "android") ⊎ (lower phone.platform ≡ "web")
      → (route lower (push_router lower post) hello).1 ≡ true)
    × (lower phone.platform ≡ "ios"
        → (route lower (push_router lower post) hello).1
          ≡ (if str_eq phone.device_token "" then false else true))
route-push_router_example = route-push_router lower lower-IsLower post hello
