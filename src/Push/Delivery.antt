-- ===== src/Push/Delivery.antt =====
-- Which platform takes a notification in Backend/app/services/push_service.py.
use life_merge.Base.{
  ◌≡◌, refl, ◌⊎◌, Bool, true, false, List, [], ◌∷◌, ◌++◌, String, str_eq, any, if◌then◌else◌, arith,
  Bool-cases, inl, inr,
}
use life_merge.Push.Platforms.{
  NotificationPayload, NotificationPlatform, Reply, email_platform, fcm_platform, apns_platform,
  web_push_platform,
}
use life_merge.Push.{
  try_chain, route, push_router, make_router, lookup, resolve_key, resolve_platform, build_chain,
  chain_of, fallbacks,
}

-- The platform accepts the device's token and sends the notification with success.
pub takes : NotificationPayload → NotificationPlatform → Bool
takes payload platform =
    if platform.validate_token payload.device.device_token
    then (platform.send payload).success
    else false

-- A notification is taken exactly when some platform of its chain takes it, and the platforms that
-- stand behind the first one that does are not tried: nothing is recorded of them.
try_chain-taken :
    (payload : NotificationPayload) (before after : List NotificationPlatform)
    (platform : NotificationPlatform)
    → ((try_chain payload before).1 ≡ any (takes payload) before)
      × (takes payload platform ≡ true
          → try_chain payload (before ++ platform ∷ after)
            ≡ try_chain payload (before ++ platform ∷ []))
unfolding try_chain takes
try_chain-taken payload [] after platform = (
  refl,
  λ h. elim (Bool-cases (platform.validate_token payload.device.device_token)) [
    | inl v ↦ rw (v, (rw v at h)) refl
    | inr v ↦ let no : false ≡ true = rw v at h in cc
  ],
)
try_chain-taken payload (p ∷ before) after platform =
    let (taken, stop) = try_chain-taken payload before after platform in
    elim (Bool-cases (p.validate_token payload.device.device_token)) [
      | inr v ↦ rw v (taken, λ h. rw (stop h) refl)
      | inl v ↦ elim (Bool-cases (p.send payload).success) [
        | inl s ↦ rw (v, s) (refl, λ h. refl)
        | inr s ↦ rw (v, s) (taken, λ h. rw (stop h) refl)
      ]
    ]

-- `str.lower` leaves a text of small letters as it is.
pub record IsLower (lower : String → String) : Type 0 where
  pub ios : lower "ios" ≡ "ios"
  pub android : lower "android" ≡ "android"
  pub web : lower "web" ≡ "web"

module _ (lower : String → String) (laws : IsLower lower) (post : NotificationPayload → Reply) where
  chain-android :
      (hint : String)
      → lower hint ≡ "android"
      → build_chain lower (push_router lower post) hint ≡ fcm_platform post ∷ email_platform ∷ []
  unfolding push_router make_router lookup resolve_key resolve_platform build_chain chain_of
      fallbacks email_platform fcm_platform apns_platform web_push_platform
  chain-android hint h = rw (h, laws.ios, laws.android, laws.web) refl

  chain-web :
      (hint : String)
      → lower hint ≡ "web"
      → build_chain lower (push_router lower post) hint ≡ web_push_platform ∷ email_platform ∷ []
  unfolding push_router make_router lookup resolve_key resolve_platform build_chain chain_of
      fallbacks email_platform fcm_platform apns_platform web_push_platform
  chain-web hint h = rw (h, laws.ios, laws.android, laws.web) refl

  chain-ios :
      (hint : String)
      → lower hint ≡ "ios"
      → build_chain lower (push_router lower post) hint ≡ apns_platform ∷ []
  unfolding push_router make_router lookup resolve_key resolve_platform build_chain chain_of
      fallbacks email_platform fcm_platform apns_platform web_push_platform
  chain-ios hint h = rw (h, laws.ios, laws.android, laws.web) refl

  try_chain-email :
      (payload : NotificationPayload) (platform : NotificationPlatform)
      → (try_chain payload (platform ∷ email_platform ∷ [])).1 ≡ true
  unfolding try_chain email_platform
  try_chain-email payload platform = ground arith

  -- A notification to a device whose platform is "android" or "web", in letters of any case, is
  -- taken by some platform, whatever its token is and whatever the HTTP client answers; one to a
  -- device whose platform is "ios" is taken exactly if it has a token.
  pub route-push_router :
      (payload : NotificationPayload)
      → ((lower payload.device.platform ≡ "android") ⊎ (lower payload.device.platform ≡ "web")
          → (route lower (push_router lower post) payload).1 ≡ true)
        × (lower payload.device.platform ≡ "ios"
            → (route lower (push_router lower post) payload).1
              ≡ (if str_eq payload.device.device_token "" then false else true))
  unfolding route try_chain apns_platform
  route-push_router payload = (
    λ h. elim h [
      | inl e ↦
          rw (chain-android payload.device.platform e) (try_chain-email payload (fcm_platform post))
      | inr e ↦ rw (chain-web payload.device.platform e) (try_chain-email payload web_push_platform)
    ],
    λ e. rw (chain-ios payload.device.platform e) (ground arith),
  )
