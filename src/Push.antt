-- ===== src/Push.antt =====
-- Backend/app/services/push_service.py: a notification goes to each device of a user by the first
-- platform of a chain that takes it. What is sent over the network or logged is the platform's own
-- affair; the metrics that the router records are its trace. `str.lower` and the HTTP client are
-- parameters.
pub mod Platforms
pub mod Delivery
mod Tests
use life_merge.Push.Platforms.{
  Device, NotificationPayload, SendResult, NotificationPlatform, Reply, response, http_failure,
  send_fcm, fcm_platform, sent, is_text, apns_platform, web_push_platform, email_platform,
}
use life_merge.Base.{
  ℕ, ◌&&◌, Bool, true, false, Option, none, some, List, [], ◌∷◌, ◌++◌, map, flat_map, String,
  str_eq, ◌==◌, ltb, select, if◌then◌else◌,
}
use Prim.Native.String.{count}

-- A dict with texts for keys, of which the last entry for a key counts.
pub lookup : {A : Type 0} → String → List (String × A) → Option A
lookup key [] = none
lookup key ((k, a) ∷ rest) = elim (lookup key rest) [
  | some b ↦ some b
  | none ↦ if str_eq k key then some a else none
]

pub record NotificationRouter : Type 0 where
  pub platforms : List (String × NotificationPlatform)
  pub platform_aliases : List (String × String)
  pub fallback_chain : List (String × List String)

abbrev pub named : NotificationPlatform → String × NotificationPlatform
named platform = (platform.get_platform_name, platform)

abbrev pub lower_key : (String → String) → String × String → String × String
lower_key lower (k, v) = (lower k, v)

-- `NotificationRouter.__init__`
pub make_router :
    (String → String)
    → List NotificationPlatform
    → List (String × String)
    → List (String × List String)
    → NotificationRouter
make_router lower platforms platform_aliases fallback_chain = record {
  platforms = map named platforms;
  platform_aliases = map (lower_key lower) platform_aliases;
  fallback_chain = fallback_chain;
}

-- `record_push_metric`, without its log line.
pub record Metric : Type 0 where
  pub user_id : ℕ
  pub platform : String
  pub status : String

abbrev pub metric : NotificationPayload → NotificationPlatform → String → Metric
metric payload platform status = record {
  user_id = payload.user_id;
  platform = platform.get_platform_name;
  status = status;
}

-- The loop of `route`: what it records, and whether a platform has taken the notification.
pub try_chain : NotificationPayload → List NotificationPlatform → List Metric × Bool
try_chain payload [] = ([], false)
try_chain payload (platform ∷ chain) =
    let rest = try_chain payload chain in
    let result = platform.send payload in
    if platform.validate_token payload.device.device_token
    then (if result.success
        then (metric payload platform result.status ∷ [], true)
        else (metric payload platform result.status ∷ rest.0, rest.1))
    else (metric payload platform "invalid_token" ∷ rest.0, rest.1)

module _ (lower : String → String) (router : NotificationRouter) where
  pub resolve_key : String → String
  resolve_key normalized = elim (lookup normalized router.platform_aliases) [
    | none ↦ normalized
    | some key ↦ key
  ]

  -- `_resolve_platform`
  pub resolve_platform : String → Option NotificationPlatform
  resolve_platform platform_hint = lookup (resolve_key (lower platform_hint)) router.platforms

  -- The fallbacks that are registered.
  pub fallbacks : List String → List NotificationPlatform
  fallbacks [] = []
  fallbacks (name ∷ names) = elim (lookup name router.platforms) [
    | none ↦ fallbacks names
    | some platform ↦ platform ∷ fallbacks names
  ]

  pub chain_of : Option NotificationPlatform → List NotificationPlatform
  chain_of none = []
  chain_of (some primary) =
      primary ∷ (elim (lookup primary.get_platform_name router.fallback_chain) [
        | none ↦ []
        | some names ↦ fallbacks names
      ])

  -- `_build_chain`
  pub build_chain : String → List NotificationPlatform
  build_chain platform_hint = chain_of (resolve_platform platform_hint)

  pub route : NotificationPayload → List Metric × Bool
  route payload = try_chain payload (build_chain payload.device.platform)

-- The router of `PushService`.
pub push_router : (String → String) → (NotificationPayload → Reply) → NotificationRouter
push_router lower post =
    make_router lower (fcm_platform post ∷ apns_platform ∷ web_push_platform ∷ email_platform ∷ [])
      (("ios", "apns") ∷ ("android", "fcm") ∷ ("web", "webpush") ∷ [])
      (("fcm", "email" ∷ []) ∷ ("webpush", "email" ∷ []) ∷ [])

-- `_active_devices`, of the rows of the table.
pub active_devices : ℕ → List Device → List Device
active_devices user_id devices = select (λ d. (d.user_id == user_id) && d.enabled) devices

abbrev pub payload_for :
    ℕ → String → String → Option String → Option String → Device → NotificationPayload
payload_for user_id title body collapse_key request_id device = record {
  user_id = user_id;
  device = device;
  title = title;
  body = body;
  collapse_key = collapse_key;
  request_id = request_id;
}

-- `send_notification`: the devices' routes, of which none depends on another.
pub send_notification :
    (String → String)
    → (NotificationPayload → Reply)
    → List Device
    → ℕ
    → String
    → String
    → Option String
    → Option String
    → List (List Metric × Bool)
send_notification lower post devices user_id title body collapse_key request_id =
    map
      (λ d.
        route lower (push_router lower post)
          (payload_for user_id title body collapse_key request_id d))
      (active_devices user_id devices)

-- Opens the whole of this component, for evaluation.
unfoldable pub push_program : Unit {0}
unfolding send_fcm fcm_platform apns_platform web_push_platform email_platform lookup make_router
    try_chain resolve_key resolve_platform fallbacks chain_of build_chain route push_router
    active_devices send_notification
push_program = tt
