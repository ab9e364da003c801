-- ===== src/Server/Config.antt =====
-- config/config.go: `Load`, which reads the configuration from the environment. Texts are code points.
pub mod Closed
mod Tests
use go_hauk.Prelude.{
  if◌then◌else◌, Text, codes, text_eq, Dict, ℕ, zero, suc, ◌/◌, ◌%◌, ◌<◌, Bool, true, false, ◌||◌,
  List, [], ◌∷◌,
}
use go_hauk.Frontend.Number.{Float}
use go_hauk.Server.Linkgen.{
  LinkStyle, link_4_plus_4_upper, link_4_plus_4_lower, link_4_plus_4_mixed, link_uuid_v4,
  link_16_hex, link_16_upper, link_16_lower, link_16_mixed, link_32_hex, link_32_upper,
  link_32_lower, link_32_mixed,
}
use go_hauk.Server.Handlers.{ℤ, pos, negsuc, atoi, is_empty}
use go_hauk.Server.Auth.{AuthMethod, by_password, by_htpasswd, by_ldap, AuthConfig}

pub data VelocityUnit : Type 0 where
  kilometers_per_hour miles_per_hour meters_per_second : VelocityUnit

-- `os.Getenv`: a variable that is not set is empty.
abbrev pub Environment : Type 0
Environment = Text → Text

-- `envStr`, `envInt`, `envFloat` and `envBool` of the value of a variable.
unfoldable pub env_str : Text → Text → Text
env_str v default = if is_empty v then default else v

abbrev if_parsed : {A : Type 0} → A × Bool → A → A
if_parsed (x, ok) default = if ok then x else default

unfoldable pub env_int : Text → ℤ → ℤ
unfolding atoi
env_int v default = if is_empty v then default else if_parsed (atoi v) default

unfoldable pub env_bool : Text → Bool → Bool
unfolding text_eq
env_bool v default =
    if is_empty v then default else text_eq v (codes "true") || text_eq v (codes "1")

-- The two switches of `Load`.
unfoldable pub auth_method_of : Text → AuthMethod
unfolding text_eq
auth_method_of v =
    if text_eq v (codes "htpasswd")
    then by_htpasswd
    else if text_eq v (codes "ldap")
    then by_ldap
    else by_password

unfoldable pub velocity_unit_of : Text → VelocityUnit
unfolding text_eq
velocity_unit_of v =
    if text_eq v (codes "mph")
    then miles_per_hour
    else if text_eq v (codes "m/s")
    then meters_per_second
    else kilometers_per_hour

-- `LinkStyle(i)`; an int that is no constant is treated as the first by `generate` of linkgen/linkgen.go.
abbrev style_at : ℕ → List LinkStyle → LinkStyle
style_at n [] = link_4_plus_4_upper
style_at zero (s ∷ ss) = s
style_at (suc n) (s ∷ ss) = style_at n ss

unfoldable pub link_style_of : ℤ → LinkStyle
link_style_of (negsuc n) = link_4_plus_4_upper
link_style_of (pos n) = style_at n (
    link_4_plus_4_upper ∷ link_4_plus_4_lower ∷ link_4_plus_4_mixed ∷ link_uuid_v4 ∷ link_16_hex
    ∷ link_16_upper ∷ link_16_lower ∷ link_16_mixed ∷ link_32_hex ∷ link_32_upper ∷ link_32_lower
    ∷ link_32_mixed ∷ [])

-- The fields of `Config` that concern authentication, as `Load` fills them.
unfoldable pub load_auth : Environment → AuthConfig
unfolding env_str env_bool auth_method_of
load_auth env = record {
  auth_method = auth_method_of (env_str (env (codes "HAUK_AUTH_METHOD")) (codes "password"));
  password_hash = env_str (env (codes "HAUK_PASSWORD_HASH")) [];
  htpasswd_path = env_str (env (codes "HAUK_HTPASSWD_PATH")) (codes "/etc/hauk/users.htpasswd");
  ldap = record {
    uri = env_str (env (codes "HAUK_LDAP_URI")) [];
    base_dn = env_str (env (codes "HAUK_LDAP_BASE_DN")) [];
    bind_dn = env_str (env (codes "HAUK_LDAP_BIND_DN")) [];
    bind_pass = env_str (env (codes "HAUK_LDAP_BIND_PASS")) [];
    user_filter = env_str (env (codes "HAUK_LDAP_USER_FILTER")) (codes "(uid=%s)");
    use_tls = env_bool (env (codes "HAUK_LDAP_START_TLS")) false;
  };
}

module _ (F : Float) where
  -- `strconv.ParseFloat`, with whether it succeeded, is a parameter.
  unfoldable pub env_float : (Text → F.Num × Bool) → Text → F.Num → F.Num
  env_float parse v default = if is_empty v then default else if_parsed (parse v) default

  -- `Config`; no links are reserved by `Load`.
  pub record Config : Type 0 where
    pub listen_addr : Text
    pub public_url : Text
    pub redis_addr : Text
    pub redis_password : Text
    pub redis_prefix : Text
    pub auth : AuthConfig
    pub max_duration : ℤ
    pub min_interval : F.Num
    pub max_cached_pts : ℤ
    pub max_shown_pts : ℤ
    pub link_style : LinkStyle
    pub allow_link_req : Bool
    pub reserved_links : Dict (List Text)
    pub reserve_wl : Bool
    pub map_tile_uri : Text
    pub map_attribution : Text
    pub default_zoom : ℤ
    pub max_zoom : ℤ
    pub velocity_unit : VelocityUnit
    pub velocity_data_pts : ℤ
    pub trail_color : Text
    pub offline_timeout : ℤ
    pub request_timeout : ℤ
    pub rate_limit_auth : ℤ
    pub rate_limit_adopt : ℤ
    pub trust_proxy : Bool

  unfoldable pub load : (Text → F.Num × Bool) → Environment → Config
  unfolding env_str env_int env_bool env_float load_auth velocity_unit_of link_style_of
  load parse env = record {
    listen_addr = env_str (env (codes "HAUK_LISTEN_ADDR")) (codes ":8080");
    public_url = env_str (env (codes "HAUK_PUBLIC_URL")) (codes "http://localhost:8080/");
    redis_addr = env_str (env (codes "HAUK_REDIS_ADDR")) (codes "localhost:6379");
    redis_password = env_str (env (codes "HAUK_REDIS_PASSWORD")) [];
    redis_prefix = env_str (env (codes "HAUK_REDIS_PREFIX")) (codes "hauk");
    auth = load_auth env;
    max_duration = env_int (env (codes "HAUK_MAX_DURATION")) (pos 86400);
    min_interval = env_float parse (env (codes "HAUK_MIN_INTERVAL")) (F.of_ℕ 1);
    max_cached_pts = env_int (env (codes "HAUK_MAX_CACHED_PTS")) (pos 3);
    max_shown_pts = env_int (env (codes "HAUK_MAX_SHOWN_PTS")) (pos 100);
    link_style = link_style_of (env_int (env (codes "HAUK_LINK_STYLE")) (pos 0));
    allow_link_req = env_bool (env (codes "HAUK_ALLOW_LINK_REQ")) true;
    reserved_links = [];
    reserve_wl = env_bool (env (codes "HAUK_RESERVE_WHITELIST")) false;
    map_tile_uri =
        env_str (env (codes "HAUK_MAP_TILE_URI"))
          (codes "https://tile.openstreetmap.org/{z}/{x}/{y}.png");
    map_attribution = env_str (env (codes "HAUK_MAP_ATTRIBUTION")) (
        codes
          "&copy; <a href=\"https://www.openstreetmap.org/copyright\">OpenStreetMap</a> contributors");
    default_zoom = env_int (env (codes "HAUK_DEFAULT_ZOOM")) (pos 14);
    max_zoom = env_int (env (codes "HAUK_MAX_ZOOM")) (pos 19);
    velocity_unit = velocity_unit_of (env_str (env (codes "HAUK_VELOCITY_UNIT")) (codes "km/h"));
    velocity_data_pts = env_int (env (codes "HAUK_VELOCITY_DATA_PTS")) (pos 2);
    trail_color = env_str (env (codes "HAUK_TRAIL_COLOR")) (codes "#d80037");
    offline_timeout = env_int (env (codes "HAUK_OFFLINE_TIMEOUT")) (pos 30);
    request_timeout = env_int (env (codes "HAUK_REQUEST_TIMEOUT")) (pos 10);
    rate_limit_auth = env_int (env (codes "HAUK_RATE_LIMIT_AUTH")) (pos 10);
    rate_limit_adopt = env_int (env (codes "HAUK_RATE_LIMIT_ADOPT")) (pos 10);
    trust_proxy = env_bool (env (codes "HAUK_TRUST_PROXY")) true;
  }
