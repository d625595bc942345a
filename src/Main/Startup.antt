-- ===== src/Main/Startup.antt =====
-- cmd/gateway/main.go: what `main` makes of its configuration before it listens, and what it does
-- when a part cannot be made. The constructors of the libraries are parameters.
use kenbun.Prelude.{ℕ, ◌*◌, ◌^◌, String, Bool, Option, none, some, List, ℤ}
use kenbun.Float.{Float}
use kenbun.Provider.{Outcome, ok, err}
use kenbun.Provider.Resilient.{ResilientProvider}
use kenbun.Health.{EwmaMonitor, new_monitor}
use kenbun.RateLimit.{TokenBucket, new_token_bucket}
use kenbun.Cache.{LocalConfig, TwoTier, new_two_tier_cache}
use kenbun.Logging.{KafkaWriter, new_multi_logger}
use kenbun.Budget.{BudgetProcessor, new_budget_processor}
use kenbun.Analytics.{ClickHouseOptions, new_click_house_client}
use kenbun.Postgres.{ConnectError, new_pool}
use kenbun.Config.{Config, Environment}
use kenbun.Main.{CacheChoice, memory, two_tier, choose_cache, start_bases, start_providers}

-- What the libraries make, or the error that they give.
pub record Libraries (X Url Pool Conn L R : Type 0) : Type 0 where
  pub parse_config : String → Outcome X Url
  pub make_pool : ℕ → ℕ → Url → Outcome X Pool
  pub cluster_client : List String → R
  pub open_connection : ClickHouseOptions → Outcome X Conn
  pub make_local : LocalConfig → Outcome X L
  pub make_gemini : String → Bool

-- `gatewayCache`; the error of `NewTwoTierCache` is dropped, and then the cache is nil.
pub data GatewayCache (L R : Type 0) : Type 0 where
  of_memory : GatewayCache L R
  of_tiers : TwoTier L R → GatewayCache L R
  nil_cache : GatewayCache L R

-- `http.Server`, with its times in nanoseconds
pub record HttpServer : Type 0 where
  pub port : String
  pub read_timeout : ℕ
  pub write_timeout : ℕ
  pub idle_timeout : ℕ

pub record Running (F Pool Conn L R : Type 0) : Type 0 where
  pub pool : Pool
  pub logger : KafkaWriter
  pub analytics : Option Conn
  pub limiter : TokenBucket F
  pub sync_freq : ℤ
  pub cache : GatewayCache L R
  pub monitor : EwmaMonitor F
  pub providers : List ResilientProvider
  pub processor : BudgetProcessor F
  pub admin_secret : String
  pub server : HttpServer

-- `os.Exit`, or the parts that run
pub data Startup (F X Pool Conn L R : Type 0) : Type 0 where
  exited : ConnectError X → Startup F X Pool Conn L R
  running : Running F Pool Conn L R → Startup F X Pool Conn L R

-- an error that is printed only, or not at all
abbrev pub without_error : {X A : Type 0} → Outcome X A → Option A
without_error (ok made) = some made
without_error (err x) = none

module _ {X Url Pool Conn L R : Type 0} (lib : Libraries X Url Pool Conn L R) where
  abbrev pub tiers_or_nil : Outcome X (TwoTier L R) → GatewayCache L R
  tiers_or_nil (ok tiers) = of_tiers tiers
  tiers_or_nil (err x) = nil_cache

  unfoldable pub make_cache : R → CacheChoice → GatewayCache L R
  unfolding new_two_tier_cache
  make_cache redis memory = of_memory
  make_cache redis two_tier = tiers_or_nil (new_two_tier_cache lib.make_local redis)

  module _ {F : Type 0} ⦃d : Float F⦄ where
    unfoldable pub start_with : ℕ → Environment → Config → Pool → Running F Pool Conn L R
    unfolding make_cache choose_cache new_multi_logger new_budget_processor new_click_house_client
        new_token_bucket new_monitor start_bases start_providers
    start_with now env cfg pool =
        let redis = lib.cluster_client cfg.redis_addrs in
        record {
          pool = pool;
          logger = new_multi_logger cfg.kafka_brokers "gateway_logs";
          analytics =
              without_error (new_click_house_client lib.open_connection cfg.click_house_addr);
          limiter = new_token_bucket;
          sync_freq = cfg.rate_limit_sync_freq;
          cache = make_cache redis (choose_cache cfg.redis_addrs);
          monitor = new_monitor;
          providers = start_providers (start_bases lib.make_gemini env cfg);
          processor = new_budget_processor now cfg.kafka_brokers "gateway_logs";
          admin_secret = cfg.admin_secret;
          server = record {
            port = cfg.port;
            read_timeout = 5 * 10 ^ 9;
            write_timeout = 60 * 10 ^ 9;
            idle_timeout = 120 * 10 ^ 9;
          };
        }

    abbrev pub with_pool :
        ℕ → Environment → Config → Outcome (ConnectError X) Pool → Startup F X Pool Conn L R
    with_pool now env cfg (err x) = exited x
    with_pool now env cfg (ok pool) = running (start_with now env cfg pool)

    unfoldable pub start_up : ℕ → Environment → Config → Startup F X Pool Conn L R
    unfolding start_with new_pool
    start_up now env cfg =
        with_pool now env cfg (new_pool lib.parse_config lib.make_pool cfg.database_url)
