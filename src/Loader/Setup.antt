-- ===== src/Loader/Setup.antt =====
-- loader/loader.go: `NewLoader`, the handshake `setupHTTP2` and `newLoader`. `http2.Framer` is a parameter:
-- what its `ReadFrame` returns first, and whether each write succeeds. The log is left out.
pub mod InForce
pub mod Outcomes
mod Tests
use framer.Base.{ℕ, List, [], ◌∷◌, Option, none, some, Bool, true, false, if◌then◌else◌, ◌==◌}
use framer.Http2.{
  setting_header_table_size, setting_max_concurrent_streams, setting_initial_window_size,
  setting_max_frame_size, setting_max_header_list_size,
}
use framer.Streams.FlowControl.{FlowControl, new_flow_control}
use framer.Streams.Limiter.{StreamsLimiter, new_limiter}
use framer.Streams.Pool.{StreamsPool, new_streams_pool, default_initial_window_size}
use framer.Streams.Store.{ShardedStreamsMap, new_sharded}

-- `loaderConfig`; the timeout is in nanoseconds.
pub record LoaderConfig : Type 0 where
  pub disable_send_batching : Bool
  pub timeout : ℕ
  pub max_concurrent_streams : ℕ
  pub initial_window_size : ℕ
  pub max_dymanic_table_size : ℕ
  pub max_frame_size : ℕ
  pub max_header_list_size : ℕ

-- `consts.DefaultTimeout`, `consts.DefaultMaxFrameSize` and `consts.DefaultMaxHeaderListSize`
abbrev pub default_timeout : ℕ
default_timeout = 11_000_000_000

abbrev pub default_max_frame_size : ℕ
default_max_frame_size = 16_384

abbrev pub default_max_header_list_size : ℕ
default_max_header_list_size = 4_294_967_295

-- The body of the loop of `setupHTTP2`, on the number of a setting and its value.
unfoldable pub set_setting : ℕ → ℕ → LoaderConfig → LoaderConfig
set_setting id val conf =
    if id == setting_initial_window_size
    then record conf { initial_window_size = val }
    else if id == setting_max_concurrent_streams
    then record conf { max_concurrent_streams = val }
    else if id == setting_header_table_size
    then record conf { max_dymanic_table_size = val }
    else if id == setting_max_frame_size
    then record conf { max_frame_size = val }
    else if id == setting_max_header_list_size
    then record conf { max_header_list_size = val }
    else conf

-- The loop.
unfoldable pub set_settings : List (ℕ × ℕ) → LoaderConfig → LoaderConfig
unfolding set_setting
set_settings [] conf = conf
set_settings ((id, val) ∷ ss) conf = set_settings ss (set_setting id val conf)

-- What `ReadFrame` returns first.
pub data FirstFrame : Type 0 where
  unreadable : FirstFrame
  settings_frame : List (ℕ × ℕ) → FirstFrame
  other_frame : FirstFrame

-- What is written to the connection.
pub data Written : Type 0 where
  client_preface settings settings_ack : Written

pub data SetupError : Type 0 where
  set_deadline write_preface read_settings not_settings write_settings write_ack : SetupError

-- What was written, up to the first write that failed, and the result.
pub record Setup (A : Type 0) : Type 0 where
  pub written : List Written
  pub error : Option SetupError
  pub result : Option A

abbrev pub failed : {A : Type 0} → List Written → SetupError → Setup A
failed ws e = record { written = ws; error = some e; result = none }

module _ (write : Written → Bool) where
  -- The end of `setupHTTP2`, when the settings are read.
  unfoldable pub answer_settings : LoaderConfig → Setup LoaderConfig
  answer_settings conf =
      if write Written.settings
      then if write Written.settings_ack
        then record {
          written = Written.client_preface ∷ Written.settings ∷ Written.settings_ack ∷ [];
          error = none;
          result = some conf;
        }
        else failed (Written.client_preface ∷ Written.settings ∷ []) SetupError.write_ack
      else failed (Written.client_preface ∷ []) SetupError.write_settings

  -- `setupHTTP2`, which changes the configuration in place.
  unfoldable pub setup_http2 : FirstFrame → LoaderConfig → Setup LoaderConfig
  unfolding answer_settings set_settings
  setup_http2 first conf =
      if write Written.client_preface
      then elim first [
        | FirstFrame.unreadable ↦ failed (Written.client_preface ∷ []) SetupError.read_settings
        | FirstFrame.other_frame ↦ failed (Written.client_preface ∷ []) SetupError.not_settings
        | FirstFrame.settings_frame ss ↦ answer_settings (set_settings ss conf)
      ]
      else failed [] SetupError.write_preface

-- `Loader` with what its sender and its receiver share.
pub record Loader : Type 0 where
  pub timeout : ℕ
  pub fc_conn : FlowControl
  pub streams_pool : StreamsPool
  pub limiter : StreamsLimiter
  pub streams_store : ShardedStreamsMap ℕ
  -- the value of `WithMaxDynamicTableSize`, if it is given
  pub max_dynamic_table_size : Option ℕ
  pub max_frame_size : ℕ
  pub max_header_list_size : ℕ
  pub disable_send_batching : Bool

-- A value of the configuration, where 0 stands for none.
abbrev pub given : ℕ → Option ℕ
given n = if n == 0 then none else some n

abbrev pub or_default : ℕ → ℕ → ℕ
or_default n d = if n == 0 then d else n

-- `newLoader`
unfoldable pub build_loader : LoaderConfig → Loader
build_loader conf = record {
  timeout = or_default conf.timeout default_timeout;
  fc_conn = new_flow_control default_initial_window_size;
  streams_pool = new_streams_pool (given conf.initial_window_size);
  limiter = new_limiter conf.max_concurrent_streams;
  streams_store = new_sharded 16;
  max_dynamic_table_size = given conf.max_dymanic_table_size;
  max_frame_size = or_default conf.max_frame_size default_max_frame_size;
  max_header_list_size = or_default conf.max_header_list_size default_max_header_list_size;
  disable_send_batching = conf.disable_send_batching;
}

-- The configuration that `NewLoader` starts from.
abbrev pub new_config : ℕ → Bool → LoaderConfig
new_config timeout disable_send_batching = record {
  disable_send_batching = disable_send_batching;
  timeout = timeout;
  max_concurrent_streams = 0;
  initial_window_size = 0;
  max_dymanic_table_size = 0;
  max_frame_size = 0;
  max_header_list_size = 0;
}

-- The end of `NewLoader`.
abbrev pub with_loader : Setup LoaderConfig → Setup Loader
with_loader s = record {
  written = s.written;
  error = s.error;
  result = elim s.result [ none ↦ none | some conf ↦ some (build_loader conf) ];
}

-- `NewLoader`; `deadline` is whether `conn.SetDeadline` succeeds.
unfoldable pub new_loader :
    (write : Written → Bool) (deadline : Bool) → FirstFrame → ℕ → Bool → Setup Loader
unfolding setup_http2 build_loader
new_loader write deadline first timeout disable_send_batching =
    if deadline
    then with_loader (setup_http2 write first (new_config timeout disable_send_batching))
    else failed [] SetupError.set_deadline
