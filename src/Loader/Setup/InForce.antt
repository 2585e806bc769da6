-- ===== src/Loader/Setup/InForce.antt =====
-- The settings that a new loader works with, of those that the server announces.
use framer.Base.{ℕ, ◌≡◌, refl, ap, ◌∙◌, List, [], ◌∷◌, none, some, Bool, if◌then◌else◌, ◌==◌, arith}
use framer.Http2.{
  setting_header_table_size, setting_max_concurrent_streams, setting_initial_window_size,
  setting_max_frame_size, setting_max_header_list_size,
}
use framer.Streams.FlowControl.{new_flow_control}
use framer.Streams.Limiter.{new_limiter}
use framer.Streams.Pool.{default_initial_window_size}
use framer.Loader.Setup.{
  LoaderConfig, default_timeout, default_max_frame_size, default_max_header_list_size, set_setting,
  set_settings, Loader, given, or_default, build_loader, new_config,
}

-- The last value of a setting, or else `d`.
unfoldable pub announced : ℕ → List (ℕ × ℕ) → ℕ → ℕ
announced id [] d = d
announced id ((k, v) ∷ ss) d = announced id ss (if k == id then v else d)

-- A field of the configuration that a setting writes has what is announced of it last.
set_settings-field :
    (f : LoaderConfig → ℕ) (id : ℕ)
    → ((k v : ℕ) (c : LoaderConfig) → f (set_setting k v c) ≡ (if k == id then v else f c))
    → (ss : List (ℕ × ℕ)) (conf : LoaderConfig)
    → f (set_settings ss conf) ≡ announced id ss (f conf)
unfolding set_settings announced
set_settings-field f id law [] conf = refl
set_settings-field f id law ((k, v) ∷ ss) conf =
    set_settings-field f id law ss (set_setting k v conf) ∙ ap (announced id ss) (law k v conf)

set_settings-kept :
    {A : Type 0} (f : LoaderConfig → A)
    → ((k v : ℕ) (c : LoaderConfig) → f (set_setting k v c) ≡ f c)
    → (ss : List (ℕ × ℕ)) (conf : LoaderConfig) → f (set_settings ss conf) ≡ f conf
unfolding set_settings
set_settings-kept f law [] conf = refl
set_settings-kept f law ((k, v) ∷ ss) conf =
    set_settings-kept f law ss (set_setting k v conf) ∙ law k v conf

-- The last value that is announced of a setting, unless that is 0 or there is none.
abbrev pub in_force : ℕ → ℕ → List (ℕ × ℕ) → ℕ
in_force id d ss = or_default (announced id ss 0) d

-- A loader that works with the settings `ss`.
pub record IsInForce (ss : List (ℕ × ℕ)) (timeout : ℕ) (batching : Bool) (l : Loader) : Type 0 where
  pub window :
      l.streams_pool.initial_window_size
      ≡ in_force setting_initial_window_size default_initial_window_size ss
  pub streams : l.limiter ≡ new_limiter (in_force setting_max_concurrent_streams 0 ss)
  pub table : l.max_dynamic_table_size ≡ given (announced setting_header_table_size ss 0)
  pub frame : l.max_frame_size ≡ in_force setting_max_frame_size default_max_frame_size ss
  pub list :
      l.max_header_list_size ≡ in_force setting_max_header_list_size default_max_header_list_size ss
  pub connection : l.fc_conn ≡ new_flow_control default_initial_window_size
  pub waits : l.timeout ≡ or_default timeout default_timeout
  pub batches : l.disable_send_batching ≡ batching

window_given : (n d : ℕ) → elim (given n) [ some m ↦ m | none ↦ d ] ≡ or_default n d
window_given n d = ground arith

no_limit : (n : ℕ) → n ≡ or_default n 0
no_limit n = ground arith

pub build_loader-IsInForce :
    (ss : List (ℕ × ℕ)) (timeout : ℕ) (batching : Bool)
    → IsInForce ss timeout batching (build_loader (set_settings ss (new_config timeout batching)))
unfolding build_loader
build_loader-IsInForce ss timeout batching =
    let c = new_config timeout batching in
    record {
      window =
          window_given (set_settings ss c).initial_window_size default_initial_window_size
          ∙ ap (λ n. or_default n default_initial_window_size)
              (set_settings-field (λ c. c.initial_window_size) setting_initial_window_size
                (λ k v c. unfold set_setting in ground arith) ss c);
      streams = ap new_limiter (
          set_settings-field (λ c. c.max_concurrent_streams) setting_max_concurrent_streams
            (λ k v c. unfold set_setting in ground arith) ss c
          ∙ no_limit (announced setting_max_concurrent_streams ss 0));
      table = ap given (
          set_settings-field (λ c. c.max_dymanic_table_size) setting_header_table_size
            (λ k v c. unfold set_setting in ground arith) ss c);
      frame =
          ap (λ n. or_default n default_max_frame_size)
            (set_settings-field (λ c. c.max_frame_size) setting_max_frame_size
              (λ k v c. unfold set_setting in ground arith) ss c);
      list =
          ap (λ n. or_default n default_max_header_list_size)
            (set_settings-field (λ c. c.max_header_list_size) setting_max_header_list_size
              (λ k v c. unfold set_setting in ground arith) ss c);
      connection = refl;
      waits =
          ap (λ n. or_default n default_timeout)
            (set_settings-kept (λ c. c.timeout) (λ k v c. unfold set_setting in ground arith) ss c);
      batches =
          set_settings-kept (λ c. c.disable_send_batching)
            (λ k v c. unfold set_setting in ground arith) ss c;
    }
