-- ===== src/Loader/Setup/Tests.antt =====
-- A server that announces a window and a limit on frames, the latter twice, and a setting that is not
-- supported.
use framer.Base.{◌≡◌, refl, [], ◌∷◌, some, true, false}
use framer.Streams.Limiter.{StreamsLimiter, new_limiter}
use framer.Loader.Setup.{FirstFrame, set_settings, build_loader, new_loader}
use framer.Loader.Setup.Outcomes.{IsSetUp, new_loader-IsSetUp}

abbrev announced_settings : FirstFrame
announced_settings =
    FirstFrame.settings_frame ((5, 20_000) ∷ (4, 1_000) ∷ (9, 1) ∷ (5, 30_000) ∷ [])

new_loader-IsSetUp_example :
    IsSetUp
      (λ w. true)
      true
      0
      false
      announced_settings
      (new_loader (λ w. true) true announced_settings 0 false)
new_loader-IsSetUp_example = new_loader-IsSetUp (λ w. true) true 0 false announced_settings

loader_built :
    (new_loader (λ w. true) true announced_settings 0 false).result
    ≡ some (
        build_loader (record {
          disable_send_batching = false;
          timeout = 0;
          max_concurrent_streams = 0;
          initial_window_size = 1_000;
          max_dymanic_table_size = 0;
          max_frame_size = 30_000;
          max_header_list_size = 0;
        }))
unfolding new_loader
loader_built = refl

-- A server that allows no stream and gives no window is taken to limit neither.
zero_streams :
    (build_loader (
      set_settings ((3, 0) ∷ []) (record {
        disable_send_batching = false;
        timeout = 0;
        max_concurrent_streams = 0;
        initial_window_size = 0;
        max_dymanic_table_size = 0;
        max_frame_size = 0;
        max_header_list_size = 0;
      }))).limiter
    ≡ StreamsLimiter.noop_limiter
unfolding build_loader set_settings new_limiter
zero_streams = refl
