-- ===== src/Http2.antt =====
-- The numbers that RFC 9113, section 6, gives to frame types and flags, under the names that
-- golang.org/x/net/http2 has for them.
use framer.Base.{ℕ}

abbrev pub frame_data : ℕ
frame_data = 0

abbrev pub frame_headers : ℕ
frame_headers = 1

abbrev pub frame_rst_stream : ℕ
frame_rst_stream = 3

abbrev pub frame_settings : ℕ
frame_settings = 4

abbrev pub frame_ping : ℕ
frame_ping = 6

abbrev pub frame_go_away : ℕ
frame_go_away = 7

abbrev pub frame_window_update : ℕ
frame_window_update = 8

abbrev pub frame_continuation : ℕ
frame_continuation = 9

-- `FlagDataEndStream`, `FlagHeadersEndStream`, `FlagSettingsAck` and `FlagPingAck`
abbrev pub flag_end_stream : ℕ
flag_end_stream = 1

abbrev pub flag_ack : ℕ
flag_ack = 1

-- `FlagHeadersEndHeaders`
abbrev pub flag_end_headers : ℕ
flag_end_headers = 4

-- The numbers of settings, section 6.5.2.
abbrev pub setting_header_table_size : ℕ
setting_header_table_size = 1

abbrev pub setting_max_concurrent_streams : ℕ
setting_max_concurrent_streams = 3

abbrev pub setting_initial_window_size : ℕ
setting_initial_window_size = 4

abbrev pub setting_max_frame_size : ℕ
setting_max_frame_size = 5

abbrev pub setting_max_header_list_size : ℕ
setting_max_header_list_size = 6
