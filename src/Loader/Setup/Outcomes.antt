-- ===== src/Loader/Setup/Outcomes.antt =====
-- The two ends of `NewLoader`.
use framer.Base.{
  ℕ, ◌≡◌, ◌⊎◌, refl, sym, subst, List, [], ◌∷◌, none, some, Bool, true, false, inl, inr, Bool-cases,
}
use framer.Loader.Setup.{
  LoaderConfig, set_settings, FirstFrame, Written, SetupError, Setup, with_loader, failed, Loader,
  new_loader, setup_http2, answer_settings, new_config,
}
use framer.Loader.Setup.InForce.{IsInForce, build_loader-IsInForce}

-- Why `NewLoader` fails, and what it has written by then.
abbrev pub IsCause : (Written → Bool) → Bool → FirstFrame → SetupError → List Written → Type 0
IsCause write deadline first SetupError.set_deadline ws = (deadline ≡ false) × (ws ≡ [])
IsCause write deadline first SetupError.write_preface ws =
    (write Written.client_preface ≡ false) × (ws ≡ [])
IsCause write deadline first SetupError.read_settings ws =
    (first ≡ FirstFrame.unreadable) × (ws ≡ Written.client_preface ∷ [])
IsCause write deadline first SetupError.not_settings ws =
    (first ≡ FirstFrame.other_frame) × (ws ≡ Written.client_preface ∷ [])
IsCause write deadline first SetupError.write_settings ws =
    (write Written.settings ≡ false) × (ws ≡ Written.client_preface ∷ [])
IsCause write deadline first SetupError.write_ack ws =
    (write Written.settings_ack ≡ false) × (ws ≡ Written.client_preface ∷ Written.settings ∷ [])

module _ (write : Written → Bool) (deadline : Bool) (timeout : ℕ) (batching : Bool) where
  -- The two ways in which `NewLoader` can end.
  abbrev pub IsSetUp : FirstFrame → Setup Loader → Type 0
  IsSetUp first s =
      ((l : Loader) × (ss : List (ℕ × ℕ)) × (s.result ≡ some l)
        × (s.error ≡ none)
        × (first ≡ FirstFrame.settings_frame ss)
        × (s.written ≡ Written.client_preface ∷ Written.settings ∷ Written.settings_ack ∷ [])
        × ((w : Written) → write w ≡ true)
        × IsInForce ss timeout batching l)
      ⊎ ((e : SetupError) × (s.result ≡ none)
          × (s.error ≡ some e)
          × IsCause write deadline first e s.written)

  -- An end that is computed.
  ends_at :
      {first : FirstFrame} {s : Setup LoaderConfig} (t : Setup LoaderConfig)
      → s ≡ t
      → IsSetUp first (with_loader t)
      → IsSetUp first (with_loader s)
  ends_at {first} t e h = subst (λ s. IsSetUp first (with_loader s)) (sym e) h

  all_written :
      write Written.client_preface ≡ true
      → write Written.settings ≡ true
      → write Written.settings_ack ≡ true
      → (w : Written) → write w ≡ true
  all_written p q r Written.client_preface = p
  all_written p q r Written.settings = q
  all_written p q r Written.settings_ack = r

  answered :
      (ss : List (ℕ × ℕ))
      → write Written.client_preface ≡ true
      → IsSetUp
          (FirstFrame.settings_frame ss)
          (with_loader (answer_settings write (set_settings ss (new_config timeout batching))))
  unfolding answer_settings
  answered ss p = elim (Bool-cases (write Written.settings)) [
    | inr f ↦
        ends_at (failed _ _) (rw (f, answer_settings))
          (inr (SetupError.write_settings, refl, refl, (f, refl)))
    | inl q ↦ elim (Bool-cases (write Written.settings_ack)) [
      | inr f ↦
          ends_at (failed _ _) (rw (q, f, answer_settings))
            (inr (SetupError.write_ack, refl, refl, (f, refl)))
      | inl r ↦
          ends_at
            (record {
              written = Written.client_preface ∷ Written.settings ∷ Written.settings_ack ∷ [];
              error = none;
              result = some (set_settings ss (new_config timeout batching));
            })
            (rw (q, r, answer_settings))
            (inl (
              _,
              ss,
              refl,
              refl,
              refl,
              refl,
              all_written p q r,
              build_loader-IsInForce ss timeout batching,
            ))
    ]
  ]

  IsSetUp-cases :
      (first : FirstFrame)
      → write Written.client_preface ≡ true
      → IsSetUp first (with_loader (setup_http2 write first (new_config timeout batching)))
  unfolding setup_http2
  IsSetUp-cases FirstFrame.unreadable p =
      ends_at (failed _ _) (rw (p, setup_http2))
        (inr (SetupError.read_settings, refl, refl, (refl, refl)))
  IsSetUp-cases FirstFrame.other_frame p =
      ends_at (failed _ _) (rw (p, setup_http2))
        (inr (SetupError.not_settings, refl, refl, (refl, refl)))
  IsSetUp-cases (FirstFrame.settings_frame ss) p =
      ends_at (answer_settings write _) (rw (p, setup_http2)) (answered ss p)

  -- `NewLoader` comes to one of two ends. Either all three writes succeed, the preface, empty settings and
  -- their acknowledgement are written in this order, the first frame is SETTINGS, and there is a loader.
  -- In it the window of new streams and the limits on frames and on header lists are the last value of
  -- their setting, or the default where that is 0 or there is none; streams are limited, and the table
  -- of the HPACK encoder is set, by the last value where there is one and it is not 0; the connection's
  -- window is the default, and the timeout is that given, or the default for 0. Or there is no loader
  -- but an error, with its cause: the deadline, a failing write or the first frame; and just what precedes
  -- the cause is written.
  pub new_loader-IsSetUp :
      (first : FirstFrame) → IsSetUp first (new_loader write deadline first timeout batching)
  unfolding new_loader setup_http2
  new_loader-IsSetUp first = elim (Bool-cases deadline) [
    | inr f ↦
        let e : new_loader write deadline first timeout batching
            ≡ failed [] SetupError.set_deadline =
          rw (f, new_loader) in
        subst (IsSetUp first) (sym e) (inr (SetupError.set_deadline, refl, refl, (f, refl)))
    | inl d ↦
        let e : new_loader write deadline first timeout batching
            ≡ with_loader (setup_http2 write first (new_config timeout batching)) =
          rw (d, new_loader) in
        subst (IsSetUp first) (sym e) (elim (Bool-cases (write Written.client_preface)) [
          | inr f ↦
              ends_at (failed _ _) (rw (f, setup_http2))
                (inr (SetupError.write_preface, refl, refl, (f, refl)))
          | inl p ↦ IsSetUp-cases first p
        ])
  ]
