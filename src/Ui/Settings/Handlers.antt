-- ===== src/Ui/Settings/Handlers.antt =====
-- The handlers of the settings on the page: addSettingChangeHandler, addSettingsHandlers, updateQuality,
-- updateCompression and updateLogging of app/ui.js. What the other handlers do is modelled with the
-- components that they belong to; here it is recorded that they are called, and with which value.
use docker_baseimage_gui.Prelude.{
  ℕ, ◌+◌, ◌-◌, ◌*◌, Bool, true, ◌&&◌, Option, none, some, List, [], ◌∷◌, leb, if◌then◌else◌, ◌≡◌,
  refl, ap, ◌∙◌,
}
use docker_baseimage_gui.Prelude.Text.{Text, codes, text_eq}
use docker_baseimage_gui.Ui.Settings.{
  Value, Control, to_text, shown, WebUtil, IsWebUtil, Form, get_setting, save_setting,
}
use docker_baseimage_gui.Ui.Settings.Laws.{save_setting-get_setting}

pub data Action : Type 0 where
  save update_quality update_compression update_logging : Action
  apply_resize_mode update_view_clip update_host_clipboard_sync update_audio_volume : Action

-- In the order in which the handlers are registered; without a function the setting is saved.
unfoldable pub handlers : List (Text × Action)
handlers =
    (codes "resize", save)
    ∷ (codes "resize", apply_resize_mode)
    ∷ (codes "resize", update_view_clip)
    ∷ (codes "quality", save)
    ∷ (codes "quality", update_quality)
    ∷ (codes "compression", save)
    ∷ (codes "compression", update_compression)
    ∷ (codes "view_clip", save)
    ∷ (codes "view_clip", update_view_clip)
    ∷ (codes "host_clipboard_sync", save)
    ∷ (codes "host_clipboard_sync", update_host_clipboard_sync)
    ∷ (codes "logging", save)
    ∷ (codes "logging", update_logging)
    ∷ (codes "audio_volume", save)
    ∷ (codes "audio_volume", update_audio_volume)
    ∷ []

-- `parseInt` of a text without blanks and sign: the number of its leading digits, if there are any.
abbrev pub is_digit : ℕ → Bool
is_digit c = leb b'0' c && leb c b'9'

unfoldable pub leading : ℕ → Text → ℕ
leading n [] = n
leading n (c ∷ s) = let rest = leading (10 * n + (c - b'0')) s in if is_digit c then rest else n

unfoldable pub parse_int : Text → Option ℕ
unfolding leading
parse_int [] = none
parse_int (c ∷ s) = if is_digit c then some (leading 0 (c ∷ s)) else none

-- The settings with the levels of the RFB object (`none` for NaN), the level of the logs, and the
-- handlers of other components that were called, with the value of their setting, the newest first.
pub record Panel (S : Type 0) : Type 0 where
  pub form : Form S
  pub rfb : Bool
  pub quality_level : Option ℕ
  pub compression_level : Option ℕ
  pub logging : Value
  pub called : List (Action × Value)

module _ {S : Type 0} (w : WebUtil S) where
  unfoldable pub quality_updated : Panel S → Panel S
  unfolding get_setting parse_int
  quality_updated p =
      if p.rfb
      then record p { quality_level = parse_int (to_text (get_setting w (codes "quality") p.form)) }
      else p

  unfoldable pub compression_updated : Panel S → Panel S
  unfolding get_setting parse_int
  compression_updated p =
      if p.rfb
      then record p {
        compression_level = parse_int (to_text (get_setting w (codes "compression") p.form));
      }
      else p

  unfoldable pub logging_updated : Panel S → Panel S
  unfolding get_setting
  logging_updated p = record p { logging = get_setting w (codes "logging") p.form }

  unfoldable pub act : Text → Action → Panel S → Panel S
  unfolding quality_updated compression_updated logging_updated save_setting
  act n save p = record p { form = (save_setting w n p.form).0 }
  act n update_quality p = quality_updated p
  act n update_compression p = compression_updated p
  act n update_logging p = logging_updated p
  act n a p = record p { called = (a, get_setting w n p.form) ∷ p.called }

  -- The control of setting `n` changes: its handlers are called in their order.
  unfoldable pub dispatch : List (Text × Action) → Text → Panel S → Panel S
  unfolding act text_eq
  dispatch [] n p = p
  dispatch ((m, a) ∷ hs) n p = dispatch hs n (if text_eq m n then act n a p else p)

  unfoldable pub change : Text → Panel S → Panel S
  unfolding dispatch handlers
  change n p = dispatch handlers n p

  quality_updated-level :
      (p : Panel S)
      → p.rfb ≡ true
      → (quality_updated p).quality_level
        ≡ parse_int (to_text (get_setting w (codes "quality") p.form))
  unfolding quality_updated
  quality_updated-level p b = rw b refl

  compression_updated-level :
      (p : Panel S)
      → p.rfb ≡ true
      → (compression_updated p).compression_level
        ≡ parse_int (to_text (get_setting w (codes "compression") p.form))
  unfolding compression_updated
  compression_updated-level p b = rw b refl

  module _ (h : IsWebUtil w) where
    saved-value :
        (n : Text) (c : Control) (v : Value) (p : Panel S)
        → p.form.control n ≡ some c
        → shown c ≡ some v
        → get_setting w n (act n save p).form ≡ v
    unfolding act
    saved-value n c v p e s = (save_setting-get_setting w h n c v p.form e s).0

    -- With an RFB object, when the control of the quality, of the compression, of the logs or of the
    -- resize mode changes, the handlers of its setting see the new value: the level of the RFB object or
    -- of the logs, or what applyResizeMode and updateViewClip read in this order, is that of the value
    -- that the control shows.
    pub change-sees_new :
        (c d e f : Control) (q r l z : Value) (p : Panel S)
        → p.rfb ≡ true
        → p.form.control (codes "quality") ≡ some c
        → shown c ≡ some q
        → p.form.control (codes "compression") ≡ some d
        → shown d ≡ some r
        → p.form.control (codes "logging") ≡ some e
        → shown e ≡ some l
        → p.form.control (codes "resize") ≡ some f
        → shown f ≡ some z
        → ((change (codes "quality") p).quality_level ≡ parse_int (to_text q))
          × ((change (codes "compression") p).compression_level ≡ parse_int (to_text r))
          × ((change (codes "logging") p).logging ≡ l)
          × ((change (codes "resize") p).called
              ≡ (update_view_clip, z) ∷ (apply_resize_mode, z) ∷ p.called)
    unfolding change act
    change-sees_new c d e f q r l z p b cq sq cr sr cl sl cz sz = (
      quality_updated-level (act (codes "quality") save p) b
          ∙ ap (λ v. parse_int (to_text v)) (saved-value (codes "quality") c q p cq sq),
      compression_updated-level (act (codes "compression") save p) b
          ∙ ap (λ v. parse_int (to_text v)) (saved-value (codes "compression") d r p cr sr),
      saved-value (codes "logging") e l p cl sl,
      ap (λ v. (update_view_clip, v) ∷ (apply_resize_mode, v) ∷ p.called)
          (saved-value (codes "resize") f z p cz sz),
    )
