-- ===== src/Http/Settings/Values.antt =====
-- The table of settings as a map from keys to values.
use rpi_network_filter.Common.{
  ◌≡◌, refl, sym, ap, ◌∙◌, List, [], ◌∷◌, Text, text_eq, find, none, some, Option, if◌then◌else◌,
}
use rpi_network_filter.Models.{Setting}
use rpi_network_filter.Db.{Db}
use rpi_network_filter.Hotspot.{setting_or}
use rpi_network_filter.Db.Pairs.{put_setting, value_or, value, put_setting-value}
use rpi_network_filter.Http.Settings.{put_settings, commit}

-- The value of a key under the entries of a request, behind a value that it had: the last entry with
-- that key decides.
abbrev pub overridden : List Setting → Text → Text → Text
overridden [] key v = v
overridden (r ∷ rs) key v = overridden rs key (if text_eq r.key key then r.value else v)

put_settings-value :
    (rs rows : List Setting) (key fallback : Text)
    → value (put_settings rs rows) key fallback ≡ overridden rs key (value rows key fallback)
unfolding put_settings
put_settings-value [] rows key fallback = refl
put_settings-value (r ∷ rs) rows key fallback =
    put_settings-value rs (put_setting r rows) key fallback
    ∙ ap (overridden rs key) (put_setting-value r key fallback rows)

setting_or-value :
    (s : Db) (key fallback : Text) → setting_or s key fallback ≡ value s.settings key fallback
unfolding setting_or
setting_or-value s key fallback = go (find (λ r. text_eq r.key key) s.settings)
  where
    go :
        (found : Option Setting)
        → (elim found as (λ x. Text) [ none ↦ fallback | some r ↦ r.value ])
          ≡ value_or found fallback
    go none = refl
    go (some r) = refl

-- Behind an update of the settings, every setting that the services read has the value that the
-- request gives it last, and the value that it had, or its default, where the request does not name
-- it: the table is a map from keys to values that the request overrides.
pub commit-setting_or :
    (rs : List Setting) (s : Db) (key fallback : Text)
    → setting_or (commit rs s).1 key fallback ≡ overridden rs key (setting_or s key fallback)
unfolding commit
commit-setting_or rs s key fallback =
    setting_or-value (commit rs s).1 key fallback
    ∙ put_settings-value rs s.settings key fallback
    ∙ ap (overridden rs key) (sym (setting_or-value s key fallback))
