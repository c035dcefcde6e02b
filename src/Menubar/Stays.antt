-- ===== src/Menubar/Stays.antt =====
-- Settings that were normalised stay as they are.
use one_auth_watch.Prelude.{
  ◌≤◌, inl, inr, ◌≡◌, refl, ap, ◌∙◌, Bool, true, false, ◌||◌, List, [], ◌∷◌, arith, length,
  Bool-cases, if◌then◌else◌,
}
use one_auth_watch.Prelude.Int.{ℤ, pos, ltb_ℤ, ◌≤ℤ◌}
use one_auth_watch.Prelude.Text.{Text, codes, text_eq, trim_space}
use one_auth_watch.Menubar.{
  StatusDisplaySelection, StatusDisplay, Settings, multi_provider, normalize_from,
  normalized_string_list, normalize_status_selections, select_from, normal_mode, or_legacy,
  normalize_display, normal_view, normal_theme, normal_percents, normalize,
}
use one_auth_watch.Menubar.Normal.{
  IsChosen, normalize_from-IsClean, clean_stays, trimmed_again, select_from-IsChosen, chosen_stays,
  length-chosen, or_legacy-IsChosen,
}

view_stays : (v : Text) → normal_view (normal_view v) ≡ normal_view v
unfolding text_eq
view_stays v =
    elim (Bool-cases (
      text_eq v (codes "minimal")
      || text_eq v (codes "standard")
      || text_eq v (codes "detailed"))) [ inl e ↦ rw (e, e) refl | inr e ↦ rw e refl ]

theme_stays : (v : Text) → normal_theme (normal_theme v) ≡ normal_theme v
unfolding text_eq
theme_stays v =
    elim (Bool-cases
      (text_eq v (codes "system") || text_eq v (codes "light") || text_eq v (codes "dark"))) [
        | inl e ↦ rw (e, e) refl
        | inr e ↦ rw e refl
      ]

mode_stays :
    (m : Text)
    → normal_mode multi_provider (normal_mode multi_provider m) ≡ normal_mode multi_provider m
unfolding normal_mode text_eq
mode_stays m =
    elim (Bool-cases (
      text_eq m multi_provider
      || text_eq m (codes "critical_count")
      || text_eq m (codes "icon_only"))) [
        | inl e ↦ rw (e, e) refl
        | inr e ↦ elim (Bool-cases (text_eq m (codes "provider_specific"))) [
          | inl f ↦ rw (e, f) refl
          | inr f ↦ rw (e, f) refl
        ]
      ]

-- The thresholds: in order, within their ranges, and stable.
percents_bounds :
    (w c : ℤ)
    → (pos 1 ≤ℤ (normal_percents w c).0)
      × (ltb_ℤ (normal_percents w c).0 (normal_percents w c).1 ≡ true)
      × ((normal_percents w c).1 ≤ℤ pos 100)
unfolding normal_percents
percents_bounds w c = (ground arith, ground arith, ground arith)

percents_stay :
    (w c : ℤ)
    → normal_percents (normal_percents w c).0 (normal_percents w c).1 ≡ normal_percents w c
unfolding normal_percents
percents_stay w c = ground arith

strings_stay :
    (values : List Text)
    → normalized_string_list (normalized_string_list values) ≡ normalized_string_list values
unfolding normalized_string_list
strings_stay values = clean_stays [] (normalize_from [] values) (normalize_from-IsClean [] values)

no_legacy :
    (vs : List StatusDisplaySelection)
    → or_legacy vs (record { provider_id = trim_space []; quota_key = trim_space [] }) ≡ vs
unfolding trim_space text_eq
no_legacy [] = refl
no_legacy (v ∷ vs) = refl

-- The selections of a display, from those of its record.
abbrev chosen : StatusDisplay → List StatusDisplaySelection
chosen s =
    or_legacy (normalize_status_selections s.selected_quotas)
      (record { provider_id = trim_space s.provider_id; quota_key = trim_space s.quota_key })

chosen-IsChosen : (s : StatusDisplay) → IsChosen 3 [] (chosen s)
unfolding normalize_status_selections
chosen-IsChosen s =
    or_legacy-IsChosen (select_from 3 [] s.selected_quotas) _
      (select_from-IsChosen 3 [] s.selected_quotas)
      (trimmed_again (record { provider_id = s.provider_id; quota_key = s.quota_key }))

choose_again :
    (vs : List StatusDisplaySelection)
    → IsChosen 3 [] vs
    → or_legacy
        (normalize_status_selections vs)
        (record { provider_id = trim_space []; quota_key = trim_space [] })
      ≡ vs
unfolding normalize_status_selections
choose_again vs h = no_legacy (select_from 3 [] vs) ∙ chosen_stays 3 [] vs h

only_multi :
    (b : Bool) (vs : List StatusDisplaySelection)
    → IsChosen 3 [] vs
    → (if b
        then or_legacy
            (normalize_status_selections (if b then vs else []))
            (record { provider_id = trim_space []; quota_key = trim_space [] })
        else [])
      ≡ (if b then vs else [])
only_multi true vs h = choose_again vs h
only_multi false vs h = refl

display_stays :
    (s : StatusDisplay)
    → normalize_display multi_provider (normalize_display multi_provider s)
      ≡ normalize_display multi_provider s
unfolding normalize_display
display_stays s =
    let m = normal_mode multi_provider s.mode in
    ap
      (λ x. record {
        mode = x;
        selected_quotas =
            if text_eq x multi_provider
            then or_legacy
                (normalize_status_selections (if text_eq m multi_provider then chosen s else []))
                (record { provider_id = trim_space []; quota_key = trim_space [] })
            else [];
        provider_id = [];
        quota_key = [];
      })
      (mode_stays s.mode)
    ∙ ap (λ vs. record { mode = m; selected_quotas = vs; provider_id = []; quota_key = [] })
        (only_multi (text_eq m multi_provider) (chosen s) (chosen-IsChosen s))

refresh_stays :
    (n : ℤ)
    → (if ltb_ℤ (if ltb_ℤ n (pos 10) then pos 60 else n) (pos 10)
        then pos 60
        else if ltb_ℤ n (pos 10)
        then pos 60
        else n)
      ≡ (if ltb_ℤ n (pos 10) then pos 60 else n)
refresh_stays n = ground arith

-- Normalising settings twice is normalising them once.
pub normalize_again : (s : Settings) → normalize (normalize s) ≡ normalize s
unfolding normalize
normalize_again s =
    let again = percents_stay s.warning_percent s.critical_percent in
    rw
      (
        view_stays s.default_view,
        refresh_stays s.refresh_seconds,
        strings_stay s.providers_order,
        strings_stay s.visible_providers,
        again,
        display_stays s.status_display,
        theme_stays s.theme,
      )
      refl

length-if :
    (b : Bool) (vs : List StatusDisplaySelection)
    → length vs ≤ 3
    → length (if b then vs else []) ≤ 3
length-if true vs h = h
length-if false vs h = omega arith

-- Normalised settings: the warning is at least 1 and below the critical percentage, that one is at
-- most 100, the refresh takes ten seconds or more, and at most three quotas are selected.
normalize-bounds :
    (s : Settings)
    → (pos 1 ≤ℤ (normalize s).warning_percent)
      × (ltb_ℤ (normalize s).warning_percent (normalize s).critical_percent ≡ true)
      × ((normalize s).critical_percent ≤ℤ pos 100)
      × (pos 10 ≤ℤ (normalize s).refresh_seconds)
      × (length (normalize s).status_display.selected_quotas ≤ 3)
unfolding normalize normalize_display
normalize-bounds s =
    let (low, order, high) = percents_bounds s.warning_percent s.critical_percent in
    (
      low,
      order,
      high,
      ground arith,
      length-if (text_eq (normal_mode multi_provider s.status_display.mode) multi_provider)
          (chosen s.status_display)
          (length-chosen 3 [] (chosen s.status_display) (chosen-IsChosen s.status_display)),
    )
