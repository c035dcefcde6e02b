-- ===== src/Config/Providers.antt =====
-- The three queries on the providers agree.
use one_auth_watch.Prelude.{
  inl, inr, ◌≡◌, refl, ap, sym, ◌∙◌, Bool, true, false, ◌&&◌, ◌||◌, List, [], ◌∷◌, arith, ltb,
  length, cons_if, Bool-cases,
}
use mathlib.Core.Path.{subst}
use one_auth_watch.Prelude.Text.{Text, codes, text_eq, text_eq_iff}
use one_auth_watch.Config.{
  Config, is_set, has_codex, available_providers, has_provider, has_multiple_providers, count_one,
}

unfoldable pub contains : Text → List Text → Bool
contains name [] = false
contains name (p ∷ providers) = text_eq name p || contains name providers

contains-cons_if :
    (name p : Text) (b : Bool) (providers : List Text)
    → contains name (cons_if b p providers) ≡ (b && text_eq name p || contains name providers)
unfolding contains
contains-cons_if name p true providers = refl
contains-cons_if name p false providers = refl

-- A name that is none of those that are tested next.
other_name :
    (name p : Text) (b : Bool) (providers : List Text)
    → text_eq name p ≡ false
    → contains name (cons_if b p providers) ≡ contains name providers
unfolding contains
other_name name p true providers other = rw other refl
other_name name p false providers other = refl

length-cons_if :
    (b : Bool) (p : Text) (providers : List Text)
    → length (cons_if b p providers) ≡ count_one b (length providers)
length-cons_if true p providers = refl
length-cons_if false p providers = refl

same_order :
    (a b c d e f g h i : Bool)
    → count_one a (
        count_one b (
          count_one c
            (count_one d (count_one e (count_one f (count_one g (count_one h (count_one i 0))))))))
      ≡ count_one i (
          count_one h (
            count_one g (
              count_one f (count_one e (count_one d (count_one a (count_one c (count_one b 0))))))))
same_order a b c d e f g h i = ground arith

all_lengths :
    (a b c d e f g h i : Bool) (p q r s t u v w x : Text)
    → length (
        cons_if a p (
          cons_if b q (
            cons_if c r (
              cons_if d s
                (cons_if e t (cons_if f u (cons_if g v (cons_if h w (cons_if i x [])))))))))
      ≡ count_one a (
          count_one b (
            count_one c (
              count_one d (count_one e (count_one f (count_one g (count_one h (count_one i 0))))))))
all_lengths a b c d e f g h i p q r s t u v w x =
    rw
      (
        length-cons_if a p,
        length-cons_if b q,
        length-cons_if c r,
        length-cons_if d s,
        length-cons_if e t,
        length-cons_if f u,
        length-cons_if g v,
        length-cons_if h w,
        length-cons_if i x,
      )
      refl

-- `HasMultipleProviders` says that `AvailableProviders` lists more than one.
has_multiple-length :
    (c : Config) → has_multiple_providers c ≡ ltb 1 (length (available_providers c))
unfolding has_multiple_providers available_providers
has_multiple-length c = ap (ltb 1) (
    sym (
      all_lengths (is_set c.anthropic_token) (is_set c.synthetic_api_key) (is_set c.zai_api_key)
        (is_set c.copilot_token) (has_codex c) c.antigravity_enabled (is_set c.minimax_api_key)
        (is_set c.open_router_api_key) c.gemini_enabled _ _ _ _ _ _ _ _ _
      ∙ same_order (is_set c.anthropic_token) (is_set c.synthetic_api_key) (is_set c.zai_api_key)
          (is_set c.copilot_token) (has_codex c) c.antigravity_enabled (is_set c.minimax_api_key)
          (is_set c.open_router_api_key) c.gemini_enabled))

-- The list by its names.
listed :
    (c : Config) (name : Text)
    → contains name (available_providers c) ≡ (
        is_set c.anthropic_token && text_eq name (codes "anthropic")
        || (is_set c.synthetic_api_key && text_eq name (codes "synthetic")
            || (is_set c.zai_api_key && text_eq name (codes "zai")
                || (is_set c.copilot_token && text_eq name (codes "copilot")
                    || (has_codex c && text_eq name (codes "codex")
                        || (c.antigravity_enabled && text_eq name (codes "antigravity")
                            || (is_set c.minimax_api_key && text_eq name (codes "minimax")
                                || (is_set c.open_router_api_key
                                      && text_eq name (codes "openrouter")
                                    || (c.gemini_enabled && text_eq name (codes "gemini")
                                        || false)))))))))
unfolding available_providers contains
listed c name =
    rw
      (
        contains-cons_if name (codes "anthropic") (is_set c.anthropic_token),
        contains-cons_if name (codes "synthetic") (is_set c.synthetic_api_key),
        contains-cons_if name (codes "zai") (is_set c.zai_api_key),
        contains-cons_if name (codes "copilot") (is_set c.copilot_token),
        contains-cons_if name (codes "codex") (has_codex c),
        contains-cons_if name (codes "antigravity") c.antigravity_enabled,
        contains-cons_if name (codes "minimax") (is_set c.minimax_api_key),
        contains-cons_if name (codes "openrouter") (is_set c.open_router_api_key),
        contains-cons_if name (codes "gemini") c.gemini_enabled,
      )
      refl

-- A Boolean among alternatives of which the others are false.
module _ (c : Config) where
  Agrees : Text → Type 0
  Agrees name = has_provider c name ≡ contains name (available_providers c)

  synthetic-Agrees : Agrees (codes "synthetic")
  unfolding Agrees has_provider text_eq
  synthetic-Agrees = sym (listed c (codes "synthetic") ∙ ground arith)

  zai-Agrees : Agrees (codes "zai")
  unfolding Agrees has_provider text_eq
  zai-Agrees = sym (listed c (codes "zai") ∙ ground arith)

  anthropic-Agrees : Agrees (codes "anthropic")
  unfolding Agrees has_provider text_eq
  anthropic-Agrees = sym (listed c (codes "anthropic") ∙ ground arith)

  copilot-Agrees : Agrees (codes "copilot")
  unfolding Agrees has_provider text_eq
  copilot-Agrees = sym (listed c (codes "copilot") ∙ ground arith)

  codex-Agrees : Agrees (codes "codex")
  unfolding Agrees has_provider text_eq
  codex-Agrees = sym (listed c (codes "codex") ∙ ground arith)

  antigravity-Agrees : Agrees (codes "antigravity")
  unfolding Agrees has_provider text_eq
  antigravity-Agrees = sym (listed c (codes "antigravity") ∙ ground arith)

  minimax-Agrees : Agrees (codes "minimax")
  unfolding Agrees has_provider text_eq
  minimax-Agrees = sym (listed c (codes "minimax") ∙ ground arith)

  openrouter-Agrees : Agrees (codes "openrouter")
  unfolding Agrees has_provider text_eq
  openrouter-Agrees = sym (listed c (codes "openrouter") ∙ ground arith)

  gemini-Agrees : Agrees (codes "gemini")
  unfolding Agrees has_provider text_eq
  gemini-Agrees = sym (listed c (codes "gemini") ∙ ground arith)

  by_name : (name p : Text) → Agrees p → text_eq name p ≡ true → Agrees name
  by_name name p h e = subst Agrees (sym ((text_eq_iff name p).0 e)) h

  other-Agrees :
      (name : Text)
      → text_eq name (codes "synthetic") ≡ false
      → text_eq name (codes "zai") ≡ false
      → text_eq name (codes "anthropic") ≡ false
      → text_eq name (codes "copilot") ≡ false
      → text_eq name (codes "codex") ≡ false
      → text_eq name (codes "antigravity") ≡ false
      → text_eq name (codes "minimax") ≡ false
      → text_eq name (codes "openrouter") ≡ false
      → text_eq name (codes "gemini") ≡ false
      → Agrees name
  unfolding Agrees has_provider
  other-Agrees name n1 n2 n3 n4 n5 n6 n7 n8 n9 =
      rw (n1, n2, n3, n4, n5, n6, n7, n8, n9)
        (sym (listed c name ∙ rw (n1, n2, n3, n4, n5, n6, n7, n8, n9) (ground arith)))

-- `HasProvider` says of every text, also of one that names no provider, whether `AvailableProviders`
-- lists it.
pub has_provider-contains :
    (c : Config) (name : Text) → has_provider c name ≡ contains name (available_providers c)
unfolding Agrees
has_provider-contains c name = elim (Bool-cases (text_eq name (codes "synthetic"))) [
  | inl e ↦ by_name c name (codes "synthetic") (synthetic-Agrees c) e
  | inr n1 ↦ elim (Bool-cases (text_eq name (codes "zai"))) [
    | inl e ↦ by_name c name (codes "zai") (zai-Agrees c) e
    | inr n2 ↦ elim (Bool-cases (text_eq name (codes "anthropic"))) [
      | inl e ↦ by_name c name (codes "anthropic") (anthropic-Agrees c) e
      | inr n3 ↦ elim (Bool-cases (text_eq name (codes "copilot"))) [
        | inl e ↦ by_name c name (codes "copilot") (copilot-Agrees c) e
        | inr n4 ↦ elim (Bool-cases (text_eq name (codes "codex"))) [
          | inl e ↦ by_name c name (codes "codex") (codex-Agrees c) e
          | inr n5 ↦ elim (Bool-cases (text_eq name (codes "antigravity"))) [
            | inl e ↦ by_name c name (codes "antigravity") (antigravity-Agrees c) e
            | inr n6 ↦ elim (Bool-cases (text_eq name (codes "minimax"))) [
              | inl e ↦ by_name c name (codes "minimax") (minimax-Agrees c) e
              | inr n7 ↦ elim (Bool-cases (text_eq name (codes "openrouter"))) [
                | inl e ↦ by_name c name (codes "openrouter") (openrouter-Agrees c) e
                | inr n8 ↦ elim (Bool-cases (text_eq name (codes "gemini"))) [
                  | inl e ↦ by_name c name (codes "gemini") (gemini-Agrees c) e
                  | inr n9 ↦ other-Agrees c name n1 n2 n3 n4 n5 n6 n7 n8 n9
                ]
              ]
            ]
          ]
        ]
      ]
    ]
  ]
]
