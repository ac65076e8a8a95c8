-- ===== src/Providers/ModelRef/Normalize.antt =====
-- NormalizeProvider of pkg/providers/model_ref.go, applied twice.
use nook_claw.Prelude.{◌≡◌, refl, ◌⊎◌, arith}
use nook_claw.Prelude.Text.{Text, codes, text_eq, trim_space, to_lower}
use nook_claw.Prelude.Text.Laws.{normal_idem}
use nook_claw.Providers.ModelRef.{canonical, normalize_provider}

abbrev IsFixed : Text → Type 0
IsFixed p = canonical (to_lower (trim_space p)) ≡ p

canonical_cases :
    (p : Text)
    → (canonical p ≡ p)
      ⊎ (canonical p ≡ codes "zai")
      ⊎ (canonical p ≡ codes "opencode")
      ⊎ (canonical p ≡ codes "qwen-portal")
      ⊎ (canonical p ≡ codes "kimi-coding")
      ⊎ (canonical p ≡ codes "openai")
      ⊎ (canonical p ≡ codes "anthropic")
      ⊎ (canonical p ≡ codes "zhipu")
      ⊎ (canonical p ≡ codes "gemini")
unfolding canonical
canonical_cases p = ground arith

outputs-IsFixed :
    IsFixed (codes "zai")
    × IsFixed (codes "opencode")
    × IsFixed (codes "qwen-portal")
    × IsFixed (codes "kimi-coding")
    × IsFixed (codes "openai")
    × IsFixed (codes "anthropic")
    × IsFixed (codes "zhipu")
    × IsFixed (codes "gemini")
unfolding canonical to_lower trim_space text_eq
outputs-IsFixed = (refl, refl, refl, refl, refl, refl, refl, refl)

canonical-IsFixed : (p : Text) → to_lower (trim_space p) ≡ p → IsFixed (canonical p)
canonical-IsFixed p h = ground (arith, canonical_cases p, outputs-IsFixed)

-- A normalised provider name is its own normal form, so names are compared by equality.
pub normalize_provider_idem :
    (p : Text) → normalize_provider (normalize_provider p) ≡ normalize_provider p
unfolding normalize_provider
normalize_provider_idem p = canonical-IsFixed (to_lower (trim_space p)) (normal_idem p)
