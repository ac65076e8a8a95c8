-- ===== src/Tools/Registry/Order.antt =====
-- The order in which pkg/tools/registry.go lists tools, beside the order of Go's maps.
use nook_claw.Prelude.{
  ◌≡◌, refl, sym, ◌∙◌, ap, subst, Bool, true, false, not, ◌&&◌, List, [], ◌∷◌, arith, Bool-cases,
  inl, inr,
}
use nook_claw.Prelude.Text.{Text, text_eq, text_eq_iff, text_eq_refl}
use nook_claw.Prelude.Dict.{Dict, lookup, IsMap}
use nook_claw.Tools.Registry.{
  ToolEntry, ToolRegistry, text_leb, insert_sorted, sort_strings, get, names_of, sorted_tool_names,
  visible_tools, schemas, to_provider_defs,
}
use nook_claw.Tools.Registry.Promotion.{is_named}
use nook_claw.Tools.Registry.Names.{Reachable, Reachable-IsMap}
use nook_claw.Tools.Registry.Offers.{named-sort, is_some, named-names_of}

text_leb_total : (s t : Text) → text_leb s t ≡ false → text_leb t s ≡ true
unfolding text_leb
text_leb_total [] t h = absurd (ground arith)
text_leb_total (c ∷ s) [] h = refl
text_leb_total (c ∷ s) (d ∷ t) h = ground (arith, text_leb_total s t)

text_leb_antisym : (s t : Text) → text_leb s t ≡ true → text_leb t s ≡ true → text_eq s t ≡ true
unfolding text_leb text_eq
text_leb_antisym [] [] h k = refl
text_leb_antisym [] (d ∷ t) h k = absurd (ground arith)
text_leb_antisym (c ∷ s) [] h k = absurd (ground arith)
text_leb_antisym (c ∷ s) (d ∷ t) h k = ground (arith, text_leb_antisym s t)

text_leb_trans : (s t u : Text) → text_leb s t ≡ true → text_leb t u ≡ true → text_leb s u ≡ true
unfolding text_leb
text_leb_trans [] t u h k = refl
text_leb_trans (c ∷ s) [] u h k = absurd (ground arith)
text_leb_trans (c ∷ s) (d ∷ t) [] h k = absurd (ground arith)
text_leb_trans (c ∷ s) (d ∷ t) (e ∷ u) h k = ground (arith, text_leb_trans s t u)

text_leb_refl : (s : Text) → text_leb s s ≡ true
unfolding text_leb
text_leb_refl [] = refl
text_leb_refl (c ∷ s) = ground (arith, text_leb_refl s)

-- s comes before every one of the texts.
abbrev pub is_before : Text → List Text → Bool
is_before s [] = true
is_before s (t ∷ ts) = not (text_leb t s) && is_before s ts

-- Each text comes before all that follow it.
abbrev pub IsStrict : List Text → Type 0
IsStrict [] = Unit
IsStrict (s ∷ ts) = (is_before s ts ≡ true) × IsStrict ts

is_before_trans :
    (s t : Text) (us : List Text)
    → text_leb t s ≡ false
    → is_before t us ≡ true
    → is_before s us ≡ true
is_before_trans s t [] h k = refl
is_before_trans s t (u ∷ us) h k = ground (
  arith,
  is_before_trans s t us h,
  text_leb_trans u s t,
  text_leb_trans t u s,
  text_leb_total u t,
  h,
)

before-insert :
    (z s : Text) (ts : List Text)
    → is_before z (insert_sorted s ts) ≡ not (text_leb s z) && is_before z ts
unfolding insert_sorted
before-insert z s [] = refl
before-insert z s (t ∷ ts) = ground (arith, before-insert z s ts)

insert-IsStrict :
    (s : Text) (ts : List Text)
    → is_named s ts ≡ false
    → IsStrict ts
    → IsStrict (insert_sorted s ts)
unfolding insert_sorted
insert-IsStrict s [] n h = (refl, tt)
insert-IsStrict s (t ∷ ts) n h =
    let apart : (text_eq s t ≡ false) × (is_named s ts ≡ false) =
      ground (arith, n, text_eq_iff s t, text_eq_iff t s) in
    elim (Bool-cases (text_leb s t)) [
      | inl e ↦
          let less : text_leb t s ≡ false = ground (arith, text_leb_antisym s t e, apart.0) in
          rw e (ground (arith, less, is_before_trans s t ts less h.0), h)
      | inr e ↦
          rw e (ground (arith, before-insert t s ts, e, h.0), insert-IsStrict s ts apart.1 h.1)
    ]

IsNodup : List Text → Type 0
IsNodup [] = Unit
IsNodup (s ∷ ts) = (is_named s ts ≡ false) × IsNodup ts

sort-IsStrict : (ts : List Text) → IsNodup ts → IsStrict (sort_strings ts)
unfolding sort_strings IsNodup
sort-IsStrict [] h = tt
sort-IsStrict (s ∷ ts) h =
    insert-IsStrict s (sort_strings ts) (named-sort s ts ∙ h.0) (sort-IsStrict ts h.1)

before-named :
    (s k : Text) (ts : List Text)
    → is_before s ts ≡ true
    → is_named k ts ≡ true
    → text_leb k s ≡ false
before-named s k [] h m = absurd (ground arith)
before-named s k (t ∷ ts) h m = ground (arith, before-named s k ts, text_eq_iff t k)

head-same :
    (s t : Text) (ss ts : List Text)
    → IsStrict (s ∷ ss)
    → IsStrict (t ∷ ts)
    → is_named s (t ∷ ts) ≡ true
    → is_named t (s ∷ ss) ≡ true
    → s ≡ t
head-same s t ss ts h k m n = ground (
  arith,
  before-named s t ss h.0,
  before-named t s ts k.0,
  text_leb_total s t,
  text_eq_iff t s,
  text_eq_iff s t,
)

tail-same :
    (s k : Text) (ss ts : List Text)
    → is_before s ss ≡ true
    → is_before s ts ≡ true
    → is_named k (s ∷ ss) ≡ is_named k (s ∷ ts)
    → is_named k ss ≡ is_named k ts
tail-same s k ss ts h h' e =
    ground
      (arith, before-named s k ss h, before-named s k ts h', text_leb_refl s, text_eq_iff s k, e)

-- A strictly sorted list is determined by its members.
strict_unique :
    (ss ts : List Text)
    → IsStrict ss
    → IsStrict ts
    → ((k : Text) → is_named k ss ≡ is_named k ts)
    → ss ≡ ts
strict_unique [] [] h k same = refl
strict_unique [] (t ∷ ts) h k same = absurd (ground (arith, same t, text_eq_refl t))
strict_unique (s ∷ ss) [] h k same = absurd (ground (arith, same s, text_eq_refl s))
strict_unique (s ∷ ss) (t ∷ ts) h k same =
    let e : s ≡ t =
      head-same s t ss ts h k (ground (arith, same s, text_eq_refl s))
        (ground (arith, same t, text_eq_refl t)) in
    let before : is_before s ts ≡ true = subst (λ u. is_before u ts ≡ true) (sym e) k.0 in
    let rest : ss ≡ ts = strict_unique ss ts h.1 k.1 (λ x.
      tail-same s x ss ts h.0 before
        (subst (λ u. is_named x (s ∷ ss) ≡ is_named x (u ∷ ts)) (sym e) (same x))) in
    ap (λ u. u ∷ ss) e ∙ ap (◌∷◌ t) rest

module _ {P A R : Type 0} where
  names_of-IsNodup : (m : Dict (ToolEntry P A R)) → IsMap m → IsNodup (names_of m)
  unfolding names_of IsNodup
  names_of-IsNodup [] h = tt
  names_of-IsNodup ((name, entry) ∷ m) h =
      (named-names_of name m ∙ ap is_some h.0, names_of-IsNodup m h.1)

  visible-same :
      (r q : ToolRegistry P A R) (names : List Text)
      → ((k : Text) → lookup k r.tools ≡ lookup k q.tools)
      → visible_tools r names ≡ visible_tools q names
  unfolding visible_tools get
  visible-same r q [] same = refl
  visible-same r q (name ∷ names) same = ground (arith, same name, visible-same r q names same)

  -- Two registries that were reached by registrations, promotions and ticks and have the same tool
  -- with the same rounds left under every name list their names alike, each once and in ascending
  -- order, and offer the model the same definitions in the same order, whatever the order in which
  -- the tools were registered or in which Go's map keeps them.
  pub same_order :
      (r q : ToolRegistry P A R)
      → Reachable r
      → Reachable q
      → ((k : Text) → lookup k r.tools ≡ lookup k q.tools)
      → (sorted_tool_names r ≡ sorted_tool_names q)
        × IsStrict (sorted_tool_names r)
        × (to_provider_defs r ≡ to_provider_defs q)
  unfolding sorted_tool_names to_provider_defs
  same_order r q hr hq same =
      let sr =
        sort-IsStrict (names_of r.tools) (names_of-IsNodup r.tools (Reachable-IsMap r hr).0) in
      let sq =
        sort-IsStrict (names_of q.tools) (names_of-IsNodup q.tools (Reachable-IsMap q hq).0) in
      let e : sort_strings (names_of r.tools) ≡ sort_strings (names_of q.tools) =
        strict_unique (sort_strings (names_of r.tools)) (sort_strings (names_of q.tools)) sr sq
          (λ k.
            named-sort k (names_of r.tools)
            ∙ named-names_of k r.tools
            ∙ ap is_some (same k)
            ∙ sym (named-names_of k q.tools)
            ∙ sym (named-sort k (names_of q.tools))) in
      (
        e,
        sr,
        ap schemas
            (visible-same r q (sort_strings (names_of r.tools)) same ∙ ap (visible_tools q) e),
      )
