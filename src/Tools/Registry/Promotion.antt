-- ===== src/Tools/Registry/Promotion.antt =====
-- How long a hidden tool of pkg/tools/registry.go can be called after PromoteTools. The agent loop
-- calls TickTTL once after each round of the model's tool calls.
use nook_claw.Prelude.{
  ℕ, zero, suc, ◌≡◌, refl, ◌∙◌, ap, Bool, false, ◌||◌, Option, none, some, List, [], ◌∷◌, arith,
  ltb, if◌then◌else◌,
}
use nook_claw.Prelude.Text.{Text, text_eq, text_eq_iff}
use nook_claw.Prelude.Int.{ℤ, pos, negsuc}
use nook_claw.Prelude.Dict.{Dict, lookup, lookup-insert}
use nook_claw.Tools.Registry.{
  ToolEntry, ToolRegistry, lowered, promoted, promote_found, promote_all, promote_tools, ticked,
  tick_all, tick_ttl, tool_if_visible, get,
}

abbrev pub is_named : Text → List Text → Bool
is_named k [] = false
is_named k (name ∷ names) = text_eq name k || is_named k names

-- The rounds that are left after n of them.
abbrev pub is_left : ℕ → ℤ → Bool
is_left n (pos k) = ltb n k
is_left n (negsuc k) = false

is_left-lowered : (n : ℕ) (t : ℤ) → is_left n (lowered t) ≡ is_left (suc n) t
is_left-lowered n t = ground arith

module _ {P A R : Type 0} where
  abbrev pub map_entry :
      (ToolEntry P A R → ToolEntry P A R) → Option (ToolEntry P A R) → Option (ToolEntry P A R)
  map_entry f none = none
  map_entry f (some entry) = some (f entry)

  abbrev pub promoted_if : Bool → ℤ → ToolEntry P A R → ToolEntry P A R
  promoted_if b ttl entry = if b then promoted ttl entry else entry

  -- TickTTL, n times.
  unfoldable pub ticks : ℕ → ToolRegistry P A R → ToolRegistry P A R
  ticks zero r = r
  ticks (suc n) r = ticks n (tick_ttl r)

  abbrev ticked_times : ℕ → ToolEntry P A R → ToolEntry P A R
  ticked_times zero entry = entry
  ticked_times (suc n) entry = ticked_times n (ticked entry)

  pub lookup-tick_all :
      (k : Text) (m : Dict (ToolEntry P A R))
      → lookup k (tick_all m) ≡ map_entry ticked (lookup k m)
  unfolding lookup tick_all
  lookup-tick_all k [] = refl
  lookup-tick_all k ((name, entry) ∷ m) = ground (arith, lookup-tick_all k m)

  pub lookup-promote_found :
      (k name : Text) (ttl : ℤ) (m : Dict (ToolEntry P A R)) (o : Option (ToolEntry P A R))
      → lookup name m ≡ o
      → lookup k (promote_found ttl name m o)
        ≡ map_entry (promoted_if (text_eq name k) ttl) (lookup k m)
  lookup-promote_found k name ttl m none e = ground (arith, e, text_eq_iff name k)
  lookup-promote_found k name ttl m (some entry) e =
      ground (arith, e, text_eq_iff name k, lookup-insert name k (promoted ttl entry) m)

  promoted_twice :
      (a b : Bool) (ttl : ℤ) (o : Option (ToolEntry P A R))
      → map_entry (promoted_if b ttl) (map_entry (promoted_if a ttl) o)
        ≡ map_entry (promoted_if (a || b) ttl) o
  promoted_twice a b ttl o = ground arith

  pub lookup-promote_all :
      (k : Text) (names : List Text) (ttl : ℤ) (m : Dict (ToolEntry P A R))
      → lookup k (promote_all names ttl m)
        ≡ map_entry (promoted_if (is_named k names) ttl) (lookup k m)
  unfolding promote_all
  lookup-promote_all k [] ttl m = ground arith
  lookup-promote_all k (name ∷ names) ttl m =
      lookup-promote_all k names ttl (promote_found ttl name m (lookup name m))
      ∙ ap (map_entry (promoted_if (is_named k names) ttl))
          (lookup-promote_found k name ttl m (lookup name m) refl)
      ∙ promoted_twice (text_eq name k) (is_named k names) ttl (lookup k m)

  lookup-ticks :
      (k : Text) (n : ℕ) (r : ToolRegistry P A R)
      → lookup k (ticks n r).tools ≡ map_entry (ticked_times n) (lookup k r.tools)
  unfolding ticks tick_ttl
  lookup-ticks k zero r = ground arith
  lookup-ticks k (suc n) r =
      lookup-ticks k n (tick_ttl r)
      ∙ ap (map_entry (ticked_times n)) (lookup-tick_all k r.tools)
      ∙ twice (lookup k r.tools)
    where
      twice :
          (o : Option (ToolEntry P A R))
          → map_entry (ticked_times n) (map_entry ticked o) ≡ map_entry (ticked_times (suc n)) o
      twice none = refl
      twice (some entry) = refl

  visible-ticked :
      (n : ℕ) (entry : ToolEntry P A R)
      → tool_if_visible (some (ticked_times n entry))
        ≡ (if entry.is_core || is_left n entry.ttl then some entry.tool else none)
  visible-ticked zero entry = ground arith
  visible-ticked (suc n) entry =
      ground (arith, visible-ticked n (ticked entry), is_left-lowered n entry.ttl)

  -- After PromoteTools and then n calls of TickTTL, a registered tool can be called if it is a core
  -- tool, or if it was among the promoted ones and n is below their number of rounds, or if it was
  -- not among them and the rounds that it had left are more than n; else it cannot.
  pub get-promoted :
      (name : Text) (names : List Text) (ttl : ℤ) (n : ℕ) (r : ToolRegistry P A R)
      (entry : ToolEntry P A R)
      → lookup name r.tools ≡ some entry
      → get name (ticks n (promote_tools names ttl r)) ≡ (
          if entry.is_core || is_left n (if is_named name names then ttl else entry.ttl)
          then some entry.tool
          else none)
  unfolding get promote_tools
  get-promoted name names ttl n r entry e =
      let p = promoted_if (is_named name names) ttl in
      ap tool_if_visible (
        lookup-ticks name n (promote_tools names ttl r)
        ∙ ap (map_entry (ticked_times n))
            (lookup-promote_all name names ttl r.tools ∙ ap (map_entry p) e))
      ∙ visible-ticked n (p entry)
      ∙ ground arith
