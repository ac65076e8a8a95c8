-- ===== src/Tools/Registry/Names.antt =====
-- The states that pkg/tools/registry.go reaches, and the names under which they have tools.
use nook_claw.Prelude.{
  ◌≡◌, refl, ◌∙◌, ap, Bool, true, false, Option, none, some, List, [], ◌∷◌, arith,
}
use nook_claw.Prelude.Text.{Text, text_eq}
use nook_claw.Prelude.Int.{ℤ, pos}
use nook_claw.Prelude.Dict.{Dict, lookup, lookup-insert, IsMap, insert-IsMap}
use nook_claw.Tools.Registry.{
  Tool, ToolEntry, ToolRegistry, new_tool_registry, entered, register, register_hidden, promoted,
  promote_found, promote_all, promote_tools, ticked, tick_all, tick_ttl,
}
use nook_claw.Tools.Registry.Promotion.{
  is_named, map_entry, promoted_if, lookup-tick_all, lookup-promote_all,
}

module _ {P A R : Type 0} where
  pub data Step (r : ToolRegistry P A R) : ToolRegistry P A R → Type 0 where
    added : (tool : Tool P A R) → Step r (register tool r)
    added_hidden : (tool : Tool P A R) → Step r (register_hidden tool r)
    promoting : (names : List Text) (ttl : ℤ) → Step r (promote_tools names ttl r)
    ticking : Step r (tick_ttl r)

  pub data Reachable : ToolRegistry P A R → Type 0 where
    created : Reachable new_tool_registry
    then_step : {r q : ToolRegistry P A R} → Reachable r → Step r q → Reachable q

  abbrev pub is_called : Text → Option (ToolEntry P A R) → Bool
  is_called k none = true
  is_called k (some entry) = text_eq entry.tool.name k

  -- Every tool is found under its own name only.
  abbrev pub IsNamed : Dict (ToolEntry P A R) → Type 0
  IsNamed m = (k : Text) → is_called k (lookup k m) ≡ true

  entered-IsNamed :
      (is_core : Bool) (tool : Tool P A R) (r : ToolRegistry P A R)
      → IsNamed r.tools
      → IsNamed (entered is_core tool r).tools
  entered-IsNamed is_core tool r h k =
      let entry : ToolEntry P A R = record { tool = tool; is_core = is_core; ttl = pos 0 } in
      ground (arith, lookup-insert tool.name k entry r.tools, h k)

  called_ticked :
      (k : Text) (o : Option (ToolEntry P A R)) → is_called k (map_entry ticked o) ≡ is_called k o
  called_ticked k o = ground arith

  called_promoted :
      (k : Text) (b : Bool) (ttl : ℤ) (o : Option (ToolEntry P A R))
      → is_called k (map_entry (promoted_if b ttl) o) ≡ is_called k o
  called_promoted k b ttl o = ground arith

  tick_all-IsNamed : (m : Dict (ToolEntry P A R)) → IsNamed m → IsNamed (tick_all m)
  tick_all-IsNamed m h k =
      ap (is_called k) (lookup-tick_all k m) ∙ called_ticked k (lookup k m) ∙ h k

  promote_all-IsNamed :
      (names : List Text) (ttl : ℤ) (m : Dict (ToolEntry P A R))
      → IsNamed m
      → IsNamed (promote_all names ttl m)
  promote_all-IsNamed names ttl m h k =
      ap (is_called k) (lookup-promote_all k names ttl m)
      ∙ called_promoted k (is_named k names) ttl (lookup k m)
      ∙ h k

  tick_all-IsMap : (m : Dict (ToolEntry P A R)) → IsMap m → IsMap (tick_all m)
  unfolding tick_all
  tick_all-IsMap [] h = tt
  tick_all-IsMap ((name, entry) ∷ m) h =
      (lookup-tick_all name m ∙ ap (map_entry ticked) h.0, tick_all-IsMap m h.1)

  promote_found-IsMap :
      (ttl : ℤ) (name : Text) (m : Dict (ToolEntry P A R)) (o : Option (ToolEntry P A R))
      → IsMap m
      → IsMap (promote_found ttl name m o)
  promote_found-IsMap ttl name m none h = h
  promote_found-IsMap ttl name m (some entry) h = insert-IsMap name (promoted ttl entry) m h

  promote_all-IsMap :
      (names : List Text) (ttl : ℤ) (m : Dict (ToolEntry P A R))
      → IsMap m
      → IsMap (promote_all names ttl m)
  unfolding promote_all
  promote_all-IsMap [] ttl m h = h
  promote_all-IsMap (name ∷ names) ttl m h =
      let o = lookup name m in
      promote_all-IsMap names ttl (promote_found ttl name m o) (promote_found-IsMap ttl name m o h)

  Step-IsMap :
      {r q : ToolRegistry P A R}
      → Step r q
      → IsMap r.tools × IsNamed r.tools
      → IsMap q.tools × IsNamed q.tools
  unfolding register register_hidden promote_tools tick_ttl
  Step-IsMap {r} (added tool) h =
      let entry : ToolEntry P A R = record { tool = tool; is_core = true; ttl = pos 0 } in
      (insert-IsMap tool.name entry r.tools h.0, entered-IsNamed true tool r h.1)
  Step-IsMap {r} (added_hidden tool) h =
      let entry : ToolEntry P A R = record { tool = tool; is_core = false; ttl = pos 0 } in
      (insert-IsMap tool.name entry r.tools h.0, entered-IsNamed false tool r h.1)
  Step-IsMap {r} (promoting names ttl) h =
      (promote_all-IsMap names ttl r.tools h.0, promote_all-IsNamed names ttl r.tools h.1)
  Step-IsMap {r} ticking h = (tick_all-IsMap r.tools h.0, tick_all-IsNamed r.tools h.1)

  pub Reachable-IsMap : (r : ToolRegistry P A R) → Reachable r → IsMap r.tools × IsNamed r.tools
  unfolding lookup
  Reachable-IsMap _ created = (tt, λ k. refl)
  Reachable-IsMap q (then_step {r} reached step) = Step-IsMap step (Reachable-IsMap r reached)
