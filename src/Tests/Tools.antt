-- ===== src/Tests/Tools.antt =====
-- The registry of pkg/tools/registry.go with a core tool and a hidden one.
use nook_claw.Prelude.{
  ℕ, ◌≡◌, refl, ◌⊎◌, true, false, ◌||◌, none, some, [], ◌∷◌, arith, if◌then◌else◌,
}
use nook_claw.Prelude.Text.{Text, codes, text_eq, text_eq_iff}
use nook_claw.Prelude.Int.{pos}
use nook_claw.Prelude.Dict.{lookup, insert, lookup-insert}
use nook_claw.Tools.Registry.{
  Tool, ToolEntry, ToolRegistry, new_tool_registry, register, register_hidden, promote_tools,
  promote_all, tick_ttl, tick_all, get, sorted_tool_names, to_provider_defs, execute_with_context,
  names_of, sort_strings, insert_sorted, text_leb,
}
use nook_claw.Tools.Registry.Promotion.{is_named, is_left, ticks, get-promoted}
use nook_claw.Tools.Registry.Names.{Reachable, created, then_step, added, added_hidden}
use nook_claw.Tools.Registry.Offers.{is_offered, is_some, IsRun, offered-get}
use nook_claw.Tools.Registry.Order.{IsStrict, same_order}

-- A tool that answers with a number.
abbrev Answers : Type 0
Answers = Tool Unit Unit ℕ

abbrev read_file : Answers
read_file = record {
  name = codes "read_file";
  description = codes "Reads";
  parameters = tt;
  execute = λ a. 1;
  execute_async = none;
}

abbrev zoom : Answers
zoom = record {
  name = codes "zoom";
  description = codes "Zooms";
  parameters = tt;
  execute = λ a. 2;
  execute_async = some (λ a. 3);
}

abbrev registry : ToolRegistry Unit Unit ℕ
registry = register_hidden zoom (register read_file new_tool_registry)

abbrev zoom_entry : ToolEntry Unit Unit ℕ
zoom_entry = record { tool = zoom; is_core = false; ttl = pos 0 }

abbrev read_entry : ToolEntry Unit Unit ℕ
read_entry = record { tool = read_file; is_core = true; ttl = pos 0 }

zoom_found : lookup (codes "zoom") registry.tools ≡ some zoom_entry
unfolding register register_hidden lookup insert text_eq
zoom_found = refl

get-promoted_example :
    get (codes "zoom") (ticks 2 (promote_tools (codes "zoom" ∷ []) (pos 3) registry)) ≡ (
      if false || is_left 2 (if is_named (codes "zoom") (codes "zoom" ∷ []) then pos 3 else pos 0)
      then some zoom
      else none)
get-promoted_example =
    get-promoted (codes "zoom") (codes "zoom" ∷ []) (pos 3) 2 registry zoom_entry zoom_found

zoom_expires :
    get (codes "zoom") (ticks 3 (promote_tools (codes "zoom" ∷ []) (pos 3) registry)) ≡ none
unfolding register register_hidden lookup insert text_eq promote_tools promote_all tick_ttl tick_all
    ticks get
zoom_expires = refl

abbrev registry_reached : Reachable registry
registry_reached = then_step (then_step created (added read_file)) (added_hidden zoom)

offered-get_example :
    let offered = is_offered (codes "zoom") (to_provider_defs registry) in
    let answer = execute_with_context (λ name. 0) (codes "zoom") true tt registry in
    (offered ≡ is_some (get (codes "zoom") registry))
    × (((offered ≡ false) × (answer ≡ 0))
        ⊎ ((offered ≡ true) × IsRun (codes "zoom") registry true tt answer))
offered-get_example = offered-get (codes "zoom") registry (λ name. 0) true tt registry_reached

-- The same tools, registered the other way round.
abbrev turned : ToolRegistry Unit Unit ℕ
turned = register read_file (register_hidden zoom new_tool_registry)

turned_reached : Reachable turned
turned_reached = then_step (then_step created (added_hidden zoom)) (added read_file)

same_tools : (k : Text) → lookup k registry.tools ≡ lookup k turned.tools
unfolding register register_hidden
same_tools k = ground (
  arith,
  lookup-insert (codes "zoom") k zoom_entry (insert (codes "read_file") read_entry []),
  lookup-insert (codes "read_file") k read_entry [],
  lookup-insert (codes "read_file") k read_entry (insert (codes "zoom") zoom_entry []),
  lookup-insert (codes "zoom") k zoom_entry [],
  text_eq_iff (codes "zoom") k,
  text_eq_iff (codes "read_file") k,
)

same_order_example :
    (sorted_tool_names registry ≡ sorted_tool_names turned)
    × IsStrict (sorted_tool_names registry)
    × (to_provider_defs registry ≡ to_provider_defs turned)
same_order_example = same_order registry turned registry_reached turned_reached same_tools

turned_names : sorted_tool_names turned ≡ codes "read_file" ∷ codes "zoom" ∷ []
unfolding register register_hidden insert text_eq sorted_tool_names names_of sort_strings
    insert_sorted text_leb
turned_names = refl
