-- ===== src/Tools/Registry.antt =====
-- pkg/tools/registry.go and the interface of pkg/tools/base.go: the registered tools, of which the
-- hidden ones are offered for some rounds only. The lock makes an operation one step. The types of a
-- tool's parameters, of what it is called with (the context with the channel and the chat, and the
-- arguments) and of its results are parameters.
pub mod Promotion
pub mod Names
pub mod Offers
pub mod Order
use nook_claw.Prelude.{
  ℕ, zero, suc, ◌+◌, ◌%◌, ◌^◌, Bool, true, false, not, ◌&&◌, ◌||◌, Option, none, some, List, [],
  ◌∷◌, ltb, length, if◌then◌else◌,
}
use nook_claw.Prelude.Text.{Text}
use nook_claw.Prelude.Int.{ℤ, pos, negsuc}
use nook_claw.Prelude.Dict.{Dict, lookup, insert}

-- The order of Go's strings: by bytes of UTF-8, which is that of the code points.
unfoldable pub text_leb : Text → Text → Bool
text_leb [] t = true
text_leb (c ∷ s) [] = false
text_leb (c ∷ s) (d ∷ t) =
    let rest = text_leb s t in if ltb c d then true else if ltb d c then false else rest

unfoldable pub insert_sorted : Text → List Text → List Text
insert_sorted s [] = s ∷ []
insert_sorted s (t ∷ ts) =
    let rest = insert_sorted s ts in if text_leb s t then s ∷ t ∷ ts else t ∷ rest

-- sort.Strings
unfoldable pub sort_strings : List Text → List Text
unfolding insert_sorted
sort_strings [] = []
sort_strings (s ∷ ts) = insert_sorted s (sort_strings ts)

-- `execute_async`: the tool's method ExecuteAsync with the caller's callback, where it has one.
pub record Tool (P A R : Type 0) : Type 0 where
  pub name : Text
  pub description : Text
  pub parameters : P
  pub execute : A → R
  pub execute_async : Option (A → R)

pub record ToolEntry (P A R : Type 0) : Type 0 where
  pub tool : Tool P A R
  pub is_core : Bool
  pub ttl : ℤ

-- The version is an atomic uint64.
pub record ToolRegistry (P A R : Type 0) : Type 0 where
  pub tools : Dict (ToolEntry P A R)
  pub version : ℕ

pub record HiddenToolSnapshot : Type 0 where
  pub docs : List (Text × Text)
  pub version : ℕ

pub record ToolDefinition (P : Type 0) : Type 0 where
  pub name : Text
  pub description : Text
  pub parameters : P

abbrev pub lowered : ℤ → ℤ
lowered (pos (suc n)) = pos n
lowered t = t

abbrev pub is_positive : ℤ → Bool
is_positive (pos (suc n)) = true
is_positive t = false

module _ {P A R : Type 0} where
  abbrev pub new_tool_registry : ToolRegistry P A R
  new_tool_registry = record { tools = []; version = 0 }

  abbrev pub entered : Bool → Tool P A R → ToolRegistry P A R → ToolRegistry P A R
  entered is_core tool r = record {
    tools = insert tool.name (record { tool = tool; is_core = is_core; ttl = pos 0 }) r.tools;
    version = (r.version + 1) % 2 ^ 64;
  }

  unfoldable pub register : Tool P A R → ToolRegistry P A R → ToolRegistry P A R
  register = entered true

  unfoldable pub register_hidden : Tool P A R → ToolRegistry P A R → ToolRegistry P A R
  register_hidden = entered false

  abbrev pub promoted : ℤ → ToolEntry P A R → ToolEntry P A R
  promoted ttl entry = if entry.is_core then entry else record entry { ttl = ttl }

  abbrev pub promote_found :
      ℤ → Text → Dict (ToolEntry P A R) → Option (ToolEntry P A R) → Dict (ToolEntry P A R)
  promote_found ttl name tools none = tools
  promote_found ttl name tools (some entry) = insert name (promoted ttl entry) tools

  -- The loop of PromoteTools.
  unfoldable pub promote_all : List Text → ℤ → Dict (ToolEntry P A R) → Dict (ToolEntry P A R)
  promote_all [] ttl tools = tools
  promote_all (name ∷ names) ttl tools =
      promote_all names ttl (promote_found ttl name tools (lookup name tools))

  unfoldable pub promote_tools : List Text → ℤ → ToolRegistry P A R → ToolRegistry P A R
  unfolding promote_all
  promote_tools names ttl r = record r { tools = promote_all names ttl r.tools }

  abbrev pub ticked : ToolEntry P A R → ToolEntry P A R
  ticked entry = if entry.is_core then entry else record entry { ttl = lowered entry.ttl }

  unfoldable pub tick_all : Dict (ToolEntry P A R) → Dict (ToolEntry P A R)
  tick_all [] = []
  tick_all ((name, entry) ∷ tools) = (name, ticked entry) ∷ tick_all tools

  unfoldable pub tick_ttl : ToolRegistry P A R → ToolRegistry P A R
  unfolding tick_all
  tick_ttl r = record r { tools = tick_all r.tools }

  unfoldable pub hidden_docs : Dict (ToolEntry P A R) → List (Text × Text)
  hidden_docs [] = []
  hidden_docs ((name, entry) ∷ tools) =
      let rest = hidden_docs tools in
      if entry.is_core then rest else (name, entry.tool.description) ∷ rest

  abbrev pub snapshot_hidden_tools : ToolRegistry P A R → HiddenToolSnapshot
  snapshot_hidden_tools r = record { docs = hidden_docs r.tools; version = r.version }

  -- Not hidden, or with rounds left.
  abbrev pub is_visible : ToolEntry P A R → Bool
  is_visible entry = entry.is_core || is_positive entry.ttl

  abbrev pub tool_if_visible : Option (ToolEntry P A R) → Option (Tool P A R)
  tool_if_visible none = none
  tool_if_visible (some entry) = if is_visible entry then some entry.tool else none

  unfoldable pub get : Text → ToolRegistry P A R → Option (Tool P A R)
  get name r = tool_if_visible (lookup name r.tools)

  abbrev pub run : Bool → A → Tool P A R → Option (A → R) → R
  run has_callback a tool none = tool.execute a
  run has_callback a tool (some f) = if has_callback then f a else tool.execute a

  abbrev pub run_found : (Text → R) → Text → Bool → A → Option (Tool P A R) → R
  run_found not_found name has_callback a none = not_found name
  run_found not_found name has_callback a (some tool) = run has_callback a tool tool.execute_async

  -- `not_found`: the error result of that name; `has_callback`: whether the caller gives one.
  unfoldable pub execute_with_context : (Text → R) → Text → Bool → A → ToolRegistry P A R → R
  unfolding get
  execute_with_context not_found name has_callback a r =
      run_found not_found name has_callback a (get name r)

  unfoldable pub names_of : Dict (ToolEntry P A R) → List Text
  names_of [] = []
  names_of ((name, entry) ∷ tools) = name ∷ names_of tools

  unfoldable pub sorted_tool_names : ToolRegistry P A R → List Text
  unfolding names_of sort_strings
  sorted_tool_names r = sort_strings (names_of r.tools)

  -- The loops of GetDefinitions, ToProviderDefs and GetSummaries: the tools that they show.
  unfoldable pub visible_tools : ToolRegistry P A R → List Text → List (Tool P A R)
  unfolding get
  visible_tools r [] = []
  visible_tools r (name ∷ names) =
      let rest = visible_tools r names in
      elim (get name r) [ none ↦ rest | some tool ↦ tool ∷ rest ]

  -- ToolToSchema, and what ToProviderDefs reads back from it.
  abbrev pub tool_to_schema : Tool P A R → ToolDefinition P
  tool_to_schema tool = record {
    name = tool.name;
    description = tool.description;
    parameters = tool.parameters;
  }

  unfoldable pub schemas : List (Tool P A R) → List (ToolDefinition P)
  schemas [] = []
  schemas (tool ∷ tools) = tool_to_schema tool ∷ schemas tools

  unfoldable pub to_provider_defs : ToolRegistry P A R → List (ToolDefinition P)
  unfolding visible_tools schemas sorted_tool_names
  to_provider_defs r = schemas (visible_tools r (sorted_tool_names r))

  abbrev pub list : ToolRegistry P A R → List Text
  list = sorted_tool_names

  abbrev pub count : ToolRegistry P A R → ℕ
  count r = length r.tools
