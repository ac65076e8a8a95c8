-- ===== src/Tools/Registry/Offers.antt =====
-- What pkg/tools/registry.go offers to the model, and what it executes.
use nook_claw.Prelude.{
  ◌≡◌, refl, ◌∙◌, ap, ◌⊎◌, inl, inr, Bool, true, false, ◌&&◌, ◌||◌, Option, none, some, List, [],
  ◌∷◌, arith,
}
use nook_claw.Prelude.Text.{Text, text_eq, text_eq_iff}
use nook_claw.Prelude.Dict.{Dict, lookup}
use nook_claw.Tools.Registry.{
  Tool, ToolEntry, ToolRegistry, insert_sorted, sort_strings, get, names_of, sorted_tool_names,
  visible_tools, ToolDefinition, schemas, to_provider_defs, run, run_found, execute_with_context,
}
use nook_claw.Tools.Registry.Promotion.{is_named}
use nook_claw.Tools.Registry.Names.{IsNamed, Reachable, Reachable-IsMap}

named-insert_sorted :
    (k s : Text) (ts : List Text) → is_named k (insert_sorted s ts) ≡ text_eq s k || is_named k ts
unfolding insert_sorted
named-insert_sorted k s [] = refl
named-insert_sorted k s (t ∷ ts) = ground (arith, named-insert_sorted k s ts)

pub named-sort : (k : Text) (ts : List Text) → is_named k (sort_strings ts) ≡ is_named k ts
unfolding sort_strings
named-sort k [] = refl
named-sort k (t ∷ ts) = ground (arith, named-insert_sorted k t (sort_strings ts), named-sort k ts)

abbrev pub is_some {ℓ} : {A : Type ℓ} → Option A → Bool
is_some none = false
is_some (some x) = true

module _ {P : Type 0} where
  -- A definition with this name is among them.
  abbrev pub is_offered : Text → List (ToolDefinition P) → Bool
  is_offered k [] = false
  is_offered k (d ∷ ds) = text_eq d.name k || is_offered k ds

module _ {P A R : Type 0} where
  pub named-names_of :
      (k : Text) (m : Dict (ToolEntry P A R)) → is_named k (names_of m) ≡ is_some (lookup k m)
  unfolding names_of lookup
  named-names_of k [] = refl
  named-names_of k ((name, entry) ∷ m) = ground (arith, named-names_of k m)

  get-called :
      (k : Text) (r : ToolRegistry P A R) (tool : Tool P A R)
      → IsNamed r.tools
      → get k r ≡ some tool
      → text_eq tool.name k ≡ true
  unfolding get
  get-called k r tool h e = ground (arith, h k)

  get-registered :
      (k : Text) (r : ToolRegistry P A R)
      → is_some (lookup k r.tools) && is_some (get k r) ≡ is_some (get k r)
  unfolding get
  get-registered k r = ground arith

  offered-one :
      (k name : Text) (r : ToolRegistry P A R) (names : List Text) (o : Option (Tool P A R))
      → IsNamed r.tools
      → get name r ≡ o
      → is_offered k (schemas (visible_tools r (name ∷ names)))
        ≡ (text_eq name k && is_some (get k r)) || is_offered k (schemas (visible_tools r names))
  unfolding visible_tools schemas
  offered-one k name r names none h e = ground (arith, e, text_eq_iff name k)
  offered-one k name r names (some tool) h e = ground (
    arith,
    e,
    text_eq_iff name k,
    text_eq_iff tool.name k,
    text_eq_iff tool.name name,
    get-called name r tool h e,
  )

  offered-visible :
      (k : Text) (r : ToolRegistry P A R) (names : List Text)
      → IsNamed r.tools
      → is_offered k (schemas (visible_tools r names)) ≡ is_named k names && is_some (get k r)
  unfolding visible_tools schemas
  offered-visible k r [] h = refl
  offered-visible k r (name ∷ names) h =
      ground (arith, offered-one k name r names (get name r) h refl, offered-visible k r names h)

  -- The call is of a tool that the registry has under this name: with the caller's callback where the
  -- tool takes one and the caller gives one, and by its plain method otherwise.
  abbrev pub IsRun : Text → ToolRegistry P A R → Bool → A → R → Type 0
  IsRun k r has_callback a answer =
      (tool : Tool P A R) × (get k r ≡ some tool)
      × (text_eq tool.name k ≡ true)
      × (((f : A → R) × (tool.execute_async ≡ some f) × (has_callback ≡ true) × (answer ≡ f a))
          ⊎ (((tool.execute_async ≡ none) ⊎ (has_callback ≡ false)) × (answer ≡ tool.execute a)))

  ran :
      (has_callback : Bool) (a : A) (tool : Tool P A R) (async : Option (A → R))
      → ((f : A → R) × (async ≡ some f)
          × (has_callback ≡ true)
          × (run has_callback a tool async ≡ f a))
        ⊎ (((async ≡ none) ⊎ (has_callback ≡ false))
            × (run has_callback a tool async ≡ tool.execute a))
  ran has_callback a tool none = inr (inl refl, refl)
  ran true a tool (some f) = inl (f, refl, refl, refl)
  ran false a tool (some f) = inr (inr refl, refl)

  answered :
      (k : Text) (r : ToolRegistry P A R) (not_found : Text → R) (has_callback : Bool) (a : A)
      (o : Option (Tool P A R))
      → IsNamed r.tools
      → get k r ≡ o
      → ((is_some o ≡ false) × (run_found not_found k has_callback a o ≡ not_found k))
        ⊎ ((is_some o ≡ true) × IsRun k r has_callback a (run_found not_found k has_callback a o))
  answered k r not_found has_callback a none h e = inl (refl, refl)
  answered k r not_found has_callback a (some tool) h e =
      inr (refl, (tool, e, get-called k r tool h e, ran has_callback a tool tool.execute_async))

  -- In every state that registrations, promotions and ticks lead to, the model is offered a tool of
  -- a name just where Get of that name finds one. Where it is offered, Execute of the name runs that
  -- tool, which has this name: with the caller's callback if the tool takes one and the caller gives
  -- one, by its plain method otherwise. Where it is not, Execute answers with the error for a
  -- missing tool.
  pub offered-get :
      (k : Text) (r : ToolRegistry P A R) (not_found : Text → R) (has_callback : Bool) (a : A)
      → Reachable r
      → let offered = is_offered k (to_provider_defs r) in
        let answer = execute_with_context not_found k has_callback a r in
        (offered ≡ is_some (get k r))
        × (((offered ≡ false) × (answer ≡ not_found k))
            ⊎ ((offered ≡ true) × IsRun k r has_callback a answer))
  unfolding to_provider_defs sorted_tool_names execute_with_context
  offered-get k r not_found has_callback a h =
      let named = (Reachable-IsMap r h).1 in
      let e : is_offered k (to_provider_defs r) ≡ is_some (get k r) =
        offered-visible k r (sort_strings (names_of r.tools)) named
        ∙ ap (λ b. b && is_some (get k r))
            (named-sort k (names_of r.tools) ∙ named-names_of k r.tools)
        ∙ get-registered k r in
      (
        e,
        elim (answered k r not_found has_callback a (get k r) named refl) [
          | inl (n, same) ↦ inl (e ∙ n, same)
          | inr (n, same) ↦ inr (e ∙ n, same)
        ],
      )
