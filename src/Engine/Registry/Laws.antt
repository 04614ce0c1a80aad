-- ===== src/Engine/Registry/Laws.antt =====
-- A registry of internal/engine/registry.go after any registrations, and what its scope selects.
use agent_util.Common.{
  ◌≡◌, refl, sym, ap, ◌∙◌, Bool, true, false, not, ◌&&◌, ◌||◌, none, some, List, [], ◌∷◌, ◌++◌,
  arith, append_assoc, Text, text_eq, text_eq_iff, Map, lookup, insert, text_key, Bool-cases, inl,
  inr, map, append-nil,
}
use agent_util.Engine.Registry.{
  Tool, Registry, new_registry, register, register_all, register_each, registered_or, tools_of,
  registered_tools,
}

abbrev member : Text → List Text → Bool
member x [] = false
member x (y ∷ ys) = text_eq y x || member x ys

abbrev distinct : List Text → Bool
distinct [] = true
distinct (x ∷ xs) = not (member x xs) && distinct xs

member-append : (x : Text) (xs ys : List Text) → member x (xs ++ ys) ≡ (member x xs || member x ys)
member-append x [] ys = refl
member-append x (y ∷ xs) ys = ground (arith, member-append x xs ys)

distinct-snoc :
    (xs : List Text) (y : Text)
    → distinct xs ≡ true
    → member y xs ≡ false
    → distinct (xs ++ (y ∷ [])) ≡ true
distinct-snoc [] y d m = refl
distinct-snoc (x ∷ xs) y d m =
    ground
      (arith, distinct-snoc xs y, member-append x xs (y ∷ []), text_eq_iff x y, text_eq_iff y x)

distinct-middle :
    (xs : List Text) (y : Text) (ys : List Text)
    → distinct (xs ++ (y ∷ ys)) ≡ true
    → member y xs ≡ false
distinct-middle [] y ys d = refl
distinct-middle (x ∷ xs) y ys d =
    ground (
      arith,
      distinct-middle xs y ys,
      member-append x xs (y ∷ ys),
      text_eq_iff x y,
      text_eq_iff y x,
    )

module _ {W : Type 0} where
  abbrev names : List (Tool W) → List Text
  names ts = map (λ (t : Tool W). t.name) ts

  abbrev by_name : List (Tool W) → Map Text (Tool W)
  by_name ts = map (λ (t : Tool W). (t.name, t)) ts

  -- the registry that holds these tools, in this order
  abbrev registry_of : List (Tool W) → Registry W
  registry_of ts = record { tools = by_name ts; order = names ts }

  abbrev IsWellFormed : Registry W → Type 0
  IsWellFormed r = (ts : List (Tool W)) × (r ≡ registry_of ts) × (distinct (names ts) ≡ true)

  lookup-by_name :
      (name : Text) (ts : List (Tool W))
      → member name (names ts) ≡ false
      → lookup name (by_name ts) ≡ none
  unfolding lookup
  lookup-by_name name [] h = refl
  lookup-by_name name (t ∷ ts) h = ground (arith, lookup-by_name name ts)

  lookup-known :
      (name : Text) (ts : List (Tool W))
      → member name (names ts) ≡ true
      → (t : Tool W) × (lookup name (by_name ts) ≡ some t)
  unfolding lookup
  lookup-known name [] h = cc
  lookup-known name (t ∷ ts) h = elim (Bool-cases (text_eq t.name name)) [
    | inl same ↦ (t, rw same)
    | inr other ↦
        let found = lookup-known name ts (ground (arith, h, other)) in
        (found.0, rw (other, found.1))
  ]

  insert-by_name :
      (t : Tool W) (ts : List (Tool W))
      → member t.name (names ts) ≡ false
      → insert t.name t (by_name ts) ≡ by_name (ts ++ (t ∷ []))
  unfolding insert
  insert-by_name t [] h = refl
  insert-by_name t (x ∷ ts) h = ground (arith, insert-by_name t ts)

  names-append : (ts us : List (Tool W)) → names (ts ++ us) ≡ names ts ++ names us
  names-append [] us = refl
  names-append (t ∷ ts) us = ap (λ l. t.name ∷ l) (names-append ts us)

  register_new :
      (t : Tool W) (ts : List (Tool W))
      → member t.name (names ts) ≡ false
      → register t (registry_of ts) ≡ some (registry_of (ts ++ (t ∷ [])))
  unfolding register
  register_new t ts h =
      rw (lookup-by_name t.name ts h, insert-by_name t ts h, names-append ts (t ∷ []))

  register_known :
      (t : Tool W) (ts : List (Tool W))
      → member t.name (names ts) ≡ true
      → register t (registry_of ts) ≡ none
  unfolding register
  register_known t ts h = rw (lookup-known t.name ts h).1

  register-IsWellFormed :
      (t : Tool W) (r : Registry W) → IsWellFormed r → IsWellFormed (registered_or r (register t r))
  register-IsWellFormed t r (ts, e, d) = elim (Bool-cases (member t.name (names ts))) [
    | inl known ↦ rw (e, register_known t ts known) (ts, refl, d)
    | inr new ↦
        rw (e, register_new t ts new)
          (
            ts ++ (t ∷ []),
            refl,
            rw (names-append ts (t ∷ [])) (distinct-snoc (names ts) t.name d new),
          )
  ]

  register_each-IsWellFormed :
      (ts : List (Tool W)) (r : Registry W) → IsWellFormed r → IsWellFormed (register_each ts r)
  unfolding register_each
  register_each-IsWellFormed [] r h = h
  register_each-IsWellFormed (t ∷ ts) r h =
      register_each-IsWellFormed ts (registered_or r (register t r)) (register-IsWellFormed t r h)

  tools_of-cons :
      (t : Tool W) (names' : List Text) (m : Map Text (Tool W))
      → member t.name names' ≡ false
      → tools_of names' ((t.name, t) ∷ m) ≡ tools_of names' m
  unfolding tools_of lookup
  tools_of-cons t [] m h = refl
  tools_of-cons t (n ∷ ns) m h =
      ground (arith, tools_of-cons t ns m, text_eq_iff t.name n, text_eq_iff n t.name)

  tools_of-by_name :
      (ts : List (Tool W)) → distinct (names ts) ≡ true → tools_of (names ts) (by_name ts) ≡ ts
  unfolding tools_of lookup
  tools_of-by_name [] d = refl
  tools_of-by_name (t ∷ ts) d = ground (
    arith,
    tools_of-by_name ts,
    tools_of-cons t (names ts) (by_name ts),
    text_eq_iff t.name t.name,
  )

  register_all-registry_of :
      (us ts : List (Tool W))
      → distinct (names (ts ++ us)) ≡ true
      → register_all us (registry_of ts) ≡ some (registry_of (ts ++ us))
  unfolding register_all
  register_all-registry_of [] ts d = rw (append-nil ts)
  register_all-registry_of (u ∷ us) ts d =
      let new =
        distinct-middle (names ts) u.name (names us) (rw (sym (names-append ts (u ∷ us))) d) in
      rw (register_new u ts new) (
        register_all-registry_of us (ts ++ (u ∷ [])) (rw (append_assoc ts (u ∷ []) us) d)
        ∙ rw (append_assoc ts (u ∷ []) us))

  -- The tools of a registry that any registrations filled, refused ones included, can all be
  -- registered in a new registry, and this gives the same registry again.
  pub register_all-registered_tools :
      (ts : List (Tool W))
      → register_all (registered_tools (register_each ts new_registry)) new_registry
        ≡ some (register_each ts new_registry)
  unfolding registered_tools
  register_all-registered_tools ts =
      let (us, e, d) = register_each-IsWellFormed ts new_registry ([], refl, refl) in
      rw (e, tools_of-by_name us d) (register_all-registry_of us [] d)
