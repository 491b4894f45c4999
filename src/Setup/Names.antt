-- ===== src/Setup/Names.antt =====
-- The table of the names of the nodes.
use mathlib.Core.Path.{subst}
use mathlib.Core.Option.{some-injective}
use event_sequence_transform.Prelude.{
  none-some, ℕ, suc, ◌+◌, ◌≡◌, Option, none, some, List, [], ◌∷◌, refl, sym, ap, ◌∙◌, Option-cases,
  inl, inr, get_elem?, arith,
}
use event_sequence_transform.Prelude.Int.{ℤ, pos, negsuc, pos_part}
use event_sequence_transform.HashTable.{HashTableKey, hash_table_key_from_bytes}
use event_sequence_transform.Config.{Text, Registry, GraphNodeConfig}
use event_sequence_transform.Config.Laws.{RegistryLaws}
use event_sequence_transform.Graph.{Graph}
use event_sequence_transform.Setup.{
  name_node, build_nodes, end_node, lookup_graph_node_specification,
}

module _ {S T : Type 0} (reg : Registry T) (laws : RegistryLaws reg)
    (node_new : ℤ → GraphNodeConfig S → Graph → Option Graph) where
  -- The node at the index, of all nodes, has the name.
  abbrev pub HasName : List (GraphNodeConfig S) → Text → ℕ → Type 0
  HasName nodes name i =
      (item : GraphNodeConfig S) × (get_elem? nodes i ≡ some item) × (item.name ≡ some name)

  abbrev Right : List (GraphNodeConfig S) → HashTableKey → ℤ → Type 0
  Right nodes key v =
      (name : Text)
      → key ≡ hash_table_key_from_bytes (some name)
      → (i : ℕ) × (v ≡ pos i) × HasName nodes name i

  here :
      (i : ℕ) (item : GraphNodeConfig S) (items nodes : List (GraphNodeConfig S))
      → ((k : ℕ) → get_elem? (item ∷ items) k ≡ get_elem? nodes (i + k))
      → get_elem? nodes i ≡ some item
  here i item items nodes rest =
      let e : i ≡ i + 0 = omega arith in ap (get_elem? nodes) e ∙ sym (rest 0)

  shifted :
      (i : ℕ) (item : GraphNodeConfig S) (items nodes : List (GraphNodeConfig S))
      → ((k : ℕ) → get_elem? (item ∷ items) k ≡ get_elem? nodes (i + k))
      → (k : ℕ) → get_elem? items k ≡ get_elem? nodes (i + 1 + k)
  shifted i item items nodes rest k =
      let e : i + suc k ≡ i + 1 + k = omega arith in rest (suc k) ∙ ap (get_elem? nodes) e

  name_node-Right :
      (nodes : List (GraphNodeConfig S)) (item : GraphNodeConfig S) (i : ℕ) (named : T)
      → get_elem? nodes i ≡ some item
      → laws.Holds (Right nodes) named
      → (o : Option Text) → item.name ≡ o
      → laws.Holds (Right nodes) (name_node reg node_new o i named)
  unfolding hash_table_key_from_bytes
  name_node-Right nodes item i named at_i holds none unnamed = holds
  name_node-Right nodes item i named at_i holds (some name) is_named =
      laws.holds_insert (Right nodes) named (some name) (pos i)
        (λ other same.
          let e : some name ≡ some other = ap (λ (k : HashTableKey). k.bytes) same in
          (i, refl, ((item, at_i, is_named ∙ e))))
        holds

  build_nodes-Right :
      (registry : T) (nodes items : List (GraphNodeConfig S)) (i : ℕ) (named named' : T)
      (g g' : Graph)
      → ((k : ℕ) → get_elem? items k ≡ get_elem? nodes (i + k))
      → laws.Holds (Right nodes) named
      → build_nodes reg node_new registry i items named g ≡ some (named', g')
      → laws.Holds (Right nodes) named'
  unfolding build_nodes
  build_nodes-Right registry nodes [] i named named' g g' rest holds e =
      subst (laws.Holds (Right nodes)) (ap (λ r. r.0) (some-injective _ _ e)) holds
  build_nodes-Right registry nodes (item ∷ items) i named named' g g' rest holds e =
      elim (Option-cases item.type) [
        | inl untyped ↦ absurd (none-some (rw (untyped, build_nodes) at e))
        | inr (type_name, typed) ↦
            elim (Option-cases (lookup_graph_node_specification reg type_name (some registry)).0) [
              | inl unknown ↦ absurd (none-some (rw (typed, build_nodes, unknown) at e))
              | inr (spec, known) ↦ elim (Option-cases (node_new spec item g)) [
                | inl failed ↦ absurd (none-some (rw (typed, build_nodes, known, failed) at e))
                | inr (next, made) ↦
                    build_nodes-Right registry nodes items (i + 1)
                      (name_node reg node_new item.name i named) named' next g'
                      (shifted i item items nodes rest)
                      (name_node-Right nodes item i named (here i item items nodes rest) holds
                        item.name refl)
                      (rw (typed, build_nodes, known, made) at e)
              ]
            ]
      ]

  -- When the nodes of the configuration are built, with a table of names that keeps what is put into it,
  -- the node that is found for the end of a channel has the name that the end gives.
  pub end_node-HasName :
      (registry named : T) (nodes : List (GraphNodeConfig S)) (g g' : Graph) (name : Text)
      (index i : ℕ)
      → build_nodes reg node_new registry 0 nodes reg.init g ≡ some (named, g')
      → end_node reg node_new named (record { name = some name; index = index }) ≡ some i
      → HasName nodes name i
  unfolding end_node
  end_node-HasName registry named nodes g g' name index i built there =
      let holds =
        build_nodes-Right registry nodes nodes 0 reg.init named g g'
          (λ k. let e : k ≡ 0 + k = omega arith in ap (get_elem? nodes) e) (laws.holds_init _)
          built in
      elim (Option-cases (reg.find named (hash_table_key_from_bytes (some name)))) [
        | inl unknown ↦ absurd (none-some (rw (unknown, end_node) at there))
        | inr (pos j, known) ↦
            let same = some-injective _ _ (rw (known, end_node) at there) in
            let (k, at_k, has) =
              laws.holds_find (Right nodes) named (some name) (pos j) holds known name refl in
            subst (HasName nodes name) (sym (ap pos_part at_k) ∙ same) has
        | inr (negsuc n, known) ↦ absurd (none-some (rw (known, end_node) at there))
      ]
