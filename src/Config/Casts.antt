-- ===== src/Config/Casts.antt =====
-- sylar/config.h: the conversions between YAML text and containers, over those of the elements. A vector
-- and a list are lists, a set is what `insert` makes of one, and maps are lists of pairs. The conversions
-- give `none` where the code throws.
use sylar_leo.Base.{◌≡◌, refl, ap, ◌∙◌, Option, none, some, List, [], ◌∷◌, ◌++◌, map, All}
use sylar_leo.Base.Text.{Text}
use sylar_leo.Base.Assoc.{find}
use sylar_leo.Config.Yaml.{
  Node, null_node, scalar, sequence, mapping, Yaml, items, fields, of_items, of_fields,
  items-of_items,
}

-- The texts of `node[0]`, `node[1]` and so on, below the size of the node.
unfoldable pub element_texts : Yaml → Node → List Text
element_texts yaml null_node = []
element_texts yaml (scalar s) = []
element_texts yaml (sequence ns) = map yaml.dump (items ns)
element_texts yaml (mapping kns) = yaml.numbered kns

-- The keys and the texts of the values of a map.
unfoldable pub field_texts : Yaml → Node → List (Text × Text)
field_texts yaml null_node = []
field_texts yaml (scalar s) = []
field_texts yaml (sequence ns) = []
field_texts yaml (mapping kns) = map (λ kn. (kn.0, yaml.dump kn.1)) (fields kns)

abbrev pub cons_some {ℓ} : {A : Type ℓ} → Option A → Option (List A) → Option (List A)
cons_some none xs = none
cons_some (some x) none = none
cons_some (some x) (some xs) = some (x ∷ xs)

abbrev pub read_texts {ℓ} : {A : Type ℓ} → (read : Text → Option A) → List Text → Option (List A)
read_texts read [] = some []
read_texts read (s ∷ ss) = cons_some (read s) (read_texts read ss)

abbrev pub read_node {ℓ} :
    {A : Type ℓ} → Yaml → (read : Text → Option A) → Option Node → Option (List A)
read_node yaml read none = none
read_node yaml read (some n) = read_texts read (element_texts yaml n)

-- `LexicalCast<std::string, std::vector<T>>`, and the one of `std::list<T>`.
unfoldable pub read_vector {ℓ} :
    {A : Type ℓ} → Yaml → (read : Text → Option A) → Text → Option (List A)
unfolding element_texts
read_vector yaml read v = read_node yaml read (yaml.load v)

abbrev pub load_texts : Yaml → List Text → Option (List Node)
load_texts yaml [] = some []
load_texts yaml (s ∷ ss) = cons_some (yaml.load s) (load_texts yaml ss)

abbrev pub dump_items : Yaml → Option (List Node) → Option Text
dump_items yaml none = none
dump_items yaml (some ns) = some (yaml.dump (sequence (of_items ns)))

-- `LexicalCast<std::vector<T>, std::string>`, and those of `std::list<T>` and the two sets, over the
-- elements in their order.
unfoldable pub write_vector {ℓ} : {A : Type ℓ} → Yaml → (write : A → Text) → List A → Option Text
write_vector yaml write v = dump_items yaml (load_texts yaml (map write v))

abbrev pub insert_each {ℓ κ} : {A : Type ℓ} {C : Type κ} → (insert : A → C → C) → List A → C → C
insert_each insert [] c = c
insert_each insert (x ∷ xs) c = insert_each insert xs (insert x c)

abbrev pub insert_read {ℓ κ} :
    {A : Type ℓ} {C : Type κ} → (insert : A → C → C) → C → Option (List A) → Option C
insert_read insert c none = none
insert_read insert c (some xs) = some (insert_each insert xs c)

-- `LexicalCast<std::string, std::set<T>>`, and the one of `std::unordered_set<T>`.
unfoldable pub read_set {ℓ κ} :
    {A : Type ℓ} {C : Type κ}
    → Yaml
    → (read : Text → Option A) → (insert : A → C → C) → (empty_set : C) → Text
    → Option C
unfolding read_vector
read_set yaml read insert empty_set v = insert_read insert empty_set (read_vector yaml read v)

-- `insert` of a pair keeps the pair that is there.
abbrev pub insert_pair {ℓ} : {A : Type ℓ} → Text → A → List (Text × A) → List (Text × A)
insert_pair key a kas = elim (find key kas) [ some old ↦ kas | none ↦ kas ++ (key, a) ∷ [] ]

abbrev pub insert_field {ℓ} :
    {A : Type ℓ} → Text → Option A → Option (List (Text × A)) → Option (List (Text × A))
insert_field key none kas = none
insert_field key (some a) none = none
insert_field key (some a) (some kas) = some (insert_pair key a kas)

abbrev pub read_fields {ℓ} :
    {A : Type ℓ}
    → (read : Text → Option A) → List (Text × Text)
    → Option (List (Text × A))
    → Option (List (Text × A))
read_fields read [] kas = kas
read_fields read ((key, s) ∷ kss) kas = read_fields read kss (insert_field key (read s) kas)

abbrev pub read_mapping {ℓ} :
    {A : Type ℓ} → Yaml → (read : Text → Option A) → Option Node → Option (List (Text × A))
read_mapping yaml read none = none
read_mapping yaml read (some n) = read_fields read (field_texts yaml n) (some [])

-- `LexicalCast<std::string, std::map<std::string, T>>`, and the one of `std::unordered_map`.
unfoldable pub read_map {ℓ} :
    {A : Type ℓ} → Yaml → (read : Text → Option A) → Text → Option (List (Text × A))
unfolding field_texts
read_map yaml read v = read_mapping yaml read (yaml.load v)

abbrev pub load_fields {ℓ} :
    {A : Type ℓ} → Yaml → (write : A → Text) → List (Text × A) → Option (List (Text × Node))
load_fields yaml write [] = some []
load_fields yaml write ((key, a) ∷ kas) =
    let rest = load_fields yaml write kas in
    elim (yaml.load (write a)) [ none ↦ none | some n ↦ cons_some (some (key, n)) rest ]

-- `LexicalCast<std::map<std::string, T>, std::string>`, and the one of `std::unordered_map`, over the
-- pairs in their order. The keys of a map differ, so that `node[key] =` adds a field.
unfoldable pub write_map {ℓ} :
    {A : Type ℓ} → Yaml → (write : A → Text) → List (Text × A) → Option Text
write_map yaml write kas = elim (load_fields yaml write kas) [
  | none ↦ none
  | some kns ↦ some (yaml.dump (mapping (of_fields kns)))
]

-- A node as which the text of an element is read.
abbrev pub IsElement {ℓ} : {A : Type ℓ} → Yaml → (write : A → Text) → Node → Type ℓ
IsElement {A = A} yaml write n = (a : A) × (yaml.load (write a) ≡ some n)

-- What the conversions need of yaml-cpp and of the elements: the library reads back a sequence of the
-- elements' nodes that it wrote, and the text of such a node is read as the element.
pub record RoundTrips {ℓ} {A : Type ℓ} (yaml : Yaml) (read : Text → Option A) (write : A → Text)
    : Type ℓ where
  pub load-dump :
      (ns : List Node)
      → All (IsElement yaml write) ns
      → yaml.load (yaml.dump (sequence (of_items ns))) ≡ some (sequence (of_items ns))
  pub element :
      (a : A) → (n : Node) × ((yaml.load (write a) ≡ some n) × (read (yaml.dump n) ≡ some a))

-- The nodes of the elements of a vector, and that they are read as those.
nodes_of {ℓ} :
    {A : Type ℓ} (yaml : Yaml) (read : Text → Option A) (write : A → Text)
    → RoundTrips yaml read write
    → (v : List A)
    → (ns : List Node) × ((load_texts yaml (map write v) ≡ some ns)
        × ((read_texts read (map yaml.dump ns) ≡ some v) × All (IsElement yaml write) ns))
nodes_of yaml read write h [] = ([], (refl, (refl, tt)))
nodes_of yaml read write h (a ∷ v) =
    let (n, (loads, reads)) = h.element a in
    let (ns, (loads', (reads', all))) = nodes_of yaml read write h v in
    (n ∷ ns, (rw (loads, loads') refl, (rw (reads, reads') refl, ((a, loads), all))))

-- Where yaml-cpp reads back a sequence of the elements' nodes that it wrote, and the elements survive
-- their own conversions: a vector or a list of any elements is read back from the text that it is
-- written as.
pub read_vector-write_vector {ℓ} :
    {A : Type ℓ} (yaml : Yaml) (read : Text → Option A) (write : A → Text)
    → RoundTrips yaml read write
    → (v : List A)
    → (s : Text) × ((write_vector yaml write v ≡ some s) × (read_vector yaml read s ≡ some v))
unfolding write_vector read_vector element_texts
read_vector-write_vector yaml read write h v =
    let (ns, (loads, (reads, all))) = nodes_of yaml read write h v in
    (
      yaml.dump (sequence (of_items ns)),
      (
        ap (dump_items yaml) loads,
        ap (read_node yaml read) (h.load-dump ns all)
            ∙ ap (λ l. read_texts read (map yaml.dump l)) (items-of_items ns)
            ∙ reads,
      ),
    )
