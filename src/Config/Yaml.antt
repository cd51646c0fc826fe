-- ===== src/Config/Yaml.antt =====
-- What the program uses of yaml-cpp: a node once it is read, and the library's reader and writer as
-- parameters.
use sylar_leo.Base.{◌≡◌, refl, ap, Option, none, some, List, [], ◌∷◌, if◌then◌else◌}
use sylar_leo.Base.Text.{Text, text_eq}

-- The keys of a map are kept as the text that `Scalar` gives.
mutual
  pub data Node : Type 0 where
    null_node : Node
    scalar : Text → Node
    sequence : Items → Node
    mapping : Fields → Node

  pub data Items : Type 0 where
    nil : Items
    cons : Node → Items → Items

  pub data Fields : Type 0 where
    end : Fields
    field : Text → Node → Fields → Fields

abbrev pub items : Items → List Node
items nil = []
items (cons n more) = n ∷ items more

abbrev pub fields : Fields → List (Text × Node)
fields end = []
fields (field k n more) = (k, n) ∷ fields more

abbrev pub of_items : List Node → Items
of_items [] = nil
of_items (n ∷ ns) = cons n (of_items ns)

abbrev pub of_fields : List (Text × Node) → Fields
of_fields [] = end
of_fields ((k, n) ∷ kns) = field k n (of_fields kns)

pub record Yaml : Type 0 where
  -- `YAML::Load`, `none` where it throws, and `operator<<`.
  pub load : Text → Option Node
  pub dump : Node → Text
  -- What `operator<<` writes for `node[0]`, `node[1]` and so on of a map, for each number below its size.
  pub numbered : Fields → List Text

-- `node[key]`, `none` where it is not defined.
abbrev pub get_in : Text → List (Text × Node) → Option Node
get_in key [] = none
get_in key ((k, n) ∷ kns) = if text_eq k key then some n else get_in key kns

unfoldable pub get_key : Text → Node → Option Node
get_key key null_node = none
get_key key (scalar s) = none
get_key key (sequence ns) = none
get_key key (mapping kns) = get_in key (fields kns)

pub items-of_items : (ns : List Node) → items (of_items ns) ≡ ns
items-of_items [] = refl
items-of_items (n ∷ ns) = ap (λ l. n ∷ l) (items-of_items ns)

pub fields-of_fields : (kns : List (Text × Node)) → fields (of_fields kns) ≡ kns
fields-of_fields [] = refl
fields-of_fields ((k, n) ∷ kns) = ap (λ l. (k, n) ∷ l) (fields-of_fields kns)
