-- ===== src/Config/Examples.antt =====
-- A registry with two variables that hold text, a configuration file for one of them, and a small
-- writer of sequences of numbers.
use sylar_leo.Base.{
  ℕ, zero, suc, ◌≡◌, refl, ap, subst, Option, none, some, List, [], ◌∷◌, ◌++◌, All, sym, ◌∙◌,
  Bool-cases, inl, inr, arith,
}
use sylar_leo.Base.Text.{Text, codes, text_eq}
use sylar_leo.Base.Assoc.{find}
use sylar_leo.Config.{ConfigVar, ConfigVarMap, Callback, notify, list_all_member, load_from_yaml}
use sylar_leo.Config.Yaml.{
  Node, Items, Yaml, null_node, scalar, sequence, mapping, field, end, nil, cons, of_items,
}
use sylar_leo.Config.Loading.{AllReturn, texts_of, read_found, load_from_yaml_lem}
use sylar_leo.Config.Changes.{note}
use sylar_leo.Config.Casts.{RoundTrips, IsElement}

abbrev from_str : ℕ → Text → Option Text
from_str type s = some s

abbrev port : ConfigVar Text ℕ
port = record { name = codes "system.port"; description = []; type = 0; val = codes "80"; cbs = [] }

abbrev registry : ConfigVarMap Text ℕ
registry =
    (codes "system.port", port)
    ∷ (codes "system.name", record port { name = codes "system.name" })
    ∷ []

abbrev file : Node
file = mapping (
    field (codes "system")
      (mapping (
        field (codes "port") (scalar (codes "8080"))
          (field (codes "Name") (scalar (codes "x")) end)))
      end)

abbrev no_dump : Node → Text
no_dump n = []

abbrev cbs_or_none : Option (ConfigVar Text ℕ) → List (ℕ × Callback Text ℕ)
cbs_or_none none = []
cbs_or_none (some var) = var.cbs

-- Variables without callbacks.
silent-AllReturn :
    (m : ConfigVarMap Text ℕ) → All (λ e. e.1.cbs ≡ []) m → AllReturn text_eq from_str m
unfolding AllReturn
silent-AllReturn [] h u var e = absurd (ground (arith, e))
silent-AllReturn ((name, x) ∷ m) h u var e = elim (Bool-cases (text_eq name u)) [
  | inl here ↦
      let same : some x ≡ some var = rw here at e in
      λ old_value new_value w.
        (w, ap (λ cbs. notify cbs old_value new_value w) (ap (cbs_or_none) (sym same) ∙ h.0))
  | inr there ↦ silent-AllReturn m h.1 u var (rw there at e)
]

load_from_yaml_lem_example :
    find (codes "system.port") (load_from_yaml text_eq from_str no_dump file (registry, 0)).0
    ≡ read_found {W = ℕ} text_eq from_str
        (texts_of no_dump (codes "system.port") (list_all_member [] file))
        (find (codes "system.port") registry)
load_from_yaml_lem_example =
    load_from_yaml_lem text_eq from_str no_dump file (codes "system.port") registry 0
      (silent-AllReturn registry (refl, (refl, tt)))

abbrev heard : ConfigVar Text (List (Text × Text))
heard = record {
  name = codes "system.port";
  description = [];
  type = 0;
  val = codes "80";
  cbs = (1, note text_eq) ∷ [];
}

-- Text that begins with 0 is a scalar, text that begins with 1 a sequence of scalars of one character.
abbrev ones : Text → List Node
ones [] = []
ones (c ∷ s) = scalar (c ∷ []) ∷ ones s

abbrev load : Text → Option Node
load [] = none
load (zero ∷ s) = some (scalar s)
load (suc zero ∷ s) = some (sequence (of_items (ones s)))
load (suc (suc n) ∷ s) = none

abbrev inner : Node → Text
inner null_node = []
inner (scalar s) = s
inner (sequence ns) = []
inner (mapping kns) = []

abbrev inners : Items → Text
inners nil = []
inners (cons n ns) = inner n ++ inners ns

abbrev dump : Node → Text
dump null_node = []
dump (scalar s) = 0 ∷ s
dump (sequence ns) = 1 ∷ inners ns
dump (mapping kns) = []

abbrev yaml : Yaml
yaml = record { load = load; dump = dump; numbered = λ kns. [] }

abbrev read_number : Text → Option ℕ
read_number [] = none
read_number (n ∷ []) = none
read_number (zero ∷ a ∷ []) = some a
read_number (suc n ∷ a ∷ []) = none
read_number (n ∷ a ∷ b ∷ s) = none

abbrev write_number : ℕ → Text
write_number a = 0 ∷ a ∷ []

abbrev or_null : Option Node → Node
or_null none = null_node
or_null (some n) = n

ones-inners :
    (ns : List Node) → All (IsElement yaml write_number) ns → ones (inners (of_items ns)) ≡ ns
ones-inners [] h = refl
ones-inners (n ∷ ns) ((a, e), h) =
    subst (λ x. ones (inner x ++ inners (of_items ns)) ≡ x ∷ ns) (ap or_null e)
      (ap (λ l. scalar (a ∷ []) ∷ l) (ones-inners ns h))

yaml-RoundTrips : RoundTrips yaml read_number write_number
yaml-RoundTrips = record {
  load-dump = λ ns h. ap (λ l. some (sequence (of_items l))) (ones-inners ns h);
  element = λ a. (scalar (a ∷ []), (refl, refl));
}
