-- ===== src/Config.antt =====
-- sylar/config.h and sylar/config.cpp: configuration variables and their registry. The values of all
-- types are one type `V`, in which a variable keeps the number of its type; conversions from text, and
-- the equality of values, are parameters. A callback acts on a state `W` of the program
-- around it, to which the registry does not belong, and returns or throws. The comparison with the callbacks,
-- and the store behind them, are under two locks; a call is taken as one step here.
pub mod Yaml
pub mod Loading
pub mod Changes
pub mod Casts
mod Examples
use sylar_leo.Base.{
  ℕ, ◌+◌, ◌≡◌, Bool, true, false, not, ◌&&◌, ◌||◌, Option, none, some, List, [], ◌∷◌, ◌++◌, map,
  ◌==◌, if◌then◌else◌,
}
use sylar_leo.Base.Text.{Text, codes, is_nil}
use sylar_leo.Base.Assoc.{find, assign}
use sylar_leo.Util.{is_lower, is_digit, to_lower}
use Yaml.{Node, Fields, null_node, scalar, sequence, mapping, field, end}

-- How a call ends, with the state that it leaves.
pub data Called {κ} (W : Type κ) : Type κ where
  returned : W → Called W
  threw : W → Called W

-- The state behind a call whose exceptions are caught.
abbrev pub caught {κ} : {W : Type κ} → Called W → W
caught (returned w) = w
caught (threw w) = w

abbrev pub Callback {ℓ κ} : Type ℓ → Type κ → Type (ℓ ⊔ κ)
Callback V W = (old_value new_value : V) → W → Called W

-- `m_cbs` in the order of its keys.
pub record ConfigVar {ℓ κ} (V : Type ℓ) (W : Type κ) : Type (ℓ ⊔ κ) where
  pub name : Text
  pub description : Text
  pub type : ℕ
  pub val : V
  pub cbs : List (ℕ × Callback V W)

-- A character of a name.
abbrev pub is_name_char : ℕ → Bool
is_name_char c = is_lower c || c == b'.' || c == b'_' || is_digit c

-- `find_first_not_of(...) == npos`.
abbrev pub valid_name : Text → Bool
valid_name [] = true
valid_name (c ∷ name) = is_name_char c && valid_name name

abbrev pub or_empty : Option Text → Text
or_empty none = []
or_empty (some s) = s

module _ {ℓ κ} {V : Type ℓ} {W : Type κ} where
  unfoldable pub new_config_var : (name description : Text) → (type : ℕ) → V → ConfigVar V W
  new_config_var name description type default_value = record {
    name = to_lower name;
    description = description;
    type = type;
    val = default_value;
    cbs = [];
  }

  abbrev pub notify : List (ℕ × Callback V W) → (old_value new_value : V) → W → Called W
  notify [] old_value new_value w = returned w
  notify ((key, cb) ∷ cbs) old_value new_value w = elim (cb old_value new_value w) [
    | returned w' ↦ notify cbs old_value new_value w'
    | threw w' ↦ threw w'
  ]

  -- The store behind the callbacks, which an exception skips.
  abbrev pub store : V → ConfigVar V W → Called W → Called (ConfigVar V W × W)
  store v var (returned w) = returned (record var { val = v }, w)
  store v var (threw w) = threw (var, w)

  -- `setValue`.
  unfoldable pub set_value :
      (equal : V → V → Bool) → V → ConfigVar V W × W → Called (ConfigVar V W × W)
  set_value equal v (var, w) =
      if equal v var.val then returned (var, w) else store v var (notify var.cbs var.val v w)

  -- What `fromString` catches: an exception of the conversion, or one of a callback.
  abbrev pub set_read : (equal : V → V → Bool) → Option V → ConfigVar V W × W → ConfigVar V W × W
  set_read equal none st = st
  set_read equal (some v) st = caught (set_value equal v st)

  -- `fromString`, where `from_str` of the variable's type throws where it gives `none`. It returns
  -- `false` in every case.
  unfoldable pub from_string :
      (equal : V → V → Bool)
      → (from_str : ℕ → Text → Option V) → Text
      → ConfigVar V W × W
      → Bool × (ConfigVar V W × W)
  unfolding set_value
  from_string equal from_str s (var, w) = (false, set_read equal (from_str var.type s) (var, w))

  unfoldable pub to_string : (to_str : ℕ → V → Option Text) → ConfigVar V W → Text
  to_string to_str var = or_empty (to_str var.type var.val)

  -- `addListener`, with the counter of keys: the key returned is above those given before.
  unfoldable pub add_listener : Callback V W → ℕ × ConfigVar V W → ℕ × ConfigVar V W
  add_listener cb (fun_id, var) =
      (fun_id + 1, record var { cbs = var.cbs ++ (fun_id + 1, cb) ∷ [] })

  abbrev pub without_key : ℕ → List (ℕ × Callback V W) → List (ℕ × Callback V W)
  without_key key [] = []
  without_key key ((k, cb) ∷ cbs) = if k == key then cbs else (k, cb) ∷ without_key key cbs

  unfoldable pub del_listener : ℕ → ConfigVar V W → ConfigVar V W
  del_listener key var = record var { cbs = without_key key var.cbs }

  abbrev pub callback_of : ℕ → List (ℕ × Callback V W) → Option (Callback V W)
  callback_of key [] = none
  callback_of key ((k, cb) ∷ cbs) = if k == key then some cb else callback_of key cbs

  unfoldable pub get_listener : ℕ → ConfigVar V W → Option (Callback V W)
  get_listener key var = callback_of key var.cbs

  unfoldable pub clear_listener : ConfigVar V W → ConfigVar V W
  clear_listener var = record var { cbs = [] }

abbrev pub ConfigVarMap {ℓ κ} : Type ℓ → Type κ → Type (ℓ ⊔ κ)
ConfigVarMap V W = List (Text × ConfigVar V W)

-- What `Lookup` with a default returns: the variable of that name, the null pointer where it has another
-- type, or an exception for a name that is not valid.
pub data Lookup {ℓ κ} (V : Type ℓ) (W : Type κ) : Type (ℓ ⊔ κ) where
  found : ConfigVar V W → Lookup V W
  other_type : Lookup V W
  invalid : Lookup V W

module _ {ℓ κ} {V : Type ℓ} {W : Type κ} where
  unfoldable pub look_up : Text → (type : ℕ) → ConfigVarMap V W → Option (ConfigVar V W)
  look_up name type m = elim (find name m) [
    | none ↦ none
    | some var ↦ if var.type == type then some var else none
  ]

  unfoldable pub look_up_base : Text → ConfigVarMap V W → Option (ConfigVar V W)
  look_up_base name m = find name m

  abbrev pub look_up_found :
      Option (ConfigVar V W)
      → (name description : Text) → (type : ℕ) → V
      → ConfigVarMap V W
      → Lookup V W × ConfigVarMap V W
  look_up_found (some var) name description type default_value m =
      if var.type == type then (found var, m) else (other_type, m)
  look_up_found none name description type default_value m =
      let var = new_config_var name description type default_value in
      if valid_name name then (found var, assign name var m) else (invalid, m)

  -- `Lookup` with a default.
  unfoldable pub look_up_or_create :
      (name description : Text) → (type : ℕ) → V → ConfigVarMap V W → Lookup V W × ConfigVarMap V W
  unfolding new_config_var
  look_up_or_create name description type default_value m =
      look_up_found (find name m) name description type default_value m

  -- `Visit`, for a callback that does not change the variables.
  abbrev pub visit : (ConfigVar V W → W → W) → ConfigVarMap V W → W → W
  visit cb [] w = w
  visit cb ((name, var) ∷ m) w = visit cb m (cb var w)

abbrev pub join_key : (prefix key : Text) → Text
join_key [] key = key
join_key (c ∷ prefix) key = (c ∷ prefix) ++ codes "." ++ key

-- `ListAllMember`.
unfoldable mutual
  pub list_all_member : (prefix : Text) → Node → List (Text × Node)
  list_all_member prefix null_node = if valid_name prefix then (prefix, null_node) ∷ [] else []
  list_all_member prefix (scalar s) = if valid_name prefix then (prefix, scalar s) ∷ [] else []
  list_all_member prefix (sequence ns) =
      if valid_name prefix then (prefix, sequence ns) ∷ [] else []
  list_all_member prefix (mapping kns) =
      let below = list_fields prefix kns in
      if valid_name prefix then (prefix, mapping kns) ∷ below else []

  pub list_fields : (prefix : Text) → Fields → List (Text × Node)
  list_fields prefix end = []
  list_fields prefix (field key n kns) =
      list_all_member (join_key prefix key) n ++ list_fields prefix kns

-- The text of a node: a scalar, else what the library writes.
abbrev pub node_text : (dump : Node → Text) → Node → Text
node_text dump null_node = dump null_node
node_text dump (scalar s) = s
node_text dump (sequence ns) = dump (sequence ns)
node_text dump (mapping kns) = dump (mapping kns)

module _ {ℓ κ} {V : Type ℓ} {W : Type κ} (equal : V → V → Bool)
    (from_str : ℕ → Text → Option V) where
  abbrev pub update_var :
      Option (ConfigVar V W) → (key s : Text) → ConfigVarMap V W × W → ConfigVarMap V W × W
  update_var none key s st = st
  update_var (some var) key s (m, w) =
      let (var', w') = (from_string equal from_str s (var, w)).1 in (assign key var' m, w')

  -- One turn of the loop of `LoadFromYaml`.
  unfoldable pub load_node : (key s : Text) → ConfigVarMap V W × W → ConfigVarMap V W × W
  unfolding from_string look_up_base
  load_node key s (m, w) =
      if is_nil key
      then (m, w)
      else update_var (look_up_base (to_lower key) m) (to_lower key) s (m, w)

  abbrev pub load_all :
      (dump : Node → Text) → List (Text × Node) → ConfigVarMap V W × W → ConfigVarMap V W × W
  load_all dump [] st = st
  load_all dump ((key, n) ∷ nodes) st = load_all dump nodes (load_node key (node_text dump n) st)

  unfoldable pub load_from_yaml :
      (dump : Node → Text) → Node → ConfigVarMap V W × W → ConfigVarMap V W × W
  unfolding load_node list_all_member
  load_from_yaml dump root st = load_all dump (list_all_member [] root) st
