-- ===== src/Config/Loading.antt =====
-- What LoadFromYaml does to each variable.
use sylar_leo.Base.{
  ℕ, ◌≡◌, refl, sym, ap, ap₂, subst, ◌∙◌, Bool, true, Option, none, some, List, [], ◌∷◌,
  if◌then◌else◌, Bool-cases, inl, inr, arith, All, All-append,
}
use sylar_leo.Base.Text.{Text, is_nil, text_eq, eq_of_text_eq}
use sylar_leo.Base.Assoc.{find, find-assign}
use sylar_leo.Util.{to_lower, lower}
use sylar_leo.Config.Yaml.{Node, Fields, null_node, scalar, sequence, mapping, field, end}
use sylar_leo.Config.{
  ConfigVar, ConfigVarMap, Called, returned, threw, caught, Callback, notify, store, is_name_char,
  valid_name, set_value, set_read, from_string, look_up_base, join_key, list_all_member,
  list_fields, node_text, update_var, load_node, load_all, load_from_yaml,
}

lower-is_name_char : (c : ℕ) → is_name_char c ≡ true → lower c ≡ c
lower-is_name_char c h = ground arith

to_lower-valid_name : (name : Text) → valid_name name ≡ true → to_lower name ≡ name
unfolding to_lower
to_lower-valid_name [] h = refl
to_lower-valid_name (c ∷ name) h = elim (Bool-cases (is_name_char c)) [
  | inl ok ↦ ap₂ (λ x xs. x ∷ xs) (lower-is_name_char c ok) (to_lower-valid_name name (rw ok at h))
  | inr bad ↦ absurd (ground (arith, bad, h))
]

-- A node that is listed has a valid key, so that its key is in lower case already.
abbrev Lower : Text × Node → Type 0
Lower kn = to_lower kn.0 ≡ kn.0

one-Lower :
    (prefix : Text) (n : Node) → All Lower (if valid_name prefix then (prefix, n) ∷ [] else [])
one-Lower prefix n = elim (Bool-cases (valid_name prefix)) [
  | inl ok ↦ rw ok (to_lower-valid_name prefix ok, tt)
  | inr bad ↦ rw bad tt
]

mutual
  unfolding list_all_member list_fields

  listed-Lower : (prefix : Text) (n : Node) → All Lower (list_all_member prefix n)
  listed-Lower prefix null_node = one-Lower prefix null_node
  listed-Lower prefix (scalar s) = one-Lower prefix (scalar s)
  listed-Lower prefix (sequence ns) = one-Lower prefix (sequence ns)
  listed-Lower prefix (mapping kns) = elim (Bool-cases (valid_name prefix)) [
    | inl ok ↦ rw ok (to_lower-valid_name prefix ok, fields-Lower prefix kns)
    | inr bad ↦ rw bad tt
  ]

  fields-Lower : (prefix : Text) (kns : Fields) → All Lower (list_fields prefix kns)
  fields-Lower prefix end = tt
  fields-Lower prefix (field key n kns) =
      All-append Lower (list_all_member (join_key prefix key) n) (list_fields prefix kns)
        (listed-Lower (join_key prefix key) n) (fields-Lower prefix kns)

-- Every key that `ListAllMember` lists is in lower case: the change to lower case in `LoadFromYaml`
-- changes none of them, since a key with an upper-case letter is dropped before, with all below it.
pub list_all_member-to_lower :
    (prefix : Text) (n : Node) → All (λ kn. to_lower kn.0 ≡ kn.0) (list_all_member prefix n)
list_all_member-to_lower prefix n = listed-Lower prefix n

-- The texts that a list of nodes has for the key `u`, in order.
pub texts_of : (dump : Node → Text) → (u : Text) → List (Text × Node) → List Text
texts_of dump u [] = []
texts_of dump u ((key, n) ∷ nodes) =
    let later = texts_of dump u nodes in
    if is_nil key
    then later
    else if text_eq (to_lower key) u
    then node_text dump n ∷ later
    else later

-- The value of a variable after a text, where its callbacks return.
abbrev pub val_after {ℓ} : {V : Type ℓ} → (equal : V → V → Bool) → Option V → V → V
val_after equal none val = val
val_after equal (some v) val = if equal v val then val else v

module _ {ℓ κ} {V : Type ℓ} {W : Type κ} (equal : V → V → Bool)
    (from_str : ℕ → Text → Option V) where
  abbrev pub read_one : Text → ConfigVar V W → ConfigVar V W
  read_one s var = record var { val = val_after equal (from_str var.type s) var.val }

  abbrev pub read_each : List Text → ConfigVar V W → ConfigVar V W
  read_each [] var = var
  read_each (s ∷ ss) var = read_each ss (read_one s var)

  abbrev pub read_found : List Text → Option (ConfigVar V W) → Option (ConfigVar V W)
  read_found ss none = none
  read_found ss (some var) = some (read_each ss var)

  -- The callbacks return, whatever they are told.
  abbrev pub Returns : List (ℕ × Callback V W) → Type (ℓ ⊔ κ)
  Returns cbs =
      (old_value new_value : V) (w : W)
      → (w' : W) × (notify cbs old_value new_value w ≡ returned w')

  -- So do those of all variables.
  unfoldable pub AllReturn : ConfigVarMap V W → Type (ℓ ⊔ κ)
  AllReturn m = (u : Text) (var : ConfigVar V W) → find u m ≡ some var → Returns var.cbs

  abbrev cbs_of : Option (ConfigVar V W) → List (ℕ × Callback V W)
  cbs_of none = []
  cbs_of (some var) = var.cbs

  set_read-val :
      (o : Option V) (var : ConfigVar V W) (w : W)
      → Returns var.cbs
      → (set_read equal o (var, w)).0 ≡ record var { val = val_after equal o var.val }
  unfolding set_value
  set_read-val none var w h = refl
  set_read-val (some v) var w h = elim (Bool-cases (equal v var.val)) [
    | inl same ↦ rw same refl
    | inr differs ↦
        let (w', e) = h var.val v w in rw differs (ap (λ c. (caught (store v var c)).0) e)
  ]

  set_read-cbs :
      (o : Option V) (var : ConfigVar V W) (w : W) → (set_read equal o (var, w)).0.cbs ≡ var.cbs
  unfolding set_value
  set_read-cbs none var w = refl
  set_read-cbs (some v) var w = elim (Bool-cases (equal v var.val)) [
    | inl same ↦ rw same refl
    | inr differs ↦ rw differs (store-cbs (notify var.cbs var.val v w))
  ]
    where
      store-cbs : (c : Called W) → (caught (store v var c)).0.cbs ≡ var.cbs
      store-cbs (returned w') = refl
      store-cbs (threw w') = refl

  -- A turn of the loop changes no callback.
  update_var-AllReturn :
      (key s : Text) (m : ConfigVarMap V W) (w : W) (o : Option (ConfigVar V W))
      → AllReturn m
      → find key m ≡ o
      → AllReturn (update_var equal from_str o key s (m, w)).0
  unfolding AllReturn from_string
  update_var-AllReturn key s m w none h e = h
  update_var-AllReturn key s m w (some var) h e = λ u var' e'.
      let at = find-assign key u (set_read equal (from_str var.type s) (var, w)).0 m in
      elim (Bool-cases (text_eq key u)) [
        | inl here ↦
            let same : some (set_read equal (from_str var.type s) (var, w)).0 ≡ some var' =
              sym (at ∙ rw here refl) ∙ e' in
            subst Returns (sym (set_read-cbs (from_str var.type s) var w) ∙ ap (λ o. cbs_of o) same)
              (h key var e)
        | inr there ↦ h u var' (sym (at ∙ rw there refl) ∙ e')
      ]

  load_node-AllReturn :
      (key s : Text) (m : ConfigVarMap V W) (w : W)
      → AllReturn m
      → AllReturn (load_node equal from_str key s (m, w)).0
  unfolding load_node look_up_base
  load_node-AllReturn key s m w h = elim (Bool-cases (is_nil key)) [
    | inl empty_key ↦ rw empty_key h
    | inr named ↦
        rw named (update_var-AllReturn (to_lower key) s m w (find (to_lower key) m) h refl)
  ]

  -- One turn of the loop, seen from the variable `u`.
  load_node-find :
      (key s u : Text) (m : ConfigVarMap V W) (w : W)
      → AllReturn m
      → find u (load_node equal from_str key s (m, w)).0 ≡ (
          if is_nil key
          then find u m
          else if text_eq (to_lower key) u
          then read_found (s ∷ []) (find u m)
          else find u m)
  unfolding load_node from_string look_up_base AllReturn
  load_node-find key s u m w h = elim (Bool-cases (is_nil key)) [
    | inl empty_key ↦ rw empty_key refl
    | inr named ↦ rw named (go (find (to_lower key) m) refl)
  ]
    where
      go :
          (o : Option (ConfigVar V W))
          → find (to_lower key) m ≡ o
          → find u (update_var equal from_str o (to_lower key) s (m, w)).0
            ≡ (if text_eq (to_lower key) u then read_found (s ∷ []) (find u m) else find u m)
      go none e = elim (Bool-cases (text_eq (to_lower key) u)) [
        | inl here ↦ rw here (
            subst (λ x. find x m ≡ read_found (s ∷ []) (find x m))
              (eq_of_text_eq (to_lower key) u here) (e ∙ sym (ap (read_found (s ∷ [])) e)))
        | inr there ↦ rw there refl
      ]
      go (some var) e =
          find-assign (to_lower key) u (set_read equal (from_str var.type s) (var, w)).0 m
          ∙ elim (Bool-cases (text_eq (to_lower key) u)) [
            | inl here ↦ rw here (
                ap some (set_read-val (from_str var.type s) var w (h (to_lower key) var e))
                ∙ sym (
                    ap (read_found (s ∷ []))
                      (subst (λ x. find x m ≡ some var) (eq_of_text_eq (to_lower key) u here) e)))
            | inr there ↦ rw there refl
          ]

  read_found-join :
      (s : Text) (ss : List Text) (o : Option (ConfigVar V W))
      → read_found ss (read_found (s ∷ []) o) ≡ read_found (s ∷ ss) o
  read_found-join s ss none = refl
  read_found-join s ss (some var) = refl

  -- The registry after the loop, seen from the variable `u`.
  load_all-find :
      (dump : Node → Text) (nodes : List (Text × Node)) (u : Text) (st : ConfigVarMap V W × W)
      → AllReturn st.0
      → find u (load_all equal from_str dump nodes st).0
        ≡ read_found (texts_of dump u nodes) (find u st.0)
  unfolding texts_of
  load_all-find dump [] u (m, w) h = unread (find u m)
    where
      unread : (o : Option (ConfigVar V W)) → o ≡ read_found [] o
      unread none = refl
      unread (some var) = refl
  load_all-find dump ((key, n) ∷ nodes) u (m, w) h =
      let s = node_text dump n in
      let one = load_node-find key s u m w h in
      load_all-find dump nodes u (load_node equal from_str key s (m, w))
        (load_node-AllReturn key s m w h)
      ∙ ap (read_found (texts_of dump u nodes)) one
      ∙ elim (Bool-cases (is_nil key)) [
        | inl empty_key ↦ rw empty_key refl
        | inr named ↦ elim (Bool-cases (text_eq (to_lower key) u)) [
          | inl here ↦ rw (named, here) (read_found-join s (texts_of dump u nodes) (find u m))
          | inr there ↦ rw (named, there) refl
        ]
      ]

  -- Where every callback of a registered variable returns, and none touches the registry, `LoadFromYaml`
  -- registers no variable and removes none, and each variable ends with the value that the texts of its
  -- own key give it, read one after the other in the order of the file: a text that cannot be converted
  -- leaves it, and the texts of other keys do not touch it.
  pub load_from_yaml_lem :
      (dump : Node → Text) (root : Node) (u : Text) (m : ConfigVarMap V W) (w : W)
      → AllReturn m
      → find u (load_from_yaml equal from_str dump root (m, w)).0
        ≡ read_found (texts_of dump u (list_all_member [] root)) (find u m)
  unfolding load_from_yaml
  load_from_yaml_lem dump root u m w h = load_all-find dump (list_all_member [] root) u (m, w) h
