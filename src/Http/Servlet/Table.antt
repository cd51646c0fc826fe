-- ===== src/Http/Servlet/Table.antt =====
-- The two tables of a ServletDispatch as maps from a key to a servlet.
use sylar_leo.Base.{
  ◌≡◌, refl, sym, ap, subst, fun_ext, ◌∙◌, true, false, Option, none, some, List, [], ◌∷◌, ◌++◌,
  arith, if◌then◌else◌, Bool-cases, inl, inr,
}
use sylar_leo.Base.Text.{Text, text_eq, text_eq_refl, eq_of_text_eq}
use sylar_leo.Base.Assoc.{apart}
use sylar_leo.Http.Servlet.{
  Servlet, Entries, ServletDispatch, find, erase_first, assign, add_servlet, del_servlet,
  add_glob_servlet, del_glob_servlet, get_servlet, get_glob_servlet,
}

-- No key twice.
pub data Distinct : Entries → Type 0 where
  empty : Distinct []
  more :
      {k : Text} {slt : Servlet} {entries : Entries}
      → find k entries ≡ none
      → Distinct entries
      → Distinct ((k, slt) ∷ entries)

-- Both tables have no key twice.
pub record IsValid (d : ServletDispatch) : Type 0 where
  pub datas_distinct : Distinct d.datas
  pub globs_distinct : Distinct d.globs

find-assign :
    (uri u : Text) (slt : Servlet) (es : Entries)
    → find u (assign uri slt es) ≡ (if text_eq uri u then some slt else find u es)
find-assign uri u slt [] = refl
find-assign uri u slt ((k, old) ∷ es) = elim (Bool-cases (text_eq k uri)) [
  | inl same ↦ elim (Bool-cases (text_eq uri u)) [
    | inl here ↦ rw (same, eq_of_text_eq k uri same, here) refl
    | inr there ↦ rw (same, eq_of_text_eq k uri same, there) refl
  ]
  | inr other ↦ elim (Bool-cases (text_eq k u)) [
    | inl here ↦ rw (other, here, apart k u uri here other) refl
    | inr there ↦ rw (other, there) (find-assign uri u slt es)
  ]
]

find-erase_first :
    (uri u : Text) (es : Entries)
    → Distinct es
    → find u (erase_first uri es) ≡ (if text_eq uri u then none else find u es)
find-erase_first uri u [] empty = elim (Bool-cases (text_eq uri u)) [
  | inl h ↦ rw h refl
  | inr h ↦ rw h refl
]
find-erase_first uri u ((k, slt) ∷ es) (more fresh distinct) = elim (Bool-cases (text_eq k uri)) [
  | inl same ↦ elim (Bool-cases (text_eq uri u)) [
    | inl here ↦
        rw (same, here)
          (subst (λ x. find x es ≡ none) (eq_of_text_eq k uri same ∙ eq_of_text_eq uri u here)
            fresh)
    | inr there ↦ rw (same, eq_of_text_eq k uri same, there) refl
  ]
  | inr other ↦ elim (Bool-cases (text_eq k u)) [
    | inl here ↦ rw (other, here, apart k u uri here other) refl
    | inr there ↦ rw (other, there) (find-erase_first uri u es distinct)
  ]
]

find-append :
    (u : Text) (es : Entries) (k : Text) (slt : Servlet)
    → find k es ≡ none
    → find u (es ++ (k, slt) ∷ []) ≡ (if text_eq k u then some slt else find u es)
find-append u [] k slt fresh = refl
find-append u ((k', old) ∷ es) k slt fresh = elim (Bool-cases (text_eq k' k)) [
  | inl same ↦ absurd (ground (arith, same, fresh))
  | inr other ↦ elim (Bool-cases (text_eq k' u)) [
    | inl here ↦ rw (here, apart k' u k here other) refl
    | inr there ↦ rw there (find-append u es k slt (rw other at fresh))
  ]
]

fresh-append :
    (u : Text) (es : Entries) (k : Text) (slt : Servlet)
    → find u es ≡ none
    → text_eq k u ≡ false
    → find u (es ++ (k, slt) ∷ []) ≡ none
fresh-append u [] k slt fresh other = rw other refl
fresh-append u ((k', old) ∷ es) k slt fresh other = elim (Bool-cases (text_eq k' u)) [
  | inl same ↦ absurd (ground (arith, same, fresh))
  | inr differs ↦ rw differs (fresh-append u es k slt (rw differs at fresh) other)
]

Distinct-append :
    (es : Entries) (k : Text) (slt : Servlet)
    → Distinct es
    → find k es ≡ none
    → Distinct (es ++ (k, slt) ∷ [])
Distinct-append [] k slt empty fresh = more refl empty
Distinct-append ((k', old) ∷ es) k slt (more new distinct) fresh =
    elim (Bool-cases (text_eq k' k)) [
      | inl same ↦ absurd (ground (arith, same, fresh))
      | inr other ↦
          more
            (fresh-append k' es k slt new (elim (Bool-cases (text_eq k k')) [
              | inl same ↦ absurd (
                  ground (
                    arith,
                    other,
                    subst (λ x. text_eq k' x ≡ true) (sym (eq_of_text_eq k k' same))
                        (text_eq_refl k'),
                  ))
              | inr differs ↦ differs
            ]))
            (Distinct-append es k slt distinct (rw other at fresh))
    ]

erase_first-fresh :
    (u uri : Text) (es : Entries) → find u es ≡ none → find u (erase_first uri es) ≡ none
erase_first-fresh u uri [] fresh = refl
erase_first-fresh u uri ((k, slt) ∷ es) fresh = elim (Bool-cases (text_eq k u)) [
  | inl same ↦ absurd (ground (arith, same, fresh))
  | inr differs ↦ elim (Bool-cases (text_eq k uri)) [
    | inl gone ↦ rw gone (rw differs at fresh)
    | inr kept ↦ rw (kept, differs) (erase_first-fresh u uri es (rw differs at fresh))
  ]
]

Distinct-erase_first : (uri : Text) (es : Entries) → Distinct es → Distinct (erase_first uri es)
Distinct-erase_first uri [] empty = empty
Distinct-erase_first uri ((k, slt) ∷ es) (more fresh distinct) = elim (Bool-cases (text_eq k uri)) [
  | inl gone ↦ rw gone distinct
  | inr kept ↦
      rw kept (more (erase_first-fresh k uri es fresh) (Distinct-erase_first uri es distinct))
]

Distinct-assign :
    (uri : Text) (slt : Servlet) (es : Entries) → Distinct es → Distinct (assign uri slt es)
Distinct-assign uri slt [] empty = more refl empty
Distinct-assign uri slt ((k, old) ∷ es) (more fresh distinct) = elim (Bool-cases (text_eq k uri)) [
  | inl same ↦ rw same (more fresh distinct)
  | inr other ↦ rw other (
      more (find-assign uri k slt es ∙ rw (apart k k uri (text_eq_refl k) other) fresh)
        (Distinct-assign uri slt es distinct))
]

-- A registration of a dispatcher.
pub data Call : Type 0 where
  add add_glob : Text → Servlet → Call
  del del_glob : Text → Call

pub run : List Call → ServletDispatch → ServletDispatch
run [] d = d
run (add uri slt ∷ calls) d = run calls (add_servlet uri slt d)
run (add_glob uri slt ∷ calls) d = run calls (add_glob_servlet uri slt d)
run (del uri ∷ calls) d = run calls (del_servlet uri d)
run (del_glob uri ∷ calls) d = run calls (del_glob_servlet uri d)

-- The two tables as functions.
abbrev pub View : Type 0
View = (Text → Option Servlet) × (Text → Option Servlet)

abbrev pub update : Text → Option Servlet → (Text → Option Servlet) → Text → Option Servlet
update uri v f u = if text_eq uri u then v else f u

pub replay : List Call → View → View
replay [] v = v
replay (add uri slt ∷ calls) (f, g) = replay calls (update uri (some slt) f, g)
replay (add_glob uri slt ∷ calls) (f, g) = replay calls (f, update uri (some slt) g)
replay (del uri ∷ calls) (f, g) = replay calls (update uri none f, g)
replay (del_glob uri ∷ calls) (f, g) = replay calls (f, update uri none g)

abbrev pub view : ServletDispatch → View
view d = (λ u. get_servlet u d, λ u. get_glob_servlet u d)

add_glob-find :
    (uri u : Text) (slt : Servlet) (es : Entries)
    → Distinct es
    → find u (erase_first uri es ++ (uri, slt) ∷ [])
      ≡ (if text_eq uri u then some slt else find u es)
add_glob-find uri u slt es distinct =
    find-append u (erase_first uri es) uri slt
      (find-erase_first uri uri es distinct ∙ rw (text_eq_refl uri) refl)
    ∙ elim (Bool-cases (text_eq uri u)) [
      | inl here ↦ rw here refl
      | inr there ↦ rw there (find-erase_first uri u es distinct ∙ rw there refl)
    ]

-- Every sequence of registrations leaves both tables of a dispatcher with no key twice, and
-- `getServlet` and `getGlobServlet` then find what the same updates of two functions give: an erasing
-- loop that stops at the first pair is enough.
pub run-replay-view :
    (calls : List Call) (d : ServletDispatch)
    → IsValid d
    → IsValid (run calls d) × (view (run calls d) ≡ replay calls (view d))
unfolding run replay add_servlet add_glob_servlet del_servlet del_glob_servlet get_servlet
    get_glob_servlet
run-replay-view [] d v = (v, refl)
run-replay-view (add uri slt ∷ calls) d v =
    let (valid, same) = run-replay-view calls (add_servlet uri slt d) (record {
      datas_distinct = Distinct-assign uri slt d.datas v.datas_distinct;
      globs_distinct = v.globs_distinct;
    }) in
    (
      valid,
      same
          ∙ ap (λ f. replay calls (f, λ u. get_glob_servlet u d))
              (fun_ext (λ u. find-assign uri u slt d.datas)),
    )
run-replay-view (add_glob uri slt ∷ calls) d v =
    let distinct =
      Distinct-append (erase_first uri d.globs) uri slt
        (Distinct-erase_first uri d.globs v.globs_distinct)
        (find-erase_first uri uri d.globs v.globs_distinct ∙ rw (text_eq_refl uri) refl) in
    let (valid, same) =
      run-replay-view calls (add_glob_servlet uri slt d)
        (record { datas_distinct = v.datas_distinct; globs_distinct = distinct }) in
    (
      valid,
      same
          ∙ ap (λ g. replay calls (λ u. get_servlet u d, g))
              (fun_ext (λ u. add_glob-find uri u slt d.globs v.globs_distinct)),
    )
run-replay-view (del uri ∷ calls) d v =
    let (valid, same) = run-replay-view calls (del_servlet uri d) (record {
      datas_distinct = Distinct-erase_first uri d.datas v.datas_distinct;
      globs_distinct = v.globs_distinct;
    }) in
    (
      valid,
      same
          ∙ ap (λ f. replay calls (f, λ u. get_glob_servlet u d))
              (fun_ext (λ u. find-erase_first uri u d.datas v.datas_distinct)),
    )
run-replay-view (del_glob uri ∷ calls) d v =
    let (valid, same) = run-replay-view calls (del_glob_servlet uri d) (record {
      datas_distinct = v.datas_distinct;
      globs_distinct = Distinct-erase_first uri d.globs v.globs_distinct;
    }) in
    (
      valid,
      same
          ∙ ap (λ g. replay calls (λ u. get_servlet u d, g))
              (fun_ext (λ u. find-erase_first uri u d.globs v.globs_distinct)),
    )

pub run-default_servlet :
    (calls : List Call) (d : ServletDispatch) → (run calls d).default_servlet ≡ d.default_servlet
unfolding run add_servlet add_glob_servlet del_servlet del_glob_servlet
run-default_servlet [] d = refl
run-default_servlet (add uri slt ∷ calls) d = run-default_servlet calls (add_servlet uri slt d)
run-default_servlet (add_glob uri slt ∷ calls) d =
    run-default_servlet calls (add_glob_servlet uri slt d)
run-default_servlet (del uri ∷ calls) d = run-default_servlet calls (del_servlet uri d)
run-default_servlet (del_glob uri ∷ calls) d = run-default_servlet calls (del_glob_servlet uri d)
