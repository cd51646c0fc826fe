-- ===== src/Http/Servlet/Matching.antt =====
-- Which servlet a ServletDispatch picks for a request.
use sylar_leo.Base.{
  ◌≡◌, refl, ap, ◌∙◌, Bool, true, false, Option, none, some, List, [], ◌∷◌, ◌++◌, Bool-cases,
  Option-cases, inl, inr,
}
use sylar_leo.Base.Text.{Text, codes}
use sylar_leo.Http.Message.{HttpRequest, HttpResponse, response_set_header}
use sylar_leo.Http.Servlet.{
  Servlet, Entries, ServletDispatch, find, match_globs, get_matched_servlet, handle, not_found,
  not_found_content, new_servlet_dispatch,
}
use sylar_leo.Http.Servlet.Table.{Call, run, run-default_servlet}

-- No pattern of the list matches.
pub data NoMatch (fnmatch : Text → Text → Bool) (uri : Text) : Entries → Type 0 where
  no_pattern : NoMatch fnmatch uri []
  another :
      {p : Text} {slt : Servlet} {entries : Entries}
      → fnmatch p uri ≡ false
      → NoMatch fnmatch uri entries
      → NoMatch fnmatch uri ((p, slt) ∷ entries)

-- Why a servlet is picked.
pub data Picked (fnmatch : Text → Text → Bool) (uri : Text) (d : ServletDispatch)
    : Option Servlet → Type 0 where
  by_uri : {slt : Servlet} → find uri d.datas ≡ some slt → Picked fnmatch uri d (some slt)
  by_glob :
      {slt : Servlet} (before after : Entries) (p : Text)
      → find uri d.datas ≡ none
      → d.globs ≡ before ++ (p, slt) ∷ after
      → NoMatch fnmatch uri before
      → fnmatch p uri ≡ true
      → Picked fnmatch uri d (some slt)
  by_default :
      find uri d.datas ≡ none → NoMatch fnmatch uri d.globs → Picked fnmatch uri d d.default_servlet

pub data Found (fnmatch : Text → Text → Bool) (uri : Text) (globs : Entries)
    : Option Servlet → Type 0 where
  at :
      {slt : Servlet} (before after : Entries) (p : Text)
      → globs ≡ before ++ (p, slt) ∷ after
      → NoMatch fnmatch uri before
      → fnmatch p uri ≡ true
      → Found fnmatch uri globs (some slt)
  nowhere : NoMatch fnmatch uri globs → Found fnmatch uri globs none

Found-cons :
    (fnmatch : Text → Text → Bool) (uri p : Text) (slt : Servlet) (globs : Entries)
    (r : Option Servlet)
    → fnmatch p uri ≡ false
    → Found fnmatch uri globs r
    → Found fnmatch uri ((p, slt) ∷ globs) r
Found-cons fnmatch uri p slt globs _ differs (at before after q e none_before matches) =
    at ((p, slt) ∷ before) after q (ap (λ rest. (p, slt) ∷ rest) e) (another differs none_before)
      matches
Found-cons fnmatch uri p slt globs _ differs (nowhere none_there) =
    nowhere (another differs none_there)

match_globs_lem :
    (fnmatch : Text → Text → Bool) (uri : Text) (globs : Entries)
    → Found fnmatch uri globs (match_globs fnmatch uri globs)
match_globs_lem fnmatch uri [] = nowhere no_pattern
match_globs_lem fnmatch uri ((p, slt) ∷ globs) = elim (Bool-cases (fnmatch p uri)) [
  | inl matches ↦ rw matches (at [] globs p refl no_pattern matches)
  | inr differs ↦ rw differs (
      Found-cons fnmatch uri p slt globs (match_globs fnmatch uri globs) differs
        (match_globs_lem fnmatch uri globs))
]

picked_glob :
    (fnmatch : Text → Text → Bool) (uri : Text) (d : ServletDispatch) (r : Option Servlet)
    → find uri d.datas ≡ none
    → Found fnmatch uri d.globs r
    → Picked fnmatch uri d (elim r [ some slt ↦ some slt | none ↦ d.default_servlet ])
picked_glob fnmatch uri d _ nothing (at before after p e none_before matches) =
    by_glob before after p nothing e none_before matches
picked_glob fnmatch uri d _ nothing (nowhere none_there) = by_default nothing none_there

-- For every table and every `fnmatch`: the servlet of the exact uri if there is one, else that of the
-- first pattern in the vector that matches, else the default servlet.
pub get_matched_servlet_lem :
    (fnmatch : Text → Text → Bool) (uri : Text) (d : ServletDispatch)
    → Picked fnmatch uri d (get_matched_servlet fnmatch uri d)
unfolding get_matched_servlet
get_matched_servlet_lem fnmatch uri d = elim (Option-cases (find uri d.datas)) [
  | inr (slt, found) ↦ rw (get_matched_servlet, found) (by_uri found)
  | inl nothing ↦
      rw (get_matched_servlet, nothing)
        (picked_glob fnmatch uri d (match_globs fnmatch uri d.globs) nothing
          (match_globs_lem fnmatch uri d.globs))
]

match_globs-NoMatch :
    (fnmatch : Text → Text → Bool) (uri : Text) (globs : Entries)
    → NoMatch fnmatch uri globs
    → match_globs fnmatch uri globs ≡ none
match_globs-NoMatch fnmatch uri [] no_pattern = refl
match_globs-NoMatch fnmatch uri ((p, slt) ∷ globs) (another differs others) =
    rw differs (match_globs-NoMatch fnmatch uri globs others)

-- Whatever was registered and removed since the dispatcher was made: a request whose path has no exact
-- servlet and matches no pattern is answered with the 404 page of sylar/1.0.
pub handle-not_found :
    (fnmatch : Text → Text → Bool) (calls : List Call) (request : HttpRequest)
    (response : HttpResponse)
    → find request.path (run calls new_servlet_dispatch).datas ≡ none
    → NoMatch fnmatch request.path (run calls new_servlet_dispatch).globs
    → ((handle fnmatch (run calls new_servlet_dispatch) request response).status ≡ 404)
      × ((handle fnmatch (run calls new_servlet_dispatch) request response).body
          ≡ not_found_content (codes "sylar/1.0"))
unfolding handle not_found response_set_header new_servlet_dispatch
handle-not_found fnmatch calls request response nothing none_there =
    let picked : get_matched_servlet fnmatch request.path (run calls new_servlet_dispatch)
        ≡ some (not_found (codes "sylar/1.0")) =
      rw
        (
          get_matched_servlet,
          nothing,
          match_globs-NoMatch fnmatch request.path (run calls new_servlet_dispatch).globs
              none_there,
        )
        (run-default_servlet calls new_servlet_dispatch ∙ refl) in
    (rw (handle, picked) refl, rw (handle, picked) refl)
