-- ===== src/Http/Servlet.antt =====
-- sylar/http/servlet.cpp and servlet.h: the table of servlets of a ServletDispatch. `m_datas` is the
-- list of its pairs with no order, `m_globs` the vector of patterns. A creator is kept as the servlet
-- that its `get` returns (`HoldServletCreator`), a servlet as its `handle`, without the session.
-- `fnmatch(pattern, uri, 0) == 0` of the C library is a parameter.
pub mod Table
pub mod Matching
mod Examples
use sylar_leo.Base.{ℕ, Bool, true, false, Option, none, some, List, [], ◌∷◌, ◌++◌, if◌then◌else◌}
use sylar_leo.Base.Text.{Text, codes, text_eq}
use sylar_leo.Http.Message.{HttpRequest, HttpResponse, response_set_header}

abbrev pub Servlet : Type 0
Servlet = HttpRequest → HttpResponse → HttpResponse

abbrev pub Entries : Type 0
Entries = List (Text × Servlet)

pub record ServletDispatch : Type 0 where
  pub datas : Entries
  pub globs : Entries
  pub default_servlet : Option Servlet

-- The servlet of a pair with that key, from the front.
abbrev pub find : Text → Entries → Option Servlet
find uri [] = none
find uri ((k, slt) ∷ entries) = if text_eq k uri then some slt else find uri entries

-- The loop that erases the first pair with that pattern.
abbrev pub erase_first : Text → Entries → Entries
erase_first uri [] = []
erase_first uri ((k, slt) ∷ entries) =
    if text_eq k uri then entries else (k, slt) ∷ erase_first uri entries

-- `m_datas[uri] = slt`.
abbrev pub assign : Text → Servlet → Entries → Entries
assign uri slt [] = (uri, slt) ∷ []
assign uri slt ((k, old) ∷ entries) =
    if text_eq k uri then (k, slt) ∷ entries else (k, old) ∷ assign uri slt entries

pub add_servlet : Text → Servlet → ServletDispatch → ServletDispatch
add_servlet uri slt d = record d { datas = assign uri slt d.datas }

pub add_glob_servlet : Text → Servlet → ServletDispatch → ServletDispatch
add_glob_servlet uri slt d = record d { globs = erase_first uri d.globs ++ (uri, slt) ∷ [] }

pub del_servlet : Text → ServletDispatch → ServletDispatch
del_servlet uri d = record d { datas = erase_first uri d.datas }

pub del_glob_servlet : Text → ServletDispatch → ServletDispatch
del_glob_servlet uri d = record d { globs = erase_first uri d.globs }

pub get_servlet : Text → ServletDispatch → Option Servlet
get_servlet uri d = find uri d.datas

pub get_glob_servlet : Text → ServletDispatch → Option Servlet
get_glob_servlet uri d = find uri d.globs

-- The first pattern that matches.
abbrev pub match_globs : (fnmatch : Text → Text → Bool) → Text → Entries → Option Servlet
match_globs fnmatch uri [] = none
match_globs fnmatch uri ((pattern_text, slt) ∷ entries) =
    if fnmatch pattern_text uri then some slt else match_globs fnmatch uri entries

pub get_matched_servlet : (fnmatch : Text → Text → Bool) → Text → ServletDispatch → Option Servlet
get_matched_servlet fnmatch uri d = elim (find uri d.datas) [
  | some slt ↦ some slt
  | none ↦ elim (match_globs fnmatch uri d.globs) [ some slt ↦ some slt | none ↦ d.default_servlet ]
]

pub handle : (fnmatch : Text → Text → Bool) → ServletDispatch → Servlet
unfolding get_matched_servlet
handle fnmatch d request response = elim (get_matched_servlet fnmatch request.path d) [
  | none ↦ response
  | some slt ↦ slt request response
]

pub not_found_content : Text → Text
not_found_content name =
    codes
      "<html><head><title>404 Not Found</title></head><body><center><h1>404 Not Found</h1></center><hr><center>"
    ++ name
    ++ codes "</center></body></html>"

-- `NotFoundServlet::handle`.
pub not_found : (name : Text) → Servlet
unfolding not_found_content
not_found name request response =
    let page =
      response_set_header (codes "Server") (codes "sylar/1.0.0")
        (record response { status = 404 }) in
    record (response_set_header (codes "Content-Type") (codes "text/html") page) {
      body = not_found_content name;
    }

pub new_servlet_dispatch : ServletDispatch
new_servlet_dispatch = record {
  datas = [];
  globs = [];
  default_servlet = some (not_found (codes "sylar/1.0"));
}
