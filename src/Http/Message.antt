-- ===== src/Http/Message.antt =====
-- HttpRequest and HttpResponse of sylar/http/http.h and sylar/http/http.cpp. The three bits of
-- `m_parserParamFlag` are three fields. A method that parses on demand returns the request with what
-- it parsed.
pub mod Parsing
use sylar_leo.Base.{
  ℕ, ◌+◌, ◌/◌, ◌%◌, Bool, true, false, ◌&&◌, ◌||◌, not, Option, none, some, List, [], ◌∷◌, ◌++◌,
  ◌==◌, if◌then◌else◌, length,
}
use sylar_leo.Base.Text.{Text, codes, is_nil, has_prefix, decimal}
use sylar_leo.Util.{trim}
use sylar_leo.Http.Names.{http_method_to_string, http_status_to_string}
use sylar_leo.Http.Headers.{folded, same_key, MapType, lookup, set_value, erase_key}
use sylar_leo.Http.Params.{parse_params}

pub record HttpRequest : Type 0 where
  pub method : ℕ
  pub version : ℕ
  pub close : Bool
  pub websocket : Bool
  pub query_parsed : Bool
  pub body_parsed : Bool
  pub cookies_parsed : Bool
  pub path : Text
  pub query : Text
  pub fragment : Text
  pub body : Text
  pub headers : MapType
  pub params : MapType
  pub cookies : MapType

pub record HttpResponse : Type 0 where
  pub status : ℕ
  pub version : ℕ
  pub close : Bool
  pub websocket : Bool
  pub body : Text
  pub reason : Text
  pub headers : MapType
  pub cookies : List Text

unfoldable pub new_http_request : ℕ → Bool → HttpRequest
new_http_request version close = record {
  method = 1;
  version = version;
  close = close;
  websocket = false;
  query_parsed = false;
  body_parsed = false;
  cookies_parsed = false;
  path = codes "/";
  query = [];
  fragment = [];
  body = [];
  headers = [];
  params = [];
  cookies = [];
}

unfoldable pub new_http_response : ℕ → Bool → HttpResponse
new_http_response version close = record {
  status = 200;
  version = version;
  close = close;
  websocket = false;
  body = [];
  reason = [];
  headers = [];
  cookies = [];
}

pub create_response : HttpRequest → HttpResponse
unfolding new_http_response
create_response r = new_http_response r.version r.close

-- `it == m.end() ? def : it->second`.
abbrev pub or_default : Option Text → Text → Text
or_default none def = def
or_default (some v) def = v

pub get_header : Text → Text → HttpRequest → Text
get_header key def r = or_default (lookup key r.headers) def

-- `strcasestr(haystack, needle) != nullptr`, on texts that are folded.
abbrev pub occurs : Text → Text → Bool
occurs needle [] = has_prefix needle []
occurs needle (c ∷ s) = has_prefix needle (c ∷ s) || occurs needle s

abbrev pub form_type : Text
form_type = codes " application/x-www-form-urlencoded"

pub init_query_param : HttpRequest → HttpRequest
init_query_param r =
    if r.query_parsed
    then r
    else record r { params = parse_params b'&' (λ s. s) r.query r.params; query_parsed = true }

pub init_body_param : HttpRequest → HttpRequest
unfolding get_header
init_body_param r =
    if r.body_parsed
    then r
    else if not (occurs form_type (folded (get_header (codes "content-type") [] r)))
    then record r { body_parsed = true }
    else record r { params = parse_params b'&' (λ s. s) r.body r.params; body_parsed = true }

-- `StringUtil::Trim` with its default delimiters.
abbrev pub blanks : Text
blanks = 32 ∷ 9 ∷ 13 ∷ 10 ∷ []

pub init_cookies : HttpRequest → HttpRequest
unfolding get_header
init_cookies r =
    let cookie = get_header (codes "cookie") [] r in
    if r.cookies_parsed
    then r
    else if is_nil cookie
    then record r { cookies_parsed = true }
    else record r {
      cookies = parse_params b';' (trim blanks) cookie r.cookies;
      cookies_parsed = true;
    }

pub init_param : HttpRequest → HttpRequest
unfolding init_query_param init_body_param init_cookies
init_param r = init_cookies (init_body_param (init_query_param r))

-- `init`: what the header `connection` says of `m_close`.
pub init : HttpRequest → HttpRequest
unfolding get_header
init r =
    let conn = get_header (codes "connection") [] r in
    if is_nil conn then r else record r { close = not (same_key conn (codes "keep-alive")) }

pub get_param : Text → Text → HttpRequest → HttpRequest × Text
unfolding init_query_param init_body_param
get_param key def r =
    let r' = init_body_param (init_query_param r) in (r', or_default (lookup key r'.params) def)

pub get_cookie : Text → Text → HttpRequest → HttpRequest × Text
unfolding init_cookies
get_cookie key def r = let r' = init_cookies r in (r', or_default (lookup key r'.cookies) def)

pub has_header : Text → HttpRequest → Option Text
has_header key r = lookup key r.headers

pub has_param : Text → HttpRequest → HttpRequest × Option Text
unfolding init_query_param init_body_param
has_param key r = let r' = init_body_param (init_query_param r) in (r', lookup key r'.params)

pub has_cookie : Text → HttpRequest → HttpRequest × Option Text
unfolding init_cookies
has_cookie key r = let r' = init_cookies r in (r', lookup key r'.cookies)

unfoldable pub set_header : Text → Text → HttpRequest → HttpRequest
set_header key val r = record r { headers = set_value key val r.headers }

pub set_param : Text → Text → HttpRequest → HttpRequest
set_param key val r = record r { params = set_value key val r.params }

pub set_cookie : Text → Text → HttpRequest → HttpRequest
set_cookie key val r = record r { cookies = set_value key val r.cookies }

pub del_header : Text → HttpRequest → HttpRequest
del_header key r = record r { headers = erase_key key r.headers }

pub del_param : Text → HttpRequest → HttpRequest
del_param key r = record r { params = erase_key key r.params }

pub del_cookie : Text → HttpRequest → HttpRequest
del_cookie key r = record r { cookies = erase_key key r.cookies }

-- `checkGetAs` and `getAs`: `cast` is `boost::lexical_cast`, which may throw.
pub check_get_as {ℓ} : {A : Type ℓ} → (Text → Option A) → MapType → Text → A → Bool × A
check_get_as cast m key def = elim (lookup key m) [
  | none ↦ (false, def)
  | some text ↦ elim (cast text) [ none ↦ (false, def) | some val ↦ (true, val) ]
]

pub get_as {ℓ} : {A : Type ℓ} → (Text → Option A) → MapType → Text → A → A
get_as cast m key def = elim (lookup key m) [
  | none ↦ def
  | some text ↦ elim (cast text) [ none ↦ def | some val ↦ val ]
]

abbrev pub crlf : Text
crlf = 13 ∷ 10 ∷ []

abbrev pub version_text : ℕ → Text
version_text v = decimal (v / 16) ++ (b'.' ∷ decimal (v % 16))

-- The loop over the headers, without `connection` unless it is a WebSocket.
pub dump_headers : Bool → MapType → Text
dump_headers websocket [] = []
dump_headers websocket ((k, v) ∷ m) =
    let rest = dump_headers websocket m in
    if not websocket && same_key k (codes "connection")
    then rest
    else k ++ (codes ": " ++ (v ++ (crlf ++ rest)))

abbrev pub connection_line : Bool → Bool → Text
connection_line websocket close =
    if websocket
    then []
    else codes "connection: " ++ ((if close then codes "close" else codes "keep-alive") ++ crlf)

abbrev pub body_part : Text → Text
body_part body =
    if is_nil body
    then crlf
    else codes "content-length: " ++ (decimal (length body) ++ (crlf ++ (crlf ++ body)))

abbrev pub marked : ℕ → Text → Text
marked mark [] = []
marked mark (c ∷ s) = mark ∷ c ∷ s

pub dump_request : HttpRequest → Text
dump_request r =
    http_method_to_string r.method
    ++ (b' '
        ∷ (r.path
            ++ (marked b'?' r.query
                ++ (marked b'#' r.fragment
                    ++ (codes " HTTP/"
                        ++ (version_text r.version
                            ++ (crlf
                                ++ (connection_line r.websocket r.close
                                    ++ (dump_headers r.websocket r.headers
                                        ++ body_part r.body)))))))))

pub dump_cookies : List Text → Text
dump_cookies [] = []
dump_cookies (c ∷ cs) = codes "Set-Cookie: " ++ (c ++ (crlf ++ dump_cookies cs))

pub dump_response : HttpResponse → Text
unfolding dump_cookies
dump_response r =
    codes "HTTP/"
    ++ (version_text r.version
        ++ (b' '
            ∷ (decimal r.status
                ++ (b' '
                    ∷ ((if is_nil r.reason then http_status_to_string r.status else r.reason)
                        ++ (crlf
                            ++ (dump_headers r.websocket r.headers
                                ++ (dump_cookies r.cookies
                                    ++ (connection_line r.websocket r.close
                                        ++ body_part r.body)))))))))

unfoldable pub response_set_header : Text → Text → HttpResponse → HttpResponse
response_set_header key val r = record r { headers = set_value key val r.headers }

pub set_redirect : Text → HttpResponse → HttpResponse
unfolding response_set_header
set_redirect uri r = response_set_header (codes "Location") uri (record r { status = 302 })

-- `expired` has no effect.
pub response_set_cookie : Text → Text → Text → Text → Bool → HttpResponse → HttpResponse
response_set_cookie key val path domain secure r =
    let cookie =
      key
      ++ (b'='
          ∷ (val
              ++ ((if is_nil domain then [] else codes ";domain=" ++ domain)
                  ++ ((if is_nil path then [] else codes ";path=" ++ path)
                      ++ (if secure then codes ";secure" else []))))) in
    record r { cookies = r.cookies ++ (cookie ∷ []) }
