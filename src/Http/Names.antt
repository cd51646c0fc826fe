-- ===== src/Http/Names.antt =====
-- HTTP_METHOD_MAP and HTTP_STATUS_MAP of sylar/http/http.h, and the conversions of sylar/http/http.cpp.
-- A method is its number in the map: the enumeration numbers its names from 0 on, in their order.
use sylar_leo.Base.{
  ℕ, zero, suc, ◌+◌, ◌<◌, ◌≡◌, refl, ◌∙◌, Bool, none, some, List, [], ◌∷◌, ◌++◌, arith, ◌==◌,
  if◌then◌else◌, get_elem?, length,
}
use sylar_leo.Base.Text.{Text, codes, text_eq, has_prefix}

abbrev pub method_names : List Text
method_names =
    codes "DELETE"
    ∷ codes "GET"
    ∷ codes "HEAD"
    ∷ codes "POST"
    ∷ codes "PUT"
    ∷ codes "CONNECT"
    ∷ codes "OPTIONS"
    ∷ codes "TRACE"
    ∷ codes "COPY"
    ∷ codes "LOCK"
    ∷ codes "MKCOL"
    ∷ codes "MOVE"
    ∷ codes "PROPFIND"
    ∷ codes "PROPPATCH"
    ∷ codes "SEARCH"
    ∷ codes "UNLOCK"
    ∷ codes "BIND"
    ∷ codes "REBIND"
    ∷ codes "UNBIND"
    ∷ codes "ACL"
    ∷ codes "REPORT"
    ∷ codes "MKACTIVITY"
    ∷ codes "CHECKOUT"
    ∷ codes "MERGE"
    ∷ codes "M-SEARCH"
    ∷ codes "NOTIFY"
    ∷ codes "SUBSCRIBE"
    ∷ codes "UNSUBSCRIBE"
    ∷ codes "PATCH"
    ∷ codes "PURGE"
    ∷ codes "MKCALENDAR"
    ∷ codes "LINK"
    ∷ codes "UNLINK"
    ∷ codes "SOURCE"
    ∷ []

abbrev pub invalid_method : ℕ
invalid_method = 34

-- The number of the first name that passes the test, counted from `i`.
abbrev pub first_name : (Text → Bool) → ℕ → List Text → ℕ
first_name test i [] = invalid_method
first_name test i (n ∷ ns) = let rest = first_name test (i + 1) ns in if test n then i else rest

pub string_to_http_method : Text → ℕ
string_to_http_method m = first_name (λ name. text_eq name m) 0 method_names

-- `strncmp(#string, m, strlen(#string)) == 0`.
pub chars_to_http_method : Text → ℕ
chars_to_http_method m = first_name (λ name. has_prefix name m) 0 method_names

pub http_method_to_string : ℕ → Text
http_method_to_string m = elim (get_elem? method_names m) [
  | none ↦ codes "<unknown>"
  | some name ↦ name
]

abbrev pub statuses : List (ℕ × Text)
statuses =
    (100, codes "Continue")
    ∷ (101, codes "Switching Protocols")
    ∷ (102, codes "Processing")
    ∷ (200, codes "OK")
    ∷ (201, codes "Created")
    ∷ (202, codes "Accepted")
    ∷ (203, codes "Non-Authoritative Information")
    ∷ (204, codes "No Content")
    ∷ (205, codes "Reset Content")
    ∷ (206, codes "Partial Content")
    ∷ (207, codes "Multi-Status")
    ∷ (208, codes "Already Reported")
    ∷ (226, codes "IM Used")
    ∷ (300, codes "Multiple Choices")
    ∷ (301, codes "Moved Permanently")
    ∷ (302, codes "Found")
    ∷ (303, codes "See Other")
    ∷ (304, codes "Not Modified")
    ∷ (305, codes "Use Proxy")
    ∷ (307, codes "Temporary Redirect")
    ∷ (308, codes "Permanent Redirect")
    ∷ (400, codes "Bad Request")
    ∷ (401, codes "Unauthorized")
    ∷ (402, codes "Payment Required")
    ∷ (403, codes "Forbidden")
    ∷ (404, codes "Not Found")
    ∷ (405, codes "Method Not Allowed")
    ∷ (406, codes "Not Acceptable")
    ∷ (407, codes "Proxy Authentication Required")
    ∷ (408, codes "Request Timeout")
    ∷ (409, codes "Conflict")
    ∷ (410, codes "Gone")
    ∷ (411, codes "Length Required")
    ∷ (412, codes "Precondition Failed")
    ∷ (413, codes "Payload Too Large")
    ∷ (414, codes "URI Too Long")
    ∷ (415, codes "Unsupported Media Type")
    ∷ (416, codes "Range Not Satisfiable")
    ∷ (417, codes "Expectation Failed")
    ∷ (421, codes "Misdirected Request")
    ∷ (422, codes "Unprocessable Entity")
    ∷ (423, codes "Locked")
    ∷ (424, codes "Failed Dependency")
    ∷ (426, codes "Upgrade Required")
    ∷ (428, codes "Precondition Required")
    ∷ (429, codes "Too Many Requests")
    ∷ (431, codes "Request Header Fields Too Large")
    ∷ (451, codes "Unavailable For Legal Reasons")
    ∷ (500, codes "Internal Server Error")
    ∷ (501, codes "Not Implemented")
    ∷ (502, codes "Bad Gateway")
    ∷ (503, codes "Service Unavailable")
    ∷ (504, codes "Gateway Timeout")
    ∷ (505, codes "HTTP Version Not Supported")
    ∷ (506, codes "Variant Also Negotiates")
    ∷ (507, codes "Insufficient Storage")
    ∷ (508, codes "Loop Detected")
    ∷ (510, codes "Not Extended")
    ∷ (511, codes "Network Authentication Required")
    ∷ []

abbrev pub status_name : ℕ → List (ℕ × Text) → Text
status_name s [] = codes "<unknown>"
status_name s ((code, msg) ∷ rest) =
    let later = status_name s rest in if code == s then msg else later

pub http_status_to_string : ℕ → Text
http_status_to_string s = status_name s statuses

-- Each name of a list is read as its number, whatever follows it.
abbrev Recognised : ℕ → List Text → Type 0
Recognised i [] = Unit {0}
Recognised i (n ∷ ns) =
    (((rest : Text) → chars_to_http_method (n ++ rest) ≡ i) × (string_to_http_method n ≡ i))
    × Recognised (i + 1) ns

all-Recognised : Recognised 0 method_names
unfolding chars_to_http_method string_to_http_method
all-Recognised = (
  ((λ rest. refl), refl),
  (
    ((λ rest. refl), refl),
    (
      ((λ rest. refl), refl),
      (
        ((λ rest. refl), refl),
        (
          ((λ rest. refl), refl),
          (
            ((λ rest. refl), refl),
            (
              ((λ rest. refl), refl),
              (
                ((λ rest. refl), refl),
                (
                  ((λ rest. refl), refl),
                  (
                    ((λ rest. refl), refl),
                    (
                      ((λ rest. refl), refl),
                      (
                        ((λ rest. refl), refl),
                        (
                          ((λ rest. refl), refl),
                          (
                            ((λ rest. refl), refl),
                            (
                              ((λ rest. refl), refl),
                              (
                                ((λ rest. refl), refl),
                                (
                                  ((λ rest. refl), refl),
                                  (
                                    ((λ rest. refl), refl),
                                    (
                                      ((λ rest. refl), refl),
                                      (
                                        ((λ rest. refl), refl),
                                        (
                                          ((λ rest. refl), refl),
                                          (
                                            ((λ rest. refl), refl),
                                            (
                                              ((λ rest. refl), refl),
                                              (
                                                ((λ rest. refl), refl),
                                                (
                                                  ((λ rest. refl), refl),
                                                  (
                                                    ((λ rest. refl), refl),
                                                    (
                                                      ((λ rest. refl), refl),
                                                      (
                                                        ((λ rest. refl), refl),
                                                        (
                                                          ((λ rest. refl), refl),
                                                          (
                                                            ((λ rest. refl), refl),
                                                            (
                                                            ((λ rest. refl), refl),
                                                            (
                                                            ((λ rest. refl), refl),
                                                            (
                                                            ((λ rest. refl), refl),
                                                            (((λ rest. refl), refl), tt),
                                                            ),
                                                            ),
                                                            ),
                                                          ),
                                                        ),
                                                      ),
                                                    ),
                                                  ),
                                                ),
                                              ),
                                            ),
                                          ),
                                        ),
                                      ),
                                    ),
                                  ),
                                ),
                              ),
                            ),
                          ),
                        ),
                      ),
                    ),
                  ),
                ),
              ),
            ),
          ),
        ),
      ),
    ),
  ),
)

Recognised-at :
    (i m : ℕ) (ns : List Text) (name rest : Text)
    → Recognised i ns
    → get_elem? ns m ≡ some name
    → (chars_to_http_method (name ++ rest) ≡ i + m) × (string_to_http_method name ≡ i + m)
Recognised-at i m [] name rest h e = cc
Recognised-at i zero (n ∷ ns) name rest h e =
    let same : n ≡ name = cc in rw (← same) (h.0.0 rest ∙ omega arith, h.0.1 ∙ omega arith)
Recognised-at i (suc m) (n ∷ ns) name rest h e =
    let (p, q) = Recognised-at (i + 1) m ns name rest h.1 e in (p ∙ omega arith, q ∙ omega arith)

named : (m : ℕ) (ns : List Text) → m < length ns → (name : Text) × (get_elem? ns m ≡ some name)
named m [] h = absurd (omega arith)
named zero (n ∷ ns) h = (n, refl)
named (suc m) (n ∷ ns) h = named m ns (omega arith)

-- The name of each of the 34 methods is read back as that method, as a whole text and at the front of
-- any text.
pub http_method_read :
    (m : ℕ) (rest : Text)
    → m < 34
    → (string_to_http_method (http_method_to_string m) ≡ m)
      × (chars_to_http_method (http_method_to_string m ++ rest) ≡ m)
unfolding http_method_to_string
http_method_read m rest h =
    let (name, e) = named m method_names h in
    let (p, q) = Recognised-at 0 m method_names name rest all-Recognised e in
    rw (http_method_to_string, e) (q ∙ omega arith, p ∙ omega arith)
