-- ===== src/Middleware/Http.antt =====
-- net/http, as far as the middleware uses it: requests with their headers, and the response that a
-- handler writes. A header name has one spelling; a header may have several values.
use platform_kit.Common.{ℕ, Option, none, some, List, [], ◌∷◌, ◌++◌, Str, Dict, lookup, insert}

pub record Request : Type 0 where
  pub method : Str
  pub headers : Dict Str
  pub remote_addr : Str

-- Header.Get: empty where the header is missing.
abbrev pub or_empty : Option Str → Str
or_empty none = []
or_empty (some v) = v

unfoldable pub get : Str → Dict Str → Str
unfolding lookup
get name headers = or_empty (lookup name headers)

-- A response with its status and headers; the detail stands for the problem document in the body.
pub record Response : Type 0 where
  pub status : ℕ
  pub headers : Dict (List Str)
  pub detail : Str

abbrev pub values : Option (List Str) → List Str
values none = []
values (some vs) = vs

-- Header.Set
unfoldable pub set : Str → Str → Dict (List Str) → Dict (List Str)
unfolding insert
set name v h = insert name (v ∷ []) h

-- Header.Add
unfoldable pub add : Str → Str → Dict (List Str) → Dict (List Str)
unfolding insert lookup
add name v h = insert name (values (lookup name h) ++ v ∷ []) h
