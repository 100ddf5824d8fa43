-- ===== src/Url.antt =====
-- `net/url`, as far as the program looks at a parsed URL. The parser itself is not opened here: it
-- is a parameter of the definitions that call it, a function to a URL or an error's text.
use edge_guard.Base.{Result, ok, err, Error, opaque}
use edge_guard.Text.{Text}

pub record Url : Type 0 where
  pub scheme : Text
  pub host : Text
  -- what `String` gives back
  pub text : Text

abbrev pub ParseUrl : Type 0
ParseUrl = Text → Result Text Url

-- its error, among the errors of a package
abbrev pub parsed : {S : Type 0} → Result Text Url → Result (Error S) Url
parsed (ok u) = ok u
parsed (err message) = err (opaque message)
