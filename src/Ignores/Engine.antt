-- ===== src/Ignores/Engine.antt =====
-- What the resolver takes from the JavaScript engine. A call that throws is `none`.
use nafir.Base.{Bool, Option, Text}

pub record Engine : Type 0 where
  -- `toLowerCase`
  pub lower : Text → Text
  -- `decodeURIComponent`
  pub decode_uri : Text → Option Text
  -- `new RegExp(source)`, as its `test`
  pub regexp : Text → Option (Text → Bool)
