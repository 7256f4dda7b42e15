-- ===== src/Url.antt =====
-- URLs of package net/url, as a parameter: the code only reads the parts below, and `url.Parse` and
-- `url.ParseRequestURI` are arguments of the definitions that call them.
use airpc.Prelude.{Bool, Option, Text}

pub record Url : Type 0 where
  pub scheme : Text
  pub host : Text
  pub has_user : Bool
  pub path : Text
  pub raw_query : Text

-- `url.Parse` or `url.ParseRequestURI`; `none` is an error.
abbrev pub UrlParser : Type 0
UrlParser = Text → Option Url
