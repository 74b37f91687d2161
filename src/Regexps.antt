-- ===== src/Regexps.antt =====
-- Packages regexp and path, of which the router and the rewriter use what stands here. The program
-- only calls them, so they are a parameter of the model.
use vweb.Common.{Bool, Option, Bytes}

pub record Regexps : Type 1 where
  pub Regex : Type 0
  -- regexp.Compile; `none` is an error
  pub compile : Bytes → Option Regex
  -- LiteralPrefix
  pub literal_prefix : Regex → Bytes × Bool
  -- the regular expression after Longest
  pub longest : Regex → Regex
  pub match_string : Regex → Bytes → Bool
  pub replace_all_string : Regex → Bytes → Bytes → Bytes
  -- `matched` of path.Match(pattern, name)
  pub path_match : Bytes → Bytes → Bool
