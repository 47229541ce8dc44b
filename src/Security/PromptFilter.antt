-- ===== src/Security/PromptFilter.antt =====
-- security/promptfilter/filter.go: what a request's text is checked for. Runes are counted
-- as in UTF-8, but letters, spaces and control characters are those of ASCII. A number that the code tests by `<= 0` is 0 where it is negative. Regular expressions and
-- the built-in lists of them are parameters.
pub mod Config
pub mod Scan
pub mod Engine
pub mod Bounds
pub mod Blocking
