-- ===== src/Js.antt =====
-- What the language and its platform give the frontend: dynamic values (`unknown`,
-- `Record<string, unknown>`) and the Base64 functions `btoa` and `atob`.
pub mod Value
pub mod Base64
pub mod Params
