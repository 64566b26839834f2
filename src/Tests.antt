-- ===== src/Tests.antt =====
-- The theorems at concrete inputs, and the definitions evaluated.
mod Core
mod Values
mod Markdown
mod Toml
mod Localfs
mod Git
mod Apply
mod Objects
mod Reading
mod Writing
mod Store
mod ReadBack
mod Json
mod Yaml
mod Live
mod Codecs
