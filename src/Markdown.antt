-- ===== src/Markdown.antt =====
-- markdown/: Markdown files with front matter, to and from core.Content.
pub mod Document
pub mod Scan
pub mod Codec
pub mod Toml
pub mod Parse
pub mod Serialize
pub mod Lines
pub mod Json
pub mod Yaml
pub mod Codecs
