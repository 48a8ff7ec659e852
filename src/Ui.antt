-- ===== src/Ui.antt =====
-- internal/ui/ui.go: what the web pages show, and the links that they hold. Templates are not
-- modelled.
pub mod Pages
pub mod Times
pub mod Query
pub mod Sort
pub mod Listing
pub mod Data
pub mod Attrs
pub mod Yaml
mod Tests
