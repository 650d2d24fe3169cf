-- ===== src/Ui.antt =====
-- firmware/core1/src/ui: the router of key events to the views.
pub mod Router
mod Tests
