-- ===== src/Tui.antt =====
-- internal/tui, less its rendering: Form is form.go, and the other files are the model of app.go, its
-- rows, its requests and its Update. The terminal library bubbletea delivers the messages.
mod Examples
pub mod Form
pub mod State
pub mod Rows
pub mod Requests
pub mod Actions
pub mod Update
pub mod Focus
pub mod Steady
pub mod Safety
pub mod Confirmed
pub mod Raised
