-- ===== src/Hooks.antt =====
-- `hookManger` of internal/debugger/hook.go, with the values of emulator/hook.go and
-- debugger/hook.go. Locks and channels are left out: a call is one step.
pub mod Controls
pub mod Dispatch
mod Tests
