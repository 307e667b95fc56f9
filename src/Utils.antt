-- ===== src/Utils.antt =====
-- src/dftp/utils: sorting through a comparison function, and the trace of a panic.
pub mod Sort
pub mod Traceback
