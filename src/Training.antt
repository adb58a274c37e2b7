-- ===== src/Training.antt =====
-- training: the callbacks of a training job, which report to the sidecar over
-- files mapped into memory, the simulator, and the client for notebooks.
pub mod Struct
pub mod Callback
pub mod Diloco
pub mod Simulate
pub mod Colab
