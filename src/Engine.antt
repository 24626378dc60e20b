-- ===== src/Engine.antt =====
-- npu-gpu-cpu/npu-infer/src/npu_engine_i8.cpp: the inference engine. A `float` that is only converted is
-- its 32-bit pattern; where the engine calculates with floats, they and their operations are a
-- parameter.
pub mod Floats
pub mod Bf16
pub mod AttnK
pub mod CpuAttn
pub mod I8Ctx
pub mod Fuse
pub mod Sample
pub mod MapSum
pub mod Vector
pub mod Softmax
pub mod Heads
pub mod Rotary
pub mod Load
pub mod Setup
pub mod Layer
pub mod Decode
pub mod Json
mod TestData
mod Examples
