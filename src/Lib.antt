-- ===== src/Lib.antt =====
-- A model of npu-gpu-cpu, which makes the AMD XDNA 2 NPU visible beside the GPU, with the theorems
-- about it. The program has five parts:
--   * patches/: an IP block for the amdgpu kernel driver that finds the NPU's PCI function, loads its
--     firmware and has a command ring in the NPU's mailbox memory and a manager of pinned GTT buffers;
--   * rocm-npu/: a shim in front of the HIP library that lists the NPU as the device behind the last
--     GPU and allocates its buffers through libdrm, and the packet formats of the NPU's firmware;
--   * npu-gpu-cpu/npu-infer/: an inference engine that quantises weights, stages operands for the NPU
--     kernels and has attention on the CPU;
--   * daemon/: a control plane that routes chat requests to the NPU or the GPU by the size of the model;
--   * tests/: programs that pack matrices into 8×8 tiles for the NPU and check the product, test the
--     devices and the buffers they share, and list the devices.
--
-- The files, and what they model:
--   * Prelude: Boolean tests, integers over the native numbers, lists, texts, row-major indices, arrays as
--     functions and the counting loop `for_to` with its lemmas, which all nested `for` loops below are
--     written with; Checked has loops that stop at an access outside of a vector.
--   * Hip/Device: rocm-npu/hip_npu.cpp. `hip_get_device_count`, `hip_get_device_properties`;
--     Device/Program is tests/hip_list_devices.cpp run with them.
--   * Hip/Memory: rocm-npu/hip_npu_memory.cpp. `hip_malloc` … `hip_memcpy_dtoh` are hipMalloc …
--     hipMemcpyDtoH; `Shim` holds g_amdgpu_dev, g_buffers and g_npu_available. The calls that leave the
--     source (lock, open, close, ioctl, amdgpu_bo_*, the real HIP) are appended to a log, and their
--     answers are the argument `Replies`.
--     Memory/Contract is what the shim promises, as a state without buffers, descriptors and locks;
--     Memory/Refine has the shim's calls in the form of that interface. Memory/Abstract is the quotient of
--     the shim's states in which g_buffers is known by its look-ups alone.
--   * Hip/Threads: the same file, called by several threads. `Pc` is where a thread stands in a call, and
--     `step` takes it to the next access to a global or the next call that leaves the source. `Reach` in
--     Threads/Orders has every order of the steps of n threads; libdrm maps no buffer where a mapping
--     stands.
--   * Aql: rocm-npu/npu_aql.h. The opcodes and the structs, and the header as its 32-bit words.
--   * Driver/Block: patches/amdgpu_npu.c. The hooks and the two ioctls, with a log of what is taken
--     from the kernel and given back; Block/Path is the firmware path that snprintf writes, and
--     Block/Descriptor is the PCI look-up, amdgpu_npu_ip_funcs and npu_ip_block, with the driver's use
--     of them in Descriptor/Life.
--   * Driver/Ring: patches/amdgpu_npu_sched.c. The log has the writes to device memory.
--   * Driver/Manager: patches/amdgpu_npu_mgr.c.
--   * Engine: npu-gpu-cpu/npu-infer/src/npu_engine_i8.cpp. Floats is the interface of the calculations
--     with `float` and `double`. Bf16 (f2bf, bf16f, bf16g), AttnK (AttnK::run), CpuAttn (AttnK::cpu_attn
--     and its calls in `layer`; CpuAttn/Reference is attention by its definition), I8Ctx (I8Ctx::packB,
--     go), Fuse (the joined weights in `main`), Vector (cn, rn_c, ra), Softmax (sm), Rotary (ri), Heads
--     (the loop over the heads in `layer`), Layer (`layer`), Sample (the choice of a token in `main`),
--     Decode (the two loops of `main`), Json (jo), Setup (I8Ctx::init, AttnK::init), Load (from the model
--     file to what `layer` uses), Load/Main (`main`). The modules named Checked have the same code with
--     every access to a vector, a cache, a buffer of the NPU or the table of the embeddings checked
--     against its size, from CpuAttn, Vector, I8Ctx (packB in I8Ctx/Bound), Fuse, Rotary, Heads and
--     Sample over Layer to Decode and Load, and Load/Inside puts them together for `main`.
--   * Gemm: tests/test_prepacked_gemm.cpp (the packing there is that of tests/test_direct_npu_gemm.cpp
--     too). pack_A_bf16, pack_B_bf16_colmaj, unpack_C_f32, cpu_gemm; Gemm/Verify is the comparison in
--     `main`.
--   * Daemon: daemon/npu-gpu-cpud.py. estimate_model_size, select_device, and do_POST with the call of
--     `chat`; Daemon/Backends has the processes (`start`, `stop`, `shutdown`, `main`) and do_GET.
--   * DmaBuf: tests/test_gtt_dmabuf.cpp (amdgpu_alloc_gtt, amdxdna_import_dmabuf, main; ZeroCopy is
--     test_zero_copy), in DmaBuf/Gtt gtt_alloc and gtt_free of tests/test_prepacked_gemm.cpp and, in
--     Gtt/Direct, of tests/test_direct_npu_gemm.cpp, and in DmaBuf/NpuDev tests/test_npu_dev.cpp.
--
-- Conventions. A pointer or handle is a number, and none for a call that fails. A w-bit number is a
-- natural number with its wrap-around written out. `float` and `double` are parameters without any
-- law, except where only their bits matter. A vector that a loop fills from end to end is a new array,
-- made of the parameter `blank`. Of the model file the sizes are taken for granted: NV rows in the table
-- of the embeddings, and r * 1024 elements in a matrix of r rows. Two loops are not
-- bounded by a counter. The one in amdgpu_npu_ring_wait is a recursion on fuel: one unit is spent in
-- each round, and as many rounds as the wait makes, and one more, are enough. The one in `jo` has fuel
-- for one round more than the header has bytes, which is enough since each round goes on at a later
-- byte. The steps of a single thread are counted by fuel in Threads/Alone, where 16 are more than a
-- call takes.
--
-- Not modelled: amdgpu, libdrm, XRT, the real HIP, dequant_i8_to_float and the NPU kernels, which are
-- not in the repository and are parameters where the code rests on them; of the engine the making of
-- the XRT objects in I8Ctx::init and AttnK::init and the exceptions of XRT, and the printing and
-- timing of `main`; the test programs that are sequences of XRT calls or measure times (test_xrt_npu,
-- test_npu_gemm, bench_gtt_dmabuf, the `main`s of the GEMM tests but for the comparison); of the
-- daemon the HTTP server, the parsing of the arguments and signals before their handlers are set; the
-- other Python scripts, the build files and what they generate, and the patches to other projects.
pub mod Prelude
pub mod Engine
pub mod Gemm
pub mod Hip
pub mod Aql
pub mod Driver
pub mod DmaBuf
pub mod Daemon
