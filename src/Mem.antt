-- ===== src/Mem.antt =====
-- src/util/mem.c: growing buffers (`Buf`) and path strings (`Paths`). `mem_alloc` and `mem_realloc`
-- end the process when memory runs out, so here they give what is asked for.
pub mod Buf
pub mod Paths
