-- ===== src/Memory.antt =====
-- Physical and virtual memory: src/memory/.
pub mod Memblock
pub mod Page
pub mod Heap
pub mod E820
pub mod Vma
pub mod Mmu
