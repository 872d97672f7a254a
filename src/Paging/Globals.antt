-- ===== src/Paging/Globals.antt =====
-- The globals of hexahedron/arch/i386/mem.c that stand beside the tables.
use hexahedron.Base.{ℕ, Bool}
use hexahedron.Paging.{Vmm}
use hexahedron.Paging.Walk.{HasRoom, IsValid}

-- The globals beside the tables do not matter to them.
module _ (s : Vmm) (heap mmio driver dma : ℕ) (h m v d : Bool) where
  abbrev elsewhere : Vmm
  elsewhere = record s {
    kernel_heap = heap;
    mmio_region = mmio;
    driver_region = driver;
    dma_region = dma;
    heap_lock = h;
    mmio_lock = m;
    driver_lock = v;
    dma_lock = d;
  }

  pub elsewhere-IsValid : {dir : ℕ} → IsValid dir s → IsValid dir elsewhere
  elsewhere-IsValid w = record {
    pmm = w.pmm;
    cached = w.cached;
    directory_taken = w.directory_taken;
    tables = λ i l p.
        let t = w.tables i l p in
        record { in_use = t.in_use; in_cache = t.in_cache; other = t.other };
    apart = w.apart;
  }

  pub elsewhere-HasRoom : {n : ℕ} → HasRoom n s → HasRoom n elsewhere
  elsewhere-HasRoom room = record {
    bound = room.bound;
    searched = room.searched;
    in_cache = room.in_cache;
    counted = room.counted;
  }
