-- ===== src/Kernel/Service/Tests.antt =====
-- The theorem on the memory calls of kernel/service.c at one page of a process.
use fern_night.Prelude.{some, ◌≡◌, arith}
use fern_night.Kernel.Memory.{available}
use fern_night.Kernel.Service.{Process, kernel_service_memory_alloc, kernel_service_memory_release}
use fern_night.Kernel.Service.Release.{service_release-alloc}
use fern_night.Kernel.Memory.{reserve}
use fern_night.Kernel.Memory.Tests.{small_map, small_map-acquire}
use fern_night.Kernel.Page.Walk.Tests.{pml4, paged, paged-alloc}

abbrev task : Process
task = record { cr3 = pml4; memory_map = small_map; page = 0 }

abbrev larger_task : Process
larger_task = record { cr3 = pml4; memory_map = reserve small_map 1 1; page = 1 }

task-alloc : kernel_service_memory_alloc paged task 1 ≡ some (4096, paged, larger_task)
unfolding kernel_service_memory_alloc
task-alloc = simp (small_map-acquire, paged-alloc)

service_release-alloc_example :
    available ((kernel_service_memory_release paged larger_task 4096 1).1).memory_map 1
    ≡ available small_map 1
service_release-alloc_example =
    service_release-alloc paged paged paged task larger_task 1 4096 1 (omega arith) task-alloc
      (λ e. absurd (omega arith))
