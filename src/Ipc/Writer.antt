-- ===== src/Ipc/Writer.antt =====
-- daemon/ipc/ipc_interface.cpp: class DecisionWriter.
use ai_optimized_kernel_and.Prelude.{ℕ, not, if◌then◌else◌, List, [], ◌∷◌}
use ai_optimized_kernel_and.Types.{Decision}
use ai_optimized_kernel_and.Ipc.Libbpf.{Libbpf, minus_one, is_negative}

pub record DecisionWriter : Type 0 where
  pub decision_map_fd : ℕ

-- the constructor, which opens the object of the scheduler
unfoldable pub create : Libbpf → DecisionWriter
create b =
    if not b.opens
    then record { decision_map_fd = minus_one }
    else if not b.loads
    then record { decision_map_fd = minus_one }
    else if not b.finds_map
    then record { decision_map_fd = minus_one }
    else record { decision_map_fd = b.map_fd }

-- connect, which returns 0
unfoldable pub connect : DecisionWriter → ℕ × DecisionWriter
connect w = (0, record w { decision_map_fd = 1 })

-- write_decision and write_decisions: the return code, and the decisions that reach the kernel's map
unfoldable pub write_decision : DecisionWriter → Decision → ℕ × List Decision
write_decision w d = (0, [])

unfoldable pub write_decisions : DecisionWriter → List Decision → ℕ × List Decision
write_decisions w ds = (0, [])

-- disconnect: the writer, and the descriptors that are closed
unfoldable pub disconnect : DecisionWriter → DecisionWriter × List ℕ
disconnect w =
    if not (is_negative w.decision_map_fd)
    then (record w { decision_map_fd = minus_one }, w.decision_map_fd ∷ [])
    else (w, [])
