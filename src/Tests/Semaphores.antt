-- ===== src/Tests/Semaphores.antt =====
-- The active semaphores at the memory `busy`.
use pand_os.Prelude.{◌≡◌, [], ◌∷◌}
use pand_os.Mem.{ok}
use pand_os.Instance.{env, laws}
use pand_os.Ash.{find_semd, remove_blocked, out_blocked}
use pand_os.Ash.Find.{find_semd-semd_at}
use pand_os.Ash.Wake.{remove_blocked-out}
use pand_os.Tests.States.{busy, busy-IsKeyed, busy-IsWaiting}

find_semd-semd_at_example : find_semd env 9000 busy ≡ ok 7000 busy
find_semd-semd_at_example = find_semd-semd_at env laws 9000 busy busy-IsKeyed

remove_blocked-out_example : remove_blocked env 9000 busy ≡ out_blocked env 2576 busy
remove_blocked-out_example =
    remove_blocked-out env laws busy 9000 7000 2576 [] (7048 ∷ []) busy-IsWaiting
