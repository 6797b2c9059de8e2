-- ===== src/Tests/Spawn.antt =====
-- createProcess at the kernel of Tests.Family, which then has a list of namespaces, too.
use pand_os.Prelude.{◌≢◌, refl, inr, [], ◌∷◌, arith}
use pand_os.Mem.{Addr, Mem}
use pand_os.Outcome.{Returns}
use pand_os.Links.Rings.{Ring}
use pand_os.Processes.Naming.{IsNamespace}
use pand_os.Processes.{create_process}
use pand_os.Invariant.{place}
use pand_os.Kernel.Family.{SameAt}
use pand_os.Kernel.Family.Fresh.{with_pool}
use pand_os.Kernel.Family.Foreign.{IsForeign, Tidy, foreign-Tidy}
use pand_os.Kernel.Family.Create.{Spawned}
use pand_os.Kernel.Family.Spawn.{create_process-Spawned}
use pand_os.Instance.{env, laws}
use pand_os.Tests.States.{chain}
use pand_os.Tests.Order.{ordered_lists, layout}
use pand_os.Tests.Family.{rooted, below, rooted-Models, below-IsProgeny, rooted-IsLoose}

-- The kernel with a list of namespaces, which is empty.
abbrev settled : Mem
settled = record rooted { links = chain 1032 1032 [] rooted.links }

settled-same : (x : Addr) → place env x ≢ 0 → SameAt rooted settled x
unfolding place
settled-same x nz = ground (arith, nz)

settled-Tidy : Tidy env settled ordered_lists 2000 below
settled-Tidy =
    foreign-Tidy env layout rooted settled ordered_lists 2000 below settled-same
      (refl, refl, refl, refl) (rooted-Models, below-IsProgeny, rooted-IsLoose)

spaces-Ring : Ring settled.next settled.prev 1032 []
spaces-Ring = record { links = omega arith; apart = (refl, tt); mapped = refl }

settled-IsNamespace : IsNamespace env settled 8000 []
settled-IsNamespace = record {
  mapped = omega arith;
  kind = refl;
  ring = spaces-Ring;
  apart = omega arith;
  movable = inr (refl, (refl, refl));
}

settled-IsForeign : IsForeign env 8000 []
unfolding place
settled-IsForeign x i = ground (arith, i)

create_process-Spawned_example :
    Returns
      (Spawned env settled (with_pool (2960 ∷ []) ordered_lists) 2768 below 600 700 8000)
      (create_process env 600 700 8000 settled)
create_process-Spawned_example =
    create_process-Spawned env laws layout settled ordered_lists settled-Tidy.0 600 700 8000 2768
      (2960 ∷ []) refl below settled-Tidy.2 settled-Tidy.1 [] (omega arith) (omega arith)
      (omega arith) settled-IsForeign settled-IsNamespace
