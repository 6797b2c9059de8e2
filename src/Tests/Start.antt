-- ===== src/Tests/Start.antt =====
-- The start of the kernel on the concrete environment.
use pand_os.Prelude.{ℕ, ◌≡◌, refl, ◌<◌, ◌+◌, ◌*◌, arith, inl}
use pand_os.Mem.{Mem}
use pand_os.Fields.{n_link}
use pand_os.Outcome.{Exits}
use pand_os.Pcb.{max_proc}
use pand_os.Boot.{main}
use pand_os.Invariant.{place}
use pand_os.Kernel.Steps.{InOrder, Reach}
use pand_os.Kernel.Start.{IsSpread}
use pand_os.Kernel.Start.Arrays.{NamespacesApart}
use pand_os.Kernel.Start.Memory.{IsBlank}
use pand_os.Kernel.Start.First.{Launched}
use pand_os.Kernel.Start.Main.{IsLinked, main-Launched, main-Reach}
use pand_os.Instance.{env, laws}
use pand_os.Tests.States.{blank}
use pand_os.Tests.Order.{layout}

spread : IsSpread env
spread = record {
  heads = layout;
  pcbs_mapped = omega arith;
  semds_mapped = omega arith;
  arrays = inl (omega arith);
  ready_pcbs = inl (omega arith);
  pool_pcbs = inl (omega arith);
  semds_pcbs = inl (omega arith);
  ready_semds = inl (omega arith);
  pool_semds = inl (omega arith);
  semds_semds = inl (omega arith);
}

node-place : (j : ℕ) → j < max_proc → place env (n_link (8000 + 12 * j)) ≡ 0
unfolding place
node-place j lt = ground arith

apart : NamespacesApart env laws spread
unfolding place
apart = record {
  free_place = refl;
  list_place = refl;
  node_place = node-place;
  free_mapped = omega arith;
  list_mapped = omega arith;
  heads = omega arith;
  nodes = λ j lt. omega arith;
}

linked : IsLinked env laws spread
linked = record {
  namespaces = apart;
  ready_mapped = omega arith;
  pool_mapped = omega arith;
  semds_mapped = omega arith;
  sems_mapped = omega arith;
  clock_mapped = omega arith;
}

zeroes : IsBlank env blank
zeroes = record { no_queue = refl; no_waits = λ a. refl }

main-Launched_example : Exits (Launched env 1408) (main env blank)
main-Launched_example = main-Launched env laws spread linked blank zeroes

main-Reach_example :
    Exits (λ _ m'. (m'' : Mem) → Reach env 600 m' m'' → InOrder env m'') (main env blank)
main-Reach_example = main-Reach env laws spread linked blank zeroes 600 (omega arith)
