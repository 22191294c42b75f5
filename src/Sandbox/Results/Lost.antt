-- ===== src/Sandbox/Results/Lost.antt =====
-- What the executor reads of the results: nothing.
use nexustal.Sandbox.Script.{Engine}
use nexustal.Sandbox.{Sandbox}
use nexustal.Sandbox.Results.{Arrays}
use nexustal.Domain.Json.{Json}
use nexustal.Common.{◌≡◌, true, false, some, [], lit}

module _ {V M : Type 0} {engine : Engine V M} (arrays : Arrays engine) where
  -- The global array of results is empty, and not the one that `nt.test` pushes to.
  Fresh : M → Type 0
  Fresh m =
      (arrays.elements (engine.get_global (lit "__nt_tests") m) m ≡ some [])
      × (arrays.same (engine.get_global (lit "__nt_tests") m)
            (arrays.captured (engine.get_global (lit "nt") m))
          ≡ false)
      × (arrays.is_truthy (engine.get_global (lit "__nt_tests") m) ≡ true)
